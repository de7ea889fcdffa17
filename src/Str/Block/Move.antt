-- ===== src/Str/Block/Move.antt =====
-- lib/string.c: the moves of memmove, up and down, by bytes and by double words.
use jos_ece.Prelude.{
  ℕ, zero, suc, ◌+◌, ◌-◌, ◌*◌, ◌/◌, ◌%◌, ◌≤◌, ◌<◌, ◌≡◌, ◌∙◌, ◌⊎◌, ◌&&◌, refl, inl, inr, arith,
  dec_lt, ltb, ◌==◌, Bool-cases,
}
use jos_ece.Memory.{Memory, store, SameOutside}
use jos_ece.Str.Block.{
  move_word, movsb_up, movsl_up, movsb_down, movsl_down, move_up, move_down, memmove,
}

-- The `n` bytes from `d` on are those that stood at `s`, and nothing else has changed.
abbrev pub Moved : Memory → Memory → ℕ → ℕ → ℕ → Type 0
Moved m m' d s n = ((x y i : ℕ) → i < n → x ≡ d + i → y ≡ s + i → m' x ≡ m y) × SameOutside m m' d n

store-Moved : (m : Memory) (d s : ℕ) → Moved m (store m d (m s)) d s 1
store-Moved m d s =
    (λ x y i lt ex ey. let e : y ≡ s = omega arith in rw e (ground arith), λ x out. ground arith)

move_word-Moved : (m : Memory) (d s : ℕ) → Moved m (move_word m d s) d s 4
unfolding move_word
move_word-Moved m d s = (λ x y i lt ex ey. rw (ex, ey) (word i lt), λ x out. ground arith)
  where
    word : (i : ℕ) → i < 4 → move_word m d s (d + i) ≡ m (s + i)
    word zero lt =
        let e : d + 0 ≡ d = omega arith in
        let e' : s + 0 ≡ s = omega arith in rw (e, e') (ground arith)
    word (suc zero) lt = ground arith
    word (suc (suc zero)) lt = ground arith
    word (suc (suc (suc zero))) lt = ground arith
    word (suc (suc (suc (suc i)))) lt = absurd (omega arith)

-- A first piece of `w` bytes, then the `k` bytes behind it.
Moved-up :
    (m m1 m2 : Memory) (d s w k n : ℕ)
    → w + k ≡ n
    → (d ≤ s) ⊎ (s + n ≤ d)
    → Moved m m1 d s w
    → Moved m1 m2 (d + w) (s + w) k
    → Moved m m2 d s n
Moved-up m m1 m2 d s w k n e apart (f1, s1) (f2, s2) = (
  λ x y i lt ex ey. elim (dec_lt i w) [
    | yes below ↦ s2 x (omega arith) ∙ f1 x y i below ex ey
    | no above ↦ f2 x y (i - w) (omega arith) (omega arith) (omega arith) ∙ s1 y (omega arith)
  ],
  λ x out. s2 x (omega arith) ∙ s1 x (omega arith),
)

-- A last piece of `w` bytes, then the `k` bytes before it.
Moved-down :
    (m m1 m2 : Memory) (d s w k n d' s' : ℕ)
    → k + w ≡ n
    → s < d
    → d' ≡ d + k
    → s' ≡ s + k
    → Moved m m1 d' s' w
    → Moved m1 m2 d s k
    → Moved m m2 d s n
Moved-down m m1 m2 d s w k n d' s' e apart ed es (f1, s1) (f2, s2) = (
  λ x y i lt ex ey. elim (dec_lt i k) [
    | yes below ↦ f2 x y i below ex ey ∙ s1 y (omega arith)
    | no above ↦ s2 x (omega arith) ∙ f1 x y (i - k) (omega arith) (omega arith) (omega arith)
  ],
  λ x out. s2 x (omega arith) ∙ s1 x (omega arith),
)

movsb_up-Moved :
    (n : ℕ) (m : Memory) (d s : ℕ) → (d ≤ s) ⊎ (s + n ≤ d) → Moved m (movsb_up n m d s) d s n
unfolding movsb_up
movsb_up-Moved zero m d s apart = (λ x y i lt ex ey. elim lt [ ], λ x out. refl)
movsb_up-Moved (suc n) m d s apart =
    let m1 : Memory = store m d (m s) in
    Moved-up m m1 (movsb_up n m1 (d + 1) (s + 1)) d s 1 n (suc n) (omega arith) apart
      (store-Moved m d s) (movsb_up-Moved n m1 (d + 1) (s + 1) (omega arith))

movsl_up-Moved :
    (n : ℕ) (m : Memory) (d s k : ℕ)
    → n * 4 ≡ k
    → (d ≤ s) ⊎ (s + k ≤ d)
    → Moved m (movsl_up n m d s) d s k
unfolding movsl_up
movsl_up-Moved zero m d s k e apart = (λ x y i lt ex ey. absurd (omega arith), λ x out. refl)
movsl_up-Moved (suc n) m d s k e apart =
    let m1 : Memory = move_word m d s in
    Moved-up m m1 (movsl_up n m1 (d + 4) (s + 4)) d s 4 (n * 4) k (omega arith) apart
      (move_word-Moved m d s) (movsl_up-Moved n m1 (d + 4) (s + 4) (n * 4) refl (omega arith))

-- The registers point at the last byte still to move.
movsb_down-Moved :
    (n : ℕ) (m : Memory) (d s d' s' : ℕ)
    → s < d
    → (0 < n → d' + 1 ≡ d + n)
    → (0 < n → s' + 1 ≡ s + n)
    → Moved m (movsb_down n m d' s') d s n
unfolding movsb_down
movsb_down-Moved zero m d s d' s' lt ed es = (λ x y i lt ex ey. elim lt [ ], λ x out. refl)
movsb_down-Moved (suc n) m d s d' s' lt ed es =
    let m1 : Memory = store m d' (m s') in
    let ed1 : d' + 1 ≡ d + suc n = ed (omega arith) in
    let es1 : s' + 1 ≡ s + suc n = es (omega arith) in
    Moved-down m m1 (movsb_down n m1 (d' - 1) (s' - 1)) d s 1 n (suc n) d' s' (omega arith) lt
      (omega arith) (omega arith) (store-Moved m d' s')
      (movsb_down-Moved n m1 d s (d' - 1) (s' - 1) lt (λ p. omega arith) (λ p. omega arith))

-- The registers point at the last double word still to move.
movsl_down-Moved :
    (n : ℕ) (m : Memory) (d s d' s' k : ℕ)
    → n * 4 ≡ k
    → s < d
    → (0 < n → d' + 4 ≡ d + k)
    → (0 < n → s' + 4 ≡ s + k)
    → Moved m (movsl_down n m d' s') d s k
unfolding movsl_down
movsl_down-Moved zero m d s d' s' k e lt ed es =
    (λ x y i lt ex ey. absurd (omega arith), λ x out. refl)
movsl_down-Moved (suc n) m d s d' s' k e lt ed es =
    let m1 : Memory = move_word m d' s' in
    let ed1 : d' + 4 ≡ d + k = ed (omega arith) in
    let es1 : s' + 4 ≡ s + k = es (omega arith) in
    Moved-down m m1 (movsl_down n m1 (d' - 4) (s' - 4)) d s 4 (n * 4) k d' s' (omega arith) lt
      (omega arith) (omega arith) (move_word-Moved m d' s')
      (movsl_down-Moved n m1 d s (d' - 4) (s' - 4) (n * 4) refl lt (λ p. omega arith)
        (λ p. omega arith))

move_up-Moved : (m : Memory) (d s n : ℕ) → (d ≤ s) ⊎ (s + n ≤ d) → Moved m (move_up m d s n) d s n
unfolding move_up
move_up-Moved m d s n apart = elim (Bool-cases (s % 4 == 0 && d % 4 == 0 && n % 4 == 0)) [
  | inl words ↦ rw words (movsl_up-Moved (n / 4) m d s n (ground arith) apart)
  | inr bytes ↦ rw bytes (movsb_up-Moved n m d s apart)
]

move_down-Moved : (m : Memory) (d s n : ℕ) → s < d → Moved m (move_down m (d + n) (s + n) n) d s n
unfolding move_down
move_down-Moved m d s n lt =
    elim (Bool-cases ((s + n) % 4 == 0 && (d + n) % 4 == 0 && n % 4 == 0)) [
      | inl words ↦
          let even : n / 4 * 4 ≡ n = ground arith in
          rw words (
            movsl_down-Moved (n / 4) m d s (d + n - 4) (s + n - 4) n even lt (λ p. omega arith)
              (λ p. omega arith))
      | inr bytes ↦ rw bytes (
          movsb_down-Moved n m d s (d + n - 1) (s + n - 1) lt (λ p. omega arith) (λ p. omega arith))
    ]

-- For any two ranges, also overlapping ones, and on all four of its paths `memmove` returns `dst`,
-- leaves in the `n` bytes from `dst` on those that stood at `src` before the call, and changes
-- nothing else.
pub memmove-Moved :
    (m : Memory) (d s n : ℕ) → let (r, m') = memmove m d s n in (r ≡ d) × Moved m m' d s n
unfolding memmove
memmove-Moved m d s n = elim (Bool-cases (ltb s d && ltb d (s + n))) [
  | inl over ↦ rw over (refl, move_down-Moved m d s n (ground arith))
  | inr clear ↦ rw clear (refl, move_up-Moved m d s n (ground arith))
]
