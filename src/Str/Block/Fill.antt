-- ===== src/Str/Block/Fill.antt =====
-- lib/string.c: the stores of memset, by bytes and by double words.
use jos_ece.Prelude.{
  ℕ, zero, suc, ◌+◌, ◌*◌, ◌/◌, ◌%◌, ◌^◌, ◌≤◌, ◌<◌, ◌≡◌, ◌∙◌, ◌&&◌, refl, inl, inr, bit_and, arith,
  dec_lt, ◌==◌, Bool-cases,
}
use jos_ece.Prelude.Bits.{all_below, byte_table, bit_and-ones}
use jos_ece.Memory.{Memory, store, SameOutside}
use jos_ece.Str.Block.{store_word, stosb, stosl, spread, memset}

-- The `n` bytes from `d` on are `b`, and nothing else has changed.
abbrev pub Filled : Memory → Memory → ℕ → ℕ → ℕ → Type 0
Filled m m' d n b = ((x : ℕ) → d ≤ x → x < d + n → m' x ≡ b) × SameOutside m m' d n

-- Filling goes on behind what is filled.
Filled-append :
    (m m1 m2 : Memory) (d w k n b : ℕ)
    → w + k ≡ n
    → Filled m m1 d w b
    → Filled m1 m2 (d + w) k b
    → Filled m m2 d n b
Filled-append m m1 m2 d w k n b e (f1, s1) (f2, s2) = (
  λ x p q. elim (dec_lt x (d + w)) [
    | yes below ↦ s2 x (omega arith) ∙ f1 x p below
    | no above ↦ f2 x (omega arith) (omega arith)
  ],
  λ x out. s2 x (omega arith) ∙ s1 x (omega arith),
)

word_bytes :
    (c : ℕ)
    → c < 256
    → (spread c % 256 ≡ c)
      × (spread c / 2 ^ 8 % 256 ≡ c)
      × (spread c / 2 ^ 16 % 256 ≡ c)
      × (spread c / 2 ^ 24 % 256 ≡ c)
unfolding spread all_below
word_bytes c h = (
  byte_table (λ c. spread c % 256) (λ c. c) c refl h,
  byte_table (λ c. spread c / 2 ^ 8 % 256) (λ c. c) c refl h,
  byte_table (λ c. spread c / 2 ^ 16 % 256) (λ c. c) c refl h,
  byte_table (λ c. spread c / 2 ^ 24 % 256) (λ c. c) c refl h,
)

store-Filled : (m : Memory) (d b : ℕ) → Filled m (store m d b) d 1 b
store-Filled m d b = (λ x p q. ground arith, λ x out. ground arith)

store_word-Filled :
    (m : Memory) (d w b : ℕ)
    → w % 256 ≡ b
    → w / 2 ^ 8 % 256 ≡ b
    → w / 2 ^ 16 % 256 ≡ b
    → w / 2 ^ 24 % 256 ≡ b
    → Filled m (store_word m d w) d 4 b
unfolding store_word
store_word-Filled m d w b h0 h1 h2 h3 =
    rw (h0, h1, h2, h3) (λ x p q. ground arith, λ x out. ground arith)

stosb-Filled : (n : ℕ) (m : Memory) (d a : ℕ) → Filled m (stosb n m d a) d n (a % 256)
unfolding stosb
stosb-Filled zero m d a = (λ x p q. absurd (omega arith), λ x out. refl)
stosb-Filled (suc n) m d a =
    let m1 : Memory = store m d (a % 256) in
    Filled-append m m1 (stosb n m1 (d + 1) a) d 1 n (suc n) (a % 256) (omega arith)
      (store-Filled m d (a % 256)) (stosb-Filled n m1 (d + 1) a)

module _ (w b : ℕ) (h0 : w % 256 ≡ b) (h1 : w / 2 ^ 8 % 256 ≡ b) (h2 : w / 2 ^ 16 % 256 ≡ b)
    (h3 : w / 2 ^ 24 % 256 ≡ b) where
  stosl-Filled : (n : ℕ) (m : Memory) (d k : ℕ) → n * 4 ≡ k → Filled m (stosl n m d w) d k b
  unfolding stosl
  stosl-Filled zero m d k e = (λ x p q. absurd (omega arith), λ x out. refl)
  stosl-Filled (suc n) m d k e =
      let m1 : Memory = store_word m d w in
      Filled-append m m1 (stosl n m1 (d + 4) w) d 4 (n * 4) k b (omega arith)
        (store_word-Filled m d w b h0 h1 h2 h3) (stosl-Filled n m1 (d + 4) (n * 4) refl)

-- Whether it stores bytes or double words, `memset` sets exactly the `n` bytes from `v` on to `c`
-- taken as a byte, changes nothing else, and returns `v`.
pub memset-Filled :
    (m : Memory) (v c n : ℕ) → let (r, m') = memset m v c n in (r ≡ v) × Filled m m' v n (c % 256)
unfolding memset
memset-Filled m v c n = elim (Bool-cases (n == 0)) [
  | inl e ↦
      let z : n ≡ 0 = ground arith in rw e (refl, (λ x p q. absurd (omega arith), λ x out. refl))
  | inr e ↦ elim (Bool-cases (v % 4 == 0 && n % 4 == 0)) [
    | inl words ↦
        let (h0, h1, h2, h3) = word_bytes (c % 256) (omega arith) in
        let even : n / 4 * 4 ≡ n = ground arith in
        let byte : bit_and c 0xFF ≡ c % 256 = bit_and-ones 8 0xFF c refl in
        rw (e, words, byte)
          (refl, stosl-Filled (spread (c % 256)) (c % 256) h0 h1 h2 h3 (n / 4) m v n even)
    | inr bytes ↦ rw (e, bytes) (refl, stosb-Filled n m v c)
  ]
]
