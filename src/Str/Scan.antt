-- ===== src/Str/Scan.antt =====
-- lib/string.c: strlen, strnlen, strchr, strfind, memfind.
-- A loop that stops at a NUL takes fuel, and `none` means that the fuel ran out; a loop that
-- counts a size down recurs on it. An `int` or `size_t` counter is a word of 32 bits.
use jos_ece.Prelude.{
  ℕ, zero, suc, ◌+◌, ◌%◌, ◌^◌, ◌≤◌, ◌<◌, ◌≡◌, ◌≢◌, ap, ◌∙◌, inl, inr, List, [], ◌∷◌, length, Option,
  none, some, arith, ◌==◌, ==_iff, if◌then◌else◌, Bool-cases, ℕ_discrete,
}
use jos_ece.Memory.{Memory, StrAt}

strlen_loop : ℕ → Memory → ℕ → ℕ → Option ℕ
strlen_loop zero m s n = none
strlen_loop (suc f) m s n =
    let rest = strlen_loop f m (s + 1) ((n + 1) % 2 ^ 32) in if m s == 0 then some n else rest

unfoldable pub strlen : ℕ → Memory → ℕ → Option ℕ
unfolding strlen_loop
strlen f m s = strlen_loop f m s 0

strnlen_loop : ℕ → Memory → ℕ → ℕ → ℕ
strnlen_loop zero m s n = n
strnlen_loop (suc size) m s n =
    let rest = strnlen_loop size m (s + 1) ((n + 1) % 2 ^ 32) in if m s == 0 then n else rest

-- `size` counts down, so it is the recursion's argument.
unfoldable pub strnlen : Memory → ℕ → ℕ → ℕ
unfolding strnlen_loop
strnlen m s size = strnlen_loop size m s 0

-- The null pointer is 0.
unfoldable pub strchr : ℕ → Memory → ℕ → ℕ → Option ℕ
strchr zero m s c = none
strchr (suc f) m s c =
    let rest = strchr f m (s + 1) c in
    if m s == 0 then some 0 else if m s == c then some s else rest

unfoldable pub strfind : ℕ → Memory → ℕ → ℕ → Option ℕ
strfind zero m s c = none
strfind (suc f) m s c =
    let rest = strfind f m (s + 1) c in
    if m s == 0 then some s else if m s == c then some s else rest

memfind_loop : ℕ → Memory → ℕ → ℕ → ℕ
memfind_loop zero m s c = s
memfind_loop (suc n) m s c =
    let rest = memfind_loop n m (s + 1) c in if m s == c % 256 then s else rest

-- `s < ends` holds for as many rounds as there are bytes, so `n` is the recursion's argument.
unfoldable pub memfind : Memory → ℕ → ℕ → ℕ → ℕ
unfolding memfind_loop
memfind m s c n = memfind_loop n m s c

-- The place of the first `c` in a list, or the length.
unfoldable pub index_of : ℕ → List ℕ → ℕ
index_of c [] = 0
index_of c (x ∷ xs) = if x == c then 0 else suc (index_of c xs)

strlen_loop_lem :
    (f : ℕ) (m : Memory) (s n : ℕ) (cs : List ℕ)
    → StrAt m s cs
    → length cs < f
    → n + length cs < 2 ^ 31
    → strlen_loop f m s n ≡ some (n + length cs)
unfolding strlen_loop
strlen_loop_lem zero m s n cs h lt b = elim lt [ ]
strlen_loop_lem (suc f) m s n [] h lt b = ground arith
strlen_loop_lem (suc f) m s n (c ∷ cs) (e, ne, t) lt b =
    ground (arith, strlen_loop_lem f m (s + 1) ((n + 1) % 2 ^ 32) cs t)

-- On a string whose length fits an `int`, `strlen` ends within length + 1 rounds and returns the
-- length.
pub strlen-StrAt :
    (f : ℕ) (m : Memory) (s : ℕ) (cs : List ℕ)
    → StrAt m s cs
    → length cs < f
    → length cs < 2 ^ 31
    → strlen f m s ≡ some (length cs)
unfolding strlen
strlen-StrAt f m s cs h lt b = strlen_loop_lem f m s 0 cs h lt (omega arith) ∙ ap some (omega arith)

-- What a bounded count has found: `k` bytes before the NUL, or all of them.
pub record Counted (m : Memory) (s size k : ℕ) : Type 0 where
  pub within : k ≤ size
  pub before : (x : ℕ) → s ≤ x → x < s + k → m x ≢ 0
  pub ended : k < size → m (s + k) ≡ 0

strnlen_loop_lem :
    (size : ℕ) (m : Memory) (s n : ℕ)
    → n + size < 2 ^ 32
    → (k : ℕ) × (strnlen_loop size m s n ≡ n + k) × Counted m s size k
unfolding strnlen_loop
strnlen_loop_lem zero m s n b = (
  0,
  omega arith,
  record {
    within = omega arith;
    before = λ x p q. absurd (omega arith);
    ended = λ p. absurd (omega arith);
  },
)
strnlen_loop_lem (suc size) m s n b = elim (Bool-cases (m s == 0)) [
  | inl e ↦ (
    0,
    rw e (omega arith),
    record {
      within = omega arith;
      before = λ x p q. absurd (omega arith);
      ended = λ p. ap m (omega arith) ∙ (==_iff (m s) 0).0 e;
    },
  )
  | inr e ↦
      let (k, eq, found) = strnlen_loop_lem size m (s + 1) ((n + 1) % 2 ^ 32) (omega arith) in
      (
        suc k,
        rw e (omega arith),
        record {
          within = omega (arith, found.within);
          before = λ x p q. elim (ℕ_discrete x s) [
            | yes same ↦ rw same (ground arith)
            | no other ↦ found.before x (omega arith) (omega arith)
          ];
          ended = λ p. ap m (omega arith) ∙ found.ended (omega arith);
        },
      )
]

-- `strnlen` never looks past `size` bytes: it returns a `k` of at most `size` such that no byte
-- before `k` is NUL, and byte `k` is NUL where `k` is below `size`.
pub strnlen-Counted :
    (m : Memory) (s size : ℕ) → size < 2 ^ 32 → Counted m s size (strnlen m s size)
unfolding strnlen
strnlen-Counted m s size b =
    let (k, eq, found) = strnlen_loop_lem size m s 0 (omega arith) in
    let e : strnlen_loop size m s 0 ≡ k = omega arith in rw e found

index_of-le : (c : ℕ) (xs : List ℕ) → index_of c xs ≤ length xs
unfolding index_of
index_of-le c [] = omega arith
index_of-le c (x ∷ xs) = ground (arith, index_of-le c xs)

-- On a string `strfind` returns the address of the first `c`, or that of the NUL.
pub strfind-StrAt :
    (f : ℕ) (m : Memory) (s c : ℕ) (cs : List ℕ)
    → StrAt m s cs
    → length cs < f
    → strfind f m s c ≡ some (s + index_of c cs)
unfolding strfind index_of
strfind-StrAt zero m s c cs h lt = elim lt [ ]
strfind-StrAt (suc f) m s c [] h lt = ground arith
strfind-StrAt (suc f) m s c (x ∷ xs) (e, ne, t) lt =
    ground (arith, strfind-StrAt f m (s + 1) c xs t)

-- On a string at an address other than 0 `strchr` returns the address of the first `c`, and the
-- null pointer exactly when the string has no `c`.
pub strchr-StrAt :
    (f : ℕ) (m : Memory) (s c : ℕ) (cs : List ℕ)
    → StrAt m s cs
    → length cs < f
    → strchr f m s c ≡ some (if index_of c cs == length cs then 0 else s + index_of c cs)
unfolding strchr index_of
strchr-StrAt zero m s c cs h lt = elim lt [ ]
strchr-StrAt (suc f) m s c [] h lt = ground arith
strchr-StrAt (suc f) m s c (x ∷ xs) (e, ne, t) lt =
    ground (arith, strchr-StrAt f m (s + 1) c xs t, index_of-le c xs)

memfind_loop_lem :
    (n : ℕ) (m : Memory) (s c : ℕ)
    → (k : ℕ) × (memfind_loop n m s c ≡ s + k)
      × (k ≤ n)
      × ((x : ℕ) → s ≤ x → x < s + k → m x ≢ c % 256)
      × (k < n → m (s + k) ≡ c % 256)
unfolding memfind_loop
memfind_loop_lem zero m s c =
    (0, omega arith, omega arith, λ x p q. absurd (omega arith), λ p. absurd (omega arith))
memfind_loop_lem (suc n) m s c = elim (Bool-cases (m s == c % 256)) [
  | inl e ↦ (
    0,
    rw e (omega arith),
    omega arith,
    λ x p q. absurd (omega arith),
    λ p. ap m (omega arith) ∙ (==_iff (m s) (c % 256)).0 e,
  )
  | inr e ↦
      let (k, eq, within, before, ended) = memfind_loop_lem n m (s + 1) c in
      (
        suc k,
        rw e (omega arith),
        omega arith,
        λ x p q. elim (ℕ_discrete x s) [
          | yes same ↦ rw same (ground arith)
          | no other ↦ before x (omega arith) (omega arith)
        ],
        λ p. ap m (omega arith) ∙ ended (omega arith),
      )
]

-- `memfind` returns the first address of the `n` bytes that holds `c` taken as a byte, or the end.
pub memfind_lem :
    (m : Memory) (s c n : ℕ)
    → (k : ℕ) × (memfind m s c n ≡ s + k)
      × (k ≤ n)
      × ((x : ℕ) → s ≤ x → x < s + k → m x ≢ c % 256)
      × (k < n → m (s + k) ≡ c % 256)
unfolding memfind
memfind_lem m s c n = memfind_loop_lem n m s c
