-- ===== src/Memory.antt =====
-- Byte memory and the strings in it, which the routines of lib/string.c and their clients share.
-- An address is a number: the routines step a pointer inside one object, where C has no wrap.
use jos_ece.Prelude.{
  ℕ, suc, ◌+◌, ◌≤◌, ◌<◌, ◌≡◌, ◌≢◌, ◌⊎◌, ◌∙◌, List, [], ◌∷◌, length, arith, ◌==◌, if◌then◌else◌,
}

-- The bytes of the address space.
abbrev pub Memory : Type 0
Memory = ℕ → ℕ

-- `*p = v`
abbrev pub store : Memory → ℕ → ℕ → Memory
store m p v q = if p == q then v else m q

-- A string of the characters `cs` stands at `s`: they are not NUL, and a NUL follows them.
abbrev pub StrAt : Memory → ℕ → List ℕ → Type 0
StrAt m s [] = m s ≡ 0
StrAt m s (c ∷ cs) = (m s ≡ c) × (c ≢ 0) × StrAt m (s + 1) cs

-- Two memories agree from `s` on, for `n` bytes.
abbrev pub SameBytes : Memory → Memory → ℕ → ℕ → Type 0
SameBytes m m' s n = (x : ℕ) → s ≤ x → x < s + n → m' x ≡ m x

-- The `n` bytes from `a` on and the `k` bytes from `b` on have none in common.
abbrev pub Apart : ℕ → ℕ → ℕ → ℕ → Type 0
Apart a n b k = (a + n ≤ b) ⊎ (b + k ≤ a)

-- Outside the `n` bytes from `d` on nothing has changed.
abbrev pub SameOutside : Memory → Memory → ℕ → ℕ → Type 0
SameOutside m m' d n = (x : ℕ) → (x < d) ⊎ (d + n ≤ x) → m' x ≡ m x

-- A string stays where its bytes and its NUL stay.
pub StrAt-SameBytes :
    (m m' : Memory) (s : ℕ) (cs : List ℕ)
    → SameBytes m m' s (suc (length cs))
    → StrAt m s cs
    → StrAt m' s cs
StrAt-SameBytes m m' s [] same h = same s (omega arith) (omega arith) ∙ h
StrAt-SameBytes m m' s (c ∷ cs) same (e, ne, t) = (
  same s (omega arith) (omega arith) ∙ e,
  ne,
  StrAt-SameBytes m m' (s + 1) cs (λ x p q. same x (omega arith) (omega arith)) t,
)
