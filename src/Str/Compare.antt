-- ===== src/Str/Compare.antt =====
-- lib/string.c: strcmp, strncmp, memcmp. The result is a signed `int`.
use jos_ece.Prelude.{
  ℕ, zero, suc, ◌+◌, ◌≤◌, ◌<◌, ◌≡◌, ◌≢◌, ◌↔◌, refl, sym, ap, ◌∙◌, inl, inr, List, [], ◌∷◌, length,
  take, Option, none, some, arith, Bool-cases, ◌==◌, ==_iff, if◌then◌else◌,
}
use jos_ece.Prelude.Int.{ℤ, pos, sub_ℕ}
use jos_ece.Memory.{Memory, StrAt}

-- The loop runs while `*p && *p == *q`.
unfoldable pub strcmp : ℕ → Memory → ℕ → ℕ → Option ℤ
strcmp zero m p q = none
strcmp (suc f) m p q =
    let rest = strcmp f m (p + 1) (q + 1) in
    if m p == 0
    then some (sub_ℕ (m p) (m q))
    else if m p == m q
    then rest
    else some (sub_ℕ (m p) (m q))

-- The loop runs while `n > 0 && *p && *p == *q`; at 0 the result is 0.
unfoldable pub strncmp : Memory → ℕ → ℕ → ℕ → ℤ
strncmp m p q zero = pos 0
strncmp m p q (suc n) =
    let rest = strncmp m (p + 1) (q + 1) n in
    if m p == 0 then sub_ℕ (m p) (m q) else if m p == m q then rest else sub_ℕ (m p) (m q)

unfoldable pub memcmp : Memory → ℕ → ℕ → ℕ → ℤ
memcmp m p q zero = pos 0
memcmp m p q (suc n) =
    let rest = memcmp m (p + 1) (q + 1) n in if m p == m q then rest else sub_ℕ (m p) (m q)

-- The difference at the first place where two strings differ, an absent character being 0.
unfoldable pub difference : List ℕ → List ℕ → ℤ
difference [] [] = pos 0
difference [] (y ∷ ys) = sub_ℕ 0 y
difference (x ∷ xs) [] = pos x
difference (x ∷ xs) (y ∷ ys) = let rest = difference xs ys in if x == y then rest else sub_ℕ x y

strcmp-difference :
    (f : ℕ) (m : Memory) (p q : ℕ) (xs ys : List ℕ)
    → StrAt m p xs
    → StrAt m q ys
    → length xs < f
    → strcmp f m p q ≡ some (difference xs ys)
unfolding strcmp difference
strcmp-difference zero m p q xs ys hx hy lt = elim lt [ ]
strcmp-difference (suc f) m p q [] [] hx hy lt = ground arith
strcmp-difference (suc f) m p q [] (y ∷ ys) hx (e, ne, t) lt = ground arith
strcmp-difference (suc f) m p q (x ∷ xs) [] (e, ne, t) hy lt = ground arith
strcmp-difference (suc f) m p q (x ∷ xs) (y ∷ ys) (e, ne, t) (e', ne', t') lt =
    ground (arith, strcmp-difference f m (p + 1) (q + 1) xs ys t t')

-- Strings of characters other than NUL.
abbrev pub NonNul : List ℕ → Type 0
NonNul [] = Unit
NonNul (x ∷ xs) = (x ≢ 0) × NonNul xs

pub StrAt-NonNul : (m : Memory) (s : ℕ) (cs : List ℕ) → StrAt m s cs → NonNul cs
StrAt-NonNul m s [] h = tt
StrAt-NonNul m s (c ∷ cs) (e, ne, t) = (ne, StrAt-NonNul m (s + 1) cs t)

difference-eq : (xs ys : List ℕ) → NonNul xs → NonNul ys → difference xs ys ≡ pos 0 → xs ≡ ys
unfolding difference
difference-eq [] [] hx hy e = refl
difference-eq [] (y ∷ ys) hx hy e = ground arith
difference-eq (x ∷ xs) [] hx hy e = ground arith
difference-eq (x ∷ xs) (y ∷ ys) hx hy e = ground (arith, difference-eq xs ys hx.1 hy.1)

difference_self : (xs : List ℕ) → difference xs xs ≡ pos 0
unfolding difference
difference_self [] = refl
difference_self (x ∷ xs) = ground (arith, difference_self xs)

-- On two strings `strcmp` ends, returns the difference at the first place where they differ, and
-- returns 0 exactly when they are the same.
pub strcmp-StrAt :
    (f : ℕ) (m : Memory) (p q : ℕ) (xs ys : List ℕ)
    → StrAt m p xs
    → StrAt m q ys
    → length xs < f
    → (strcmp f m p q ≡ some (difference xs ys)) × ((strcmp f m p q ≡ some (pos 0)) ↔ (xs ≡ ys))
strcmp-StrAt f m p q xs ys hx hy lt = (
  ran,
  (
    λ e. difference-eq xs ys (StrAt-NonNul m p xs hx) (StrAt-NonNul m q ys hy) (cc (sym ran ∙ e)),
    λ same. ran ∙ ap some (rw (← same) (difference_self xs)),
  ),
)
  where
    ran : strcmp f m p q ≡ some (difference xs ys)
    ran = strcmp-difference f m p q xs ys hx hy lt

-- On two strings `strncmp` compares their first `n` characters as `strcmp` compares strings.
pub strncmp-StrAt :
    (m : Memory) (p q n : ℕ) (xs ys : List ℕ)
    → StrAt m p xs
    → StrAt m q ys
    → strncmp m p q n ≡ difference (take n xs) (take n ys)
unfolding strncmp difference
strncmp-StrAt m p q zero xs ys hx hy = refl
strncmp-StrAt m p q (suc n) [] [] hx hy = ground arith
strncmp-StrAt m p q (suc n) [] (y ∷ ys) hx (e, ne, t) = ground arith
strncmp-StrAt m p q (suc n) (x ∷ xs) [] (e, ne, t) hy = ground arith
strncmp-StrAt m p q (suc n) (x ∷ xs) (y ∷ ys) (e, ne, t) (e', ne', t') =
    ground (arith, strncmp-StrAt m (p + 1) (q + 1) n xs ys t t')

-- The first `k` bytes of two ranges agree.
abbrev pub Agree : Memory → ℕ → ℕ → ℕ → Type 0
Agree m p q k = (i : ℕ) → i < k → m (p + i) ≡ m (q + i)

Agree-suc : (m : Memory) (p q k : ℕ) → m p ≡ m q → Agree m (p + 1) (q + 1) k → Agree m p q (suc k)
Agree-suc m p q k e h zero lt = ap m (omega arith) ∙ e ∙ ap m (omega arith)
Agree-suc m p q k e h (suc i) lt = ap m (omega arith) ∙ h i (omega arith) ∙ ap m (omega arith)

-- `memcmp` returns the difference at the first of the `n` places where the ranges differ, and 0
-- where they agree on all.
pub memcmp_lem :
    (m : Memory) (p q n : ℕ)
    → (k : ℕ) × (k ≤ n)
      × Agree m p q k
      × (k ≡ n → memcmp m p q n ≡ pos 0)
      × (k < n → (m (p + k) ≢ m (q + k)) × (memcmp m p q n ≡ sub_ℕ (m (p + k)) (m (q + k))))
unfolding memcmp
memcmp_lem m p q zero = (0, omega arith, λ i lt. elim lt [ ], λ e. refl, λ lt. absurd (omega arith))
memcmp_lem m p q (suc n) = elim (Bool-cases (m p == m q)) [
  | inr e ↦
      let here : m p ≡ m (p + 0) = ap m (omega arith) in
      let there : m q ≡ m (q + 0) = ap m (omega arith) in
      (
        0,
        omega arith,
        λ i lt. elim lt [ ],
        λ z. absurd (omega arith),
        λ lt. (ground arith, rw (e, here, there)),
      )
  | inl e ↦
      let (k, within, agree, all, first) = memcmp_lem m (p + 1) (q + 1) n in
      let here : m (p + 1 + k) ≡ m (p + suc k) = ap m (omega arith) in
      let there : m (q + 1 + k) ≡ m (q + suc k) = ap m (omega arith) in
      (
        suc k,
        omega arith,
        Agree-suc m p q k ((==_iff (m p) (m q)).0 e) agree,
        λ z. rw e (all (omega arith)),
        λ lt. rw (← here, ← there, e) (first (omega arith)),
      )
]
