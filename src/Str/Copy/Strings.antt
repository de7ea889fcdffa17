-- ===== src/Str/Copy/Strings.antt =====
-- lib/string.c: strcpy and strcat, on a source that lies apart from the target.
use jos_ece.Prelude.{
  ℕ, zero, suc, ◌+◌, ◌≤◌, ◌<◌, ◌^◌, ◌≡◌, ◌∙◌, List, [], ◌∷◌, ◌++◌, length, some, arith,
}
use jos_ece.Memory.{Memory, store, StrAt, StrAt-SameBytes, Apart, SameOutside}
use jos_ece.Str.Scan.{strlen-StrAt}
use jos_ece.Str.Copy.{strcpy_loop, strcpy, strcat}

strcpy_loop_lem :
    (f : ℕ) (m : Memory) (d s : ℕ) (cs : List ℕ)
    → StrAt m s cs
    → length cs < f
    → Apart d (suc (length cs)) s (suc (length cs))
    → (m' : Memory) × (strcpy_loop f m d s ≡ some m')
      × StrAt m' d cs
      × SameOutside m m' d (suc (length cs))
unfolding strcpy_loop
strcpy_loop_lem zero m d s cs h lt apart = elim lt [ ]
strcpy_loop_lem (suc f) m d s [] h lt apart =
    (store m d (m s), ground arith, ground arith, λ x out. ground arith)
strcpy_loop_lem (suc f) m d s (c ∷ cs) (e, ne, t) lt apart =
    let m1 : Memory = store m d (m s) in
    let t1 : StrAt m1 (s + 1) cs = StrAt-SameBytes m m1 (s + 1) cs (λ x p q. ground arith) t in
    let (m', ran, there, same) =
      strcpy_loop_lem f m1 (d + 1) (s + 1) cs t1 (omega arith) (omega arith) in
    (
      m',
      ground arith,
      (same d (omega arith) ∙ ground arith, ne, there),
      λ x out. same x (omega arith) ∙ ground arith,
    )

-- Where a string of `src` and its NUL lie apart from the bytes from `dst` on, `strcpy` ends,
-- returns `dst`, leaves the string there and changes nothing else.
pub strcpy-StrAt :
    (f : ℕ) (m : Memory) (d s : ℕ) (cs : List ℕ)
    → StrAt m s cs
    → length cs < f
    → Apart d (suc (length cs)) s (suc (length cs))
    → (m' : Memory) × (strcpy f m d s ≡ some (d, m'))
      × StrAt m' d cs
      × SameOutside m m' d (suc (length cs))
unfolding strcpy
strcpy-StrAt f m d s cs h lt apart =
    let (m', ran, there, same) = strcpy_loop_lem f m d s cs h lt apart in
    (m', ground arith, there, same)

-- Two strings, the second on the NUL of the first, are one.
StrAt-append :
    (m m' : Memory) (d : ℕ) (xs ys : List ℕ)
    → StrAt m d xs
    → ((x : ℕ) → d ≤ x → x < d + length xs → m' x ≡ m x)
    → StrAt m' (d + length xs) ys
    → StrAt m' d (xs ++ ys)
StrAt-append m m' d [] ys h same there = let e : d + 0 ≡ d = omega arith in rw e at there
StrAt-append m m' d (x ∷ xs) ys (e, ne, t) same there =
    let at : d + suc (length xs) ≡ d + 1 + length xs = omega arith in
    (
      same d (omega arith) (omega arith) ∙ e,
      ne,
      StrAt-append m m' (d + 1) xs ys t (λ y p q. same y (omega arith) (omega arith))
          (rw at at there),
    )

-- Where the string of `src` and its NUL lie apart from the bytes that the result takes, `strcat`
-- ends, returns `dst`, leaves the two strings joined there, and changes nothing but the bytes from
-- the first string's NUL on that the second takes.
pub strcat-StrAt :
    (f : ℕ) (m : Memory) (d s : ℕ) (xs ys : List ℕ)
    → StrAt m d xs
    → StrAt m s ys
    → length xs < f
    → length ys < f
    → length xs < 2 ^ 31
    → Apart (d + length xs) (suc (length ys)) s (suc (length ys))
    → (m' : Memory) × (strcat f m d s ≡ some (d, m'))
      × StrAt m' d (xs ++ ys)
      × SameOutside m m' (d + length xs) (suc (length ys))
unfolding strcat
strcat-StrAt f m d s xs ys hx hy lx ly small apart =
    let (m', ran, there, same) = strcpy-StrAt f m (d + length xs) s ys hy ly apart in
    (
      m',
      ground (arith, strlen-StrAt f m d xs hx lx small),
      StrAt-append m m' d xs ys hx (λ x p q. same x (omega arith)) there,
      same,
    )
