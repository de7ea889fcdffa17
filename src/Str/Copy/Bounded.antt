-- ===== src/Str/Copy/Bounded.antt =====
-- lib/string.c: strncpy and strlcpy, on a source that lies apart from the target.
use jos_ece.Prelude.{
  ℕ, zero, suc, ◌+◌, ◌-◌, ◌<◌, ◌≡◌, true, false, refl, sym, subst, ap, ◌∙◌, List, [], ◌∷◌, length,
  take, get_or, arith, ◌==◌, if◌then◌else◌,
}
use Prim.Native.Nat.{min}
use jos_ece.Memory.{Memory, store, StrAt, StrAt-SameBytes, Apart, SameOutside}
use jos_ece.Str.Copy.{strncpy_loop, strncpy, strlcpy_loop, strlcpy}

-- The `size` bytes from `d` on are the characters of `cs`, then NULs.
abbrev pub Padded : Memory → ℕ → ℕ → List ℕ → Type 0
Padded m d size cs = (i : ℕ) → i < size → m (d + i) ≡ get_or cs i 0

Padded-suc :
    (m : Memory) (d size c : ℕ) (cs : List ℕ)
    → m d ≡ c
    → Padded m (d + 1) size cs
    → Padded m d (suc size) (c ∷ cs)
Padded-suc m d size c cs e h zero lt = ap m (omega arith) ∙ e
Padded-suc m d size c cs e h (suc i) lt = ap m (omega arith) ∙ h i (omega arith)

Padded-nil :
    (m : Memory) (d size : ℕ) → m d ≡ 0 → Padded m (d + 1) size [] → Padded m d (suc size) []
Padded-nil m d size e h zero lt = ap m (omega arith) ∙ e
Padded-nil m d size e h (suc i) lt = ap m (omega arith) ∙ h i (omega arith)

strncpy_loop_lem :
    (size : ℕ) (m : Memory) (d s : ℕ) (cs : List ℕ)
    → StrAt m s cs
    → Apart d size s (suc (length cs))
    → Padded (strncpy_loop size m d s) d size cs × SameOutside m (strncpy_loop size m d s) d size
unfolding strncpy_loop
strncpy_loop_lem zero m d s cs h apart = (λ i lt. elim lt [ ], λ x out. refl)
strncpy_loop_lem (suc size) m d s [] h apart =
    let m1 : Memory = store m d (m s) in
    let t1 : StrAt m1 s [] = ground arith in
    let (padded, same) = strncpy_loop_lem size m1 (d + 1) s [] t1 (omega arith) in
    rw t1 (
      Padded-nil (strncpy_loop size m1 (d + 1) s) d size (same d (omega arith) ∙ ground arith)
          padded,
      λ x out. same x (omega arith) ∙ ground arith,
    )
strncpy_loop_lem (suc size) m d s (c ∷ cs) (e, ne, t) apart =
    let m1 : Memory = store m d (m s) in
    let t1 : StrAt m1 (s + 1) cs = StrAt-SameBytes m m1 (s + 1) cs (λ x p q. ground arith) t in
    let on : (if m1 s == 0 then s else s + 1) ≡ s + 1 = ground arith in
    let (padded, same) = strncpy_loop_lem size m1 (d + 1) (s + 1) cs t1 (omega arith) in
    rw on (
      Padded-suc (strncpy_loop size m1 (d + 1) (s + 1)) d size c cs
          (same d (omega arith) ∙ ground arith) padded,
      λ x out. same x (omega arith) ∙ ground arith,
    )

-- Where the string of `src` and its NUL lie apart from the `size` bytes of `dst`, `strncpy` fills
-- exactly these with the string's characters and then with NULs, and returns `dst`.
pub strncpy-Padded :
    (m : Memory) (d s size : ℕ) (cs : List ℕ)
    → StrAt m s cs
    → Apart d size s (suc (length cs))
    → let (r, m') = strncpy m d s size in (r ≡ d) × Padded m' d size cs × SameOutside m m' d size
unfolding strncpy
strncpy-Padded m d s size cs h apart =
    let (padded, same) = strncpy_loop_lem size m d s cs h apart in (refl, padded, same)

strlcpy_loop-more :
    (size : ℕ) (m : Memory) (d s : ℕ)
    → (m s == 0) ≡ false
    → strlcpy_loop (suc size) m d s ≡ strlcpy_loop size (store m d (m s)) (d + 1) (s + 1)
unfolding strlcpy_loop
strlcpy_loop-more size m d s more = ground arith

-- What the loop of `strlcpy` leaves once its end has been made a NUL.
abbrev Copied : Memory → ℕ → ℕ → List ℕ → ℕ × Memory → Type 0
Copied m d size cs r =
    (r.0 ≡ d + min size (length cs))
    × StrAt (store r.1 r.0 0) d (take size cs)
    × SameOutside m r.1 d size

strlcpy_loop-Copied :
    (size : ℕ) (m : Memory) (d s : ℕ) (cs : List ℕ)
    → StrAt m s cs
    → Apart d (suc size) s (suc (length cs))
    → Copied m d size cs (strlcpy_loop size m d s)
unfolding strlcpy_loop
strlcpy_loop-Copied zero m d s cs h apart = (omega arith, ground arith, λ x out. refl)
strlcpy_loop-Copied (suc size) m d s [] h apart =
    let stop : (m s == 0) ≡ true = ground arith in
    rw stop (omega arith, ground arith, λ x out. refl)
strlcpy_loop-Copied (suc size) m d s (c ∷ cs) (e, ne, t) apart =
    let m1 : Memory = store m d (m s) in
    let t1 : StrAt m1 (s + 1) cs = StrAt-SameBytes m m1 (s + 1) cs (λ x p q. ground arith) t in
    let r : ℕ × Memory = strlcpy_loop size m1 (d + 1) (s + 1) in
    let (ends, there, same) = strlcpy_loop-Copied size m1 (d + 1) (s + 1) cs t1 (omega arith) in
    let first : r.1 d ≡ m s = same d (omega arith) ∙ ground arith in
    subst (Copied m d (suc size) (c ∷ cs)) (sym (strlcpy_loop-more size m d s (ground arith)))
      (omega arith, (ground arith, ne, there), λ x out. same x (omega arith) ∙ ground arith)

-- Where the string of `src` and its NUL lie apart from the `size` bytes of `dst`, for a `size`
-- other than 0, `strlcpy` leaves the string's first `size - 1` characters there as a string,
-- returns how many these are, and changes nothing outside the `size` bytes.
pub strlcpy-StrAt :
    (m : Memory) (d s size : ℕ) (cs : List ℕ)
    → StrAt m s cs
    → 0 < size
    → Apart d size s (suc (length cs))
    → let (r, m') = strlcpy m d s size in
      (r ≡ min (size - 1) (length cs)) × StrAt m' d (take (size - 1) cs) × SameOutside m m' d size
unfolding strlcpy
strlcpy-StrAt m d s zero cs h pos apart = elim pos [ ]
strlcpy-StrAt m d s (suc size) cs h pos apart =
    let (ends, there, same) = strlcpy_loop-Copied size m d s cs h apart in
    let pred : suc size - 1 ≡ size = omega arith in
    rw pred (omega arith, there, λ x out. ground (arith, same x (omega arith)))
