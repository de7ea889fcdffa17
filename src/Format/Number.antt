-- ===== src/Format/Number.antt =====
-- lib/printfmt.c: printnum, with the digits of a number and the padding to a width. A width is
-- a signed `int`. The recursion takes fuel. `none` means that it
-- ran out, or a read outside the constant with the digits.
use jos_ece.Prelude.{
  ℕ, zero, suc, ◌+◌, ◌-◌, ◌*◌, ◌/◌, ◌%◌, ◌^◌, ◌≤◌, ◌<◌, ◌≡◌, ◌≢◌, ◌∙◌, refl, sym, ap, ap₂, List, [],
  ◌∷◌, ◌++◌, map, length, length-append, replicate, Option, none, some, true, false, Bool-cases,
  inl, inr, append_assoc, map-append, arith, ltb, get_or, ◌==◌, ==_iff, if◌then◌else◌,
}
use jos_ece.Prelude.Int.{ℤ, pos, negsuc}
use jos_ece.Prelude.Bits.{all_below, all_below_at}
use native.Mathlib.Nat.{pow-suc, div-add-mod', mod-lt, mod-eq_of_lt}

-- `--width` without overflow.
unfoldable pub decrement : ℤ → ℤ
decrement (pos zero) = negsuc 0
decrement (pos (suc n)) = pos n
decrement (negsuc n) = negsuc (suc n)

-- `while (--width > 0) putch(padc)`
unfoldable pub pad_number : ℤ → ℕ → List ℕ
pad_number (pos zero) padc = []
pad_number (pos (suc n)) padc = replicate n padc
pad_number (negsuc n) padc = []

-- `"0123456789abcdef"[d]`, which has the NUL at 16.
abbrev pub digit_chars : List ℕ
digit_chars =
    b'0' ∷ b'1' ∷ b'2' ∷ b'3' ∷ b'4' ∷ b'5' ∷ b'6' ∷ b'7' ∷ b'8' ∷ b'9' ∷ b'a' ∷ b'b' ∷ b'c' ∷ b'd'
    ∷ b'e' ∷ b'f' ∷ []

unfoldable pub digit_char : ℕ → ℕ
digit_char d = get_or digit_chars d 0

-- The character of a digit below 16: `0` to `9`, and then `a` to `f`.
unfoldable pub hex_char : ℕ → ℕ
hex_char d = if ltb d 10 then b'0' + d else b'a' + (d - 10)

pub digit_char_lem : (d : ℕ) → d < 16 → digit_char d ≡ hex_char d
unfolding digit_char hex_char all_below
digit_char_lem d lt =
    (==_iff (digit_char d) (hex_char d)).0
      (all_below_at 16 (λ d. digit_char d == hex_char d) d lt refl)

-- The last `putch`, behind what has been printed. From 17 on the constant is read outside.
unfoldable pub then_digit : ℕ → Option (List ℕ) → Option (List ℕ)
then_digit d none = none
then_digit d (some out) = if ltb d 17 then some (out ++ digit_char d ∷ []) else none

unfoldable pub printnum : ℕ → ℕ → ℕ → ℤ → ℕ → Option (List ℕ)
printnum zero num base width padc = none
printnum (suc f) num base width padc =
    let more = printnum f (num / base) base (decrement width) padc in
    then_digit (num % base) (if ltb num base then some (pad_number width padc) else more)

-- The digits of a number, most significant first: the one digit of a number below the base, and
-- else the digits of the quotient and the remainder.
unfoldable pub digits : ℕ → ℕ → ℕ → List ℕ
digits zero num base = []
digits (suc f) num base =
    let more = digits f (num / base) base in (if ltb num base then [] else more) ++ num % base ∷ []

-- The number that digits stand for, behind a number already read.
unfoldable pub value : ℕ → ℕ → List ℕ → ℕ
value base v [] = v
value base v (d ∷ ds) = value base (v * base + d) ds

value-append :
    (base v : ℕ) (xs ys : List ℕ) → value base v (xs ++ ys) ≡ value base (value base v xs) ys
unfolding value
value-append base v [] ys = refl
value-append base v (x ∷ xs) ys = value-append base (v * base + x) xs ys

quotient-le : (num base : ℕ) → 2 ≤ base → num / base * 2 ≤ num
quotient-le num base h = grind (arith, div-add-mod' num base)

quotient-lt : (f num base : ℕ) → 2 ≤ base → num < 2 ^ suc f → num / base < 2 ^ f
quotient-lt f num base h lt =
    let bound : num < 2 ^ f * 2 = rw (← pow-suc 2 f) lt in omega (arith, quotient-le num base h)

-- The digits stand for the number.
pub value-digits :
    (f num base : ℕ) → 2 ≤ base → num < 2 ^ f → value base 0 (digits f num base) ≡ num
unfolding digits value
value-digits zero num base h lt = omega arith
value-digits (suc f) num base h lt = elim (Bool-cases (ltb num base)) [
  | inl small ↦ rw small (ground (arith, mod-eq_of_lt {n = num} {m = base}))
  | inr large ↦
      rw
        (
          large,
          value-append base 0 (digits f (num / base) base) (num % base ∷ []),
          value-digits f (num / base) base h (quotient-lt f num base h lt),
        )
        (omega (arith, div-add-mod' num base))
]

-- Every digit is below the base.
abbrev pub Below : ℕ → List ℕ → Type 0
Below base [] = Unit
Below base (d ∷ ds) = (d < base) × Below base ds

Below-append : (base : ℕ) (xs ys : List ℕ) → Below base xs → Below base ys → Below base (xs ++ ys)
Below-append base [] ys h k = k
Below-append base (x ∷ xs) ys (lt, h) k = (lt, Below-append base xs ys h k)

pub digits-Below : (f num base : ℕ) → 0 < base → Below base (digits f num base)
unfolding digits
digits-Below zero num base h = tt
digits-Below (suc f) num base h = elim (Bool-cases (ltb num base)) [
  | inl small ↦ rw small (mod-lt num h, tt)
  | inr large ↦ rw large (
      Below-append base (digits f (num / base) base) (num % base ∷ [])
        (digits-Below f (num / base) base h) (mod-lt num h, tt))
]

-- `width - k`, and 0 where that is negative.
unfoldable pub width_minus : ℤ → ℕ → ℕ
width_minus (pos n) k = n - k
width_minus (negsuc n) k = 0

width_minus-decrement : (w : ℤ) (k : ℕ) → width_minus (decrement w) k ≡ width_minus w (k + 1)
unfolding width_minus decrement
width_minus-decrement (pos zero) k = omega arith
width_minus-decrement (pos (suc n)) k = omega arith
width_minus-decrement (negsuc n) k = refl

pad_number-replicate : (w : ℤ) (padc : ℕ) → pad_number w padc ≡ replicate (width_minus w 1) padc
unfolding pad_number width_minus
pad_number-replicate (pos zero) padc = refl
pad_number-replicate (pos (suc n)) padc = ap (λ k. replicate k padc) (omega arith)
pad_number-replicate (negsuc n) padc = refl

-- The digits, behind as many pad characters as they are short of the width.
unfoldable pub padded : List ℕ → ℤ → ℕ → List ℕ
padded ds width padc = replicate (width_minus width (length ds)) padc ++ map digit_char ds

padded-snoc :
    (ds : List ℕ) (d : ℕ) (width : ℤ) (padc : ℕ)
    → padded ds (decrement width) padc ++ digit_char d ∷ [] ≡ padded (ds ++ d ∷ []) width padc
unfolding padded
padded-snoc ds d width padc =
    let one_more : length (ds ++ d ∷ []) ≡ length ds + 1 =
      omega (arith, length-append ds (d ∷ [])) in
    rw (width_minus-decrement width (length ds), one_more)
      (append_assoc (replicate (width_minus width (length ds + 1)) padc) (map digit_char ds)
          (digit_char d ∷ [])
        ∙ ap (λ r. replicate (width_minus width (length ds + 1)) padc ++ r)
            (sym (map-append digit_char ds (d ∷ []))))

padded_one :
    (d : ℕ) (width : ℤ) (padc : ℕ)
    → pad_number width padc ++ digit_char d ∷ [] ≡ padded (d ∷ []) width padc
unfolding padded
padded_one d width padc = ap (λ r. r ++ digit_char d ∷ []) (pad_number-replicate width padc)

-- A digit of a base up to 16 stands in the constant.
then_digit-below :
    (d base : ℕ) (out : List ℕ)
    → d < base
    → base ≤ 16
    → then_digit d (some out) ≡ some (out ++ digit_char d ∷ [])
unfolding then_digit
then_digit-below d base out lt le = let t : ltb d 17 ≡ true = ground arith in rw t refl

printnum_small :
    (f num base : ℕ) (width : ℤ) (padc : ℕ)
    → 2 ≤ base
    → base ≤ 16
    → ltb num base ≡ true
    → printnum (suc f) num base width padc ≡ some (padded (digits (suc f) num base) width padc)
unfolding printnum digits
printnum_small f num base width padc h le small = rw small (
    then_digit-below (num % base) base (pad_number width padc) (mod-lt num (omega arith)) le
    ∙ ap some (padded_one (num % base) width padc))

printnum_large :
    (f num base : ℕ) (width : ℤ) (padc : ℕ)
    → 2 ≤ base
    → base ≤ 16
    → ltb num base ≡ false
    → printnum f (num / base) base (decrement width) padc
      ≡ some (padded (digits f (num / base) base) (decrement width) padc)
    → printnum (suc f) num base width padc ≡ some (padded (digits (suc f) num base) width padc)
unfolding printnum digits
printnum_large f num base width padc h le large ih =
    rw (large, ih)
      (then_digit-below (num % base) base
          (padded (digits f (num / base) base) (decrement width) padc) (mod-lt num (omega arith)) le
        ∙ ap some (padded-snoc (digits f (num / base) base) (num % base) width padc))

-- A number too large for the digits that fuel is left for is not met.
pub printnum-padded :
    (f num base : ℕ) (width : ℤ) (padc : ℕ)
    → 2 ≤ base
    → base ≤ 16
    → num < 2 ^ suc f
    → printnum (suc f) num base width padc ≡ some (padded (digits (suc f) num base) width padc)
printnum-padded zero num base width padc h le lt =
    printnum_small 0 num base width padc h le (ground arith)
printnum-padded (suc f) num base width padc h le lt = elim (Bool-cases (ltb num base)) [
  | inl small ↦ printnum_small (suc f) num base width padc h le small
  | inr large ↦ printnum_large (suc f) num base width padc h le large (
      printnum-padded f (num / base) base (decrement width) padc h le
        (quotient-lt (suc f) num base h lt))
]

-- The first digit is not 0.
abbrev pub Leads : List ℕ → Type 0
Leads [] = ⊥
Leads (d ∷ ds) = d ≢ 0

Leads-append : (xs ys : List ℕ) → Leads xs → Leads (xs ++ ys)
Leads-append [] ys h = absurd h
Leads-append (x ∷ xs) ys h = h

digits-Leads : (f num base : ℕ) → 2 ≤ base → 0 < num → num < 2 ^ f → Leads (digits f num base)
unfolding digits
digits-Leads zero num base h nz lt = absurd (omega arith)
digits-Leads (suc f) num base h nz lt = elim (Bool-cases (ltb num base)) [
  | inl small ↦ rw small (ground (arith, mod-eq_of_lt {n = num} {m = base}))
  | inr large ↦ rw large (
      Leads-append (digits f (num / base) base) (num % base ∷ []) (
        digits-Leads f (num / base) base h (grind (arith, div-add-mod' num base, mod-lt num))
          (quotient-lt f num base h lt)))
]

map-digit_char :
    (base : ℕ) (ds : List ℕ) → base ≤ 16 → Below base ds → map digit_char ds ≡ map hex_char ds
map-digit_char base [] le h = refl
map-digit_char base (d ∷ ds) le (lt, h) =
    ap₂ ◌∷◌ (digit_char_lem d (omega arith)) (map-digit_char base ds le h)

-- For every 64-bit number and every base from 2 to 16, `printnum` ends within 64 calls and prints
-- pad characters up to the width and then the digits of the number in that base, as the characters
-- `0` to `9` and `a` to `f`: they stand for the number, each is below the base, and the first is not
-- 0 unless the number is.
pub printnum_lem :
    (num base : ℕ) (width : ℤ) (padc : ℕ)
    → 2 ≤ base
    → base ≤ 16
    → num < 2 ^ 64
    → (ds : List ℕ) × (printnum 64 num base width padc
        ≡ some (replicate (width_minus width (length ds)) padc ++ map hex_char ds))
      × (value base 0 ds ≡ num)
      × Below base ds
      × (0 < num → Leads ds)
unfolding padded
printnum_lem num base width padc h le lt =
    let ds : List ℕ = digits 64 num base in
    let below : Below base ds = digits-Below 64 num base (omega arith) in
    (
      ds,
      printnum-padded 63 num base width padc h le lt
          ∙ ap (λ cs. some (replicate (width_minus width (length ds)) padc ++ cs))
              (map-digit_char base ds le below),
      value-digits 64 num base h lt,
      below,
      λ nz. digits-Leads 64 num base h nz lt,
    )
