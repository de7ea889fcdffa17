-- ===== src/Format/Print/Convert.antt =====
-- lib/printfmt.c: vprintfmt on plain text and on the number conversions, of 32-bit arguments.
use jos_ece.Prelude.{
  ℕ, suc, ◌+◌, ◌-◌, ◌^◌, ◌≤◌, ◌<◌, ◌≡◌, ◌≢◌, ◌∙◌, refl, sym, ap, List, [], ◌∷◌, ◌++◌, map, length,
  append_assoc, append-nil, some, true, false, Bool-cases, inl, inr, arith, ltb, leb, ◌==◌,
  if◌then◌else◌,
}
use jos_ece.Prelude.Int.{ℤ, negsuc}
use jos_ece.Memory.{Memory}
use jos_ece.Format.Number.{digits, digit_char, printnum, printnum-padded, padded, width_minus}
use jos_ece.Format.Print.{
  Flags, Printed, plain, behind, fresh, format, vprintfmt, put_number, resume, switch,
}
use jos_ece.Format.Args.{getint, getuint}

-- The characters `xs` stand at `s`, none of them NUL or `%`.
abbrev pub PlainAt : Memory → ℕ → List ℕ → Type 0
PlainAt m s [] = Unit
PlainAt m s (x ∷ xs) = (m s ≡ x) × (x ≢ 0) × (x ≢ b'%') × PlainAt m (s + 1) xs

pub behind-append : (xs ys : List ℕ) (r : Printed) → behind xs (behind ys r) ≡ behind (xs ++ ys) r
unfolding behind
behind-append xs ys (Printed.done out) = ap Printed.done (sym (append_assoc xs ys out))
behind-append xs ys Printed.undefined = refl
behind-append xs ys Printed.no_fuel = refl

pub behind-nil : (r : Printed) → behind [] r ≡ r
unfolding behind
behind-nil (Printed.done out) = refl
behind-nil Printed.undefined = refl
behind-nil Printed.no_fuel = refl

behind_ends : (xs : List ℕ) → behind xs (Printed.done []) ≡ Printed.done xs
unfolding behind
behind_ends xs = ap Printed.done (append-nil xs)

pub format_one :
    (f : ℕ) (m : Memory) (s x : ℕ) (va : List ℕ)
    → m s ≡ x
    → x ≢ 0
    → x ≢ b'%'
    → format (suc f) m plain s va ≡ behind (x ∷ []) (format f m plain (s + 1) va)
unfolding format
format_one f m s x va e nz np =
    let t : (m s == b'%') ≡ false = ground arith in
    let u : (m s == 0) ≡ false = ground arith in rw (t, u, e) refl

format_plain :
    (f : ℕ) (m : Memory) (s : ℕ) (xs : List ℕ) (va : List ℕ)
    → PlainAt m s xs
    → format (length xs + f) m plain s va ≡ behind xs (format f m plain (s + length xs) va)
format_plain f m s [] va h =
    ap (λ a. format (0 + f) m plain a va) (omega arith)
    ∙ ap (λ n. format n m plain (s + 0) va) (omega arith)
    ∙ sym (behind-nil (format f m plain (s + 0) va))
format_plain f m s (x ∷ xs) va (e, nz, np, h) =
    let split : suc (length xs) + f ≡ suc (length xs + f) = omega arith in
    let place : s + 1 + length xs ≡ s + suc (length xs) = omega arith in
    ap (λ n. format n m plain s va) split
    ∙ format_one (length xs + f) m s x va e nz np
    ∙ ap (behind (x ∷ [])) (format_plain f m (s + 1) xs va h)
    ∙ behind-append (x ∷ []) xs (format f m plain (s + 1 + length xs) va)
    ∙ ap (λ a. behind (x ∷ xs) (format f m plain a va)) place

pub format_end :
    (f : ℕ) (m : Memory) (s : ℕ) (va : List ℕ)
    → m s ≡ 0
    → format (suc f) m plain s va ≡ Printed.done []
unfolding format
format_end f m s va e =
    let t : (m s == b'%') ≡ false = ground arith in
    let u : (m s == 0) ≡ true = ground arith in rw (t, u) refl

-- The number conversions.
pub data Conversion : Type 0 where
  decimal : Conversion
  unsigned : Conversion
  octal : Conversion
  hex : Conversion

unfoldable pub letter : Conversion → ℕ
letter decimal = b'd'
letter unsigned = b'u'
letter octal = b'o'
letter hex = b'x'

unfoldable pub numeral : ℕ → ℕ → List ℕ
numeral base num = map digit_char (digits 64 num base)

-- What a conversion makes of a word: the numeral, with a minus where an `int` is negative.
unfoldable pub converted : Conversion → ℕ → List ℕ
converted decimal w = if ltb w (2 ^ 31) then numeral 10 w else b'-' ∷ numeral 10 (2 ^ 32 - w)
converted unsigned w = numeral 10 w
converted octal w = numeral 8 w
converted hex w = numeral 16 w

-- The same with a fill: zeros or blanks up to a width.
unfoldable pub filled : ℕ → ℤ → Conversion → ℕ → List ℕ
filled padc width decimal w =
    if ltb w (2 ^ 31)
    then padded (digits 64 w 10) width padc
    else b'-' ∷ padded (digits 64 (2 ^ 32 - w) 10) width padc
filled padc width unsigned w = padded (digits 64 w 10) width padc
filled padc width octal w = padded (digits 64 w 8) width padc
filled padc width hex w = padded (digits 64 w 16) width padc

abbrev pub filling : ℕ → ℤ → Flags
filling padc width = record fresh { padc = padc; width = width }

pub filled_fresh : (c : Conversion) (w : ℕ) → filled b' ' (negsuc 0) c w ≡ converted c w
unfolding filled converted numeral padded width_minus
filled_fresh decimal w = refl
filled_fresh unsigned w = refl
filled_fresh octal w = refl
filled_fresh hex w = refl

put_number_of :
    (before out : List ℕ) (num base fmt : ℕ) (g : Flags) (va : List ℕ)
    → printnum 64 num base g.width g.padc ≡ some out
    → put_number before num base g fmt va ≡ resume (before ++ out) fmt va
unfolding put_number
put_number_of before out num base fmt g va e = rw (put_number, e) refl

put_number-padded :
    (before : List ℕ) (num base fmt : ℕ) (g : Flags) (va : List ℕ)
    → 2 ≤ base
    → base ≤ 16
    → num < 2 ^ 64
    → put_number before num base g fmt va
      ≡ resume (before ++ padded (digits 64 num base) g.width g.padc) fmt va
put_number-padded before num base fmt g va h le lt =
    put_number_of before (padded (digits 64 num base) g.width g.padc) num base fmt g va
      (printnum-padded 63 num base g.width g.padc h le lt)

switch_decimal :
    (f : ℕ) (m : Memory) (fmt w padc : ℕ) (width : ℤ) (va : List ℕ)
    → w < 2 ^ 32
    → switch f m b'd' fmt (w ∷ va) (filling padc width)
      ≡ resume (filled padc width decimal w) fmt va
unfolding switch filled getint
switch_decimal f m fmt w padc width va lt = elim (Bool-cases (ltb w (2 ^ 31))) [
  | inl small ↦
      let wide : leb (2 ^ 63) w ≡ false = ground arith in
      rw (small, wide)
        (put_number-padded [] w 10 fmt (filling padc width) va (omega arith) (omega arith)
          (omega arith))
  | inr large ↦
      let wide : leb (2 ^ 63) (w + (2 ^ 64 - 2 ^ 32)) ≡ true = ground arith in
      let less : 2 ^ 64 - (w + (2 ^ 64 - 2 ^ 32)) ≡ 2 ^ 32 - w = omega arith in
      rw (large, wide, less)
        (put_number-padded (b'-' ∷ []) (2 ^ 32 - w) 10 fmt (filling padc width) va (omega arith)
          (omega arith) (omega arith))
]

switch_unsigned :
    (f : ℕ) (m : Memory) (fmt w padc : ℕ) (width : ℤ) (va : List ℕ)
    → w < 2 ^ 32
    → (switch f m b'u' fmt (w ∷ va) (filling padc width)
        ≡ resume (filled padc width unsigned w) fmt va)
      × (switch f m b'o' fmt (w ∷ va) (filling padc width)
          ≡ resume (filled padc width octal w) fmt va)
      × (switch f m b'x' fmt (w ∷ va) (filling padc width)
          ≡ resume (filled padc width hex w) fmt va)
unfolding switch filled getuint
switch_unsigned f m fmt w padc width va lt =
    let g : Flags = filling padc width in
    (
      put_number-padded [] w 10 fmt g va (omega arith) (omega arith) (omega arith),
      put_number-padded [] w 8 fmt g va (omega arith) (omega arith) (omega arith),
      put_number-padded [] w 16 fmt g va (omega arith) (omega arith) (omega arith),
    )

pub switch-filled :
    (c : Conversion) (f : ℕ) (m : Memory) (fmt w padc : ℕ) (width : ℤ) (va : List ℕ)
    → w < 2 ^ 32
    → switch f m (letter c) fmt (w ∷ va) (filling padc width)
      ≡ resume (filled padc width c w) fmt va
unfolding letter
switch-filled decimal f m fmt w padc width va lt = switch_decimal f m fmt w padc width va lt
switch-filled unsigned f m fmt w padc width va lt = (switch_unsigned f m fmt w padc width va lt).0
switch-filled octal f m fmt w padc width va lt = (switch_unsigned f m fmt w padc width va lt).1
switch-filled hex f m fmt w padc width va lt = (switch_unsigned f m fmt w padc width va lt).2

pub switch-converted :
    (c : Conversion) (f : ℕ) (m : Memory) (fmt w : ℕ) (va : List ℕ)
    → w < 2 ^ 32
    → switch f m (letter c) fmt (w ∷ va) fresh ≡ resume (converted c w) fmt va
switch-converted c f m fmt w va lt =
    switch-filled c f m fmt w b' ' (negsuc 0) va lt
    ∙ ap (λ out. resume out fmt va) (filled_fresh c w)

pub format_escape :
    (f : ℕ) (m : Memory) (s fmt : ℕ) (va va' out : List ℕ)
    → m s ≡ b'%'
    → switch f m (m (s + 1)) (s + 1 + 1) va fresh ≡ resume out fmt va'
    → format (suc (suc f)) m plain s va ≡ behind out (format f m plain fmt va')
unfolding format
format_escape f m s fmt va va' out e ran =
    let t : (m s == b'%') ≡ true = ground arith in rw (t, ran) refl

-- A format without `%` is put as it is, up to its NUL, in as many rounds as it has characters and
-- one more.
pub vprintfmt_text :
    (f : ℕ) (m : Memory) (s : ℕ) (xs va : List ℕ)
    → PlainAt m s xs
    → m (s + length xs) ≡ 0
    → vprintfmt (length xs + suc f) m s va ≡ Printed.done xs
unfolding vprintfmt
vprintfmt_text f m s xs va h e =
    format_plain (suc f) m s xs va h
    ∙ ap (behind xs) (format_end f m (s + length xs) va e)
    ∙ behind_ends xs

-- Plain text and then `%d`, `%u`, `%o` or `%x`: `vprintfmt` puts the text, then the numeral of the
-- next word of the arguments in the base of the conversion, for `%d` that of its value as an `int`,
-- and goes on behind the conversion with the other arguments.
pub vprintfmt_convert :
    (c : Conversion) (f : ℕ) (m : Memory) (s w : ℕ) (xs va : List ℕ)
    → PlainAt m s xs
    → m (s + length xs) ≡ b'%'
    → m (s + length xs + 1) ≡ letter c
    → w < 2 ^ 32
    → vprintfmt (length xs + suc (suc f)) m s (w ∷ va)
      ≡ behind (xs ++ converted c w) (vprintfmt f m (s + length xs + 1 + 1) va)
unfolding vprintfmt
vprintfmt_convert c f m s w xs va h percent at lt =
    format_plain (suc (suc f)) m s xs (w ∷ va) h
    ∙ ap (behind xs) (
        format_escape f m (s + length xs) (s + length xs + 1 + 1) (w ∷ va) va (converted c w)
          percent
          (ap (λ ch. switch f m ch (s + length xs + 1 + 1) (w ∷ va) fresh) at
            ∙ switch-converted c f m (s + length xs + 1 + 1) w va lt))
    ∙ behind-append xs (converted c w) (format f m plain (s + length xs + 1 + 1) va)
