-- ===== src/Format/Print/Escapes.antt =====
-- lib/printfmt.c: what vprintfmt does with a text, a counted text and a filled number.
use jos_ece.Prelude.{
  ℕ, zero, suc, ◌+◌, ◌-◌, ◌%◌, ◌^◌, ◌<◌, ◌≡◌, ◌≢◌, refl, List, [], ◌∷◌, ◌++◌, map, length,
  append-nil, some, true, false, ◌&&◌, arith, ltb, leb, ◌==◌, replicate,
}
use jos_ece.Prelude.Int.{ℤ, pos, negsuc, pos_part}
use jos_ece.Memory.{Memory, StrAt}
use jos_ece.Format.Number.{decrement}
use jos_ece.Format.Text.{sign_extend, shown, put_chars, put_string, pad_left, signed32, next_char}
use jos_ece.Format.Args.{arg32}
use jos_ece.Format.Print.{Flags, fresh, switch, put_text, read_number, resume, reswitch}
use jos_ece.Format.Print.Convert.{Conversion, decimal, unsigned, octal, hex, letter, filling}

-- The characters `cs` stand at `p`, and a NUL is not among them.
abbrev pub CharsAt : Memory → ℕ → List ℕ → Type 0
CharsAt m p [] = Unit
CharsAt m p (c ∷ cs) = (m p ≡ c) × (c ≢ 0) × CharsAt m (p + 1) cs

decrement_spent : (w : ℤ) → pos_part w ≡ 0 → pos_part (decrement w) ≡ 0
unfolding decrement
decrement_spent (pos zero) h = refl
decrement_spent (pos (suc n)) h = ground arith
decrement_spent (negsuc n) h = refl

shown_plain : (c : ℕ) → shown false c ≡ sign_extend c
unfolding shown
shown_plain c = refl

-- Without a precision, all characters of a string are put.
put_chars-string :
    (f : ℕ) (m : Memory) (p : ℕ) (cs : List ℕ) (w : ℤ)
    → StrAt m p cs
    → length cs < f
    → pos_part w ≡ 0
    → (w' : ℤ) × (put_chars f m p (negsuc 0) false w ≡ some (map sign_extend cs, w'))
      × (pos_part w' ≡ 0)
unfolding put_chars
put_chars-string zero m p cs w str lt h = elim lt [ ]
put_chars-string (suc f) m p [] w e lt h =
    let t : (m p == 0) ≡ true = ground arith in (w, rw t refl, h)
put_chars-string (suc f) m p (c ∷ cs) w (e, ne, str) lt h =
    let (w', ran, spent) =
      put_chars-string f m (p + 1) cs (decrement w) str (omega arith) (decrement_spent w h) in
    let t : (m p == 0) ≡ false = ground arith in (w', rw (t, ran, shown_plain (m p), e) refl, spent)

-- As many as the precision says are put, where a NUL is not among them.
put_chars-counted :
    (f : ℕ) (m : Memory) (p : ℕ) (cs : List ℕ) (w : ℤ)
    → CharsAt m p cs
    → length cs < f
    → pos_part w ≡ 0
    → (w' : ℤ) × (put_chars f m p (pos (length cs)) false w ≡ some (map sign_extend cs, w'))
      × (pos_part w' ≡ 0)
unfolding put_chars next_char
put_chars-counted zero m p cs w str lt h = elim lt [ ]
put_chars-counted (suc f) m p [] w e lt h = (w, ground arith, h)
put_chars-counted (suc f) m p (c ∷ cs) w (e, ne, str) lt h =
    let (w', ran, spent) =
      put_chars-counted f m (p + 1) cs (decrement w) str (omega arith) (decrement_spent w h) in
    let t : (m p == 0) ≡ false = ground arith in (w', rw (t, ran, shown_plain (m p), e) refl, spent)

no_pads : (out : List ℕ) (w : ℤ) → pos_part w ≡ 0 → out ++ replicate (pos_part w) b' ' ≡ out
no_pads out w h = rw h (append-nil out)

put_text-string :
    (f : ℕ) (m : Memory) (p : ℕ) (cs : List ℕ) (fmt : ℕ) (va : List ℕ)
    → StrAt m p cs
    → length cs < f
    → put_text f m p fresh fmt va ≡ resume (map sign_extend cs) fmt va
unfolding put_text put_string pad_left
put_text-string f m p cs fmt va str lt =
    let (w, ran, spent) = put_chars-string f m p cs (negsuc 0) str lt refl in
    rw (put_text, put_string, pad_left, ran, no_pads (map sign_extend cs) w spent) refl

-- The flags behind `.*` with the argument `n`.
abbrev pub counted_flags : ℕ → Flags
counted_flags n = record fresh { width = pos 0; precision = pos n }

put_text-counted :
    (f : ℕ) (m : Memory) (p : ℕ) (cs : List ℕ) (fmt : ℕ) (va : List ℕ)
    → CharsAt m p cs
    → length cs < f
    → put_text f m p (counted_flags (length cs)) fmt va ≡ resume (map sign_extend cs) fmt va
unfolding put_text put_string pad_left
put_text-counted f m p cs fmt va str lt =
    let (w, ran, spent) = put_chars-counted f m p cs (pos 0) str lt refl in
    rw (put_text, put_string, pad_left, ran, no_pads (map sign_extend cs) w spent) refl

pub switch-string :
    (f : ℕ) (m : Memory) (p : ℕ) (cs : List ℕ) (fmt : ℕ) (va : List ℕ)
    → StrAt m p cs
    → p ≢ 0
    → length cs < f
    → switch f m b's' fmt (p ∷ va) fresh ≡ resume (map sign_extend cs) fmt va
unfolding switch arg32
switch-string f m p cs fmt va str nz lt =
    let t : (p == 0) ≡ false = ground arith in rw (t, put_text-string f m p cs fmt va str lt) refl

pub switch-counted :
    (f : ℕ) (m : Memory) (p : ℕ) (cs : List ℕ) (fmt : ℕ) (va : List ℕ)
    → CharsAt m p cs
    → p ≢ 0
    → length cs < f
    → switch f m b's' fmt (p ∷ va) (counted_flags (length cs)) ≡ resume (map sign_extend cs) fmt va
unfolding switch arg32
switch-counted f m p cs fmt va str nz lt =
    let t : (p == 0) ≡ false = ground arith in rw (t, put_text-counted f m p cs fmt va str lt) refl

-- `.` and then `*`, and a `0` and then one digit.
pub switch_dot :
    (f : ℕ) (m : Memory) (fmt : ℕ) (va : List ℕ)
    → switch f m b'.' fmt va fresh ≡ reswitch (record fresh { width = pos 0 }) fmt va
unfolding switch
switch_dot f m fmt va = refl

pub switch_star :
    (f : ℕ) (m : Memory) (n fmt : ℕ) (va : List ℕ)
    → n < 2 ^ 31
    → switch f m b'*' fmt (n ∷ va) (record fresh { width = pos 0 })
      ≡ reswitch (counted_flags n) fmt va
unfolding switch signed32 arg32
switch_star f m n fmt va lt = let t : ltb n (2 ^ 31) ≡ true = ground arith in rw t refl

pub switch_zero :
    (f : ℕ) (m : Memory) (fmt : ℕ) (va : List ℕ)
    → switch f m b'0' fmt va fresh ≡ reswitch (filling b'0' (negsuc 0)) fmt va
unfolding switch
switch_zero f m fmt va = refl

letter_no_digit : (c : Conversion) → (leb b'0' (letter c) && leb (letter c) b'9') ≡ false
unfolding letter
letter_no_digit decimal = refl
letter_no_digit unsigned = refl
letter_no_digit octal = refl
letter_no_digit hex = refl

read_digit :
    (f : ℕ) (m : Memory) (fmt d : ℕ) (c : Conversion)
    → d < 10
    → m fmt ≡ letter c
    → read_number (suc f) m fmt (b'0' + d) 0 ≡ some (d, fmt)
unfolding read_number
read_digit f m fmt d c lt e =
    let v : (0 + (b'0' + d) - b'0') % 2 ^ 32 ≡ d = omega arith in rw (e, letter_no_digit c, v) refl

pub switch_width :
    (f : ℕ) (m : Memory) (fmt d : ℕ) (va : List ℕ) (c : Conversion)
    → 0 < d
    → d < 10
    → m fmt ≡ letter c
    → switch (suc f) m (b'0' + d) fmt va (filling b'0' (negsuc 0))
      ≡ reswitch (filling b'0' (pos d)) fmt va
unfolding switch signed32
switch_width f m fmt d va c nz lt e =
    let t1 : (b'0' + d == b'-') ≡ false = ground arith in
    let t2 : (b'0' + d == b'0') ≡ false = ground arith in
    let t3 : (leb b'1' (b'0' + d) && leb (b'0' + d) b'9') ≡ true = ground arith in
    let t4 : ltb d (2 ^ 31) ≡ true = ground arith in
    rw (switch, t1, t2, t3, read_digit f m fmt d c lt e, t4) refl

pub switch_percent :
    (f : ℕ) (m : Memory) (fmt : ℕ) (va : List ℕ)
    → switch f m b'%' fmt va fresh ≡ resume (b'%' ∷ []) fmt va
unfolding switch
switch_percent f m fmt va = refl

pub switch_character :
    (f : ℕ) (m : Memory) (w fmt : ℕ) (va : List ℕ)
    → switch f m b'c' fmt (w ∷ va) fresh ≡ resume (w ∷ []) fmt va
unfolding switch arg32
switch_character f m w fmt va = refl
