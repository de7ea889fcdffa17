-- ===== src/Format/Text.antt =====
-- lib/printfmt.c: the `%s` case of vprintfmt, and the texts that the file holds. `width` and
-- `precision` are signed `int`s.
use jos_ece.Prelude.{
  ℕ, zero, suc, ◌+◌, ◌-◌, ◌%◌, ◌^◌, List, [], ◌∷◌, ◌++◌, replicate, get_or, Option, none, some,
  Bool, true, false, not, ◌&&◌, ◌||◌, ltb, leb, ◌==◌, if◌then◌else◌,
}
use Prim.Native.Char.{code}
use Prim.Native.String.{String}
use jos_ece.Prelude.Int.{ℤ, pos, negsuc, ◌-ℤ◌, pos_part, ltb_ℤ}
use jos_ece.Memory.{Memory}
use jos_ece.Str.Scan.{strnlen}
use jos_ece.Format.Number.{decrement}

-- The bytes of a text of the source, which is ASCII.
abbrev pub codes : String → List ℕ
codes String.[] = []
codes (String.◌∷◌ c s) = code c ∷ codes s

-- The memory of a string constant, which stands at address 0 of it.
unfoldable pub constant : List ℕ → Memory
constant cs a = get_or cs a 0

-- An `int` from its bit pattern, and back.
unfoldable pub signed32 : ℕ → ℤ
signed32 w = if ltb w (2 ^ 31) then pos w else negsuc (2 ^ 32 - w - 1)

unfoldable pub unsigned32 : ℤ → ℕ
unsigned32 (pos n) = n % 2 ^ 32
unsigned32 (negsuc n) = (2 ^ 32 - (n + 1)) % 2 ^ 32

-- A `char`, which is signed, as an `int` pattern.
unfoldable pub sign_extend : ℕ → ℕ
sign_extend b = if ltb b 128 then b else b + (2 ^ 32 - 256)

-- `altflag && (ch < ' ' || ch > '~')` puts a question mark.
unfoldable pub shown : Bool → ℕ → ℕ
unfolding sign_extend
shown altflag b = if altflag && (leb 128 b || ltb b b' ' || ltb b'~' b) then b'?' else sign_extend b

-- `precision < 0 || --precision >= 0`, with the precision after it.
unfoldable pub next_char : ℤ → Bool × ℤ
next_char (negsuc n) = (true, negsuc n)
next_char (pos zero) = (false, negsuc 0)
next_char (pos (suc n)) = (true, pos n)

-- The characters put, and what is left of the width.
unfoldable pub put_chars : ℕ → Memory → ℕ → ℤ → Bool → ℤ → Option (List ℕ × ℤ)
unfolding next_char shown decrement
put_chars zero m p precision altflag width = none
put_chars (suc f) m p precision altflag width =
    let (go_on, precision') = next_char precision in
    let rest = put_chars f m (p + 1) precision' altflag (decrement width) in
    if m p == 0
    then some ([], width)
    else if go_on
    then elim rest [ none ↦ none | some (out, w) ↦ some (shown altflag (m p) ∷ out, w) ]
    else some ([], width)

-- `for (width -= strnlen(p, precision); width > 0; width--) putch(padc)`, where it is reached.
unfoldable pub pad_left : Memory → ℕ → ℤ → ℤ → ℕ → List ℕ × ℤ
unfolding strnlen unsigned32 ◌-ℤ◌
pad_left m p width precision padc =
    let left = width -ℤ pos (strnlen m p (unsigned32 precision)) in
    if ltb_ℤ (pos 0) width && not (padc == b'-')
    then (replicate (pos_part left) padc, if ltb_ℤ (pos 0) left then pos 0 else left)
    else ([], width)

unfoldable pub put_string : ℕ → Memory → ℕ → ℤ → ℤ → ℕ → Bool → Option (List ℕ)
unfolding pad_left put_chars
put_string f m p width precision padc altflag =
    let (pads, width') = pad_left m p width precision padc in
    elim (put_chars f m p precision altflag width') [
      | none ↦ none
      | some (out, w) ↦ some (pads ++ out ++ replicate (pos_part w) b' ')
    ]
