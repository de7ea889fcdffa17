-- ===== src/Format/Print/Pieces.antt =====
-- lib/printfmt.c: vprintfmt on a whole format, as a list of the pieces that it is made of.
use jos_ece.Prelude.{
  ℕ, suc, ◌+◌, ◌-◌, ◌^◌, ◌<◌, ◌≡◌, ◌≢◌, ◌∙◌, refl, ap, List, [], ◌∷◌, ◌++◌, map, length,
  length-append, length-map, arith, Bool, true, false, not, ◌&&◌, ◌==◌, ℕ_discrete,
}
use jos_ece.Prelude.Int.{pos, negsuc}
use jos_ece.Memory.{Memory, StrAt}
use jos_ece.Format.Text.{sign_extend}
use jos_ece.Format.Print.{
  Flags, Printed, plain, escape, behind, fresh, format, vprintfmt, switch, reswitch, resume,
}
use jos_ece.Format.Print.Convert.{
  Conversion, letter, converted, filled, filling, switch-converted, switch-filled, format_one,
  format_end,
}
use jos_ece.Format.Print.Escapes.{
  CharsAt, switch-string, switch-counted, switch_dot, switch_star, switch_zero, switch_width,
  counted_flags, switch_percent, switch_character,
}

-- A character of the format that is not a `%`; `%%`; `%c`; `%d`, `%u`, `%o` or `%x` with its word;
-- one of those with a `0` and a width of one digit; `%s` with the string's address and characters;
-- `%.*s` with the address of its characters.
pub data Piece : Type 0 where
  verbatim : ℕ → Piece
  percent : Piece
  character : ℕ → Piece
  number : Conversion → ℕ → Piece
  zeros : ℕ → Conversion → ℕ → Piece
  string : ℕ → List ℕ → Piece
  counted : ℕ → List ℕ → Piece

-- The format that the pieces spell.
unfoldable pub spelled : List Piece → List ℕ
spelled [] = []
spelled (verbatim c ∷ ps) = c ∷ spelled ps
spelled (percent ∷ ps) = b'%' ∷ b'%' ∷ spelled ps
spelled (character w ∷ ps) = b'%' ∷ b'c' ∷ spelled ps
spelled (number c w ∷ ps) = b'%' ∷ letter c ∷ spelled ps
spelled (zeros d c w ∷ ps) = b'%' ∷ b'0' ∷ (b'0' + d) ∷ letter c ∷ spelled ps
spelled (string p cs ∷ ps) = b'%' ∷ b's' ∷ spelled ps
spelled (counted p cs ∷ ps) = b'%' ∷ b'.' ∷ b'*' ∷ b's' ∷ spelled ps

-- The words of the argument list.
unfoldable pub words : List Piece → List ℕ
words [] = []
words (verbatim c ∷ ps) = words ps
words (percent ∷ ps) = words ps
words (character w ∷ ps) = w ∷ words ps
words (number c w ∷ ps) = w ∷ words ps
words (zeros d c w ∷ ps) = w ∷ words ps
words (string p cs ∷ ps) = p ∷ words ps
words (counted p cs ∷ ps) = length cs ∷ p ∷ words ps

-- What the pieces stand for.
unfoldable pub output : List Piece → List ℕ
output [] = []
output (verbatim c ∷ ps) = c ∷ output ps
output (percent ∷ ps) = b'%' ∷ output ps
output (character w ∷ ps) = w ∷ output ps
output (number c w ∷ ps) = converted c w ++ output ps
output (zeros d c w ∷ ps) = filled b'0' (pos d) c w ++ output ps
output (string p cs ∷ ps) = map sign_extend cs ++ output ps
output (counted p cs ∷ ps) = map sign_extend cs ++ output ps

-- The pieces are such, words have 32 bits, and the strings stand where they should.
unfoldable pub Given : Memory → List Piece → Type 0
Given m [] = Unit
Given m (verbatim c ∷ ps) = (c ≢ b'%') × Given m ps
Given m (percent ∷ ps) = Given m ps
Given m (character w ∷ ps) = Given m ps
Given m (number c w ∷ ps) = (w < 2 ^ 32) × Given m ps
Given m (zeros d c w ∷ ps) = (0 < d) × (d < 10) × (w < 2 ^ 32) × Given m ps
Given m (string p cs ∷ ps) = StrAt m p cs × (p ≢ 0) × Given m ps
Given m (counted p cs ∷ ps) = CharsAt m p cs × (p ≢ 0) × (length cs < 2 ^ 31) × Given m ps

-- Text of the format, in front of more pieces.
unfoldable pub verbatims : List ℕ → List Piece → List Piece
verbatims [] ps = ps
verbatims (c ∷ cs) ps = verbatim c ∷ verbatims cs ps

unfoldable pub no_percent : List ℕ → Bool
no_percent [] = true
no_percent (c ∷ cs) = not (c == b'%') && no_percent cs

pub Given-verbatims :
    (m : Memory) (cs : List ℕ) (ps : List Piece)
    → no_percent cs ≡ true
    → Given m ps
    → Given m (verbatims cs ps)
unfolding Given verbatims no_percent
Given-verbatims m [] ps h g = g
Given-verbatims m (c ∷ cs) ps h g = elim (ℕ_discrete c b'%') [
  | yes e ↦ ground arith
  | no ne ↦
      let t : (c == b'%') ≡ false = ground arith in
      (ne, Given-verbatims m cs ps (rw (← h, t) refl) g)
]

format_enter :
    (f : ℕ) (m : Memory) (s : ℕ) (va : List ℕ)
    → m s ≡ b'%'
    → format (suc f) m plain s va ≡ format f m (escape fresh) (s + 1) va
unfolding format
format_enter f m s va e = let t : (m s == b'%') ≡ true = ground arith in rw t refl

format_flag :
    (f : ℕ) (m : Memory) (s ch : ℕ) (va va' : List ℕ) (g g' : Flags)
    → m s ≡ ch
    → switch f m ch (s + 1) va g ≡ reswitch g' (s + 1) va'
    → format (suc f) m (escape g) s va ≡ format f m (escape g') (s + 1) va'
unfolding format
format_flag f m s ch va va' g g' e ran = rw (format, e, ran) refl

format_last :
    (f : ℕ) (m : Memory) (s ch : ℕ) (va va' out : List ℕ) (g : Flags)
    → m s ≡ ch
    → switch f m ch (s + 1) va g ≡ resume out (s + 1) va'
    → format (suc f) m (escape g) s va ≡ behind out (format f m plain (s + 1) va')
unfolding format
format_last f m s ch va va' out g e ran = rw (format, e, ran) refl

format_short :
    (f : ℕ) (m : Memory) (s ch : ℕ) (va va' out : List ℕ)
    → m s ≡ b'%'
    → m (s + 1) ≡ ch
    → switch f m ch (s + 1 + 1) va fresh ≡ resume out (s + 1 + 1) va'
    → format (suc (suc f)) m plain s va ≡ behind out (format f m plain (s + 1 + 1) va')
format_short f m s ch va va' out e1 e2 ran =
    format_enter (suc f) m s va e1 ∙ format_last f m (s + 1) ch va va' out fresh e2 ran

at_fuel :
    {f f' : ℕ} (m : Memory) (s : ℕ) (va : List ℕ) {r : Printed}
    → f ≡ f'
    → format f' m plain s va ≡ r
    → format f m plain s va ≡ r
at_fuel {f} {f'} m s va {r} e h = ap (λ n. format n m plain s va) e ∙ h

shorter :
    (out : List ℕ) (ps : List Piece) (f : ℕ)
    → length (out ++ output ps) < f
    → (length out < f) × (length (output ps) < f)
shorter out ps f lt = let e = length-append out (output ps) in (omega (arith, e), omega (arith, e))

-- One round of the format for each of its characters, and `f` rounds behind.
format-Pieces :
    (ps : List Piece) (f : ℕ) (m : Memory) (s : ℕ)
    → StrAt m s (spelled ps)
    → Given m ps
    → length (output ps) < f
    → format (length (spelled ps) + f) m plain s (words ps) ≡ Printed.done (output ps)
unfolding spelled words output Given behind
format-Pieces [] f m s e g lt = at_fuel m s _ (omega (arith, lt)) (format_end (f - 1) m s [] e)
format-Pieces (verbatim c ∷ ps) f m s (e, nz, str) (np, g) lt = at_fuel m s _ (omega arith) (
    format_one (length (spelled ps) + f) m s c (words ps) e nz np
    ∙ ap (behind (c ∷ [])) (format-Pieces ps f m (s + 1) str g (omega arith)))
format-Pieces (percent ∷ ps) f m s (e1, n1, (e2, n2, str)) g lt = at_fuel m s _ (omega arith) (
    format_short (length (spelled ps) + f) m s b'%' (words ps) (words ps) (b'%' ∷ []) e1 e2
      (switch_percent (length (spelled ps) + f) m (s + 1 + 1) (words ps))
    ∙ ap (behind (b'%' ∷ [])) (format-Pieces ps f m (s + 1 + 1) str g (omega arith)))
format-Pieces (character w ∷ ps) f m s (e1, n1, (e2, n2, str)) g lt = at_fuel m s _ (omega arith) (
    format_short (length (spelled ps) + f) m s b'c' (w ∷ words ps) (words ps) (w ∷ []) e1 e2
      (switch_character (length (spelled ps) + f) m w (s + 1 + 1) (words ps))
    ∙ ap (behind (w ∷ [])) (format-Pieces ps f m (s + 1 + 1) str g (omega arith)))
format-Pieces (number c w ∷ ps) f m s (e1, n1, (e2, n2, str)) (small, g) lt =
    let f' : ℕ = length (spelled ps) + f in
    at_fuel m s _ (omega arith) (
      format_short f' m s (letter c) (w ∷ words ps) (words ps) (converted c w) e1 e2
        (switch-converted c f' m (s + 1 + 1) w (words ps) small)
      ∙ ap (behind (converted c w))
          (format-Pieces ps f m (s + 1 + 1) str g (shorter (converted c w) ps f lt).1))
format-Pieces (zeros d c w ∷ ps) f m s (e1, n1, (e2, n2, (e3, n3, (e4, n4, str))))
      (nz, dd, small, g) lt =
    let f' : ℕ = length (spelled ps) + f in
    let out : List ℕ = filled b'0' (pos d) c w in
    let va : List ℕ = w ∷ words ps in
    at_fuel m s _ (omega arith) (
      format_enter (suc (suc (suc f'))) m s va e1
      ∙ format_flag (suc (suc f')) m (s + 1) b'0' va va fresh (filling b'0' (negsuc 0)) e2
          (switch_zero (suc (suc f')) m (s + 1 + 1) va)
      ∙ format_flag (suc f') m (s + 1 + 1) (b'0' + d) va va (filling b'0' (negsuc 0))
          (filling b'0' (pos d)) e3 (switch_width f' m (s + 1 + 1 + 1) d va c nz dd e4)
      ∙ format_last f' m (s + 1 + 1 + 1) (letter c) va (words ps) out (filling b'0' (pos d)) e4
          (switch-filled c f' m (s + 1 + 1 + 1 + 1) w b'0' (pos d) (words ps) small)
      ∙ ap (behind out) (format-Pieces ps f m (s + 1 + 1 + 1 + 1) str g (shorter out ps f lt).1))
format-Pieces (string p cs ∷ ps) f m s (e1, n1, (e2, n2, str)) (at, nz, g) lt =
    let f' : ℕ = length (spelled ps) + f in
    let out : List ℕ = map sign_extend cs in
    let (fits, rest) = shorter out ps f lt in
    at_fuel m s _ (omega arith) (
      format_short f' m s b's' (p ∷ words ps) (words ps) out e1 e2 (
        switch-string f' m p cs (s + 1 + 1) (words ps) at nz
          (omega (arith, length-map cs sign_extend)))
      ∙ ap (behind out) (format-Pieces ps f m (s + 1 + 1) str g rest))
format-Pieces (counted p cs ∷ ps) f m s (e1, n1, (e2, n2, (e3, n3, (e4, n4, str))))
      (at, nz, small, g) lt =
    let f' : ℕ = length (spelled ps) + f in
    let out : List ℕ = map sign_extend cs in
    let va : List ℕ = length cs ∷ p ∷ words ps in
    let dot : Flags = record fresh { width = pos 0 } in
    let (fits, rest) = shorter out ps f lt in
    at_fuel m s _ (omega arith) (
      format_enter (suc (suc (suc f'))) m s va e1
      ∙ format_flag (suc (suc f')) m (s + 1) b'.' va va fresh dot e2
          (switch_dot (suc (suc f')) m (s + 1 + 1) va)
      ∙ format_flag (suc f') m (s + 1 + 1) b'*' va (p ∷ words ps) dot (counted_flags (length cs)) e3
          (switch_star (suc f') m (length cs) (s + 1 + 1 + 1) (p ∷ words ps) small)
      ∙ format_last f' m (s + 1 + 1 + 1) b's' (p ∷ words ps) (words ps) out
          (counted_flags (length cs)) e4
          (switch-counted f' m p cs (s + 1 + 1 + 1 + 1) (words ps) at nz
            (omega (arith, length-map cs sign_extend)))
      ∙ ap (behind out) (format-Pieces ps f m (s + 1 + 1 + 1 + 1) str g rest))

-- `vprintfmt` on a format that stands in memory and is made of text, `%%`, `%c`, the conversions
-- `%d`, `%u`, `%o` and `%x`, those with a zero and a width of one digit, `%s` and `%.*s`: it ends,
-- with fuel above the length of the format and of what it puts, and puts piece by piece the text,
-- the numerals and the strings that the argument list has for them, in their order. An `int` of
-- `%d` and a precision of `%.*s` are taken from 32-bit words, the precision below 2^31; the strings
-- stand in memory, those of `%.*s` without a NUL in the part that is put.
pub vprintfmt-Pieces :
    (ps : List Piece) (f : ℕ) (m : Memory) (s : ℕ)
    → StrAt m s (spelled ps)
    → Given m ps
    → length (spelled ps) + length (output ps) < f
    → vprintfmt f m s (words ps) ≡ Printed.done (output ps)
unfolding vprintfmt
vprintfmt-Pieces ps f m s str g lt =
    at_fuel {f' = length (spelled ps) + (f - length (spelled ps))} m s _ (omega (arith, lt))
      (format-Pieces ps (f - length (spelled ps)) m s str g (omega arith))
