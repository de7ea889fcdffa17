-- ===== src/Format/Print/Filled.antt =====
-- lib/printfmt.c: bounds on what number conversions put, and text in front of pieces.
use jos_ece.Prelude.{
  ℕ, zero, suc, ◌+◌, ◌-◌, ◌/◌, ◌%◌, ◌^◌, ◌≤◌, ◌≡◌, refl, ap, List, [], ◌∷◌, ◌++◌, map, length,
  replicate, length-append, length-map, length-replicate, ltb, arith, Bool-cases, inl, inr,
}
use jos_ece.Prelude.Int.{pos}
use jos_ece.Format.Number.{digits, digit_char, padded, width_minus}
use jos_ece.Format.Print.Convert.{
  Conversion, decimal, unsigned, octal, hex, filled, numeral, converted,
}
use jos_ece.Format.Print.Pieces.{Piece, verbatims, spelled, words, output}

length-digits : (f num base : ℕ) → length (digits f num base) ≤ f
unfolding digits
length-digits zero num base = omega arith
length-digits (suc f) num base = elim (Bool-cases (ltb num base)) [
  | inl small ↦ rw small (omega arith)
  | inr large ↦ rw large (
      omega (
        arith,
        length-digits f (num / base) base,
        length-append (digits f (num / base) base) (num % base ∷ []),
      ))
]

length-padded : (ds : List ℕ) (d padc : ℕ) → length (padded ds (pos d) padc) ≤ d + length ds
unfolding padded width_minus
length-padded ds d padc = omega (
  arith,
  length-append (replicate (d - length ds) padc) (map digit_char ds),
  length-replicate (d - length ds) padc,
  length-map ds digit_char,
)

-- A fill to a width of `d`, of a number of at most 64 digits.
pub length-filled : (d padc w : ℕ) (c : Conversion) → length (filled padc (pos d) c w) ≤ d + 65
unfolding filled
length-filled d padc w decimal = elim (Bool-cases (ltb w (2 ^ 31))) [
  | inl small ↦
      rw small (omega (arith, length-padded (digits 64 w 10) d padc, length-digits 64 w 10))
  | inr large ↦ rw large (
      omega
        (arith, length-padded (digits 64 (2 ^ 32 - w) 10) d padc, length-digits 64 (2 ^ 32 - w) 10))
]
length-filled d padc w unsigned =
    omega (arith, length-padded (digits 64 w 10) d padc, length-digits 64 w 10)
length-filled d padc w octal =
    omega (arith, length-padded (digits 64 w 8) d padc, length-digits 64 w 8)
length-filled d padc w hex =
    omega (arith, length-padded (digits 64 w 16) d padc, length-digits 64 w 16)

numeral_short : (num base : ℕ) → length (numeral base num) ≤ 64
unfolding numeral
numeral_short num base =
    omega (arith, length-map (digits 64 num base) digit_char, length-digits 64 num base)

pub length-converted : (c : Conversion) (w : ℕ) → length (converted c w) ≤ 65
unfolding converted
length-converted decimal w = elim (Bool-cases (ltb w (2 ^ 31))) [
  | inl small ↦ rw small (omega (arith, numeral_short w 10))
  | inr large ↦ rw large (omega (arith, numeral_short (2 ^ 32 - w) 10))
]
length-converted unsigned w = omega (arith, numeral_short w 10)
length-converted octal w = omega (arith, numeral_short w 8)
length-converted hex w = omega (arith, numeral_short w 16)

-- Text in front is spelled and put as it is, and takes no argument.
pub spelled-verbatims :
    (cs : List ℕ) (ps : List Piece) → spelled (verbatims cs ps) ≡ cs ++ spelled ps
unfolding spelled verbatims
spelled-verbatims [] ps = refl
spelled-verbatims (c ∷ cs) ps = ap (λ l. c ∷ l) (spelled-verbatims cs ps)

pub output-verbatims : (cs : List ℕ) (ps : List Piece) → output (verbatims cs ps) ≡ cs ++ output ps
unfolding output verbatims
output-verbatims [] ps = refl
output-verbatims (c ∷ cs) ps = ap (λ l. c ∷ l) (output-verbatims cs ps)

pub words-verbatims : (cs : List ℕ) (ps : List Piece) → words (verbatims cs ps) ≡ words ps
unfolding words verbatims
words-verbatims [] ps = refl
words-verbatims (c ∷ cs) ps = words-verbatims cs ps
