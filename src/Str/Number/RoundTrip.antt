-- ===== src/Str/Number/RoundTrip.antt =====
-- lib/string.c: strtol on the digits of printnum in lib/printfmt.c.
use jos_ece.Prelude.{
  ℕ, zero, suc, ◌+◌, ◌-◌, ◌*◌, ◌/◌, ◌%◌, ◌^◌, ◌≤◌, ◌<◌, ◌≡◌, ◌≢◌, ◌∙◌, refl, sym, ap, List, [], ◌∷◌,
  map, length, length-append, length-map, subst, some, false, arith, ltb, if◌then◌else◌,
}
use jos_ece.Prelude.Int.{pos}
use jos_ece.Memory.{Memory, StrAt}
use jos_ece.Str.Number.{skip_blanks, read_sign, read_prefix, next_digit, read_digits, strtol}
use jos_ece.Format.Number.{
  digit_char, hex_char, digit_char_lem, digits, value, Below, value-digits, digits-Below, padded,
  width_minus, printnum, printnum-padded,
}

next_digit-digit_char :
    (base d : ℕ) → d < base → base ≤ 16 → next_digit base (digit_char d) ≡ some d
unfolding next_digit hex_char
next_digit-digit_char base d lt h = rw (digit_char_lem d (omega arith)) (ground arith)

value-le : (base v : ℕ) (ds : List ℕ) → 1 ≤ base → v ≤ value base v ds
unfolding value
value-le base v [] h = omega arith
value-le base v (d ∷ ds) h = grind (arith, value-le base (v * base + d) ds h)

read_digits_step :
    (f : ℕ) (m : Memory) (s base v d : ℕ)
    → next_digit base (m s) ≡ some d
    → read_digits (suc f) m s base v ≡ read_digits f m (s + 1) base ((v * base + d) % 2 ^ 32)
unfolding read_digits
read_digits_step f m s base v d e = rw (read_digits, e) refl

read_digits-value :
    (f : ℕ) (m : Memory) (s base v : ℕ) (ds : List ℕ)
    → 1 ≤ base
    → base ≤ 16
    → Below base ds
    → StrAt m s (map digit_char ds)
    → length ds < f
    → value base v ds < 2 ^ 32
    → read_digits f m s base v ≡ some (s + length ds, value base v ds)
unfolding read_digits value
read_digits-value zero m s base v ds h1 h16 below str lt small = elim lt [ ]
read_digits-value (suc f) m s base v [] h1 h16 below str lt small = ground (arith, str)
read_digits-value (suc f) m s base v (d ∷ ds) h1 h16 (db, below) (e, ne, str) lt small =
    let here : next_digit base (m s) ≡ some d = rw e (next_digit-digit_char base d db h16) in
    let le : value base (v * base + d) ds < 2 ^ 32 = small in
    let fits : v * base + d < 2 ^ 32 = omega (arith, value-le base (v * base + d) ds h1) in
    let wrap : (v * base + d) % 2 ^ 32 ≡ v * base + d = omega arith in
    let at : s + suc (length ds) ≡ s + 1 + length ds = omega arith in
    read_digits_step f m s base v d here
    ∙ rw (wrap, at)
        (read_digits-value f m (s + 1) base (v * base + d) ds h1 h16 below str (omega arith) le)

skip_none :
    (f : ℕ) (m : Memory) (s d : ℕ) → m s ≡ digit_char d → d < 16 → skip_blanks (suc f) m s ≡ some s
unfolding skip_blanks hex_char
skip_none f m s d e lt = ground (arith, digit_char_lem d lt)

sign_none : (m : Memory) (s d : ℕ) → m s ≡ digit_char d → d < 16 → read_sign m s ≡ (s, false)
unfolding read_sign hex_char
sign_none m s d e lt = ground (arith, digit_char_lem d lt)

digit_char-not_x : (d : ℕ) → d < 16 → digit_char d ≢ b'x'
unfolding hex_char
digit_char-not_x d lt = ground (arith, digit_char_lem d lt)

prefix_none :
    (m : Memory) (s base : ℕ) → base ≢ 0 → m (s + 1) ≢ b'x' → read_prefix m s base ≡ (s, base)
unfolding read_prefix
prefix_none m s base nz nx = ground arith

second_not_x :
    (m : Memory) (s base : ℕ) (ds : List ℕ)
    → base ≤ 16
    → Below base ds
    → StrAt m s (map digit_char ds)
    → m s ≢ b'x'
second_not_x m s base [] h16 below str = ground arith
second_not_x m s base (d ∷ ds) h16 (db, below) (e, ne, str) =
    rw e (digit_char-not_x d (omega arith))

strtol_steps :
    (f : ℕ) (m : Memory) (s base s1 s2 s3 base' end val : ℕ)
    → skip_blanks f m s ≡ some s1
    → read_sign m s1 ≡ (s2, false)
    → read_prefix m s2 base ≡ (s3, base')
    → read_digits f m s3 base' 0 ≡ some (end, val)
    → strtol f m s base ≡ some (end, val)
unfolding strtol
strtol_steps f m s base s1 s2 s3 base' end val skip sign pre read =
    rw (strtol, skip, sign, pre, read, sign) refl

strtol-value :
    (f : ℕ) (m : Memory) (s base d : ℕ) (ds : List ℕ)
    → 1 ≤ base
    → base ≤ 16
    → Below base (d ∷ ds)
    → StrAt m s (map digit_char (d ∷ ds))
    → length (d ∷ ds) < suc f
    → value base 0 (d ∷ ds) < 2 ^ 32
    → strtol (suc f) m s base ≡ some (s + length (d ∷ ds), value base 0 (d ∷ ds))
strtol-value f m s base d ds h1 h16 (db, below) (e, ne, str) lt small =
    strtol_steps (suc f) m s base s s s base (s + length (d ∷ ds)) (value base 0 (d ∷ ds))
      (skip_none f m s d e (omega arith)) (sign_none m s d e (omega arith))
      (prefix_none m s base (λ z. omega arith) (second_not_x m (s + 1) base ds h16 below str))
      (read_digits-value (suc f) m s base 0 (d ∷ ds) h1 h16 (db, below) (e, ne, str) lt small)

digits-nonempty : (f num base : ℕ) → length (digits (suc f) num base) ≡ 0 → ⊥
unfolding digits
digits-nonempty f num base e =
    absurd (omega (arith, sym (length-append front (num % base ∷ [])) ∙ e))
  where
    front : List ℕ
    front = if ltb num base then [] else digits f (num / base) base

padded_none : (ds : List ℕ) (padc : ℕ) → padded ds (pos 0) padc ≡ map digit_char ds
unfolding padded width_minus
padded_none ds padc = rw (zero-sub (length ds)) refl
  where
    zero-sub : (k : ℕ) → 0 - k ≡ 0
    zero-sub k = omega arith

nonempty_string :
    (f : ℕ) (m : Memory) (s base : ℕ) (ds : List ℕ)
    → (length ds ≡ 0 → ⊥)
    → 1 ≤ base
    → base ≤ 16
    → Below base ds
    → StrAt m s (map digit_char ds)
    → length ds < f
    → value base 0 ds < 2 ^ 32
    → strtol f m s base ≡ some (s + length ds, value base 0 ds)
nonempty_string zero m s base ds ne h1 h16 below str lt small = elim lt [ ]
nonempty_string (suc f) m s base [] ne h1 h16 below str lt small = absurd (ne refl)
nonempty_string (suc f) m s base (d ∷ ds) ne h1 h16 below str lt small =
    strtol-value f m s base d ds h1 h16 below str lt small

-- In every base from 2 to 16, where `printnum` prints a 32-bit number with no width and the
-- characters stand in memory as a string, `strtol` in that base reads the number back, and leaves
-- `*endptr` at the NUL; fuel above the length is enough.
pub strtol-printnum :
    (f : ℕ) (m : Memory) (s num base padc : ℕ) (out : List ℕ)
    → 2 ≤ base
    → base ≤ 16
    → num < 2 ^ 32
    → printnum 64 num base (pos 0) padc ≡ some out
    → StrAt m s out
    → length out < f
    → strtol f m s base ≡ some (s + length out, num)
strtol-printnum f m s num base padc out h2 h16 small ran str lt =
    let ds : List ℕ = digits 64 num base in
    let is : out ≡ map digit_char ds =
      some_inj (sym ran ∙ printnum-padded 63 num base (pos 0) padc h2 (omega arith) (omega arith))
      ∙ padded_none ds padc in
    let len : length out ≡ length ds = ap length is ∙ length-map ds digit_char in
    let v : value base 0 ds ≡ num = value-digits 64 num base h2 (omega arith) in
    rw len (
      nonempty_string f m s base ds (digits-nonempty 63 num base) (omega arith) h16
        (digits-Below 64 num base (omega arith)) (subst (StrAt m s) is str) (omega arith)
        (omega (arith, v))
      ∙ ap (λ n. some (s + length ds, n)) v)
  where
    some_inj : {a b : List ℕ} → some a ≡ some b → a ≡ b
    some_inj e = cc e
