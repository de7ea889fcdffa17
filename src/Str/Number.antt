-- ===== src/Str/Number.antt =====
-- lib/string.c: strtol. `val` is a `long`, whose arithmetic wraps here where it overflows; the
-- base is at least 0. The loops take fuel, and `none` means that it ran out.
pub mod RoundTrip
use jos_ece.Prelude.{
  ℕ, zero, suc, ◌+◌, ◌-◌, ◌*◌, ◌%◌, ◌^◌, ◌≤◌, ◌<◌, ◌≡◌, ◌≢◌, ◌∙◌, refl, sym, ap, List, [], ◌∷◌,
  ◌++◌, map, length, Option, none, some, Bool, true, false, ◌&&◌, ◌||◌, Bool-cases, inl, inr, arith,
  ltb, leb, ◌==◌, if◌then◌else◌,
}
use jos_ece.Memory.{Memory}

unfoldable pub skip_blanks : ℕ → Memory → ℕ → Option ℕ
skip_blanks zero m s = none
skip_blanks (suc f) m s =
    let rest = skip_blanks f m (s + 1) in if m s == b' ' || m s == b'\t' then rest else some s

-- Behind the sign, and whether it is a minus.
unfoldable pub read_sign : Memory → ℕ → ℕ × Bool
read_sign m s =
    if m s == b'+' then (s + 1, false) else if m s == b'-' then (s + 1, true) else (s, false)

-- Behind the prefix, and the base.
unfoldable pub read_prefix : Memory → ℕ → ℕ → ℕ × ℕ
read_prefix m s base =
    if (base == 0 || base == 16) && (m s == b'0' && m (s + 1) == b'x')
    then (s + 2, 16)
    else if base == 0 && m s == b'0'
    then (s + 1, 8)
    else if base == 0
    then (s, 10)
    else (s, base)

-- The digit that a character stands for.
unfoldable pub digit_of : ℕ → Option ℕ
digit_of c =
    if leb b'0' c && leb c b'9'
    then some (c - b'0')
    else if leb b'a' c && leb c b'z'
    then some (c - b'a' + 10)
    else if leb b'A' c && leb c b'Z'
    then some (c - b'A' + 10)
    else none

-- What a character adds to the number, in the base.
unfoldable pub next_digit : ℕ → ℕ → Option ℕ
unfolding digit_of
next_digit base c = elim (digit_of c) [
  | none ↦ none
  | some dig ↦ if leb base dig then none else some dig
]

-- The place behind the digits, and the number.
unfoldable pub read_digits : ℕ → Memory → ℕ → ℕ → ℕ → Option (ℕ × ℕ)
unfolding next_digit
read_digits zero m s base val = none
read_digits (suc f) m s base val = elim (next_digit base (m s)) [
  | none ↦ some (s, val)
  | some dig ↦ read_digits f m (s + 1) base ((val * base + dig) % 2 ^ 32)
]

-- `*endptr` and the result, in the 32-bit pattern.
unfoldable pub strtol : ℕ → Memory → ℕ → ℕ → Option (ℕ × ℕ)
unfolding skip_blanks read_sign read_prefix read_digits
strtol f m s base = elim (skip_blanks f m s) [
  | none ↦ none
  | some s1 ↦
      let (s2, neg) = read_sign m s1 in
      let (s3, base') = read_prefix m s2 base in
      elim (read_digits f m s3 base' 0) [
        | none ↦ none
        | some (end, val) ↦ some (end, if neg then (2 ^ 32 - val) % 2 ^ 32 else val)
      ]
]
