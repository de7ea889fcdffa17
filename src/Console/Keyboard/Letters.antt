-- ===== src/Console/Keyboard/Letters.antt =====
-- kern/console.c: the letter keys under the modifiers and the locks.
use jos_ece.Prelude.{
  ℕ, ◌+◌, ◌-◌, ◌<◌, ◌≡◌, arith, refl, get_or, Bool, true, ◌&&◌, bit_and, ltb, ◌==◌, if◌then◌else◌,
}
use jos_ece.Prelude.Bits.{all_below, all_below_at}
use jos_ece.Format.Text.{codes}
use jos_ece.Console.Keyboard.{shift_bit, ctl, capslock, scan}

-- The letters in the order of their keys, row by row.
abbrev pub letter : ℕ → ℕ
letter i = get_or (codes "qwertyuiopasdfghjklzxcvbnm") i 0

-- The scan codes of a row are consecutive.
abbrev pub key_of : ℕ → ℕ
key_of i = if ltb i 10 then 0x10 + i else if ltb i 19 then 0x1E + (i - 10) else 0x2C + (i - 19)

abbrev pub down : ℕ → ℕ → Bool
down bit shift = if bit_and shift bit == 0 then Bool.false else true

-- The control character with CTL, and else the capital letter with just one of SHIFT and caps lock.
abbrev pub typed : ℕ → ℕ → ℕ
typed c shift =
    if down ctl shift
    then c - 96
    else if down shift_bit shift
    then (if down capslock shift then c else c - 32)
    else if down capslock shift
    then c - 32
    else c

as_typed : ℕ → ℕ → Bool
as_typed i shift =
    let (c, after) = scan (key_of i) shift in (c == typed (letter i) shift) && (after == shift)

all_as_typed : all_below 64 (λ shift. all_below 26 (λ i. as_typed i shift)) ≡ true
unfolding as_typed scan all_below
all_as_typed = refl

both : (c d x y : ℕ) → ((c == x) && (d == y)) ≡ true → ◌≡◌ {A = ℕ × ℕ} (c, d) (x, y)
both c d x y h =
    let first : c ≡ x = ground arith in let second : d ≡ y = ground arith in rw (first, second) refl

-- Under every state of the modifiers and the locks, with no E0 before it, the key of a letter gives
-- the control character with CTL, else the capital letter with just one of SHIFT and caps lock,
-- else the small one, and leaves the state as it is.
pub scan-letter :
    (i shift : ℕ) → i < 26 → shift < 64 → scan (key_of i) shift ≡ (typed (letter i) shift, shift)
unfolding as_typed
scan-letter i shift hi hs =
    both (scan (key_of i) shift).0 (scan (key_of i) shift).1 (typed (letter i) shift) shift (
      all_below_at 26 (λ i. as_typed i shift) i hi
        (all_below_at 64 (λ shift. all_below 26 (λ i. as_typed i shift)) shift hs all_as_typed))
