-- ===== src/Prelude/Bits.antt =====
-- The bitwise operations at variables: the law for the lowest digit of each, from the digit
-- recursion that the native operation stands for, and the laws of masks and disjoint fields.
use Prim.Native.Nat.{
  ℕ, zero, suc, ◌+◌, ◌*◌, ◌/◌, ◌%◌, ◌^◌, ◌≤◌, ◌<◌, min, max, bit_and, bit_or, digits,
  bit_and-bitwise, bit_or-bitwise,
}
use mathlib.Core.Path.{◌≡◌, refl, ap, ◌∙◌}
use mathlib.Core.Bool.{Bool, true, ◌&&◌}
use native.Mathlib.Nat.{
  pow-suc, div-div-eq-div-mul, div-add-mod', mod-lt, mod-eq_of_lt, mul-add-mod_self_right,
}
use native.Mathlib.Omega.{arith}
use jos_ece.Prelude.Tests.{◌==◌, ==_iff}

-- A predicate checked at every number below a bound, by evaluation.
unfoldable pub all_below : ℕ → (ℕ → Bool) → Bool
all_below (suc k) test = all_below k test && test k
all_below zero test = true

pub all_below_at :
    (k : ℕ) (test : ℕ → Bool) (i : ℕ) → i < k → all_below k test ≡ true → test i ≡ true
unfolding all_below
all_below_at (suc k) test i lt all = ground (arith, all_below_at k test i)
all_below_at zero test i lt all = elim lt [ ]

-- An equation between two functions of a byte, from a run over all bytes.
pub byte_table :
    (f g : ℕ → ℕ) (x : ℕ) → all_below 256 (λ x. f x == g x) ≡ true → x < 256 → f x ≡ g x
byte_table f g x h lt = (==_iff (f x) (g x)).0 (all_below_at 256 (λ x. f x == g x) x lt h)

module _ (z : ℕ → ℕ) (g : ℕ → ℕ → ℕ) where
  -- Fuel that reaches the number is as good as any other that does.
  spare_fuel : (x y k l : ℕ) → x ≤ k → x ≤ l → digits z g l x y ≡ digits z g k x y
  spare_fuel (suc x) y zero l hk hl = absurd (omega arith)
  spare_fuel (suc x) y (suc k) zero hk hl = absurd (omega arith)
  spare_fuel (suc x) y (suc k) (suc l) hk hl =
      let halves : digits z g l (suc x / 2) (y / 2) ≡ digits z g k (suc x / 2) (y / 2) =
        spare_fuel (suc x / 2) (y / 2) k l (omega arith) (omega arith) in
      omega (arith, halves)
  spare_fuel zero y zero zero hk hl = refl
  spare_fuel zero y zero (suc l) hk hl = refl
  spare_fuel zero y (suc k) zero hk hl = refl
  spare_fuel zero y (suc k) (suc l) hk hl = refl

  -- The lowest digit of a number other than 0, and the digits of the half.
  lowest_digit :
      (x y : ℕ)
      → digits z g (suc x) (suc x) y
        ≡ digits z g (suc x / 2) (suc x / 2) (y / 2) * 2 + g (suc x % 2) (y % 2)
  lowest_digit x y =
      let half : ℕ = suc x / 2 in
      omega (arith, spare_fuel half (y / 2) half x (omega arith) (omega arith))

zero-bit_and : (y : ℕ) → bit_and 0 y ≡ 0
zero-bit_and y = bit_and-bitwise 0 y

zero-bit_or : (y : ℕ) → bit_or 0 y ≡ y
zero-bit_or y = bit_or-bitwise 0 y

pub bit_and_step : (x y : ℕ) → bit_and x y ≡ bit_and (x / 2) (y / 2) * 2 + min (x % 2) (y % 2)
bit_and_step (suc x) y =
    let whole : bit_and (suc x) y ≡ digits (λ y. zero) min (suc x) (suc x) y =
      bit_and-bitwise (suc x) y in
    omega (arith, whole, lowest_digit (λ y. zero) min x y, bit_and-bitwise (suc x / 2) (y / 2))
bit_and_step zero y = omega (arith, zero-bit_and (y / 2), zero-bit_and y)

pub bit_or_step : (x y : ℕ) → bit_or x y ≡ bit_or (x / 2) (y / 2) * 2 + max (x % 2) (y % 2)
bit_or_step (suc x) y =
    let whole : bit_or (suc x) y ≡ digits (λ y. y) max (suc x) (suc x) y =
      bit_or-bitwise (suc x) y in
    omega (arith, whole, lowest_digit (λ y. y) max x y, bit_or-bitwise (suc x / 2) (y / 2))
bit_or_step zero y = omega (arith, zero-bit_or (y / 2), zero-bit_or y)

bit_and-zero_below : (n x : ℕ) → x ≤ n → bit_and x 0 ≡ 0
bit_and-zero_below (suc n) (suc x) h =
    let half : bit_and (suc x / 2) 0 ≡ 0 = bit_and-zero_below n (suc x / 2) (omega arith) in
    omega (arith, half, bit_and_step (suc x) 0)
bit_and-zero_below zero (suc x) h = absurd (omega arith)
bit_and-zero_below (suc n) zero h = refl
bit_and-zero_below zero zero h = refl

pub bit_and-zero : (x : ℕ) → bit_and x 0 ≡ 0
bit_and-zero x = bit_and-zero_below x x (omega arith)

bit_or-zero_below : (n a : ℕ) → a ≤ n → bit_or a 0 ≡ a
bit_or-zero_below zero zero h = refl
bit_or-zero_below (suc n) zero h = refl
bit_or-zero_below zero (suc a) h = absurd (omega arith)
bit_or-zero_below (suc n) (suc a) h =
    omega (arith, bit_or_step (suc a) 0, bit_or-zero_below n (suc a / 2) (omega arith))

pub bit_or-zero : (a : ℕ) → bit_or a 0 ≡ a
bit_or-zero a = bit_or-zero_below a a (omega arith)

-- Disjoint fields: the lower `k` bits from `l`, the rest from `h`.
pub bit_or-fields : (k h l : ℕ) → l < 2 ^ k → bit_or (h * 2 ^ k) l ≡ h * 2 ^ k + l
bit_or-fields zero h l p = let e : l ≡ 0 = omega arith in rw e (omega (arith, bit_or-zero (h * 1)))
bit_or-fields (suc k) h l p =
    let q : l < 2 ^ k * 2 = rw (← pow-suc 2 k) p in
    rw (pow-suc 2 k) (fields (2 ^ k) q (bit_or-fields k h (l / 2)))
  where
    fields :
        (w : ℕ)
        → l < w * 2
        → (l / 2 < w → bit_or (h * w) (l / 2) ≡ h * w + l / 2)
        → bit_or (h * (w * 2)) l ≡ h * (w * 2) + l
    fields w q ih =
        let e : h * (w * 2) / 2 ≡ h * w = omega arith in
        rw (bit_or_step (h * (w * 2)) l) (rw e (omega (arith, ih (omega arith))))

-- The remainder by `w * 2`, from the lowest digit and the remainder of the half.
mod-double : (w a : ℕ) → 0 < w → a % (w * 2) ≡ a / 2 % w * 2 + a % 2
mod-double w a h =
    let split : a ≡ a / 2 / w * (w * 2) + (a / 2 % w * 2 + a % 2) =
      omega (arith, div-add-mod' (a / 2) w, h) in
    let small : a / 2 % w * 2 + a % 2 < w * 2 = omega (arith, mod-lt (a / 2) h) in
    ap (λ n. n % (w * 2)) split
    ∙ mul-add-mod_self_right (a / 2 / w) (w * 2) (a / 2 % w * 2 + a % 2)
    ∙ mod-eq_of_lt small

-- A mask of `k` ones keeps the lower `k` bits.
pub bit_and-ones : (k m a : ℕ) → m + 1 ≡ 2 ^ k → bit_and a m ≡ a % 2 ^ k
bit_and-ones zero m a p = let e : m ≡ 0 = omega arith in rw e (omega (arith, bit_and-zero a))
bit_and-ones (suc k) m a p =
    let q : m + 1 ≡ 2 ^ k * 2 = rw (← pow-suc 2 k) p in
    rw (pow-suc 2 k) (halves (2 ^ k) q (bit_and-ones k (m / 2) (a / 2) (omega arith)))
  where
    halves :
        (w : ℕ) → m + 1 ≡ w * 2 → bit_and (a / 2) (m / 2) ≡ a / 2 % w → bit_and a m ≡ a % (w * 2)
    halves w q ih = rw (bit_and_step a m) (rw (ih, mod-double w a (omega arith)) (omega arith))

-- A mask that ends in a zero.
bit_and-double : (a m : ℕ) → bit_and a (m * 2) ≡ bit_and (a / 2) m * 2
bit_and-double a m =
    let e : m * 2 / 2 ≡ m = omega arith in rw (bit_and_step a (m * 2)) (rw e (omega arith))

-- A mask that ends in `k` zeros.
pub bit_and-shift : (k a m : ℕ) → bit_and a (m * 2 ^ k) ≡ bit_and (a / 2 ^ k) m * 2 ^ k
bit_and-shift zero a m =
    let mask : m * 1 ≡ m = omega arith in
    let whole : a / 1 ≡ a = omega arith in rw (mask, whole) (omega arith)
bit_and-shift (suc k) a m = rw (pow-suc 2 k) (twice (2 ^ k) (bit_and-shift k (a / 2) m))
  where
    twice :
        (w : ℕ)
        → bit_and (a / 2) (m * w) ≡ bit_and (a / 2 / w) m * w
        → bit_and a (m * (w * 2)) ≡ bit_and (a / (w * 2)) m * (w * 2)
    twice w ih =
        let split : m * (w * 2) ≡ m * w * 2 = omega arith in
        let quotient : a / 2 / w ≡ a / (w * 2) =
          div-div-eq-div-mul a 2 w ∙ ap (λ k. a / k) (omega arith) in
        rw (split, bit_and-double a (m * w), ih, quotient) (omega arith)

-- The mask `~0xFF` of a 32-bit word clears the lower byte.
pub bit_and-high_bytes : (a : ℕ) → bit_and a 0xFFFF_FF00 ≡ a / 256 % 2 ^ 24 * 256
bit_and-high_bytes a =
    rw
      (
        bit_and-double a 0x7FFF_FF80,
        bit_and-double (a / 2) 0x3FFF_FFC0,
        bit_and-double (a / 2 / 2) 0x1FFF_FFE0,
        bit_and-double (a / 2 / 2 / 2) 0x0FFF_FFF0,
        bit_and-double (a / 2 / 2 / 2 / 2) 0x07FF_FFF8,
        bit_and-double (a / 2 / 2 / 2 / 2 / 2) 0x03FF_FFFC,
        bit_and-double (a / 2 / 2 / 2 / 2 / 2 / 2) 0x01FF_FFFE,
        bit_and-double (a / 2 / 2 / 2 / 2 / 2 / 2 / 2) 0xFF_FFFF,
        bit_and-ones 24 0xFF_FFFF (a / 2 / 2 / 2 / 2 / 2 / 2 / 2 / 2) refl,
      )
      (omega arith)

bit_or_comm_below : (n a b : ℕ) → a ≤ n → bit_or a b ≡ bit_or b a
bit_or_comm_below n zero b h = omega (arith, zero-bit_or b, bit_or-zero b)
bit_or_comm_below zero (suc a) b h = absurd (omega arith)
bit_or_comm_below (suc n) (suc a) b h = omega (
  arith,
  bit_or_step (suc a) b,
  bit_or_step b (suc a),
  bit_or_comm_below n (suc a / 2) (b / 2) (omega arith),
)

pub bit_or_comm : (a b : ℕ) → bit_or a b ≡ bit_or b a
bit_or_comm a b = bit_or_comm_below a a b (omega arith)

-- A byte under a word whose lower byte is empty.
pub bit_or-low_byte : (a c : ℕ) → a % 2 ^ 8 ≡ 0 → c < 2 ^ 8 → bit_or a c ≡ a + c
bit_or-low_byte a c e h =
    let split : a ≡ a / 2 ^ 8 * 2 ^ 8 = omega arith in
    ap (λ x. bit_or x c) split ∙ bit_or-fields 8 (a / 2 ^ 8) c h ∙ omega arith
