-- ===== src/Paging/Address.antt =====
-- inc/mmu.h and inc/types.h: the parts of a linear address, and rounding.
use jos_ece.Prelude.{ℕ, ◌+◌, ◌-◌, ◌*◌, ◌/◌, ◌%◌, ◌^◌, ◌≤◌, ◌<◌, ◌≡◌, ◌∙◌, refl, ap, arith}
use native.Mathlib.Nat.{div-add-mod', mod-lt, mod-eq_of_lt, mul-add-mod_self_right}
use jos_ece.Prelude.Bits.{bit_and-ones, bit_or-fields}
use jos_ece.Paging.{pgnum, pdx, ptx, pgoff, pgaddr, rounddown, roundup}

pub pdx_lem : (la : ℕ) → la < 2 ^ 32 → pdx la ≡ la / 2 ^ 22
unfolding pdx
pdx_lem la h = omega (arith, bit_and-ones 10 0x3FF (la / 2 ^ 22) refl)

pub ptx_lem : (la : ℕ) → ptx la ≡ la / 2 ^ 12 % 2 ^ 10
unfolding ptx
ptx_lem la = bit_and-ones 10 0x3FF (la / 2 ^ 12) refl

pub pgoff_lem : (la : ℕ) → pgoff la ≡ la % 2 ^ 12
unfolding pgoff
pgoff_lem la = bit_and-ones 12 0xFFF la refl

pgaddr_fields :
    (d t o : ℕ) → d < 2 ^ 10 → t < 2 ^ 10 → o < 2 ^ 12 → pgaddr d t o ≡ d * 2 ^ 22 + t * 2 ^ 12 + o
unfolding pgaddr
pgaddr_fields d t o hd ht ho =
    let d' : d * 2 ^ 22 % 2 ^ 32 ≡ d * 2 ^ 22 = omega arith in
    let t' : t * 2 ^ 12 % 2 ^ 32 ≡ t * 2 ^ 12 = omega arith in
    let shift : d * 2 ^ 22 + t * 2 ^ 12 ≡ (d * 2 ^ 10 + t) * 2 ^ 12 = omega arith in
    rw (d', t', bit_or-fields 22 d (t * 2 ^ 12) (omega arith), shift)
      (bit_or-fields 12 (d * 2 ^ 10 + t) o ho ∙ omega arith)

-- Every linear address is put together again from its directory index, its table index and its
-- offset, and its page number is made of the two indexes.
pub pgaddr-parts :
    (la : ℕ)
    → la < 2 ^ 32
    → (pgaddr (pdx la) (ptx la) (pgoff la) ≡ la) × (pgnum la ≡ pdx la * 2 ^ 10 + ptx la)
unfolding pgnum
pgaddr-parts la h =
    rw (pdx_lem la h, ptx_lem la, pgoff_lem la)
      (
        pgaddr_fields (la / 2 ^ 22) (la / 2 ^ 12 % 2 ^ 10) (la % 2 ^ 12) (omega arith) (omega arith)
              (omega arith)
            ∙ omega arith,
        omega arith,
      )

rounddown_lem :
    (m n : ℕ) → 0 < n → (rounddown m n % n ≡ 0) × (rounddown m n ≤ m) × (m < rounddown m n + n)
unfolding rounddown
rounddown_lem m n h =
    let e : m - m % n ≡ m / n * n + 0 = omega (arith, div-add-mod' m n) in
    (
      ap (λ x. x % n) e ∙ mul-add-mod_self_right (m / n) n 0 ∙ mod-eq_of_lt h,
      omega arith,
      omega (arith, div-add-mod' m n, mod-lt m h),
    )

roundup_sum : (a n : ℕ) → 0 < n → a + n ≤ 2 ^ 32 → roundup a n ≡ rounddown (a + n - 1) n
unfolding roundup
roundup_sum a n h room = ap (λ m. rounddown m n) (omega arith)

-- For a divisor other than 0 `ROUNDDOWN` gives the greatest multiple of it that is at most the
-- number; where the number and the divisor leave room below 2 ^ 32, `ROUNDUP` gives the least
-- multiple that is at least the number.
pub roundup_lem :
    (a n : ℕ)
    → 0 < n
    → a + n ≤ 2 ^ 32
    → ((rounddown a n % n ≡ 0) × (rounddown a n ≤ a) × (a < rounddown a n + n))
      × ((roundup a n % n ≡ 0) × (a ≤ roundup a n) × (roundup a n < a + n))
roundup_lem a n h room =
    let (multiple, below, above) = rounddown_lem (a + n - 1) n h in
    (
      rounddown_lem a n h,
      (
        rw (roundup_sum a n h room) multiple,
        rw (roundup_sum a n h room) (omega arith),
        rw (roundup_sum a n h room) (omega arith),
      ),
    )
