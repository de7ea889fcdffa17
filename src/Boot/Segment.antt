-- ===== src/Boot/Segment.antt =====
-- boot/main.c: readseg, with a reader of sectors that does not fail.
use jos_ece.Prelude.{
  ℕ, zero, suc, ◌+◌, ◌-◌, ◌*◌, ◌/◌, ◌%◌, ◌^◌, ◌≤◌, ◌<◌, ◌≡◌, true, false, refl, Option, some, arith,
  bit_and, ltb,
}
use jos_ece.Prelude.Bits.{bit_and-ones, bit_and-shift}
use jos_ece.Boot.{sectsize, read_sectors, readseg}

-- How many sectors the bytes from `pa` on touch.
abbrev pub sectors : ℕ → ℕ → ℕ
sectors pa count = (pa % sectsize + count + (sectsize - 1)) / sectsize

module _ {A : Type 0} (g : ℕ → ℕ → A → A) where
  -- `k` sectors from `offset` on, in order, to the addresses from `pa` on.
  unfoldable pub each_sector : ℕ → ℕ → ℕ → A → A
  each_sector zero pa offset a = a
  each_sector (suc k) pa offset a = each_sector k (pa + sectsize) (offset + 1) (g pa offset a)

  abbrev reading : ℕ → ℕ → A → Option A
  reading pa offset a = some (g pa offset a)

  read_sectors-each :
      (k n pa end_pa offset : ℕ) (a : A)
      → k < n
      → end_pa ≤ pa + k * sectsize
      → pa + k * sectsize < end_pa + sectsize
      → pa + k * sectsize < 2 ^ 32
      → offset + k < 2 ^ 32
      → read_sectors reading n pa end_pa offset a ≡ some (each_sector k pa offset a)
  unfolding read_sectors each_sector
  read_sectors-each k zero pa end_pa offset a lt reach tight small room = elim lt [ ]
  read_sectors-each zero (suc n) pa end_pa offset a lt reach tight small room =
      let done : ltb pa end_pa ≡ false = ground arith in rw done refl
  read_sectors-each (suc k) (suc n) pa end_pa offset a lt reach tight small room =
      let more : ltb pa end_pa ≡ true = ground arith in
      let next : (pa + sectsize) % 2 ^ 32 ≡ pa + sectsize = omega arith in
      let after : (offset + 1) % 2 ^ 32 ≡ offset + 1 = omega arith in
      rw (more, next, after)
        (read_sectors-each k n (pa + sectsize) end_pa (offset + 1) (g pa offset a) (omega arith)
          (omega arith) (omega arith) (omega arith) (omega arith))

  -- Where no address and no sector number overflows and every sector can be read, `readseg` ends,
  -- and reads sectors in ascending order, beginning with the one behind that of `offset`, each to
  -- the place a sector above the last, beginning with the boundary at or below `pa`. They reach to
  -- the end of the `count` bytes and less than a sector beyond it. Fuel for a round more than there
  -- are sectors is enough.
  pub readseg-each :
      (n pa count offset : ℕ) (a : A)
      → sectors pa count < n
      → pa + count + sectsize ≤ 2 ^ 32
      → offset / sectsize + 1 + sectors pa count < 2 ^ 32
      → (readseg reading n pa count offset a
          ≡ some (each_sector (sectors pa count) (pa - pa % sectsize) (offset / sectsize + 1) a))
        × (pa + count ≤ pa - pa % sectsize + sectors pa count * sectsize)
        × (pa - pa % sectsize + sectors pa count * sectsize < pa + count + sectsize)
  unfolding readseg
  readseg-each n pa count offset a lt room numbers =
      let base : bit_and pa (2 ^ 32 - sectsize) ≡ pa - pa % sectsize =
        rw (bit_and-shift 9 pa 0x7F_FFFF)
          (rw (bit_and-ones 23 0x7F_FFFF (pa / 2 ^ 9) refl) (omega arith)) in
      let end : (pa + count) % 2 ^ 32 ≡ pa + count = omega arith in
      (
        rw (base, end)
            (read_sectors-each (sectors pa count) n (pa - pa % sectsize) (pa + count)
              (offset / sectsize + 1) a lt (omega arith) (omega arith) (omega arith) numbers),
        omega arith,
        omega arith,
      )
