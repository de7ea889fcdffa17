-- ===== src/Boot/Load.antt =====
-- boot/main.c: readseg and bootmain on a disk that works.
use jos_ece.Prelude.{
  ℕ, zero, suc, ◌+◌, ◌-◌, ◌*◌, ◌/◌, ◌%◌, ◌^◌, ◌≤◌, ◌<◌, ◌≡◌, refl, subst, Option, some, true, false,
  ltb, arith, bit_and,
}
use jos_ece.Prelude.Bits.{bit_and-ones, bit_and-shift}
use jos_ece.Memory.{Memory}
use jos_ece.Boot.{DiskPorts, sectsize, readsect, read_sectors, readseg, load}
use jos_ece.Boot.Segment.{sectors}
use jos_ece.Boot.Disk.{Loaded, Loaded-append, Works, readsect-Loaded}

-- Where the sectors of a range begin, and how many bytes they have.
abbrev pub sector_base : ℕ → ℕ
sector_base pa = pa - pa % sectsize

abbrev pub disk_base : ℕ → ℕ
disk_base offset = (offset / sectsize + 1) * sectsize

-- What a call of `readseg` can do: no address and no sector number overflows, and `n` rounds are
-- enough.
pub record Fits (n pa count offset : ℕ) : Type 0 where
  pub rounds : sectors pa count < n
  pub addresses : pa + count + sectsize ≤ 2 ^ 32
  pub numbers : offset / sectsize + 1 + sectors pa count ≤ 2 ^ 28

module _ {S : Type 0} (ports : DiskPorts S) (disk : Memory) (f n : ℕ) (Idle : S → Type 0) where
  read_sectors_next :
      (r pa end_pa offset : ℕ) (a a1 : Memory × S) (out : Option (Memory × S))
      → pa < end_pa
      → pa + sectsize < 2 ^ 32
      → offset + 1 < 2 ^ 32
      → readsect ports f pa offset a ≡ some a1
      → read_sectors (readsect ports f) r (pa + sectsize) end_pa (offset + 1) a1 ≡ out
      → read_sectors (readsect ports f) (suc r) pa end_pa offset a ≡ out
  unfolding read_sectors
  read_sectors_next r pa end_pa offset a a1 out lt small room ran rest =
      let more : ltb pa end_pa ≡ true = ground arith in
      let next : (pa + sectsize) % 2 ^ 32 ≡ pa + sectsize = omega arith in
      let after : (offset + 1) % 2 ^ 32 ≡ offset + 1 = omega arith in
      rw (read_sectors, more, ran, next, after) rest

  load_ran :
      (pa count offset : ℕ) (a : Memory × S) (outw : ℕ → ℕ → S → S) (out : Option (Memory × S))
      → Fits n pa count offset
      → read_sectors (readsect ports f) n (sector_base pa) (pa + count) (offset / sectsize + 1) a
        ≡ out
      → load ports outw f n pa count offset a ≡ out
  unfolding load readseg
  load_ran pa count offset a outw out fit ran =
      let base : bit_and pa (2 ^ 32 - sectsize) ≡ sector_base pa =
        rw (bit_and-shift 9 pa 0x7F_FFFF)
          (rw (bit_and-ones 23 0x7F_FFFF (pa / 2 ^ 9) refl) (omega (arith, fit.addresses))) in
      let end : (pa + count) % 2 ^ 32 ≡ pa + count = omega (arith, fit.addresses) in
      rw (load, readseg, base, end) ran

  read_sectors-Loaded :
      (k r pa end_pa offset : ℕ) (m : Memory) (s : S)
      → Works ports disk f Idle
      → Idle s
      → k < r
      → end_pa ≤ pa + k * sectsize
      → pa + k * sectsize < end_pa + sectsize
      → pa + k * sectsize < 2 ^ 32
      → offset + k ≤ 2 ^ 28
      → (m' : Memory) × (s' : S) × (read_sectors (readsect ports f) r pa end_pa offset (m, s)
          ≡ some (m', s'))
        × Loaded disk m m' pa (offset * sectsize) (k * sectsize)
        × Idle s'
  unfolding read_sectors
  read_sectors-Loaded k zero pa end_pa offset m s h idle lt reach tight small room = elim lt [ ]
  read_sectors-Loaded zero (suc r) pa end_pa offset m s h idle lt reach tight small room =
      let done : ltb pa end_pa ≡ false = ground arith in
      (
        m,
        s,
        rw (read_sectors, done) refl,
        record { inside = λ x i lt e. absurd (omega arith); outside = λ x out. refl },
        idle,
      )
  read_sectors-Loaded (suc k) (suc r) pa end_pa offset m s h idle lt reach tight small room =
      let (m1, s1, ran, first, idle1) =
        readsect-Loaded ports disk f pa offset m s Idle h idle (omega arith) in
      let (m', s', rans, rest, idle') =
        read_sectors-Loaded k r (pa + sectsize) end_pa (offset + 1) m1 s1 h idle1 (omega arith)
          (omega arith) (omega arith) (omega arith) (omega arith) in
      let rest' : Loaded disk m1 m' (pa + sectsize) (offset * sectsize + sectsize) (k * sectsize) =
        subst (λ b. Loaded disk m1 m' (pa + sectsize) b (k * sectsize)) (omega arith) rest in
      (
        m',
        s',
        read_sectors_next r pa end_pa offset (m, s) (m1, s1) (some (m', s')) (omega arith)
            (omega arith) (omega arith) ran rans,
        subst (Loaded disk m m' pa (offset * sectsize)) (omega arith)
            (Loaded-append disk m m1 m' pa (offset * sectsize) sectsize (k * sectsize) first rest'),
        idle',
      )

  pub load-Loaded :
      (pa count offset : ℕ) (m : Memory) (s : S) (outw : ℕ → ℕ → S → S)
      → Works ports disk f Idle
      → Idle s
      → Fits n pa count offset
      → (m' : Memory) × (s' : S) × (load ports outw f n pa count offset (m, s) ≡ some (m', s'))
        × Loaded disk m m' (sector_base pa) (disk_base offset) (sectors pa count * sectsize)
        × Idle s'
  load-Loaded pa count offset m s outw h idle fit =
      let (m', s', ran, loaded, idle') =
        read_sectors-Loaded (sectors pa count) n (sector_base pa) (pa + count)
          (offset / sectsize + 1) m s h idle fit.rounds (omega arith) (omega arith)
          (omega (arith, fit.addresses)) fit.numbers in
      (m', s', load_ran pa count offset (m, s) outw (some (m', s')) fit ran, loaded, idle')
