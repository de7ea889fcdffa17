-- ===== src/Boot.antt =====
-- boot/main.c, with the ELF header of inc/elf.h: the boot loader that reads the kernel off the
-- disk. What the disk does is a parameter, over any state of the devices. Addresses and sector
-- numbers are words of 32 bits.
pub mod Segment
pub mod Disk
pub mod Load
pub mod Header
pub mod Enter
use jos_ece.Prelude.{
  ℕ, zero, suc, ◌+◌, ◌-◌, ◌*◌, ◌/◌, ◌%◌, ◌^◌, Option, none, some, List, [], ◌∷◌, bit_and, bit_or,
  ltb, not, ◌==◌, if◌then◌else◌,
}
use jos_ece.Memory.{Memory, store}

abbrev pub sectsize : ℕ
sectsize = 512

abbrev pub elfhdr : ℕ
elfhdr = 0x10000

abbrev pub elf_magic : ℕ
elf_magic = 0x464C457F

-- `inb`, `outb`, and the next double word of `insl`.
pub record DiskPorts (S : Type 0) : Type 0 where
  pub inb : ℕ → S → ℕ × S
  pub outb : ℕ → ℕ → S → S
  pub inl : ℕ → S → ℕ × S

-- The fields of `struct Elf` and `struct Proghdr` by their offsets, lowest byte first.
unfoldable pub load16 : Memory → ℕ → ℕ
load16 m a = m a + m (a + 1) * 2 ^ 8

unfoldable pub load32 : Memory → ℕ → ℕ
load32 m a = m a + m (a + 1) * 2 ^ 8 + m (a + 2) * 2 ^ 16 + m (a + 3) * 2 ^ 24

abbrev pub e_magic : Memory → ℕ
e_magic m = load32 m elfhdr

abbrev pub e_entry : Memory → ℕ
e_entry m = load32 m (elfhdr + 24)

abbrev pub e_phoff : Memory → ℕ
e_phoff m = load32 m (elfhdr + 28)

abbrev pub e_phnum : Memory → ℕ
e_phnum m = load16 m (elfhdr + 44)

-- The size of a program header.
abbrev pub proghdr_size : ℕ
proghdr_size = 32

abbrev pub p_offset : Memory → ℕ → ℕ
p_offset m ph = load32 m (ph + 4)

abbrev pub p_pa : Memory → ℕ → ℕ
p_pa m ph = load32 m (ph + 12)

abbrev pub p_memsz : Memory → ℕ → ℕ
p_memsz m ph = load32 m (ph + 20)

unfoldable pub store32 : Memory → ℕ → ℕ → Memory
store32 m a w =
    store (store (store (store m a (w % 256)) (a + 1) (w / 2 ^ 8 % 256)) (a + 2) (w / 2 ^ 16 % 256))
      (a + 3) (w / 2 ^ 24 % 256)

-- How the loader ends: in the kernel, or in the loop behind the label `bad`.
pub data Outcome (S : Type 0) : Type 0 where
  entered : ℕ → Memory → S → Outcome S
  bad : S → Outcome S

module _ {S : Type 0} (ports : DiskPorts S) where
  open ports use {inb, outb, inl}

  -- `none` is the end of the fuel, where the disk never gets ready.
  unfoldable pub waitdisk : ℕ → S → Option S
  waitdisk zero s = none
  waitdisk (suc f) s =
      let (status, s1) = inb 0x1F7 s in
      let rest = waitdisk f s1 in if not (bit_and status 0xC0 == 0x40) then rest else some s1

  -- `insl(port, dst, n)`
  insl : ℕ → ℕ → Memory → S → Memory × S
  unfolding store32
  insl zero dst m s = (m, s)
  insl (suc n) dst m s = let (w, s1) = inl 0x1F0 s in insl n (dst + 4) (store32 m dst w) s1

  -- The disk is asked for one sector.
  ask : ℕ → S → S
  ask offset s = outb 0x1F7 0x20 (
      outb 0x1F6 (bit_or (offset / 2 ^ 24) 0xE0 % 2 ^ 8) (
        outb 0x1F5 (offset / 2 ^ 16 % 2 ^ 8)
          (outb 0x1F4 (offset / 2 ^ 8 % 2 ^ 8) (outb 0x1F3 (offset % 2 ^ 8) (outb 0x1F2 1 s)))))

  unfoldable pub readsect : ℕ → ℕ → ℕ → Memory × S → Option (Memory × S)
  unfolding insl ask waitdisk
  readsect f dst offset (m, s) = elim (waitdisk f s) [
    | none ↦ none
    | some s1 ↦ elim (waitdisk f (ask offset s1)) [
      | none ↦ none
      | some s2 ↦ some (insl (sectsize / 4) dst m s2)
    ]
  ]

-- `while (pa < end_pa)` of `readseg`, which has what it does with a sector as a parameter.
module _ {A : Type 0} (read : ℕ → ℕ → A → Option A) where
  unfoldable pub read_sectors : ℕ → ℕ → ℕ → ℕ → A → Option A
  read_sectors zero pa end_pa offset a = none
  read_sectors (suc n) pa end_pa offset a =
      let next : Option A = elim (read pa offset a) [
        | none ↦ none
        | some a' ↦ read_sectors n ((pa + sectsize) % 2 ^ 32) end_pa ((offset + 1) % 2 ^ 32) a'
      ] in
      if ltb pa end_pa then next else some a

  -- The mask `~(SECTSIZE - 1)` of a 32-bit word.
  unfoldable pub readseg : ℕ → ℕ → ℕ → ℕ → A → Option A
  unfolding read_sectors
  readseg n pa count offset a =
      read_sectors n (bit_and pa (2 ^ 32 - sectsize)) ((pa + count) % 2 ^ 32)
        (offset / sectsize + 1) a

module _ {S : Type 0} (ports : DiskPorts S) (outw : ℕ → ℕ → S → S) where
  -- The rounds of `waitdisk`, and those of the loop over the sectors.
  unfoldable pub load : ℕ → ℕ → ℕ → ℕ → ℕ → Memory × S → Option (Memory × S)
  unfolding readseg readsect
  load f n pa count offset = readseg (readsect ports f) n pa count offset

  -- `for (; ph < eph; ph++)`, for `k` headers. The segments may overwrite the headers themselves,
  -- so each header is read from the memory of its round.
  unfoldable pub load_segments : ℕ → ℕ → ℕ → ℕ → Memory × S → Option (Memory × S)
  unfolding load
  load_segments f n ph zero a = some a
  load_segments f n ph (suc k) a =
      elim (load f n (p_pa a.0 ph) (p_memsz a.0 ph) (p_offset a.0 ph) a) [
        | none ↦ none
        | some a' ↦ load_segments f n ((ph + proghdr_size) % 2 ^ 32) k a'
      ]

  unfoldable pub bootmain : ℕ → ℕ → Memory × S → Option (Outcome S)
  unfolding load load_segments
  bootmain f n a = elim (load f n elfhdr (sectsize * 8) 0 a) [
    | none ↦ none
    | some (m, s) ↦
        let segments = load_segments f n ((elfhdr + e_phoff m) % 2 ^ 32) (e_phnum m) (m, s) in
        if not (e_magic m == elf_magic)
        then some (bad (outw 0x8A00 0x8E00 (outw 0x8A00 0x8A00 s)))
        else elim segments [ none ↦ none | some (m', s') ↦ some (entered (e_entry m') m' s') ]
  ]
