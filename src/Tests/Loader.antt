-- ===== src/Tests/Loader.antt =====
-- boot/main.c with a disk that bears an image of one segment.
use jos_ece.Prelude.{
  ℕ, zero, suc, ◌+◌, ◌-◌, ◌*◌, ◌/◌, ◌^◌, ◌<◌, ◌≡◌, refl, ap, inr, some, arith, ◌==◌, if◌then◌else◌,
}
use jos_ece.Memory.{Memory}
use jos_ece.Boot.{DiskPorts, sectsize, elf_magic, load16, load32, waitdisk, bootmain, entered, bad}
use jos_ece.Boot.Disk.{Delivers, none_left, next_word, Works}
use jos_ece.Boot.Header.{
  HeaderAt, disk_magic, disk_entry, disk_phoff, disk_phnum, Loadable, AllLoaded,
}
use jos_ece.Boot.Enter.{bootmain-AllLoaded}

-- The registers of a disk, and the next byte that it gives.
record Drive : Type 0 where
  d0 : ℕ
  d1 : ℕ
  d2 : ℕ
  d3 : ℕ
  next : ℕ

-- An ELF header with the entry 0x10000C, and one program header at 52: 100 bytes from 0x1000 of the
-- image go to 0x100000.
abbrev disk : Memory
disk a =
    if a == 512
    then 0x7F
    else if a == 513
    then 0x45
    else if a == 514
    then 0x4C
    else if a == 515
    then 0x46
    else if a == 536
    then 0x0C
    else if a == 538
    then 0x10
    else if a == 540
    then 52
    else if a == 556
    then 1
    else if a == 569
    then 0x10
    else if a == 578
    then 0x10
    else if a == 584
    then 100
    else 0

abbrev write : ℕ → ℕ → Drive → Drive
write port v s =
    if port == 0x1F3
    then record s { d0 = v }
    else if port == 0x1F4
    then record s { d1 = v }
    else if port == 0x1F5
    then record s { d2 = v }
    else if port == 0x1F6
    then record s { d3 = v - 0xE0 }
    else if port == 0x1F7
    then record s { next = (s.d0 + s.d1 * 2 ^ 8 + s.d2 * 2 ^ 16 + s.d3 * 2 ^ 24) * sectsize }
    else s

abbrev drive : DiskPorts Drive
drive = record {
  inb = λ port s. (0x40, s);
  outb = write;
  inl = λ port s. (load32 disk s.next, record s { next = s.next + 4 });
}

abbrev start : Drive
start = record { d0 = 0; d1 = 0; d2 = 0; d3 = 0; next = 0 }

delivers : (n b : ℕ) (s : Drive) → s.next ≡ b → (s' : Drive) × Delivers drive disk n b s s'
delivers zero b s e = (s, none_left)
delivers (suc n) b s e =
    let s1 : Drive = record s { next = s.next + 4 } in
    let (s', more) = delivers n (b + 4) s1 (omega arith) in
    (s', next_word (ap (λ p. (load32 disk p, s1)) e) more)

works : Works drive disk 2 (λ s. Unit)
unfolding waitdisk
works = record {
  bytes = λ x. ground arith;
  ready = λ s idle. (s, refl, tt);
  answers = λ s d0 d1 d2 d3 idle h0 h1 h2 h3.
      let asked : Drive = record s {
        d0 = d0;
        d1 = d1;
        d2 = d2;
        d3 = d3 + 0xE0 - 0xE0;
        next = (d0 + d1 * 2 ^ 8 + d2 * 2 ^ 16 + (d3 + 0xE0 - 0xE0) * 2 ^ 24) * sectsize;
      } in
      let (s', given) =
        delivers (sectsize / 4) ((d0 + d1 * 2 ^ 8 + d2 * 2 ^ 16 + d3 * 2 ^ 24) * sectsize) asked
          (omega arith) in
      (asked, refl, s', given, tt);
}

loadable : Loadable disk 20 (disk_phnum disk) (disk_phoff disk)
unfolding Loadable load32 load16
loadable = (
  omega arith,
  record { rounds = omega arith; addresses = omega arith; numbers = omega arith },
  inr (omega arith),
  tt,
)

phoff_low : disk_phoff disk < 4096
unfolding load32
phoff_low = omega arith

bootmain-AllLoaded_example :
    (m1 : Memory) × HeaderAt disk m1
    × (m' : Memory) × AllLoaded disk (disk_phnum disk) (disk_phoff disk) m1 m'
    × (s1 : Drive) × (s' : Drive) × (bootmain drive write 2 20 ((λ a. 0), start)
        ≡ some (
            if disk_magic disk == elf_magic
            then entered (disk_entry disk) m' s'
            else bad (write 0x8A00 0x8E00 (write 0x8A00 0x8A00 s1))))
bootmain-AllLoaded_example =
    bootmain-AllLoaded drive write disk 2 20 (λ s. Unit) (λ a. 0) start works tt (omega arith)
      phoff_low loadable

-- The image is one that is entered.
magic_run : disk_magic disk ≡ elf_magic
unfolding load32
magic_run = refl
