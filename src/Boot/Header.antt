-- ===== src/Boot/Header.antt =====
-- inc/elf.h and boot/main.c: the first page of the image in memory and on the disk, and the
-- segments that its program headers tell of.
use jos_ece.Prelude.{ℕ, zero, suc, ◌+◌, ◌*◌, ◌≤◌, ◌<◌, ◌≡◌, ◌∙◌, inl, inr, refl, sym, ap, arith}
use jos_ece.Memory.{Memory, Apart}
use jos_ece.Boot.{sectsize, elfhdr, load16, load32, p_pa, p_memsz, p_offset, proghdr_size}
use jos_ece.Boot.Segment.{sectors}
use jos_ece.Boot.Disk.{Loaded}
use jos_ece.Boot.Load.{Fits, sector_base, disk_base}

-- The first page of the kernel image stands at ELFHDR; on the disk it begins at sector 1.
abbrev pub page : ℕ
page = 4096

pub record HeaderAt (disk m : Memory) : Type 0 where
  pub copied : (i : ℕ) → i < page → m (elfhdr + i) ≡ disk (sectsize + i)

-- The header's words as they are on the disk.
abbrev pub disk_magic : Memory → ℕ
disk_magic disk = load32 disk sectsize

abbrev pub disk_entry : Memory → ℕ
disk_entry disk = load32 disk (sectsize + 24)

abbrev pub disk_phoff : Memory → ℕ
disk_phoff disk = load32 disk (sectsize + 28)

abbrev pub disk_phnum : Memory → ℕ
disk_phnum disk = load16 disk (sectsize + 44)

header_byte :
    (disk m : Memory) (x y i : ℕ)
    → HeaderAt disk m
    → i < page
    → x ≡ elfhdr + i
    → y ≡ sectsize + i
    → m x ≡ disk y
header_byte disk m x y i h lt e e' = ap m e ∙ h.copied i lt ∙ ap disk (sym e')

pub header_word :
    (disk m : Memory) (i : ℕ)
    → HeaderAt disk m
    → i + 3 < page
    → load32 m (elfhdr + i) ≡ load32 disk (sectsize + i)
unfolding load32
header_word disk m i h lt =
    let b0 = header_byte disk m (elfhdr + i) (sectsize + i) i h (omega arith) refl refl in
    let b1 =
      header_byte disk m (elfhdr + i + 1) (sectsize + i + 1) (i + 1) h (omega arith) (omega arith)
        (omega arith) in
    let b2 =
      header_byte disk m (elfhdr + i + 2) (sectsize + i + 2) (i + 2) h (omega arith) (omega arith)
        (omega arith) in
    let b3 =
      header_byte disk m (elfhdr + i + 3) (sectsize + i + 3) (i + 3) h (omega arith) (omega arith)
        (omega arith) in
    rw (b0, b1, b2, b3) refl

pub header_half :
    (disk m : Memory) (i : ℕ)
    → HeaderAt disk m
    → i + 1 < page
    → load16 m (elfhdr + i) ≡ load16 disk (sectsize + i)
unfolding load16
header_half disk m i h lt =
    let b0 = header_byte disk m (elfhdr + i) (sectsize + i) i h (omega arith) refl refl in
    let b1 =
      header_byte disk m (elfhdr + i + 1) (sectsize + i + 1) (i + 1) h (omega arith) (omega arith)
        (omega arith) in
    rw (b0, b1) refl

-- The segment whose program header stands at `i` in the page: its bytes go to `to`, in whole
-- sectors.
pub record Segment : Type 0 where
  pub pa : ℕ
  pub memsz : ℕ
  pub offset : ℕ

abbrev pub segment : Memory → ℕ → Segment
segment disk i = record {
  pa = load32 disk (sectsize + (i + 12));
  memsz = load32 disk (sectsize + (i + 20));
  offset = load32 disk (sectsize + (i + 4));
}

abbrev pub bytes_of : Segment → ℕ
bytes_of g = sectors g.pa g.memsz * sectsize

-- The `k` segments from the header at `i` on can be loaded, and none is loaded over the page.
unfoldable pub Loadable : Memory → ℕ → ℕ → ℕ → Type 0
Loadable disk n zero i = Unit
Loadable disk n (suc k) i =
    (i + proghdr_size ≤ page)
    × Fits n (segment disk i).pa (segment disk i).memsz (segment disk i).offset
    × Apart (sector_base (segment disk i).pa) (bytes_of (segment disk i)) elfhdr page
    × Loadable disk n k (i + proghdr_size)

-- They have been loaded one after the other.
unfoldable pub AllLoaded : Memory → ℕ → ℕ → Memory → Memory → Type 0
AllLoaded disk zero i m m' = m ≡ m'
AllLoaded disk (suc k) i m m' =
    (m1 : Memory) × Loaded disk m m1 (sector_base (segment disk i).pa)
      (disk_base (segment disk i).offset) (bytes_of (segment disk i))
    × AllLoaded disk k (i + proghdr_size) m1 m'

pub kept :
    (disk m m1 : Memory) (d b n : ℕ)
    → HeaderAt disk m
    → Loaded disk m m1 d b n
    → Apart d n elfhdr page
    → HeaderAt disk m1
kept disk m m1 d b n h loaded apart = record {
  copied = λ i lt. elim apart [
    | inl before ↦ loaded.outside (elfhdr + i) (inr (omega arith)) ∙ h.copied i lt
    | inr behind ↦ loaded.outside (elfhdr + i) (inl (omega arith)) ∙ h.copied i lt
  ];
}

pub segment_read :
    (disk m : Memory) (i : ℕ)
    → HeaderAt disk m
    → i + proghdr_size ≤ page
    → (p_pa m (elfhdr + i) ≡ (segment disk i).pa)
      × (p_memsz m (elfhdr + i) ≡ (segment disk i).memsz)
      × (p_offset m (elfhdr + i) ≡ (segment disk i).offset)
segment_read disk m i h lt = (
  ap (load32 m) (omega arith) ∙ header_word disk m (i + 12) h (omega arith),
  ap (load32 m) (omega arith) ∙ header_word disk m (i + 20) h (omega arith),
  ap (load32 m) (omega arith) ∙ header_word disk m (i + 4) h (omega arith),
)
