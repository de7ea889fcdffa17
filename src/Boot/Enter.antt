-- ===== src/Boot/Enter.antt =====
-- boot/main.c: what bootmain has loaded when it enters the kernel.
use jos_ece.Prelude.{
  ℕ, zero, suc, ◌+◌, ◌*◌, ◌%◌, ◌^◌, ◌≤◌, ◌<◌, ◌≡◌, ◌≢◌, ◌∙◌, refl, sym, ap, Option, some, true,
  false, ◌==◌, if◌then◌else◌, ℕ_discrete, arith,
}
use jos_ece.Memory.{Memory}
use jos_ece.Boot.{
  DiskPorts, sectsize, elfhdr, elf_magic, load32, e_magic, e_entry, e_phoff, e_phnum, p_pa, p_memsz,
  p_offset, proghdr_size, load, load_segments, bootmain, entered, bad,
}
use jos_ece.Boot.Disk.{Works}
use jos_ece.Boot.Load.{Fits, sector_base, disk_base, load-Loaded}
use jos_ece.Boot.Header.{
  page, HeaderAt, disk_magic, disk_entry, disk_phoff, disk_phnum, header_word, header_half, Segment,
  segment, bytes_of, Loadable, AllLoaded, kept, segment_read,
}

module _ {S : Type 0} (ports : DiskPorts S) (outw : ℕ → ℕ → S → S) (disk : Memory) (f n : ℕ)
    (Idle : S → Type 0) where
  load_segments_next :
      (i k : ℕ) (a a1 : Memory × S) (pa memsz offset : ℕ) (out : Option (Memory × S))
      → i + proghdr_size ≤ page
      → p_pa a.0 (elfhdr + i) ≡ pa
      → p_memsz a.0 (elfhdr + i) ≡ memsz
      → p_offset a.0 (elfhdr + i) ≡ offset
      → load ports outw f n pa memsz offset a ≡ some a1
      → load_segments ports outw f n (elfhdr + (i + proghdr_size)) k a1 ≡ out
      → load_segments ports outw f n (elfhdr + i) (suc k) a ≡ out
  unfolding load_segments
  load_segments_next i k a a1 pa memsz offset out lt e1 e2 e3 ran rest =
      let next : (elfhdr + i + proghdr_size) % 2 ^ 32 ≡ elfhdr + (i + proghdr_size) = omega arith in
      rw (load_segments, e1, e2, e3, ran, next) rest

  load_segments-AllLoaded :
      (k i : ℕ) (m : Memory) (s : S)
      → Works ports disk f Idle
      → Idle s
      → HeaderAt disk m
      → Loadable disk n k i
      → (m' : Memory) × (s' : S) × (load_segments ports outw f n (elfhdr + i) k (m, s)
          ≡ some (m', s'))
        × AllLoaded disk k i m m'
        × Idle s'
        × HeaderAt disk m'
  unfolding load_segments Loadable AllLoaded
  load_segments-AllLoaded zero i m s h idle header fits = (m, s, refl, refl, idle, header)
  load_segments-AllLoaded (suc k) i m s h idle header (lt, fit, apart, fits) =
      let g : Segment = segment disk i in
      let (e1, e2, e3) = segment_read disk m i header lt in
      let (m1, s1, ran, loaded, idle1) =
        load-Loaded ports disk f n Idle g.pa g.memsz g.offset m s outw h idle fit in
      let header1 : HeaderAt disk m1 =
        kept disk m m1 (sector_base g.pa) (disk_base g.offset) (bytes_of g) header loaded apart in
      let (m', s', rans, all, idle', header') =
        load_segments-AllLoaded k (i + proghdr_size) m1 s1 h idle1 header1 fits in
      (
        m',
        s',
        load_segments_next i k (m, s) (m1, s1) g.pa g.memsz g.offset (some (m', s')) lt e1 e2 e3 ran
            rans,
        (m1, loaded, all),
        idle',
        header',
      )

  bootmain_good :
      (m m' : Memory) (s s' : S) (a : Memory × S)
      → load ports outw f n elfhdr (sectsize * 8) 0 a ≡ some (m, s)
      → e_magic m ≡ elf_magic
      → load_segments ports outw f n ((elfhdr + e_phoff m) % 2 ^ 32) (e_phnum m) (m, s)
        ≡ some (m', s')
      → bootmain ports outw f n a ≡ some (entered (e_entry m') m' s')
  unfolding bootmain
  bootmain_good m m' s s' a first magic rest =
      let t : (e_magic m == elf_magic) ≡ true = ground arith in rw (bootmain, first, t, rest) refl

  bootmain_bad :
      (m : Memory) (s : S) (a : Memory × S)
      → load ports outw f n elfhdr (sectsize * 8) 0 a ≡ some (m, s)
      → e_magic m ≢ elf_magic
      → bootmain ports outw f n a ≡ some (bad (outw 0x8A00 0x8E00 (outw 0x8A00 0x8A00 s)))
  unfolding bootmain
  bootmain_bad m s a first magic =
      let t : (e_magic m == elf_magic) ≡ false = ground arith in rw (bootmain, first, t) refl

  segments_at :
      (m : Memory) (s : S) (phoff phnum : ℕ) (out : Option (Memory × S))
      → e_phoff m ≡ phoff
      → e_phnum m ≡ phnum
      → phoff < page
      → load_segments ports outw f n (elfhdr + phoff) phnum (m, s) ≡ out
      → load_segments ports outw f n ((elfhdr + e_phoff m) % 2 ^ 32) (e_phnum m) (m, s) ≡ out
  segments_at m s phoff phnum out e1 e2 lt ran =
      let at : (elfhdr + phoff) % 2 ^ 32 ≡ elfhdr + phoff = omega arith in rw (e1, e2, at) ran

  first_page-HeaderAt :
      (m : Memory) (s : S)
      → Works ports disk f Idle
      → Idle s
      → 8 < n
      → (m1 : Memory) × (s1 : S) × (load ports outw f n elfhdr (sectsize * 8) 0 (m, s)
          ≡ some (m1, s1))
        × Idle s1
        × HeaderAt disk m1
  first_page-HeaderAt m s h idle rounds =
      let fit : Fits n elfhdr (sectsize * 8) 0 = record {
        rounds = rounds;
        addresses = omega arith;
        numbers = omega arith;
      } in
      let (m1, s1, ran, loaded, idle1) =
        load-Loaded ports disk f n Idle elfhdr (sectsize * 8) 0 m s outw h idle fit in
      (m1, s1, ran, idle1, record { copied = λ i lt. loaded.inside (elfhdr + i) i lt refl })

  -- On a disk that works and bears the kernel image from sector 1 on, `bootmain` ends. If the image
  -- begins with the ELF magic, `bootmain` has loaded the segments of the program headers one after
  -- the other, each in whole sectors to its physical address from its place in the image, and
  -- enters the kernel at the image's entry point. If it does not, `bootmain` ends at the label
  -- `bad`. The headers lie in the image's first 4096 bytes, no segment overflows or is loaded over
  -- the copy of these bytes at ELFHDR, and the rounds are more than 8 and than the sectors of each
  -- segment.
  pub bootmain-AllLoaded :
      (m : Memory) (s : S)
      → Works ports disk f Idle
      → Idle s
      → 8 < n
      → disk_phoff disk < page
      → Loadable disk n (disk_phnum disk) (disk_phoff disk)
      → (m1 : Memory) × HeaderAt disk m1
        × (m' : Memory) × AllLoaded disk (disk_phnum disk) (disk_phoff disk) m1 m'
        × (s1 : S) × (s' : S) × (bootmain ports outw f n (m, s)
            ≡ some (
                if disk_magic disk == elf_magic
                then entered (disk_entry disk) m' s'
                else bad (outw 0x8A00 0x8E00 (outw 0x8A00 0x8A00 s1))))
  bootmain-AllLoaded m s h idle rounds inside fits =
      let (m1, s1, first, idle1, header) = first_page-HeaderAt m s h idle rounds in
      let magic : e_magic m1 ≡ disk_magic disk =
        ap (load32 m1) (omega arith)
        ∙ header_word disk m1 0 header (omega arith)
        ∙ ap (load32 disk) (omega arith) in
      let phoff : e_phoff m1 ≡ disk_phoff disk = header_word disk m1 28 header (omega arith) in
      let phnum : e_phnum m1 ≡ disk_phnum disk = header_half disk m1 44 header (omega arith) in
      let (m', s', rest, all, idle', header') =
        load_segments-AllLoaded (disk_phnum disk) (disk_phoff disk) m1 s1 h idle1 header fits in
      let entry : e_entry m' ≡ disk_entry disk = header_word disk m' 24 header' (omega arith) in
      (
        m1,
        header,
        m',
        all,
        s1,
        s',
        elim (ℕ_discrete (disk_magic disk) elf_magic) [
          | yes good ↦
              let t : (disk_magic disk == elf_magic) ≡ true = ground arith in
              bootmain_good m1 m' s1 s' (m, s) first (magic ∙ good)
                (segments_at m1 s1 (disk_phoff disk) (disk_phnum disk) (some (m', s')) phoff phnum
                  inside rest)
              ∙ ap (λ e. some (entered e m' s')) entry
              ∙ rw t refl
          | no wrong ↦
              let t : (disk_magic disk == elf_magic) ≡ false = ground arith in
              bootmain_bad m1 s1 (m, s) first (λ same. wrong (sym magic ∙ same)) ∙ rw t refl
        ],
      )
