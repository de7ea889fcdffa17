-- ===== src/Mmu/Layout.antt =====
-- inc/memlayout.h: the virtual memory map. The arithmetic is on constants and does not wrap.
use jos_ece.Prelude.{ℕ, ◌+◌, ◌-◌, ◌*◌, ◌/◌}
use jos_ece.Paging.{pgsize, kernbase}

abbrev pub ptsize : ℕ
ptsize = pgsize * 1024

abbrev pub iophysmem : ℕ
iophysmem = 0x0A_0000

abbrev pub extphysmem : ℕ
extphysmem = 0x10_0000

abbrev pub kstacktop : ℕ
kstacktop = kernbase

abbrev pub kstksize : ℕ
kstksize = 8 * pgsize

abbrev pub kstkgap : ℕ
kstkgap = 8 * pgsize

abbrev pub mmiolim : ℕ
mmiolim = kstacktop - ptsize

abbrev pub mmiobase : ℕ
mmiobase = mmiolim - ptsize

abbrev pub ulim : ℕ
ulim = mmiobase

abbrev pub uvpt : ℕ
uvpt = ulim - ptsize

abbrev pub upages : ℕ
upages = uvpt - ptsize

abbrev pub uenvs : ℕ
uenvs = upages - ptsize

abbrev pub utop : ℕ
utop = uenvs

abbrev pub uxstacktop : ℕ
uxstacktop = utop

abbrev pub ustacktop : ℕ
ustacktop = utop - 2 * pgsize

abbrev pub utext : ℕ
utext = 2 * ptsize

abbrev pub utemp : ℕ
utemp = ptsize

abbrev pub pftemp : ℕ
pftemp = utemp + ptsize - pgsize

abbrev pub ustabdata : ℕ
ustabdata = ptsize / 2
