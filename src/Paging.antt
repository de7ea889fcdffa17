-- ===== src/Paging.antt =====
-- inc/mmu.h: the parts of a linear address and of a page table's entry; inc/types.h: rounding;
-- kern/entrypgdir.c: the page directory and the page table that kern/entry.S turns paging on with.
-- Addresses are 32-bit words.
pub mod Address
pub mod Entry
use jos_ece.Prelude.{ℕ, ◌+◌, ◌-◌, ◌*◌, ◌/◌, ◌%◌, ◌^◌, bit_and, bit_or, ltb, ◌==◌, if◌then◌else◌}

abbrev pub npdentries : ℕ
npdentries = 1024

abbrev pub nptentries : ℕ
nptentries = 1024

abbrev pub pgsize : ℕ
pgsize = 4096

abbrev pub pte_p : ℕ
pte_p = 0x001

abbrev pub pte_w : ℕ
pte_w = 0x002

abbrev pub kernbase : ℕ
kernbase = 0xF000_0000

unfoldable pub pgnum : ℕ → ℕ
pgnum la = la / 2 ^ 12

unfoldable pub pdx : ℕ → ℕ
pdx la = bit_and (la / 2 ^ 22) 0x3FF

unfoldable pub ptx : ℕ → ℕ
ptx la = bit_and (la / 2 ^ 12) 0x3FF

unfoldable pub pgoff : ℕ → ℕ
pgoff la = bit_and la 0xFFF

unfoldable pub pgaddr : ℕ → ℕ → ℕ → ℕ
pgaddr d t o = bit_or (bit_or (d * 2 ^ 22 % 2 ^ 32) (t * 2 ^ 12 % 2 ^ 32)) o

unfoldable pub pte_addr : ℕ → ℕ
pte_addr pte = bit_and pte 0xFFFF_F000

-- ROUNDDOWN and ROUNDUP of a 32-bit word.
unfoldable pub rounddown : ℕ → ℕ → ℕ
rounddown a n = a - a % n

unfoldable pub roundup : ℕ → ℕ → ℕ
unfolding rounddown
roundup a n = rounddown ((a + n + 2 ^ 32 - 1) % 2 ^ 32) n

-- The rows of the initialiser by their index, which is the physical page that each maps.
unfoldable pub entry_pgtable : ℕ → ℕ
entry_pgtable i = if ltb i nptentries then bit_or (bit_or (i * 2 ^ 12) pte_p) pte_w else 0

-- `table` is the address that the linker gives `entry_pgtable`. A row that the initialiser does not
-- name is 0.
unfoldable pub entry_pgdir : ℕ → ℕ → ℕ
entry_pgdir table i =
    if i == 0
    then (table + (2 ^ 32 - kernbase) + pte_p) % 2 ^ 32
    else if i == kernbase / 2 ^ 22
    then (table + (2 ^ 32 - kernbase) + pte_p + pte_w) % 2 ^ 32
    else 0
