-- ===== src/Tests/Paging.antt =====
-- inc/mmu.h and kern/entrypgdir.c at concrete addresses.
use jos_ece.Prelude.{ℕ, ◌+◌, ◌-◌, ◌%◌, ◌^◌, ◌≡◌, refl, inr, arith, ltb, if◌then◌else◌}
use jos_ece.Paging.{pdx, ptx, pgoff, pte_addr, pte_p, pte_w, kernbase, entry_pgtable, entry_pgdir}
use jos_ece.Paging.Entry.{entry_pgdir_maps}

abbrev entry : ℕ
entry = 0xF010_000C

abbrev table : ℕ
table = 0xF011_2000

entry_pgdir_maps_example :
    let low = entry % 2 ^ 22 in
    (pte_addr (entry_pgdir table (pdx entry)) ≡ table - kernbase)
    × (entry_pgdir table (pdx entry) % 2 ^ 12
        ≡ (if ltb entry (2 ^ 22) then pte_p else pte_p + pte_w))
    × (pte_addr (entry_pgtable (ptx entry)) + pgoff entry ≡ low)
    × (entry_pgtable (ptx entry) % 2 ^ 12 ≡ pte_p + pte_w)
entry_pgdir_maps_example =
    entry_pgdir_maps table entry (omega arith) (omega arith) refl (inr (omega arith, omega arith))
