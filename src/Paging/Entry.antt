-- ===== src/Paging/Entry.antt =====
-- kern/entrypgdir.c: what the boot page directory and the page table map.
use jos_ece.Prelude.{
  ℕ, ◌+◌, ◌-◌, ◌*◌, ◌/◌, ◌%◌, ◌^◌, ◌≤◌, ◌<◌, ◌≡◌, refl, true, false, ltb, ◌⊎◌, inl, inr,
  if◌then◌else◌, bit_or, arith,
}
use jos_ece.Prelude.Bits.{bit_and-ones, bit_and-shift, bit_or_step, bit_or-fields}
use jos_ece.Paging.{
  nptentries, pdx, ptx, pgoff, pte_addr, pte_p, pte_w, kernbase, entry_pgtable, entry_pgdir,
}
use jos_ece.Paging.Address.{pdx_lem, ptx_lem, pgoff_lem}

entry_pgtable_lem : (i : ℕ) → i < 1024 → entry_pgtable i ≡ i * 2 ^ 12 + 3
unfolding entry_pgtable
entry_pgtable_lem i lt =
    let inside : ltb i nptentries ≡ true = ground arith in
    rw (inside, bit_or-fields 12 i pte_p (omega arith)) (or_w i)
  where
    or_w : (i : ℕ) → bit_or (i * 2 ^ 12 + pte_p) pte_w ≡ i * 2 ^ 12 + 3
    or_w i =
        let half : (i * 2 ^ 12 + pte_p) / 2 ≡ i * 2 ^ 10 * 2 ^ 1 = omega arith in
        rw (bit_or_step (i * 2 ^ 12 + pte_p) pte_w)
          (rw (half, bit_or-fields 1 (i * 2 ^ 10) 1 (omega arith)) (omega arith))

-- The low 12 bits cleared.
pte_addr_lem : (pte : ℕ) → pte < 2 ^ 32 → pte_addr pte ≡ pte / 2 ^ 12 * 2 ^ 12
unfolding pte_addr
pte_addr_lem pte lt =
    rw (bit_and-shift 12 pte 0xF_FFFF)
      (rw (bit_and-ones 20 0xF_FFFF (pte / 2 ^ 12) refl) (omega arith))

-- The two rows of the directory that are named.
entry_pgdir_lem :
    (table va : ℕ)
    → kernbase ≤ table
    → table < 2 ^ 32
    → (va < 2 ^ 22) ⊎ ((kernbase ≤ va) × (va < kernbase + 2 ^ 22))
    → entry_pgdir table (va / 2 ^ 22)
      ≡ table - kernbase + (if ltb va (2 ^ 22) then pte_p else pte_p + pte_w)
unfolding entry_pgdir
entry_pgdir_lem table va from to (inl low) =
    let i : va / 2 ^ 22 ≡ 0 = omega arith in
    let t : ltb va (2 ^ 22) ≡ true = ground arith in rw (i, t) (omega arith)
entry_pgdir_lem table va from to (inr (le, lt)) =
    let i : va / 2 ^ 22 ≡ kernbase / 2 ^ 22 = omega arith in
    let t : ltb va (2 ^ 22) ≡ false = ground arith in rw (i, t) (omega arith)

va-word : (va : ℕ) → (va < 2 ^ 22) ⊎ ((kernbase ≤ va) × (va < kernbase + 2 ^ 22)) → va < 2 ^ 32
va-word va (inl low) = omega arith
va-word va (inr (le, lt)) = omega arith

-- Where the page table lies at a page boundary of the kernel's image, every address of the first
-- 4 MB, and every address of the 4 MB from KERNBASE on, has a present directory entry that holds
-- the table's physical address, and its page table entry is present and writeable and gives, with
-- the offset, the same place in the first 4 MB of physical memory. The lower of the two directory
-- entries is not writeable.
pub entry_pgdir_maps :
    (table va : ℕ)
    → kernbase ≤ table
    → table + 4096 ≤ 2 ^ 32
    → table % 2 ^ 12 ≡ 0
    → (va < 2 ^ 22) ⊎ ((kernbase ≤ va) × (va < kernbase + 2 ^ 22))
    → let low = va % 2 ^ 22 in
      (pte_addr (entry_pgdir table (pdx va)) ≡ table - kernbase)
      × (entry_pgdir table (pdx va) % 2 ^ 12 ≡ (if ltb va (2 ^ 22) then pte_p else pte_p + pte_w))
      × (pte_addr (entry_pgtable (ptx va)) + pgoff va ≡ low)
      × (entry_pgtable (ptx va) % 2 ^ 12 ≡ pte_p + pte_w)
entry_pgdir_maps table va from to aligned where_va =
    let page : ℕ = va / 2 ^ 12 % 2 ^ 10 in
    let row : entry_pgtable page ≡ page * 2 ^ 12 + 3 = entry_pgtable_lem page (omega arith) in
    let flags : ℕ = if ltb va (2 ^ 22) then pte_p else pte_p + pte_w in
    let few : flags < 2 ^ 12 = ground arith in
    let dir : entry_pgdir table (va / 2 ^ 22) ≡ table - kernbase + flags =
      entry_pgdir_lem table va from (omega arith) where_va in
    let index : pdx va ≡ va / 2 ^ 22 = pdx_lem va (va-word va where_va) in
    (
      rw (index, dir, pte_addr_lem (table - kernbase + flags) (omega arith)) (omega arith),
      rw (index, dir) (omega arith),
      rw (ptx_lem va, pgoff_lem va, row, pte_addr_lem (page * 2 ^ 12 + 3) (omega arith))
          (omega arith),
      rw (ptx_lem va, row) (omega arith),
    )
