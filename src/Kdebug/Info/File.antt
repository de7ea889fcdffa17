-- ===== src/Kdebug/Info/File.antt =====
-- kern/kdebug.c: debuginfo_eip where no source file is found.
use jos_ece.Prelude.{
  ℕ, zero, suc, ◌+◌, ◌-◌, ◌*◌, ◌≤◌, ◌<◌, ◌≡◌, ◌≢◌, ◌⊎◌, ◌∙◌, refl, ap, subst, inl, inr, true, false,
  arith, ltb, leb, ◌==◌, ℕ_discrete, if◌then◌else◌, some,
}
use jos_ece.Prelude.Int.{negsuc}
use jos_ece.Memory.{Memory}
use jos_ece.Kdebug.Stab.{Stabs, n_so}
use jos_ece.Kdebug.Search.{stab_binsearch}
use jos_ece.Kdebug.Search.Back.{Is, Free}
use jos_ece.Kdebug.Search.Inv.{Searchable}
use jos_ece.Kdebug.Search.Found.{stab_binsearch_none, stab_binsearch_above}
use jos_ece.Mmu.Layout.{ulim}
use jos_ece.Kdebug.Info.{looked, outside, initial, debuginfo_eip}

-- The first entry of a type, or none.
first_entry :
    (stabs : Stabs) (type n : ℕ)
    → Free stabs type 0 n ⊎ ((e : ℕ) × (e < n) × Is stabs type e × Free stabs type 0 e)
first_entry stabs type zero = inl (λ i from lt. elim lt [ ])
first_entry stabs type (suc n) = elim (first_entry stabs type n) [
  | inr (e, lt, is, before) ↦ inr (e, omega arith, is, before)
  | inl before ↦ elim (ℕ_discrete (stabs n).n_type type) [
    | yes is ↦ inr (n, omega arith, is, before)
    | no not_is ↦ inl (λ i from lt is. elim (ℕ_discrete i n) [
      | yes e ↦ not_is (rw (← e) is)
      | no other ↦ before i from (omega arith) is
    ])
  ]
]

so_test : (type : ℕ) → type ≡ n_so → (type == n_so) ≡ true
so_test type e = ground arith

-- How the code goes on once the file has been searched.
file_searched :
    (f : ℕ) (stabs : Stabs) (n : ℕ) (strs : Memory) (strsize addr left1 right1 : ℕ)
    → ulim ≤ addr
    → 0 < strsize
    → strs (strsize - 1) ≡ 0
    → left1 < 2
    → stab_binsearch f stabs 0 n n_so addr ≡ some (record { left1 = left1; right1 = right1 })
    → debuginfo_eip f stabs n strs strsize addr
      ≡ (if left1 == 0 then outside else looked (negsuc 0) (initial addr))
unfolding debuginfo_eip
file_searched f stabs n strs strsize addr left1 right1 kernel some_names ended small ran =
    let t : ltb addr ulim ≡ false = ground arith in
    let u : (strsize == 0) ≡ false = ground arith in
    let v : (strs (strsize - 1) == 0) ≡ true = ground arith in
    rw (debuginfo_eip, t, u, v, ran) (ground arith)

-- For a kernel address, a string table that ends in NUL, and a symbol table whose N_SO entries
-- ascend and all lie above the address, `debuginfo_eip` ends: it returns -1 with `*info` as it was
-- set first, unless entry 0 is one of the N_SO entries; then it goes on with `lfile` at -1, and
-- reads outside the table. No N_SO entry lies one byte above the address, no value is 0xffffffff,
-- and fuel for two rounds an entry and two more is enough.
pub debuginfo_eip_no_file :
    (f : ℕ) (stabs : Stabs) (n : ℕ) (strs : Memory) (strsize addr : ℕ)
    → ulim ≤ addr
    → 0 < strsize
    → strs (strsize - 1) ≡ 0
    → Searchable stabs n_so 0 n addr
    → ((i : ℕ) → i < n → Is stabs n_so i → addr < (stabs i).n_value)
    → 0 < n
    → 2 * n + 1 < f
    → debuginfo_eip f stabs n strs strsize addr
      ≡ (if (stabs 0).n_type == n_so then outside else looked (negsuc 0) (initial addr))
debuginfo_eip_no_file f stabs n strs strsize addr kernel names ended table all_above pos lt =
    elim (first_entry stabs n_so n) [
      | inl free ↦
          let other : (stabs 0).n_type ≢ n_so = λ e. free 0 (omega arith) pos e in
          let t : ((stabs 0).n_type == n_so) ≡ false = ground arith in
          file_searched f stabs n strs strsize addr 1 0 kernel names ended (omega arith)
            (stab_binsearch_none stabs n_so 0 n addr f table (omega arith) free)
          ∙ rw t refl
      | inr (e, inside, is, before) ↦
          let ran : stab_binsearch f stabs 0 n n_so addr
              ≡ some (record { left1 = (if leb e 0 then e else 0 + 1); right1 = e }) =
            stab_binsearch_above stabs n_so 0 n addr f e table (omega arith) (omega arith) inside is
              (all_above e inside is) before in
          elim (ℕ_discrete e 0) [
            | yes first ↦
                let here : (leb e 0) ≡ true = ground arith in
                let at_start : e ≡ 0 = first in
                let t : ((stabs 0).n_type == n_so) ≡ true =
                  so_test (stabs 0).n_type (subst (λ i. (stabs i).n_type ≡ n_so) first is) in
                file_searched f stabs n strs strsize addr 0 0 kernel names ended (omega arith)
                  (ran ∙ ap some (rw here (ap (λ k. record { left1 = k; right1 = k }) first)))
                ∙ rw t refl
            | no later ↦
                let not_here : (leb e 0) ≡ false = ground arith in
                let other : (stabs 0).n_type ≢ n_so =
                  λ same. before 0 (omega arith) (omega arith) same in
                let t : ((stabs 0).n_type == n_so) ≡ false = ground arith in
                file_searched f stabs n strs strsize addr 1 e kernel names ended (omega arith)
                  (ran ∙ ap some (rw not_here refl))
                ∙ rw t refl
          ]
    ]
