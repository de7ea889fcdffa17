-- ===== src/Tests/Kdebug.antt =====
-- kern/kdebug.c at a concrete table.
use jos_ece.Prelude.{
  ℕ, zero, suc, ◌≤◌, ◌<◌, ◌≡◌, ◌≢◌, ◌-◌, ◌^◌, ◌⊎◌, inl, inr, refl, [], ◌∷◌, get_or, some, arith,
}
use jos_ece.Kdebug.Stab.{Stab, Stabs, n_fun, n_so, n_sline}
use jos_ece.Kdebug.Search.{Region, stab_binsearch}
use jos_ece.Kdebug.Search.Inv.{Searchable}
use jos_ece.Kdebug.Search.Found.{Brackets, stab_binsearch-Brackets}

abbrev entry : ℕ → ℕ → Stab
entry type value = record { n_strx = 0; n_type = type; n_other = 0; n_desc = 0; n_value = value }

-- Two functions, at 10 and at 20, and a line of the first.
abbrev table : Stabs
table i = get_or (entry n_fun 10 ∷ entry n_sline 0 ∷ entry n_fun 20 ∷ []) i (entry 0 0)

funs : (i : ℕ) → (table i).n_type ≡ n_fun → (i ≡ 0) ⊎ (i ≡ 2)
funs zero h = inl refl
funs (suc zero) h = absurd (omega arith)
funs (suc (suc zero)) h = inr refl
funs (suc (suc (suc i))) h = absurd (omega arith)

small : (i : ℕ) → (table i).n_value < 2 ^ 32 - 1
small zero = omega arith
small (suc zero) = omega arith
small (suc (suc zero)) = omega arith
small (suc (suc (suc i))) = omega arith

table-ascends :
    (i j : ℕ)
    → i ≤ j
    → (table i).n_type ≡ n_fun
    → (table j).n_type ≡ n_fun
    → (table i).n_value ≤ (table j).n_value
table-ascends i j le hi hj = elim (funs i hi) [
  | inl i0 ↦ elim (funs j hj) [
    | inl j0 ↦ rw (i0, j0) (omega arith)
    | inr j2 ↦ rw (i0, j2) (omega arith)
  ]
  | inr i2 ↦ elim (funs j hj) [ inl j0 ↦ absurd (omega arith) | inr j2 ↦ rw (i2, j2) (omega arith) ]
]

table-Searchable : (a : ℕ) → a ≢ 9 → a ≢ 19 → Searchable table n_fun 0 3 a
table-Searchable a n9 n19 = record {
  ascends = λ i j from le lt hi hj. table-ascends i j le hi hj;
  no_next = λ i from lt hi. elim (funs i hi) [
    | inl i0 ↦ rw i0 (λ e. n9 (omega arith))
    | inr i2 ↦ rw i2 (λ e. n19 (omega arith))
  ];
  no_last = small;
}

no_file : (i : ℕ) → (table i).n_type ≢ n_so
no_file zero h = omega arith
no_file (suc zero) h = omega arith
no_file (suc (suc zero)) h = omega arith
no_file (suc (suc (suc i))) h = omega arith

files-Searchable : Searchable table n_so 0 3 15
files-Searchable = record {
  ascends = λ i j from le lt hi hj. absurd (no_file i hi);
  no_next = λ i from lt hi. absurd (no_file i hi);
  no_last = small;
}

stab_binsearch-Brackets_example :
    (r : Region) × (stab_binsearch 10 table 0 3 n_fun 15 ≡ some r)
    × ((k : ℕ) × Brackets table n_fun 0 3 15 k r)
stab_binsearch-Brackets_example =
    stab_binsearch-Brackets table n_fun 0 3 15 10 0
      (table-Searchable 15 (λ e. omega arith) (λ e. omega arith)) (omega arith) (omega arith)
      (omega arith) refl (omega arith)

-- The function of 15 is the first, and the next begins at entry 2.
found_run : stab_binsearch 10 table 0 3 n_fun 15 ≡ some (record { left1 = 1; right1 = 2 })
unfolding stab_binsearch
found_run = refl

-- Functions at 10 and 11: for 10 the entry of 11 is returned, as the address counts up once the
-- first is met.
next_byte_run :
    stab_binsearch 10
      (λ i. get_or (entry n_fun 10 ∷ entry n_fun 11 ∷ []) i (entry 0 0))
      0
      2
      n_fun
      10
    ≡ some (record { left1 = 2; right1 = 2 })
unfolding stab_binsearch
next_byte_run = refl
