-- ===== src/Kdebug/Search/Inv.antt =====
-- kern/kdebug.c: the invariant and the measure of the loop of stab_binsearch.
use jos_ece.Prelude.{
  ℕ, suc, ◌+◌, ◌-◌, ◌*◌, ◌^◌, ◌≤◌, ◌<◌, ◌≡◌, ◌≢◌, ◌⊎◌, inl, inr, true, arith, leb, if◌then◌else◌,
}
use jos_ece.Kdebug.Stab.{Stabs}
use jos_ece.Kdebug.Search.{Bounds}
use jos_ece.Kdebug.Search.Back.{Is, Free}

-- A range of the table in which the entries of the type ascend, none lies one byte above the
-- address, and no value is the last of the address space.
pub record Searchable (stabs : Stabs) (type left right1 addr : ℕ) : Type 0 where
  pub ascends :
      (i j : ℕ)
      → left ≤ i
      → i ≤ j
      → j < right1
      → Is stabs type i
      → Is stabs type j
      → (stabs i).n_value ≤ (stabs j).n_value
  pub no_next : (i : ℕ) → left ≤ i → i < right1 → Is stabs type i → (stabs i).n_value ≢ addr + 1
  pub no_last : (i : ℕ) → (stabs i).n_value < 2 ^ 32 - 1

module _ (stabs : Stabs) (type left right1 a : ℕ)
    (table : Searchable stabs type left right1 a) where
  -- The best entry so far, or still the left end with no entry of the type before `l`.
  abbrev pub Best : Bounds → Type 0
  Best b =
      ((b.any_matches ≡ true)
        × (b.region_left < right1)
        × (b.region_left ≤ b.l)
        × Is stabs type b.region_left
        × ((stabs b.region_left).n_value ≤ a)
        × Free stabs type (suc b.region_left) b.l)
      ⊎ ((b.region_left ≡ left) × Free stabs type left b.l)

  -- The right end is that of the whole range, or stands before an entry above the address.
  abbrev pub Bound : Bounds → Type 0
  Bound b =
      (b.r1 ≡ right1)
      ⊎ ((b.any_matches ≡ true)
          × (left ≤ b.r1)
          × (b.r1 < right1)
          × Is stabs type b.r1
          × (a < (stabs b.r1).n_value))

  pub record Inv (b : Bounds) : Type 0 where
    pub from : left ≤ b.l
    pub from_left : left ≤ b.region_left
    pub to : b.r1 ≤ right1
    pub right_is : b.region_right1 ≡ b.r1
    pub address : (b.addr ≡ a) ⊎ (b.addr ≡ a + 1)
    pub best : Best b
    pub bound : Bound b
    pub witness : b.any_matches ≡ true → (i : ℕ) × (left ≤ i) × (i < right1) × Is stabs type i

  -- What every round lowers: twice the width, and one more while the left end may match exactly.
  unfoldable pub measure : Bounds → ℕ
  measure b = 2 * (b.r1 - b.l) + (if leb b.addr (stabs b.l).n_value then 1 else 0)

  pub above :
      (b : Bounds) (i : ℕ)
      → Bound b
      → b.r1 ≤ i
      → i < right1
      → Is stabs type i
      → a < (stabs i).n_value
  above b i (inl e) p q is = absurd (omega arith)
  above b i (inr (any, from, lt, at, over)) p q is =
      omega (arith, table.ascends b.r1 i from p q at is)
