-- ===== src/Kdebug/Search.antt =====
-- kern/kdebug.c: stab_binsearch. The right end of a range is kept as one more than the `int` of
-- the code, which falls to -1, and so are both ends of the result. Indices stay below 2 ^ 30, where
-- `l + r` does not overflow. The loop takes fuel, and `none` means that it ran out.
pub mod Back
pub mod Inv
pub mod Rounds
pub mod Found
pub mod Unique
use jos_ece.Prelude.{
  ℕ, zero, suc, ◌+◌, ◌-◌, ◌*◌, ◌/◌, ◌%◌, ◌^◌, Bool, true, false, not, ◌&&◌, ◌||◌, Option, none,
  some, ltb, leb, ◌==◌, if◌then◌else◌,
}
use jos_ece.Kdebug.Stab.{Stabs, n_fun}

-- The test that skips an entry in the search for the type.
skipped : Stabs → ℕ → ℕ → Bool
skipped stabs type m =
    not ((stabs m).n_type == type) || (((stabs m).n_type == n_fun) && ((stabs m).n_type == 0))

-- `while (m >= l && skipped) m--` from `m = l + k - 1`; `none` is `m < l`.
pub scan_back : Stabs → ℕ → ℕ → ℕ → Option ℕ
unfolding skipped
scan_back stabs type l zero = none
scan_back stabs type l (suc k) =
    let rest = scan_back stabs type l k in if skipped stabs type (l + k) then rest else some (l + k)

-- The variables of the loop, and what the two pointers refer to.
pub record Bounds : Type 0 where
  pub l : ℕ
  pub r1 : ℕ
  pub region_left : ℕ
  pub region_right1 : ℕ
  pub any_matches : Bool
  pub addr : ℕ

-- The binary search proper, once an entry `m` of the type is found.
pub compare_at : Stabs → ℕ → ℕ → Bounds → Bounds
compare_at stabs true_m m b =
    if ltb (stabs m).n_value b.addr
    then record b { l = true_m + 1; region_left = m; any_matches = true }
    else if ltb b.addr (stabs m).n_value
    then record b { r1 = m; region_right1 = m; any_matches = true }
    else record b { l = m; region_left = m; any_matches = true; addr = (b.addr + 1) % 2 ^ 32 }

-- One round, at `l <= r`.
pub round : Stabs → ℕ → Bounds → Bounds
unfolding scan_back compare_at
round stabs type b =
    let true_m = (b.l + b.r1 - 1) / 2 in
    elim (scan_back stabs type b.l (true_m + 1 - b.l)) [
      | none ↦ record b { l = true_m + 1 }
      | some m ↦ compare_at stabs true_m m b
    ]

pub rounds : ℕ → Stabs → ℕ → Bounds → Option Bounds
rounds zero stabs type b = none
rounds (suc f) stabs type b =
    let rest = rounds f stabs type (round stabs type b) in if ltb b.l b.r1 then rest else some b

-- `for (l = left + k; l > left && stabs[l].n_type != type; l--)`
pub rightmost : Stabs → ℕ → ℕ → ℕ → ℕ
rightmost stabs type left zero = left
rightmost stabs type left (suc k) =
    let rest = rightmost stabs type left k in
    if not ((stabs (left + suc k)).n_type == type) then rest else left + suc k

-- `*region_left` and `*region_right` at the return, each one more than the `int`.
pub record Region : Type 0 where
  pub left1 : ℕ
  pub right1 : ℕ

pub finish : Stabs → ℕ → Bounds → Region
finish stabs type b =
    if not b.any_matches
    then record { left1 = b.region_left + 1; right1 = b.region_left }
    else if leb b.region_right1 b.region_left
    then record { left1 = b.region_right1; right1 = b.region_right1 }
    else record {
      left1 = rightmost stabs type b.region_left (b.region_right1 - 1 - b.region_left) + 1;
      right1 = b.region_right1;
    }

-- Search from `*region_left = left` and `*region_right = right1 - 1`.
unfoldable pub stab_binsearch : ℕ → Stabs → ℕ → ℕ → ℕ → ℕ → Option Region
unfolding round rounds rightmost finish
stab_binsearch f stabs left right1 type addr =
    elim (rounds f stabs type (record {
      l = left;
      r1 = right1;
      region_left = left;
      region_right1 = right1;
      any_matches = false;
      addr = addr;
    })) [ none ↦ none | some b ↦ some (finish stabs type b) ]
