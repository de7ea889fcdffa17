-- ===== src/Kdebug/Search/Found.antt =====
-- kern/kdebug.c: the result of stab_binsearch, by whether an entry of the type is at or below the
-- address, above it, or absent.
use jos_ece.Prelude.{
  ℕ, suc, ◌+◌, ◌-◌, ◌*◌, ◌≤◌, ◌<◌, ◌≡◌, refl, ap, ◌∙◌, ◌⊎◌, inl, inr, true, false, some, arith,
  Bool-cases, dec_lt, leb, if◌then◌else◌,
}
use jos_ece.Kdebug.Stab.{Stabs}
use jos_ece.Kdebug.Search.{Bounds, Region, finish, stab_binsearch}
use jos_ece.Kdebug.Search.Back.{Is, Free, rightmost-Free}
use jos_ece.Kdebug.Search.Inv.{Searchable, Inv, above, measure}
use jos_ece.Kdebug.Search.Rounds.{rounds-Inv}

abbrev start : ℕ → ℕ → ℕ → Bounds
start left right1 addr = record {
  l = left;
  r1 = right1;
  region_left = left;
  region_right1 = right1;
  any_matches = false;
  addr = addr;
}

-- `region_left` is the last entry of the type at or below the address, and `region_right` stands
-- before the next entry of the type, or at the end of the range.
pub record Brackets (stabs : Stabs) (type left right1 a : ℕ) (k : ℕ) (r : Region) : Type 0 where
  pub left_is : r.left1 ≡ k + 1
  pub from : left ≤ k
  pub before : k < r.right1
  pub to : r.right1 ≤ right1
  pub matches : Is stabs type k
  pub holds : (stabs k).n_value ≤ a
  pub none_between : Free stabs type (suc k) r.right1
  pub edge : (r.right1 ≡ right1) ⊎ (Is stabs type r.right1 × (a < (stabs r.right1).n_value))
  pub beyond : (i : ℕ) → r.right1 ≤ i → i < right1 → Is stabs type i → a < (stabs i).n_value

module _ (stabs : Stabs) (type left right1 a : ℕ)
    (table : Searchable stabs type left right1 a) where
  start-Inv : Inv stabs type left right1 a table (start left right1 a)
  start-Inv = record {
    from = omega arith;
    from_left = omega arith;
    to = omega arith;
    right_is = refl;
    address = inl refl;
    best = inr (refl, λ i p q. absurd (omega arith));
    bound = inl refl;
    witness = λ any. cc;
  }

  -- The loop ends within twice the width of the range and two rounds more.
  search_ends :
      (f : ℕ)
      → 2 * (right1 - left) + 1 < f
      → (b : Bounds) × (stab_binsearch f stabs left right1 type a ≡ some (finish stabs type b))
        × Inv stabs type left right1 a table b
        × (b.r1 ≤ b.l)
  unfolding stab_binsearch measure
  search_ends f lt =
      let (b, ran, inv, past) =
        rounds-Inv stabs type left right1 a table f (start left right1 a) start-Inv
          (ground arith) in
      (b, ground arith, inv, past)

  module _ (b : Bounds) (inv : Inv stabs type left right1 a table b) (past : b.r1 ≤ b.l) where
    -- A match is the result, and the right end stands behind it.
    finish_match :
        b.any_matches ≡ true
        → b.region_left < b.r1
        → Free stabs type (suc b.region_left) b.l
        → finish stabs type b ≡ record { left1 = b.region_left + 1; right1 = b.r1 }
    unfolding finish
    finish_match any inside free =
        let k : ℕ = b.r1 - 1 - b.region_left in
        ground (
          arith,
          inv.right_is,
          rightmost-Free stabs type b.region_left k (λ i p q. free i p (omega arith)),
        )

    finish-Brackets :
        b.any_matches ≡ true
        → b.region_left < right1
        → Is stabs type b.region_left
        → (stabs b.region_left).n_value ≤ a
        → Free stabs type (suc b.region_left) b.l
        → Brackets stabs type left right1 a b.region_left (finish stabs type b)
    finish-Brackets any inside at under free =
        let before : b.region_left < b.r1 = elim (dec_lt b.region_left b.r1) [
          | yes lt ↦ lt
          | no ge ↦ absurd (
              omega (
                arith,
                above stabs type left right1 a table b b.region_left inv.bound (omega arith) inside
                    at,
              ))
        ] in
        rw (finish_match any before free) (record {
          left_is = refl;
          from = inv.from_left;
          before = before;
          to = inv.to;
          matches = at;
          holds = under;
          none_between = λ i p q. free i p (omega arith);
          edge = elim inv.bound [
            | inl whole ↦ inl whole
            | inr (old, behind, in_range, is, over) ↦ inr (is, over)
          ];
          beyond = λ i p q is. above stabs type left right1 a table b i inv.bound p q is;
        })

    finish_none :
        Free stabs type left right1
        → finish stabs type b ≡ record { left1 = left + 1; right1 = left }
    unfolding finish
    finish_none none_at_all = elim inv.best [
      | inl (any, inside, le, at, under, free) ↦
          absurd (none_at_all b.region_left inv.from_left inside at)
      | inr (unmoved, free) ↦ elim (Bool-cases b.any_matches) [
        | inl any ↦ let (i, p, q, is) = inv.witness any in absurd (none_at_all i p q is)
        | inr not_any ↦ rw (not_any, unmoved)
      ]
    ]

    -- Where the first entry of the type lies above the address.
    finish_above :
        (e : ℕ)
        → left ≤ e
        → e < right1
        → Is stabs type e
        → a < (stabs e).n_value
        → Free stabs type left e
        → finish stabs type b ≡ record { left1 = (if leb e left then e else left + 1); right1 = e }
    unfolding finish
    finish_above e from to at over free = elim inv.best [
      | inl (any, inside, le, is, under, behind) ↦ elim (dec_lt b.region_left e) [
        | yes lt ↦ absurd (free b.region_left inv.from_left lt is)
        | no ge ↦
            absurd (omega (arith, table.ascends e b.region_left from (omega arith) inside at is))
      ]
      | inr (unmoved, before) ↦
          let late : b.l ≤ e = elim (dec_lt e b.l) [
            | yes lt ↦ absurd (before e from lt at)
            | no ge ↦ omega arith
          ] in
          elim inv.bound [
            | inl whole ↦ absurd (omega arith)
            | inr (any, behind, inside, is, beyond) ↦
                let here : b.r1 ≡ e = elim (dec_lt b.r1 e) [
                  | yes lt ↦ absurd (free b.r1 behind lt is)
                  | no ge ↦ omega arith
                ] in
                ground (
                  arith,
                  inv.right_is,
                  rightmost-Free stabs type left (e - 1 - left)
                      (λ i p q. free i (omega arith) (omega arith)),
                )
          ]
    ]

-- Where the range holds an entry of the type at or below the address, `stab_binsearch` ends, and
-- its result brackets the address: `region_left` is the last such entry, and `region_right`
-- stands before the next entry of the type, or at the end of the range. Supposed are entries of
-- the type in ascending order, none of them one byte above the address, no value 0xffffffff, and
-- fuel for two rounds an entry and two more.
pub stab_binsearch-Brackets :
    (stabs : Stabs) (type left right1 a f e : ℕ)
    → Searchable stabs type left right1 a
    → 2 * (right1 - left) + 1 < f
    → left ≤ e
    → e < right1
    → Is stabs type e
    → (stabs e).n_value ≤ a
    → (r : Region) × (stab_binsearch f stabs left right1 type a ≡ some r)
      × ((k : ℕ) × Brackets stabs type left right1 a k r)
stab_binsearch-Brackets stabs type left right1 a f e table lt from to at under =
    let (b, ran, inv, past) = search_ends stabs type left right1 a table f lt in
    (
      finish stabs type b,
      ran,
      elim inv.best [
        | inl (any, inside, le, is, holds, free) ↦ (
          b.region_left,
          finish-Brackets stabs type left right1 a table b inv past any inside is holds free,
        )
        | inr (unmoved, free) ↦ absurd (missed b inv past free)
      ],
    )
  where
    missed :
        (b : Bounds)
        → Inv stabs type left right1 a table b
        → b.r1 ≤ b.l
        → Free stabs type left b.l
        → ⊥
    missed b inv past free = elim (dec_lt e b.l) [
      | yes before ↦ free e from before at
      | no behind ↦
          omega (arith, above stabs type left right1 a table b e inv.bound (omega arith) to at)
    ]

-- Where the range holds no entry of the type, `stab_binsearch` ends with `region_left` unchanged
-- and `region_right` just below it, for fuel of two rounds an entry and two more.
pub stab_binsearch_none :
    (stabs : Stabs) (type left right1 a f : ℕ)
    → Searchable stabs type left right1 a
    → 2 * (right1 - left) + 1 < f
    → Free stabs type left right1
    → stab_binsearch f stabs left right1 type a ≡ some (record { left1 = left + 1; right1 = left })
stab_binsearch_none stabs type left right1 a f table lt free =
    let (b, ran, inv, past) = search_ends stabs type left right1 a table f lt in
    ran ∙ ap some (finish_none stabs type left right1 a table b inv past free)

-- Where the range holds entries of the type, all above the address, and `e` is the first of them,
-- `stab_binsearch` ends with `region_right` at `e - 1`, and with `region_left` at the left end of
-- the range, or at `e - 1` too where `e` is the left end: so `region_left` does not pass
-- `region_right`. Supposed are the same of the entries as for an address that is found, and fuel
-- for two rounds an entry and two more.
pub stab_binsearch_above :
    (stabs : Stabs) (type left right1 a f e : ℕ)
    → Searchable stabs type left right1 a
    → 2 * (right1 - left) + 1 < f
    → left ≤ e
    → e < right1
    → Is stabs type e
    → a < (stabs e).n_value
    → Free stabs type left e
    → stab_binsearch f stabs left right1 type a
      ≡ some (record { left1 = (if leb e left then e else left + 1); right1 = e })
stab_binsearch_above stabs type left right1 a f e table lt from to at over free =
    let (b, ran, inv, past) = search_ends stabs type left right1 a table f lt in
    ran ∙ ap some (finish_above stabs type left right1 a table b inv past e from to at over free)
