-- ===== src/Kdebug/Search/Rounds.antt =====
-- kern/kdebug.c: a round of the loop of stab_binsearch, and the loop.
use jos_ece.Prelude.{
  ℕ, zero, suc, ◌+◌, ◌-◌, ◌*◌, ◌/◌, ◌%◌, ◌^◌, ◌≤◌, ◌<◌, ◌≡◌, refl, inl, inr, ap, true, Option, none,
  some, arith, Bool-cases, ℕ_discrete, ltb, ltb→lt, leb, dec_lt, if◌then◌else◌,
}
use jos_ece.Kdebug.Stab.{Stabs}
use jos_ece.Kdebug.Search.{Bounds, scan_back, compare_at, round, rounds}
use jos_ece.Kdebug.Search.Back.{Is, Free, Scanned, scan_back-Scanned}
use jos_ece.Kdebug.Search.Inv.{Searchable, Best, Bound, Inv, measure}

module _ (stabs : Stabs) (type left right1 a : ℕ)
    (table : Searchable stabs type left right1 a) where
  -- A round keeps the invariant and lowers the measure.
  abbrev Next : Bounds → Bounds → Type 0
  Next b b' =
      Inv stabs type left right1 a table b'
      × (measure stabs type left right1 a table b' < measure stabs type left right1 a table b)

  abbrev value : ℕ → ℕ
  value i = (stabs i).n_value

  module _ (b : Bounds) (m true_m : ℕ) (inv : Inv stabs type left right1 a table b)
      (lt : b.l < b.r1) (mid : true_m ≡ (b.l + b.r1 - 1) / 2) (p : b.l ≤ m) (q : m < suc true_m)
      (is : Is stabs type m) (free : Free stabs type (suc m) (suc true_m)) where
    Bound-kept :
        (b' : Bounds)
        → b'.r1 ≡ b.r1
        → b'.any_matches ≡ true
        → Bound stabs type left right1 a table b'
    Bound-kept b' e any = elim inv.bound [
      | inl whole ↦ inl (omega arith)
      | inr (old, from, inside, at, over) ↦ inr (any, omega arith, omega arith, rw e at, rw e over)
    ]

    Best-kept :
        (b' : Bounds)
        → b'.l ≡ b.l
        → b'.region_left ≡ b.region_left
        → b'.any_matches ≡ true
        → Best stabs type left right1 a table b'
    Best-kept b' el e any = elim inv.best [
      | inl (old, inside, le, at, under, none_between) ↦
          inl (any, omega arith, omega arith, rw e at, rw e under, rw (e, el) none_between)
      | inr (start, none_before) ↦ inr (omega arith, rw el none_before)
    ]

    below-Next :
        value m < b.addr → Next b (record b { l = true_m + 1; region_left = m; any_matches = true })
    unfolding measure
    below-Next under = (
      record {
        from = omega (arith, inv.from);
        from_left = omega (arith, inv.from);
        to = inv.to;
        right_is = inv.right_is;
        address = inv.address;
        best = inl (
          refl,
          omega (arith, inv.to),
          omega arith,
          is,
          omega (arith, inv.address),
          λ i above below. free i above (omega arith),
        );
        bound =
            Bound-kept (record b { l = true_m + 1; region_left = m; any_matches = true }) refl refl;
        witness = λ any. (m, omega (arith, inv.from), omega (arith, inv.to), is);
      },
      ground arith,
    )

    above-Next :
        b.addr < value m → Next b (record b { r1 = m; region_right1 = m; any_matches = true })
    unfolding measure
    above-Next over = (
      record {
        from = inv.from;
        from_left = inv.from_left;
        to = omega (arith, inv.to);
        right_is = refl;
        address = inv.address;
        best =
            Best-kept (record b { r1 = m; region_right1 = m; any_matches = true }) refl refl refl;
        bound =
            inr (
              refl,
              omega (arith, inv.from),
              omega (arith, inv.to),
              is,
              omega (arith, inv.address),
            );
        witness = λ any. (m, omega (arith, inv.from), omega (arith, inv.to), is);
      },
      ground arith,
    )

    exact-Next :
        b.addr ≡ value m
        → Next b
            (record b { l = m; region_left = m; any_matches = true; addr = (b.addr + 1) % 2 ^ 32 })
    unfolding measure
    exact-Next same =
        let at : value m ≡ a = omega (
          arith,
          table.no_next m (omega (arith, inv.from)) (omega (arith, inv.to)) is,
          inv.address,
        ) in
        (
          record {
            from = omega (arith, inv.from);
            from_left = omega (arith, inv.from);
            to = inv.to;
            right_is = inv.right_is;
            address = inr (omega (arith, table.no_last m));
            best = inl (
              refl,
              omega (arith, inv.to),
              omega arith,
              is,
              omega arith,
              λ i above below. absurd (omega arith),
            );
            bound =
                Bound-kept
                  (record b {
                    l = m;
                    region_left = m;
                    any_matches = true;
                    addr = (b.addr + 1) % 2 ^ 32;
                  })
                  refl refl;
            witness = λ any. (m, omega (arith, inv.from), omega (arith, inv.to), is);
          },
          exact_measure same,
        )
      where
        exact_measure :
            b.addr ≡ value m
            → 2 * (b.r1 - m) + (if leb ((b.addr + 1) % 2 ^ 32) (value m) then 1 else 0)
              < 2 * (b.r1 - b.l) + (if leb b.addr (value b.l) then 1 else 0)
        exact_measure same = elim (ℕ_discrete m b.l) [
          | yes eq ↦ ground (arith, ap (λ i. value i) eq, table.no_last m)
          | no ne ↦ ground (arith, table.no_last m)
        ]

    compare_at-Next : Next b (compare_at stabs true_m m b)
    unfolding compare_at
    compare_at-Next = elim (Bool-cases (ltb (value m) b.addr)) [
      | inl under ↦ rw under (below-Next (ltb→lt (value m) b.addr under))
      | inr not_under ↦ elim (Bool-cases (ltb b.addr (value m))) [
        | inl over ↦ rw (not_under, over) (above-Next (ltb→lt b.addr (value m) over))
        | inr not_over ↦ rw (not_under, not_over) (exact-Next (ground arith))
      ]
    ]

  skip-Next :
      (b : Bounds) (true_m : ℕ)
      → Inv stabs type left right1 a table b
      → b.l < b.r1
      → true_m ≡ (b.l + b.r1 - 1) / 2
      → Free stabs type b.l (suc true_m)
      → Next b (record b { l = true_m + 1 })
  unfolding measure
  skip-Next b true_m inv lt mid free = (
    record {
      from = omega (arith, inv.from);
      from_left = inv.from_left;
      to = inv.to;
      right_is = inv.right_is;
      address = inv.address;
      best = elim inv.best [
        | inl (old, inside, le, at, under, none_between) ↦
            inl (old, inside, omega arith, at, under, λ i p q. longer none_between i p q)
        | inr (start, none_before) ↦ inr (start, λ i p q. longer none_before i p q)
      ];
      bound = inv.bound;
      witness = inv.witness;
    },
    ground arith,
  )
    where
      longer : {c : ℕ} → Free stabs type c b.l → Free stabs type c (true_m + 1)
      longer old i p q = elim (dec_lt i b.l) [
        | yes before ↦ old i p before
        | no behind ↦ free i (omega arith) (omega arith)
      ]

  round-Next :
      (b : Bounds) → Inv stabs type left right1 a table b → b.l < b.r1 → Next b (round stabs type b)
  unfolding round
  round-Next b inv lt =
      go (scan_back stabs type b.l (mid + 1 - b.l))
        (scan_back-Scanned stabs type b.l (mid + 1 - b.l))
    where
      mid : ℕ
      mid = (b.l + b.r1 - 1) / 2

      ends : b.l + (mid + 1 - b.l) ≡ suc mid
      ends = omega arith

      go :
          (r : Option ℕ)
          → Scanned stabs type b.l (mid + 1 - b.l) r
          → Next b (elim r [ none ↦ record b { l = mid + 1 } | some m ↦ compare_at stabs mid m b ])
      go none free = skip-Next b mid inv lt refl (rw ends at free)
      go (some m) (p, q, is, free) =
          compare_at-Next b m mid inv lt refl p (omega arith) is (rw ends at free)

  -- With more fuel than the measure the loop ends with `l` past `r`, and the invariant holds.
  pub rounds-Inv :
      (f : ℕ) (b : Bounds)
      → Inv stabs type left right1 a table b
      → measure stabs type left right1 a table b < f
      → (b' : Bounds) × (rounds f stabs type b ≡ some b')
        × Inv stabs type left right1 a table b'
        × (b'.r1 ≤ b'.l)
  unfolding rounds
  rounds-Inv zero b inv lt = absurd (omega arith)
  rounds-Inv (suc f) b inv lt = elim (Bool-cases (ltb b.l b.r1)) [
    | inl more ↦
        let (inv', less) = round-Next b inv (ltb→lt b.l b.r1 more) in
        rw more (rounds-Inv f (round stabs type b) inv' (omega arith))
    | inr done ↦ (b, rw done, inv, ground arith)
  ]
