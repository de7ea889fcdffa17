-- ===== src/Kdebug/Search/Unique.antt =====
-- kern/kdebug.c: stab_binsearch where the bracket of the address is given.
use jos_ece.Prelude.{
  ℕ, ◌+◌, ◌-◌, ◌*◌, ◌≤◌, ◌<◌, ◌≡◌, ◌∙◌, sym, ap, ap₂, subst, inl, inr, some, arith, dec_lt,
}
use jos_ece.Kdebug.Stab.{Stabs}
use jos_ece.Kdebug.Search.{Region, stab_binsearch}
use jos_ece.Kdebug.Search.Inv.{Searchable}
use jos_ece.Kdebug.Search.Found.{Brackets, stab_binsearch-Brackets}

module _ (stabs : Stabs) (type left right1 a : ℕ) where
  Brackets-le :
      (k j : ℕ) (r s : Region)
      → Brackets stabs type left right1 a k r
      → Brackets stabs type left right1 a j s
      → k ≤ j
  Brackets-le k j r s u v = elim (dec_lt j k) [
    | no ge ↦ omega arith
    | yes lt ↦ elim (dec_lt k s.right1) [
      | yes inside ↦ absurd (v.none_between k (omega arith) inside u.matches)
      | no out ↦
          let over : a < (stabs k).n_value =
            v.beyond k (omega arith) (omega (arith, u.before, u.to)) u.matches in
          absurd (omega (arith, u.holds))
    ]
  ]

  edge-le :
      (k : ℕ) (r s : Region)
      → Brackets stabs type left right1 a k r
      → Brackets stabs type left right1 a k s
      → r.right1 ≤ s.right1
  edge-le k r s u v = elim v.edge [
    | inl whole ↦ omega (arith, u.to)
    | inr (is, over) ↦ elim (dec_lt s.right1 r.right1) [
      | no ge ↦ omega arith
      | yes lt ↦ absurd (u.none_between s.right1 (omega (arith, v.before)) lt is)
    ]
  ]

  -- The search ends with the bracket of the address, where there is one.
  pub stab_binsearch_bracket :
      (f k : ℕ) (r : Region)
      → Searchable stabs type left right1 a
      → 2 * (right1 - left) + 1 < f
      → Brackets stabs type left right1 a k r
      → stab_binsearch f stabs left right1 type a ≡ some r
  stab_binsearch_bracket f k r table lt u =
      let (s, ran, found) =
        stab_binsearch-Brackets stabs type left right1 a f k table lt u.from
          (omega (arith, u.before, u.to)) u.matches u.holds in
      ran ∙ ap some (same found.0 s found.1)
    where
      region : (r s : Region) → r.left1 ≡ s.left1 → r.right1 ≡ s.right1 → r ≡ s
      region r s e d = ap₂ (λ x y. record { left1 = x; right1 = y }) e d

      same : (j : ℕ) (s : Region) → Brackets stabs type left right1 a j s → s ≡ r
      same j s v =
          let le : k ≤ j = Brackets-le k j r s u v in
          let ge : j ≤ k = Brackets-le j k s r v u in
          let e : j ≡ k = omega arith in
          let w : Brackets stabs type left right1 a k s =
            subst (λ i. Brackets stabs type left right1 a i s) e v in
          region s r (w.left_is ∙ sym u.left_is)
            (omega (arith, edge-le k r s u w, edge-le k s r w u))
