-- ===== src/Kdebug/Search/Back.antt =====
-- kern/kdebug.c: the two backward scans of stab_binsearch.
use jos_ece.Prelude.{
  ℕ, zero, suc, ◌+◌, ◌≤◌, ◌<◌, ◌≡◌, refl, inl, inr, not, Option, none, some, arith, Bool-cases,
  ℕ_discrete, ◌==◌,
}
use jos_ece.Kdebug.Stab.{Stabs}
use jos_ece.Kdebug.Search.{skipped, scan_back, rightmost}

module _ (stabs : Stabs) (type : ℕ) where
  -- An entry of the type that is searched for.
  abbrev pub Is : ℕ → Type 0
  Is i = (stabs i).n_type ≡ type

  -- No entry from `a` up to, without, `b` has the type.
  abbrev pub Free : ℕ → ℕ → Type 0
  Free a b = (i : ℕ) → a ≤ i → i < b → ¬ Is i

  -- The second half of the test never holds: an entry is skipped exactly when it has another type.
  skipped_iff : (i : ℕ) → skipped stabs type i ≡ not ((stabs i).n_type == type)
  unfolding skipped
  skipped_iff i = ground arith

  -- What the scan of the `k` entries from `l` on tells.
  abbrev pub Scanned : ℕ → ℕ → Option ℕ → Type 0
  Scanned l k none = Free l (l + k)
  Scanned l k (some m) = (l ≤ m) × (m < l + k) × Is m × Free (suc m) (l + k)

  Free-suc : (a b c : ℕ) → suc b ≡ c → Free a b → ¬ Is b → Free a c
  Free-suc a b c e free ne i p q same = elim (ℕ_discrete i b) [
    | yes eq ↦ ne (rw (← eq) same)
    | no other ↦ free i p (omega arith) same
  ]

  Scanned-suc : (l k : ℕ) (r : Option ℕ) → ¬ Is (l + k) → Scanned l k r → Scanned l (suc k) r
  Scanned-suc l k none ne free = Free-suc l (l + k) (l + suc k) (omega arith) free ne
  Scanned-suc l k (some m) ne (p, q, is, free) =
      (p, omega arith, is, Free-suc (suc m) (l + k) (l + suc k) (omega arith) free ne)

  pub scan_back-Scanned : (l k : ℕ) → Scanned l k (scan_back stabs type l k)
  unfolding scan_back
  scan_back-Scanned l zero = λ i p q. absurd (omega arith)
  scan_back-Scanned l (suc k) = elim (Bool-cases (skipped stabs type (l + k))) [
    | inl skip ↦ rw skip (
        Scanned-suc l k (scan_back stabs type l k) (λ is. ground (arith, skipped_iff (l + k)))
          (scan_back-Scanned l k))
    | inr stop ↦ rw stop (
      omega arith,
      omega arith,
      ground (arith, skipped_iff (l + k)),
      λ i p q. absurd (omega arith),
    )
  ]

  -- With no entry of the type behind it, the scan ends at its left end.
  pub rightmost-Free :
      (left k : ℕ) → Free (suc left) (suc (left + k)) → rightmost stabs type left k ≡ left
  unfolding rightmost
  rightmost-Free left zero free = refl
  rightmost-Free left (suc k) free =
      ground (arith, free (left + suc k), rightmost-Free left k (λ i p q. free i p (omega arith)))
