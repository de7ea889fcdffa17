-- ===== src/Tests/Info.antt =====
-- debuginfo_eip at a concrete symbol table.
use jos_ece.Prelude.{
  ℕ, zero, suc, ◌-◌, ◌^◌, ◌≤◌, ◌<◌, ◌≡◌, ◌≢◌, ◌⊎◌, inl, inr, refl, [], ◌∷◌, get_or, arith, ◌==◌,
  if◌then◌else◌,
}
use jos_ece.Prelude.Int.{negsuc}
use jos_ece.Memory.{Memory}
use jos_ece.Kdebug.Stab.{Stab, Stabs, n_so, n_fun, n_sline}
use jos_ece.Kdebug.Search.Inv.{Searchable}
use jos_ece.Kdebug.Search.Found.{Brackets}
use jos_ece.Kdebug.Info.{looked, outside, initial, debuginfo_eip}
use jos_ece.Kdebug.Info.Line.{Tells, debuginfo_eip-Tells}
use jos_ece.Kdebug.Info.File.{debuginfo_eip_no_file}

abbrev entry : ℕ → ℕ → ℕ → ℕ → Stab
entry strx type desc value = record {
  n_strx = strx;
  n_type = type;
  n_other = 0;
  n_desc = desc;
  n_value = value;
}

-- A file with one function, of two lines.
abbrev table : Stabs
table i =
    get_or
      (entry 0 0 0 0
        ∷ entry 0 n_so 0 0xF010_0000
        ∷ entry 1 n_fun 0 0xF010_0000
        ∷ entry 0 n_sline 7 0
        ∷ entry 0 n_sline 8 8
        ∷ [])
      i (entry 0 0 0 0)

-- The name `f:F`.
abbrev strings : Memory
strings a = get_or (0 ∷ b'f' ∷ b':' ∷ b'F' ∷ 0 ∷ []) a 0

so_at : (i : ℕ) → (table i).n_type ≡ n_so → i ≡ 1
so_at zero h = absurd (omega arith)
so_at (suc zero) h = refl
so_at (suc (suc zero)) h = absurd (omega arith)
so_at (suc (suc (suc zero))) h = absurd (omega arith)
so_at (suc (suc (suc (suc zero)))) h = absurd (omega arith)
so_at (suc (suc (suc (suc (suc i))))) h = absurd (omega arith)

fun_at : (i : ℕ) → (table i).n_type ≡ n_fun → i ≡ 2
fun_at zero h = absurd (omega arith)
fun_at (suc zero) h = absurd (omega arith)
fun_at (suc (suc zero)) h = refl
fun_at (suc (suc (suc zero))) h = absurd (omega arith)
fun_at (suc (suc (suc (suc zero)))) h = absurd (omega arith)
fun_at (suc (suc (suc (suc (suc i))))) h = absurd (omega arith)

line_at : (i : ℕ) → (table i).n_type ≡ n_sline → (i ≡ 3) ⊎ (i ≡ 4)
line_at zero h = absurd (omega arith)
line_at (suc zero) h = absurd (omega arith)
line_at (suc (suc zero)) h = absurd (omega arith)
line_at (suc (suc (suc zero))) h = inl refl
line_at (suc (suc (suc (suc zero)))) h = inr refl
line_at (suc (suc (suc (suc (suc i))))) h = absurd (omega arith)

below_top : (i : ℕ) → (table i).n_value < 2 ^ 32 - 1
below_top zero = omega arith
below_top (suc zero) = omega arith
below_top (suc (suc zero)) = omega arith
below_top (suc (suc (suc zero))) = omega arith
below_top (suc (suc (suc (suc zero)))) = omega arith
below_top (suc (suc (suc (suc (suc i))))) = omega arith

-- One entry of a type ascends.
files-Searchable : (a : ℕ) → a ≢ 0xF00F_FFFF → Searchable table n_so 0 5 a
files-Searchable a other = record {
  ascends = λ i j from le lt hi hj. rw (so_at i hi, so_at j hj) (omega arith);
  no_next = λ i from lt hi. rw (so_at i hi) (λ e. other (omega arith));
  no_last = below_top;
}

file-Brackets : Brackets table n_so 0 5 0xF010_0004 1 (record { left1 = 2; right1 = 5 })
file-Brackets = record {
  left_is = refl;
  from = omega arith;
  before = omega arith;
  to = omega arith;
  matches = refl;
  holds = omega arith;
  none_between = λ i from lt hi. omega (arith, so_at i hi);
  edge = inl refl;
  beyond = λ i from lt hi. absurd (omega arith);
}

funs-Searchable : Searchable table n_fun 1 5 0xF010_0004
funs-Searchable = record {
  ascends = λ i j from le lt hi hj. rw (fun_at i hi, fun_at j hj) (omega arith);
  no_next = λ i from lt hi. rw (fun_at i hi) (λ e. omega arith);
  no_last = below_top;
}

fun-Brackets : Brackets table n_fun 1 5 0xF010_0004 2 (record { left1 = 3; right1 = 5 })
fun-Brackets = record {
  left_is = refl;
  from = omega arith;
  before = omega arith;
  to = omega arith;
  matches = refl;
  holds = omega arith;
  none_between = λ i from lt hi. omega (arith, fun_at i hi);
  edge = inl refl;
  beyond = λ i from lt hi. absurd (omega arith);
}

lines-ascend :
    (i j : ℕ)
    → i ≤ j
    → (table i).n_type ≡ n_sline
    → (table j).n_type ≡ n_sline
    → (table i).n_value ≤ (table j).n_value
lines-ascend i j le hi hj = elim (line_at i hi) [
  | inl i3 ↦ rw i3 (omega arith)
  | inr i4 ↦ elim (line_at j hj) [
    | inl j3 ↦ absurd (omega arith)
    | inr j4 ↦ rw (i4, j4) (omega arith)
  ]
]

lines-Searchable : Searchable table n_sline 2 5 4
lines-Searchable = record {
  ascends = λ i j from le lt hi hj. lines-ascend i j le hi hj;
  no_next = λ i from lt hi. elim (line_at i hi) [
    | inl i3 ↦ rw i3 (λ e. omega arith)
    | inr i4 ↦ rw i4 (λ e. omega arith)
  ];
  no_last = below_top;
}

line-Brackets : Brackets table n_sline 2 5 4 3 (record { left1 = 4; right1 = 4 })
line-Brackets = record {
  left_is = refl;
  from = omega arith;
  before = omega arith;
  to = omega arith;
  matches = refl;
  holds = omega arith;
  none_between = λ i from lt hi. absurd (omega arith);
  edge = inr (refl, omega arith);
  beyond = λ i from lt hi. elim (line_at i hi) [
    | inl i3 ↦ absurd (omega arith)
    | inr i4 ↦ rw i4 (omega arith)
  ];
}

debuginfo_eip-Tells_example :
    Tells 1 1 0xF010_0000 7 (debuginfo_eip 20 table 5 strings 5 0xF010_0004)
debuginfo_eip-Tells_example =
    debuginfo_eip-Tells 20 table 5 strings 5 0xF010_0004 1 5 2 5 3 4 (b'f' ∷ []) (b':' ∷ b'F' ∷ [])
      (omega arith) (omega arith) (omega arith) refl (omega arith)
      (files-Searchable 0xF010_0004 (λ e. omega arith)) file-Brackets (omega arith) funs-Searchable
      fun-Brackets lines-Searchable line-Brackets (omega arith) (ground arith) (omega arith, tt)
      refl (omega arith)

debuginfo_eip_no_file_example :
    debuginfo_eip 20 table 5 strings 5 0xF000_0000
    ≡ (if (table 0).n_type == n_so then outside else looked (negsuc 0) (initial 0xF000_0000))
debuginfo_eip_no_file_example =
    debuginfo_eip_no_file 20 table 5 strings 5 0xF000_0000 (omega arith) (omega arith) refl
      (files-Searchable 0xF000_0000 (λ e. omega arith)) (λ i lt is. rw (so_at i is) (omega arith))
      (omega arith) (omega arith)
