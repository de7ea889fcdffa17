-- ===== src/Monitor.antt =====
-- kern/monitor.c: the argument parser of runcmd. The loops take fuel.
pub mod Words
pub mod Parse
pub mod Kernel
pub mod Commands
pub mod Help
pub mod Kerninfo
pub mod Places
pub mod Frames
pub mod Backtrace
pub mod Loop
pub mod Stays
pub mod Dispatch
pub mod Excess
pub mod Round
pub mod Answer
use jos_ece.Prelude.{
  ℕ, zero, suc, ◌+◌, ◌-◌, Bool, true, false, not, ◌&&◌, List, [], ◌∷◌, ◌++◌, length, Option, none,
  some, ◌==◌, if◌then◌else◌,
}
use jos_ece.Prelude.Int.{ℤ, pos, negsuc}
use jos_ece.Memory.{Memory, store}
use jos_ece.Str.Scan.{strchr}

abbrev pub maxargs : ℕ
maxargs = 16

-- `"\t\r\n "`, which stands at an address other than 0.
abbrev pub whitespace : Memory
whitespace a =
    if a == 1 then 9 else if a == 2 then 13 else if a == 3 then 10 else if a == 4 then 32 else 0

-- `strchr(WHITESPACE, c)` as a condition.
unfoldable pub is_space : ℕ → Bool
is_space c = elim (strchr 5 whitespace 1 c) [ none ↦ false | some p ↦ not (p == 0) ]

-- `while (*buf && strchr(WHITESPACE, *buf)) *buf++ = 0`
unfoldable pub gobble : ℕ → Memory → ℕ → Option (Memory × ℕ)
gobble zero m buf = none
gobble (suc f) m buf =
    let rest = gobble f (store m buf 0) (buf + 1) in
    if not (m buf == 0) && is_space (m buf) then rest else some (m, buf)

-- `while (*buf && !strchr(WHITESPACE, *buf)) buf++`
unfoldable pub skip_word : ℕ → Memory → ℕ → Option ℕ
skip_word zero m buf = none
skip_word (suc f) m buf =
    let rest = skip_word f m (buf + 1) in
    if not (m buf == 0) && not (is_space (m buf)) then rest else some buf

-- The arguments, or the return for too many of them, with the line as it is then.
pub data Parsed : Type 0 where
  arguments : List ℕ → Memory → Parsed
  too_many : Memory → Parsed
  no_fuel : Parsed

-- The loop, for `n` rounds at most, with the arguments so far.
unfoldable pub parse : ℕ → ℕ → Memory → ℕ → List ℕ → Parsed
parse zero f m buf argv = no_fuel
parse (suc n) f m buf argv = elim (gobble f m buf) [
  | none ↦ no_fuel
  | some (m1, b1) ↦
      if m1 b1 == 0
      then arguments argv m1
      else if length argv == maxargs - 1
      then too_many m1
      else elim (skip_word f m1 b1) [ none ↦ no_fuel | some b2 ↦ parse n f m1 b2 (argv ++ b1 ∷ []) ]
]
