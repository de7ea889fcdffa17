-- ===== src/Format/Print.antt =====
-- lib/printfmt.c: vprintfmt. Its two loops, the switch with its `goto reswitch` included, are one
-- recursion on fuel over the place in the format, in one of two modes. The step of the switch is a
-- function that says how the code goes on.
pub mod Convert
pub mod Escapes
pub mod Pieces
pub mod Filled
use jos_ece.Prelude.{
  ℕ, zero, suc, ◌+◌, ◌-◌, ◌*◌, ◌%◌, ◌^◌, List, [], ◌∷◌, ◌++◌, Option, none, some, Bool, true, false,
  ◌&&◌, ltb, leb, ◌==◌, if◌then◌else◌,
}
use jos_ece.Prelude.Int.{ℤ, pos, negsuc, ltb_ℤ}
use jos_ece.Memory.{Memory}
use jos_ece.Format.Number.{printnum}
use jos_ece.Format.Text.{codes, constant, signed32, put_string}
use jos_ece.Format.Args.{arg32, getuint, getint}

-- `error_string`, null at 0. `MAXERROR` is 7.
unfoldable pub error_string : ℕ → Option (List ℕ)
error_string e =
    if e == 1
    then some (codes "unspecified error")
    else if e == 2
    then some (codes "bad environment")
    else if e == 3
    then some (codes "invalid parameter")
    else if e == 4
    then some (codes "out of memory")
    else if e == 5
    then some (codes "out of environments")
    else if e == 6
    then some (codes "segmentation fault")
    else none

-- The variables that an escape sequence sets.
pub record Flags : Type 0 where
  pub padc : ℕ
  pub width : ℤ
  pub precision : ℤ
  pub lflag : ℕ
  pub altflag : Bool

abbrev pub fresh : Flags
fresh = record { padc = b' '; width = negsuc 0; precision = negsuc 0; lflag = 0; altflag = false }

-- How the code goes on behind a character of an escape sequence: at `reswitch`, or behind the
-- sequence with what it has put. `undefined` is a read past the last argument, or an error number
-- that has no negative.
pub data Action : Type 0 where
  reswitch : Flags → ℕ → List ℕ → Action
  resume : List ℕ → ℕ → List ℕ → Action
  undefined : Action
  no_fuel : Action

is_digit : ℕ → Bool
is_digit ch = leb b'0' ch && leb ch b'9'

-- `for (precision = 0; ; ++fmt)`: the number, and where it ends.
unfoldable pub read_number : ℕ → Memory → ℕ → ℕ → ℕ → Option (ℕ × ℕ)
unfolding is_digit
read_number zero m fmt ch precision = none
read_number (suc f) m fmt ch precision =
    let precision' = (precision * 10 + ch - b'0') % 2 ^ 32 in
    let rest = read_number f m (fmt + 1) (m fmt) precision' in
    if is_digit (m fmt) then rest else some (precision', fmt)

process_precision : ℤ → Flags → Flags
process_precision precision g =
    if ltb_ℤ g.width (pos 0)
    then record g { width = precision; precision = negsuc 0 }
    else record g { precision = precision }

-- `for (fmt--; fmt[-1] != '%'; fmt--)`, from the `fmt` behind the first decrement.
unfoldable pub back_up : Memory → ℕ → ℕ
back_up m zero = zero
back_up m (suc a) = let rest = back_up m a in if m a == b'%' then suc a else rest

-- The label `number`.
unfoldable pub put_number : List ℕ → ℕ → ℕ → Flags → ℕ → List ℕ → Action
put_number before num base g fmt ap = elim (printnum 64 num base g.width g.padc) [
  | none ↦ no_fuel
  | some out ↦ resume (before ++ out) fmt ap
]

unfoldable pub put_text : ℕ → Memory → ℕ → Flags → ℕ → List ℕ → Action
put_text f m p g fmt ap = elim (put_string f m p g.width g.precision g.padc g.altflag) [
  | none ↦ no_fuel
  | some out ↦ resume out fmt ap
]

-- `printfmt(putch, putdat, "error %d", err)` or `printfmt(putch, putdat, "%s", p)`.
put_error : ℕ → ℕ → ℕ → List ℕ → Action
put_error f err fmt ap = if err == 2 ^ 31 then undefined else elim (error_string err) [
  | none ↦ put_number (codes "error ") err 10 fresh fmt ap
  | some text ↦ put_text f (constant text) 0 fresh fmt ap
]

with_arg : Option (ℕ × List ℕ) → (ℕ → List ℕ → Action) → Action
with_arg none k = undefined
with_arg (some (w, ap)) k = k w ap

put_signed : ℕ → Flags → ℕ → List ℕ → Action
put_signed num g fmt ap =
    if leb (2 ^ 63) num
    then put_number (b'-' ∷ []) (2 ^ 64 - num) 10 g fmt ap
    else put_number [] num 10 g fmt ap

-- The cases of the switch that set a flag.
switch_flag : ℕ → Memory → ℕ → ℕ → List ℕ → Flags → Option Action
switch_flag f m ch fmt ap g =
    if ch == b'-'
    then some (reswitch (record g { padc = b'-' }) fmt ap)
    else if ch == b'0'
    then some (reswitch (record g { padc = b'0' }) fmt ap)
    else if leb b'1' ch && leb ch b'9'
    then some (elim (read_number f m fmt ch 0) [
      | none ↦ no_fuel
      | some (n, fmt') ↦ reswitch (process_precision (signed32 n) g) fmt' ap
    ])
    else if ch == b'*'
    then some (with_arg (arg32 ap) (λ w rest. reswitch (process_precision (signed32 w) g) fmt rest))
    else if ch == b'.'
    then some
        (reswitch (record g { width = if ltb_ℤ g.width (pos 0) then pos 0 else g.width }) fmt ap)
    else if ch == b'#'
    then some (reswitch (record g { altflag = true }) fmt ap)
    else if ch == b'l'
    then some (reswitch (record g { lflag = g.lflag + 1 }) fmt ap)
    else none

-- The cases that end an escape sequence.
switch_end : ℕ → Memory → ℕ → ℕ → List ℕ → Flags → Action
switch_end f m ch fmt ap g =
    if ch == b'c'
    then with_arg (arg32 ap) (λ w rest. resume (w ∷ []) fmt rest)
    else if ch == b'e'
    then with_arg (arg32 ap)
        (λ w rest. put_error f (if ltb w (2 ^ 31) then w else 2 ^ 32 - w) fmt rest)
    else if ch == b's'
    then with_arg (arg32 ap) (λ p rest.
      if p == 0
      then put_text f (constant (codes "(null)")) 0 g fmt rest
      else put_text f m p g fmt rest)
    else if ch == b'd'
    then with_arg (getint ap g.lflag) (λ num rest. put_signed num g fmt rest)
    else if ch == b'u'
    then with_arg (getuint ap g.lflag) (λ num rest. put_number [] num 10 g fmt rest)
    else if ch == b'o'
    then with_arg (getuint ap g.lflag) (λ num rest. put_number [] num 8 g fmt rest)
    else if ch == b'p'
    then with_arg (arg32 ap) (λ p rest. put_number (b'0' ∷ b'x' ∷ []) p 16 g fmt rest)
    else if ch == b'x'
    then with_arg (getuint ap g.lflag) (λ num rest. put_number [] num 16 g fmt rest)
    else if ch == b'%'
    then resume (ch ∷ []) fmt ap
    else resume (b'%' ∷ []) (back_up m (fmt - 1)) ap

unfoldable pub switch : ℕ → Memory → ℕ → ℕ → List ℕ → Flags → Action
unfolding is_digit process_precision put_error with_arg put_signed switch_flag switch_end
switch f m ch fmt ap g = elim (switch_flag f m ch fmt ap g) [
  | some a ↦ a
  | none ↦ switch_end f m ch fmt ap g
]

-- Where the code stands: in the loop over plain characters, or at `reswitch`.
pub data Mode : Type 0 where
  plain : Mode
  escape : Flags → Mode

-- All that is put, or why there is no such list.
pub data Printed : Type 0 where
  done : List ℕ → Printed
  undefined : Printed
  no_fuel : Printed

unfoldable pub behind : List ℕ → Printed → Printed
behind out (done rest) = done (out ++ rest)
behind out Printed.undefined = Printed.undefined
behind out Printed.no_fuel = Printed.no_fuel

unfoldable pub format : ℕ → Memory → Mode → ℕ → List ℕ → Printed
unfolding behind
format zero m mode fmt ap = Printed.no_fuel
format (suc f) m plain fmt ap =
    let next = behind (m fmt ∷ []) (format f m plain (fmt + 1) ap) in
    let sequence = format f m (escape fresh) (fmt + 1) ap in
    if m fmt == b'%' then sequence else if m fmt == 0 then done [] else next
format (suc f) m (escape g) fmt ap = elim (switch f m (m fmt) (fmt + 1) ap g) [
  | reswitch g' fmt' ap' ↦ format f m (escape g') fmt' ap'
  | resume out fmt' ap' ↦ behind out (format f m plain fmt' ap')
  | Action.undefined ↦ Printed.undefined
  | Action.no_fuel ↦ Printed.no_fuel
]

unfoldable pub vprintfmt : ℕ → Memory → ℕ → List ℕ → Printed
unfolding format
vprintfmt f m fmt ap = format f m plain fmt ap
