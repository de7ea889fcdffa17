-- ===== src/Console/Printf.antt =====
-- kern/printf.c: cprintf and vcprintf over the console. `*cnt++` steps the pointer and not what it
-- points to, so the callback leaves `cnt` alone. `none` is where vprintfmt gives no list.
pub mod Count
use jos_ece.Prelude.{
  ℕ, ◌+◌, ◌≡◌, ◌∙◌, refl, ap, List, [], ◌∷◌, ◌++◌, length, suc, Option, none, some, arith,
}
use jos_ece.Prelude.Int.{ℤ, pos}
use jos_ece.Memory.{Memory}
use jos_ece.Format.Print.{Printed, vprintfmt}
use jos_ece.Format.Text.{constant}
use jos_ece.Console.Ports.{Ports}
use jos_ece.Console.Output.{Console, cputchar}

module _ {S : Type 0} (ports : Ports S) where
  unfoldable pub putch : ℕ → ℤ × Console S → ℤ × Console S
  putch ch (cnt, t) = (cnt, cputchar ports ch t)

  unfoldable pub put_all : List ℕ → ℤ × Console S → ℤ × Console S
  put_all [] t = t
  put_all (ch ∷ out) t = put_all out (putch ch t)

  unfoldable pub vcprintf : ℕ → Memory → ℕ → List ℕ → Console S → Option (ℤ × Console S)
  vcprintf f rom fmt va t = elim (vprintfmt f rom fmt va) [
    | Printed.done out ↦ some (put_all out (pos 0, t))
    | Printed.undefined ↦ none
    | Printed.no_fuel ↦ none
  ]

  unfoldable pub cprintf : ℕ → Memory → ℕ → List ℕ → Console S → Option (ℤ × Console S)
  cprintf f rom fmt va t = vcprintf f rom fmt va t

  -- `cprintf` of a text with no `%` and no arguments, to whose end fuel is given.
  unfoldable pub say : List ℕ → Console S → Console S
  say text t = elim (cprintf (length text + 1) (constant text) 0 [] t) [
    | none ↦ t
    | some (cnt, t') ↦ t'
  ]
