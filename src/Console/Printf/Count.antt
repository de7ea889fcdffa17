-- ===== src/Console/Printf/Count.antt =====
-- kern/printf.c: what cprintf prints and returns.
use jos_ece.Prelude.{ℕ, ◌≡◌, refl, ap, List, [], ◌∷◌, some}
use jos_ece.Prelude.Int.{ℤ, pos}
use jos_ece.Memory.{Memory}
use jos_ece.Format.Print.{Printed, vprintfmt}
use jos_ece.Console.Ports.{Ports}
use jos_ece.Console.Output.{Console, cputchar}
use jos_ece.Console.Output.Sgr.{puts}
use jos_ece.Console.Printf.{putch, put_all, vcprintf, cprintf}

module _ {S : Type 0} (ports : Ports S) where
  put_all_lem :
      (out : List ℕ) (cnt : ℤ) (t : Console S)
      → put_all ports out (cnt, t) ≡ (cnt, puts ports out t)
  unfolding put_all putch puts cputchar
  put_all_lem [] cnt t = refl
  put_all_lem (ch ∷ out) cnt t = put_all_lem out cnt (cputchar ports ch t)

  -- Whatever vprintfmt puts, `cprintf` gives it to the console character by character, and returns
  -- 0 and not how many these are.
  pub cprintf_zero :
      (f : ℕ) (rom : Memory) (fmt : ℕ) (va out : List ℕ) (t : Console S)
      → vprintfmt f rom fmt va ≡ Printed.done out
      → cprintf ports f rom fmt va t ≡ some (pos 0, puts ports out t)
  unfolding cprintf vcprintf
  cprintf_zero f rom fmt va out t ran =
      rw (cprintf, vcprintf, ran) (ap some (put_all_lem out (pos 0) t))
