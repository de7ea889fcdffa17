-- ===== src/Console/Machine.antt =====
-- kern/console.c: what ties the devices together: serial_intr, kbd_intr, cons_getc, cons_init and
-- getchar.
pub mod Getc
use jos_ece.Prelude.{
  ℕ, zero, suc, ◌+◌, ◌^◌, List, [], ◌∷◌, ◌++◌, Option, none, some, Bool, true, false, ◌==◌,
  if◌then◌else◌,
}
use jos_ece.Format.Text.{codes}
use jos_ece.Console.Ports.{Ports}
use jos_ece.Console.Serial.{serial_proc_data, serial_init}
use jos_ece.Console.Screen.{cga_init}
use jos_ece.Console.Output.{Ansi, Console}
use jos_ece.Console.Printf.{say}
use jos_ece.Console.Keyboard.{Keyboard, kbd_proc_data}
use jos_ece.Console.Input.{Cons, cons_intr, cons_take}

-- All of the console's static state.
pub record Machine (S : Type 0) : Type 0 where
  pub serial_exists : Bool
  pub keyboard : Keyboard S
  pub cons : Cons

module _ {S : Type 0} (ports : Ports S) where
  -- The serial port's routine, over the state that it shares with the keyboard's.
  unfoldable pub serial_proc : Keyboard S → ℕ × Keyboard S
  serial_proc k =
      let (c, s) = serial_proc_data ports k.console.dev in
      (c, record k { console = record (k.console) { dev = s } })

  -- Both loops may run for ever where a device always has data; `none` is the end of the fuel.
  unfoldable pub serial_intr : ℕ → Machine S → Option (Machine S)
  serial_intr f t =
      if t.serial_exists
      then elim (cons_intr f serial_proc t.keyboard t.cons) [
        | none ↦ none
        | some (k, cons) ↦ some (record t { keyboard = k; cons = cons })
      ]
      else some t

  unfoldable pub kbd_intr : ℕ → Machine S → Option (Machine S)
  kbd_intr f t = elim (cons_intr f (kbd_proc_data ports) t.keyboard t.cons) [
    | none ↦ none
    | some (k, cons) ↦ some (record t { keyboard = k; cons = cons })
  ]

  unfoldable pub cons_getc : ℕ → Machine S → Option (ℕ × Machine S)
  unfolding serial_intr kbd_intr
  cons_getc f t = elim (serial_intr f t) [
    | none ↦ none
    | some t1 ↦ elim (kbd_intr f t1) [
      | none ↦ none
      | some t2 ↦ let (c, cons) = cons_take t2.cons in some (c, record t2 { cons = cons })
    ]
  ]

  -- `while ((c = cons_getc()) == 0)`, `n` times at most.
  unfoldable pub getchar : ℕ → ℕ → Machine S → Option (ℕ × Machine S)
  getchar zero f t = none
  getchar (suc n) f t = elim (cons_getc f t) [
    | none ↦ none
    | some (c, t') ↦ let rest = getchar n f t' in if c == 0 then rest else some (c, t')
  ]

  -- `colour` and `cells` are what `cga_init` finds. The keyboard's set-up is empty, and the other
  -- static variables start as their initialisers say.
  unfoldable pub cons_init : Bool → List ℕ → Machine S → Machine S
  cons_init colour cells t =
      let old = t.keyboard.console in
      let (crt, s1) = cga_init ports colour cells old.crt.crt_attr old.dev in
      let (exists, s2) = serial_init ports s1 in
      let ready = record old { crt = crt; dev = s2 } in
      let told = say ports (codes "Serial port does not exist!" ++ 10 ∷ []) ready in
      record t {
        serial_exists = exists;
        keyboard = record (t.keyboard) { console = if exists then ready else told };
      }
