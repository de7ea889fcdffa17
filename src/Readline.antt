-- ===== src/Readline.antt =====
-- lib/readline.c, over the console. The static `buf` is a list of BUFLEN bytes.
pub mod Editing
pub mod Session
use jos_ece.Prelude.{
  ℕ, zero, suc, ◌+◌, ◌-◌, ◌%◌, ◌^◌, List, [], ◌∷◌, ◌++◌, set, Option, none, some, Bool, ◌&&◌, ◌||◌,
  ltb, leb, ◌==◌, if◌then◌else◌,
}
use jos_ece.Memory.{Memory}
use jos_ece.Format.Text.{codes, constant}
use jos_ece.Console.Ports.{Ports}
use jos_ece.Console.Output.{Console, cputchar, iscons}
use jos_ece.Console.Printf.{cprintf}
use jos_ece.Console.Keyboard.{Keyboard}
use jos_ece.Console.Machine.{Machine, getchar}

abbrev pub buflen : ℕ
buflen = 1024

-- The line so far is the first `i` bytes of `buf`.
pub record Line : Type 0 where
  pub i : ℕ
  pub buf : List ℕ

-- What one character does: the loop goes on, with what is echoed; or the line is returned; or a
-- negative character ends it.
pub data Edited : Type 0 where
  more : Option ℕ → Line → Edited
  finished : Line → Edited
  failed : Edited

unfoldable pub edit : ℕ → Line → Edited
edit c l =
    if leb (2 ^ 31) c
    then failed
    else if (c == 8 || c == 0x7F) && ltb 0 l.i
    then more (some 8) (record l { i = l.i - 1 })
    else if leb b' ' c && ltb l.i (buflen - 1)
    then more (some c) (record l { i = l.i + 1; buf = set l.buf l.i (c % 2 ^ 8) })
    else if c == 10 || c == 13
    then finished (record l { buf = set l.buf l.i 0 })
    else more none l

module _ {S : Type 0} (ports : Ports S) where
  -- `if (echoing) cputchar(c)`
  unfoldable pub echo : ℕ → Machine S → Machine S
  echo c t = if iscons 0 == 0 then t else record t {
    keyboard = record (t.keyboard) { console = cputchar ports c t.keyboard.console };
  }

  -- `cprintf` in the midst of the machine; with fuel.
  unfoldable pub tell : ℕ → Memory → ℕ → List ℕ → Machine S → Option (Machine S)
  tell f rom fmt va t = elim (cprintf ports f rom fmt va t.keyboard.console) [
    | none ↦ none
    | some (cnt, console) ↦ some (record t { keyboard = record (t.keyboard) { console = console } })
  ]

  -- The loop, for `n` characters at most: the line, or none for NULL, and the machine.
  unfoldable pub read_loop : ℕ → ℕ → Line → Machine S → Option (Option Line × Machine S)
  read_loop zero f l t = none
  read_loop (suc n) f l t = elim (getchar ports f f t) [
    | none ↦ none
    | some (c, t1) ↦ elim (edit c l) [
      | more none l' ↦ read_loop n f l' t1
      | more (some e) l' ↦ read_loop n f l' (echo e t1)
      | finished l' ↦ some (some l', echo 10 t1)
      | failed ↦ elim (tell f (constant (codes "read error: %e" ++ 10 ∷ [])) 0 (c ∷ []) t1) [
        | none ↦ none
        | some t2 ↦ some (none, t2)
      ]
    ]
  ]

  -- `prompt` is an address in `rom`, 0 for NULL; `"%s"` is put at its own address.
  unfoldable pub readline :
      ℕ → ℕ → Memory → ℕ → ℕ → List ℕ → Machine S → Option (Option Line × Machine S)
  unfolding read_loop
  readline n f rom format prompt buf t =
      let begin : Line = record { i = 0; buf = buf } in
      if prompt == 0 then read_loop n f begin t else elim (tell f rom format (prompt ∷ []) t) [
        | none ↦ none
        | some t1 ↦ read_loop n f begin t1
      ]
