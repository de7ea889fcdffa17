-- ===== src/Tests/Prompt.antt =====
-- lib/readline.c and kern/monitor.c on the keys `x` and newline, which wait in the console's
-- buffer.
use jos_ece.Prelude.{
  ℕ, ◌-◌, ◌<◌, ◌≡◌, refl, List, [], ◌∷◌, ◌++◌, replicate, get_or, arith, inl, some, ltb,
  if◌then◌else◌,
}
use jos_ece.Prelude.Int.{pos}
use jos_ece.Memory.{Memory}
use jos_ece.Format.Text.{codes}
use jos_ece.Console.Machine.{Machine, getchar, cons_getc}
use jos_ece.Console.Input.{cons_intr, cons_take}
use jos_ece.Console.Keyboard.{kbd_proc_data}
use jos_ece.Console.Output.{iscons}
use jos_ece.Readline.{Line, buflen, readline, edit, echo}
use jos_ece.Readline.Editing.{IsLine, text, typed_line}
use jos_ece.Monitor.Words.{IsLine as IsWords, Strings, line}
use jos_ece.Readline.Session.{
  Session, last_key, key, prompted, typed_keys, line_of, echoed, readline-Session,
}
use jos_ece.Monitor.Kernel.{Kernel, returned}
use jos_ece.Monitor.Loop.{bytes_at, runcmd, serve, monitor_loop}
use jos_ece.Monitor.Answer.{NoBacktrace, Linked, answer, monitor_loop-answer}
use jos_ece.Monitor.Dispatch.{named, act_on, runcmd-act_on}
use jos_ece.Monitor.Excess.{runcmd_too_many}
use jos_ece.Monitor.Kernel.Prints.{showing}
use jos_ece.Monitor.Round.{length-bytes_at, serve-act_on}
use jos_ece.Tests.Kernel.{ports, machine, kernel, image}

abbrev empty : Line
empty = record { i = 0; buf = bytes_at kernel.memory image.line_buffer buflen }

-- "%s" at 8 and "K> " at 16.
abbrev texts : Memory
texts a = if ltb a 12 then get_or (codes "%s") (a - 8) 0 else get_or (codes "K> ") (a - 16) 0

abbrev begun : Machine (List ℕ)
begun = prompted ports 1200 (codes "K> ") machine

abbrev keys : List ℕ
keys = b'x' ∷ 10 ∷ []

-- The character at `rpos` has been taken.
abbrev taken : ℕ → Machine (List ℕ) → Machine (List ℕ)
taken rpos t = record t { cons = record (machine.cons) { rpos = rpos } }

abbrev line1 : Line
line1 = line_of empty (edit b'x' empty)

abbrev machine1 : Machine (List ℕ)
machine1 = echoed ports 1200 (edit b'x' empty) (taken 1 begun)

abbrev line2 : Line
line2 = line_of line1 (edit 10 line1)

abbrev machine2 : Machine (List ℕ)
machine2 = echo ports 10 (taken 2 machine1)

first_key : getchar ports 1200 1200 begun ≡ some (b'x', taken 1 begun)
unfolding getchar prompted cons_getc cons_intr kbd_proc_data cons_take
first_key = refl

second_key : getchar ports 1200 1200 machine1 ≡ some (10, taken 2 machine1)
unfolding getchar echoed echo edit cons_getc iscons prompted cons_intr kbd_proc_data cons_take
second_key = refl

session : Session ports 1200 empty begun keys line2 machine2
session = key first_key (omega arith) (omega arith) (omega arith) (last_key second_key (inl refl))

readline-Session_example :
    (readline ports 2 1200 texts 8 16 empty.buf machine ≡ some (some line2, machine2))
    × IsLine line2
    × (text line2 ≡ typed_keys keys [])
    × (get_or line2.buf line2.i 1 ≡ 0)
readline-Session_example =
    readline-Session ports 1200 2 texts 8 16 (codes "K> ") empty.buf keys machine machine2 line2
      (length-bytes_at kernel.memory image.line_buffer buflen) (ground arith) (ground arith)
      (omega arith) (omega arith) session (omega arith)

-- The line `x` has one word and no gap.
abbrev one_word : List (List ℕ × List ℕ)
one_word = ([], b'x' ∷ []) ∷ []

keys_typed : typed_keys keys [] ≡ line one_word []
unfolding typed_keys typed_line
keys_typed = refl

one_word-IsWords : IsWords one_word []
one_word-IsWords = (tt, (refl, tt), omega arith, tt, tt)

serve-act_on_example :
    (m : Memory) × (serve ports image 2 1200 kernel
      ≡ act_on ports image 2 1200 one_word (record kernel { machine = machine2; memory = m }))
    × Strings m image.line_buffer one_word
    × ((x : ℕ) → x < image.line_buffer → m x ≡ kernel.memory x)
serve-act_on_example =
    serve-act_on ports image 2 1200 kernel keys [] one_word line2 machine2 session keys_typed
      one_word-IsWords (omega arith, tt) (omega arith) (omega arith) (omega arith) (omega arith)
      (omega arith) (omega arith)

not_backtrace : NoBacktrace one_word
unfolding NoBacktrace named
not_backtrace = ground arith

image-Linked : Linked image
image-Linked = record {
  start_fits = omega arith;
  entry_fits = omega arith;
  etext_fits = omega arith;
  edata_fits = omega arith;
  end_fits = omega arith;
}

monitor_loop-answer_example :
    (m : Memory) × (monitor_loop ports image 2 1200 1 kernel
      ≡ monitor_loop ports image 2 1200 0 (
          showing ports (answer image one_word) (record kernel { machine = machine2; memory = m })))
    × ((x : ℕ) → x < image.line_buffer → m x ≡ kernel.memory x)
monitor_loop-answer_example =
    monitor_loop-answer ports image 2 1200 0 kernel keys [] one_word line2 machine2 session
      keys_typed one_word-IsWords (omega arith, tt) not_backtrace image-Linked (omega arith)
      (omega arith) (omega arith) (omega arith) (omega arith) (omega arith)

-- "hidden x" at 8, which is a command with an argument.
abbrev typed : Kernel (List ℕ)
typed = record kernel { memory = λ a. get_or (codes "hidden x") (a - 8) 0 }

abbrev two_words : List (List ℕ × List ℕ)
two_words = ([], codes "hidden") ∷ (32 ∷ [], b'x' ∷ []) ∷ []

two_words-IsWords : IsWords two_words []
two_words-IsWords = ground arith

runcmd-act_on_example :
    (m : Memory) × (runcmd ports image 3 200 8 typed
      ≡ act_on ports image 3 200 two_words (record typed { memory = m }))
    × Strings m 8 two_words
    × ((x : ℕ) → x < 8 → m x ≡ typed.memory x)
runcmd-act_on_example =
    runcmd-act_on ports image 3 200 8 two_words [] typed two_words-IsWords (ground arith)
      (omega arith) (omega arith) (omega arith) (omega arith) (omega arith)

-- Sixteen times "a" at 8, with blanks between.
abbrev sixteen : List (List ℕ × List ℕ)
sixteen = ([], b'a' ∷ []) ∷ replicate 15 (32 ∷ [], b'a' ∷ [])

abbrev full : Kernel (List ℕ)
full = record kernel { memory = λ a. get_or (line sixteen []) (a - 8) 0 }

sixteen-IsWords : IsWords sixteen []
sixteen-IsWords = ground arith

runcmd_too_many_example :
    (m : Memory) × (runcmd ports image 17 200 8 full
      ≡ returned (pos 0) (
          showing ports
            (codes "Too many arguments (max 16)" ++ 10 ∷ [])
            (record full { memory = m })))
    × ((x : ℕ) → x < 8 → m x ≡ full.memory x)
runcmd_too_many_example =
    runcmd_too_many ports image 17 200 8 sixteen [] full sixteen-IsWords (ground arith)
      (omega arith) (omega arith) (omega arith) (omega arith)
