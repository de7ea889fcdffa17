-- ===== src/Monitor/Answer.antt =====
-- kern/monitor.c: a round of monitor's loop, from the keys to what is printed.
use jos_ece.Prelude.{
  ℕ, suc, ◌+◌, ◌-◌, ◌^◌, ◌≤◌, ◌<◌, ◌≡◌, ◌≢◌, refl, List, [], ◌∷◌, ◌++◌, length, Option, none, some,
  arith,
}
use jos_ece.Prelude.Int.{pos}
use jos_ece.Memory.{Memory}
use jos_ece.Str.Compare.{NonNul}
use jos_ece.Format.Text.{codes}
use jos_ece.Format.Print.Pieces.{verbatims, spelled, words, output, Given}
use jos_ece.Console.Ports.{Ports}
use jos_ece.Console.Output.Sgr.{puts}
use jos_ece.Console.Machine.{Machine}
use jos_ece.Readline.{Line, buflen}
use jos_ece.Readline.Session.{Session, prompted, typed_keys}
use jos_ece.Monitor.{maxargs}
use jos_ece.Monitor.Words.{line, IsLine}
use jos_ece.Monitor.Kernel.{Kernel, returned, text_at, ◌>>◌, ◌>>=◌}
use jos_ece.Monitor.Kernel.Prints.{no_nul, showing, print_as}
use jos_ece.Monitor.Commands.{
  Image, Func, mon_help, mon_kerninfo, exec_hidden_cases, mon_backtrace, commands, call,
  hidden_test_cases, hidden,
}
use jos_ece.Monitor.Help.{help_text, help-help_text}
use jos_ece.Monitor.Kerninfo.{kerninfo_text, kerninfo-kerninfo_text}
use jos_ece.Monitor.Loop.{bytes_at, monitor_loop}
use jos_ece.Monitor.Dispatch.{named, unknown_text, act, act_on}
use jos_ece.Monitor.Round.{serve-act_on}

abbrev pub hidden_text : List ℕ
hidden_text = codes "Running a Hidden Test Case" ++ 10 ∷ []

-- What is printed for a word, which names this command or none. A backtrace is not told of here.
unfoldable pub told : Image → Option Func → List ℕ → List ℕ
told image none w = unknown_text w
told image (some mon_help) w = help_text commands
told image (some mon_kerninfo) w = kerninfo_text image
told image (some exec_hidden_cases) w = hidden_text
told image (some mon_backtrace) w = []

-- What is printed for the words of a line.
unfoldable pub answer : Image → List (List ℕ × List ℕ) → List ℕ
answer image [] = []
answer image ((g, w) ∷ ps) = told image (named w commands) w

-- The first word does not ask for a backtrace.
unfoldable pub NoBacktrace : List (List ℕ × List ℕ) → Type 0
NoBacktrace [] = Unit
NoBacktrace ((g, w) ∷ ps) = named w commands ≢ some mon_backtrace

-- The linker's symbols are 32-bit addresses.
pub record Linked (image : Image) : Type 0 where
  pub start_fits : image.start < 2 ^ 32
  pub entry_fits : image.entry < 2 ^ 32
  pub etext_fits : image.etext < 2 ^ 32
  pub edata_fits : image.edata < 2 ^ 32
  pub end_fits : image.end < 2 ^ 32

module _ {S : Type 0} (ports : Ports S) (image : Image) (n f : ℕ) where
  hidden-hidden_text :
      (k : Kernel S)
      → 300 ≤ f
      → hidden ports image f k ≡ returned (pos 0) (showing ports hidden_text k)
  unfolding hidden hidden_test_cases words output spelled Given verbatims no_nul
  hidden-hidden_text k enough =
      rw
        (
          hidden,
          hidden_test_cases,
          ◌>>=◌,
          ◌>>◌,
          print_as ports f hidden_text [] [] hidden_text (verbatims hidden_text []) k refl refl refl
              refl (ground arith) (omega arith),
        )
        refl

  act-told :
      (o : Option Func) (w : List ℕ) (k : Kernel S)
      → Linked image
      → o ≢ some mon_backtrace
      → 300 ≤ f
      → act ports image n f o w k ≡ returned (pos 0) (showing ports (told image o w) k)
  unfolding act told call
  act-told none w k linked other enough = refl
  act-told (some mon_help) w k linked other enough = help-help_text ports image f k (omega arith)
  act-told (some mon_kerninfo) w k linked other enough =
      kerninfo-kerninfo_text ports image f k linked.start_fits linked.entry_fits linked.etext_fits
        linked.edata_fits linked.end_fits enough
  act-told (some exec_hidden_cases) w k linked other enough = hidden-hidden_text k enough
  act-told (some mon_backtrace) w k linked other enough = absurd (other refl)

  act_on-answer :
      (ps : List (List ℕ × List ℕ)) (k : Kernel S)
      → Linked image
      → NoBacktrace ps
      → 300 ≤ f
      → act_on ports image n f ps k ≡ returned (pos 0) (showing ports (answer image ps) k)
  unfolding act_on answer NoBacktrace showing puts
  act_on-answer [] k linked other enough = refl
  act_on-answer ((g, w) ∷ ps) k linked other enough =
      act-told (named w commands) w k linked other enough

  -- A round of `monitor`'s loop on keys that make a line of at most 15 words, the first of which
  -- does not ask for a backtrace, ends and goes on with the next round: it has read the line behind
  -- the prompt and printed what the first word asks for: the list of the commands, the kernel's
  -- symbols, the line of the hidden test, nothing for a line without words, or that there is no
  -- such command. Nothing below the line's buffer has changed. The symbols are 32-bit addresses,
  -- the buffer lies inside the 32-bit address space and not at 0, no key is a NUL, the rounds are
  -- as many as the keys and more than the words, and fuel of 1200 is enough.
  pub monitor_loop-answer :
      (rounds : ℕ) (k : Kernel S) (keys last : List ℕ) (ps : List (List ℕ × List ℕ)) (l : Line)
      → (t : Machine S)
      → Session ports f
          (record { i = 0; buf = bytes_at k.memory image.line_buffer buflen })
          (prompted ports f (codes "K> ") k.machine)
          keys
          l
          t
      → typed_keys keys [] ≡ line ps last
      → IsLine ps last
      → NonNul (line ps last)
      → NoBacktrace ps
      → Linked image
      → image.line_buffer ≢ 0
      → image.line_buffer + buflen ≤ text_at
      → length keys ≤ n
      → length ps < n
      → length ps ≤ maxargs - 1
      → 1200 ≤ f
      → (m : Memory) × (monitor_loop ports image n f (suc rounds) k
          ≡ monitor_loop ports image n f rounds
              (showing ports (answer image ps) (record k { machine = t; memory = m })))
        × ((x : ℕ) → x < image.line_buffer → m x ≡ k.memory x)
  unfolding monitor_loop
  monitor_loop-answer rounds k keys last ps l t session typed v nn other linked nz inside many more
        few enough =
      let (m, ran, strs, below) =
        serve-act_on ports image n f k keys last ps l t session typed v nn nz inside many more few
          enough in
      let now : Kernel S = record k { machine = t; memory = m } in
      (
        m,
        rw (monitor_loop, ◌>>=◌, ran, act_on-answer ps now linked other (omega arith)) refl,
        below,
      )
