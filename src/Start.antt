-- ===== src/Start.antt =====
-- kern/init.c: what the kernel does at its start, panics and warnings.
pub mod Panic
pub mod Ready
pub mod Trace
use jos_ece.Prelude.{
  ℕ, zero, suc, ◌+◌, ◌-◌, ◌%◌, ◌^◌, List, [], ◌∷◌, ◌++◌, replicate, Option, none, some, Bool, true,
  false, ◌==◌, if◌then◌else◌,
}
use jos_ece.Prelude.Int.{ℤ}
use jos_ece.Memory.{Memory}
use jos_ece.Str.Block.{memset}
use jos_ece.Format.Text.{codes}
use jos_ece.Console.Ports.{Ports}
use jos_ece.Console.Input.{consbufsize}
use jos_ece.Console.Machine.{cons_init}
use jos_ece.Readline.{tell}
use jos_ece.Monitor.Kernel.{
  Code, Kernel, Run, returned, panics, stuck, done, rom, print, ◌>>=◌, ◌>>◌,
}
use jos_ece.Monitor.Commands.{Image, backtrace}
use jos_ece.Monitor.Loop.{monitor}

-- The static variables without an initialiser other than 0, which the model keeps beside the
-- memory, as the BSS section leaves them.
unfoldable pub clear_bss : {S : Type 0} → Kernel S → Kernel S
clear_bss k =
    let keyboard = k.machine.keyboard in
    let console = keyboard.console in
    let ansi = record (console.ansi) { esc = 0; params = replicate 4 0; nparams = 0 } in
    record k {
      machine = record (k.machine) {
        serial_exists = false;
        keyboard = record keyboard { shift = 0; console = record console { ansi = ansi } };
        cons = record { buf = replicate consbufsize 0; rpos = 0; wpos = 0 };
      };
      panicstr = 0;
    }

abbrev pub panic_format : List ℕ
panic_format = codes "kernel panic at %s:%d: "

abbrev pub warning_format : List ℕ
warning_format = codes "kernel warning at %s:%d: "

abbrev pub entering_format : List ℕ
entering_format = codes "entering test_backtrace %d" ++ 10 ∷ []

abbrev pub leaving_format : List ℕ
leaving_format = codes "leaving test_backtrace %d" ++ 10 ∷ []

abbrev pub red_text : List ℕ
red_text = codes "normal " ++ 27 ∷ codes "[31mred" ++ 27 ∷ codes "[0m normal" ++ 10 ∷ []

abbrev pub blue_text : List ℕ
blue_text = 27 ∷ codes "[44;97mblue-bg bright white fg" ++ 27 ∷ codes "[0m" ++ 10 ∷ []

module _ {S : Type 0} (ports : Ports S) (image : Image) (n f : ℕ) where
  -- `vcprintf` with a format that stands in memory.
  unfoldable pub vprint : ℕ → List ℕ → Code S Unit
  vprint fmt va k = elim (tell ports f (rom k.memory []) fmt va k.machine) [
    | none ↦ stuck
    | some t ↦ returned tt (record k { machine = t })
  ]

  -- The three calls of `cprintf` in `_panic` and `_warn`, with the file name and the format by
  -- their addresses.
  unfoldable pub report : List ℕ → ℕ → ℕ → ℕ → List ℕ → Code S Unit
  unfolding vprint
  report head file lineno fmt va = do
    print ports f (head ∷ []) (file ∷ lineno ∷ [])
    vprint fmt va
    print ports f ((10 ∷ []) ∷ []) []

  -- `while (1) monitor(NULL)`, for `rounds` calls at most, each of as many rounds: whether the loop
  -- has been left.
  unfoldable pub monitors : ℕ → ℕ → Code S Bool
  monitors zero rounds = done false
  monitors (suc calls) rounds =
      monitor ports image n f rounds >>= λ left. if left then monitors calls rounds else done false

  -- `cli; cld` do not touch what is modelled.
  unfoldable pub panic : ℕ → ℕ → ℕ → List ℕ → ℕ → Code S Bool
  unfolding report monitors
  panic file lineno fmt va rounds k =
      let message =
        (report panic_format file lineno fmt va >> monitors rounds rounds)
          (record k { panicstr = fmt }) in
      let dead = monitors rounds rounds k in if k.panicstr == 0 then message else dead

  unfoldable pub warn : ℕ → ℕ → ℕ → List ℕ → Code S Unit
  unfolding report
  warn file lineno fmt va = report warning_format file lineno fmt va

  -- For an `x` of 0 or more.
  unfoldable pub test_backtrace : ℕ → Code S Unit
  test_backtrace zero = do
    print ports f (entering_format ∷ []) (0 ∷ [])
    (backtrace ports image f n >>= λ r. done tt)
    print ports f (leaving_format ∷ []) (0 ∷ [])
  test_backtrace (suc x) = do
    print ports f (entering_format ∷ []) (suc x ∷ [])
    test_backtrace x
    print ports f (leaving_format ∷ []) (suc x ∷ [])

  -- `memset(edata, 0, end - edata)` and `cons_init()`. `colour` and `cells` are what `cga_init`
  -- finds.
  unfoldable pub prepare : Bool → List ℕ → Kernel S → Kernel S
  unfolding clear_bss
  prepare colour cells k =
      let (r, m) = memset k.memory image.edata 0 ((image.end + 2 ^ 32 - image.edata) % 2 ^ 32) in
      let cleared = clear_bss k in
      record cleared { memory = m; machine = cons_init ports colour cells cleared.machine }

  unfoldable pub greet : Code S Unit
  unfolding test_backtrace
  greet = do
    print ports f (red_text ∷ []) []
    print ports f (blue_text ∷ []) []
    print ports f (codes "%d decimal is %o octal!" ∷ []) (444544 ∷ 444544 ∷ [])
    test_backtrace 5

  unfoldable pub i386_init : Bool → List ℕ → ℕ → Code S Bool
  unfolding prepare greet monitors
  i386_init colour cells rounds k = (greet >> monitors rounds rounds) (prepare colour cells k)
