-- ===== src/Monitor/Commands.antt =====
-- kern/monitor.c: the table of commands and the commands; kern/hidden.c.
use jos_ece.Prelude.{
  ℕ, zero, suc, ◌+◌, ◌-◌, ◌/◌, ◌%◌, ◌^◌, List, [], ◌∷◌, ◌++◌, length, Bool, true, ltb, ◌==◌,
  if◌then◌else◌,
}
use jos_ece.Prelude.Int.{ℤ, pos}
use jos_ece.Memory.{Memory}
use jos_ece.Format.Text.{codes}
use jos_ece.Console.Ports.{Ports}
use jos_ece.Kdebug.Stab.{Stabs}
use jos_ece.Kdebug.Info.{Name, unknown, at, Eipdebuginfo, Looked, looked, outside, debuginfo_eip}
use jos_ece.Boot.{load32}
use jos_ece.Paging.{kernbase, roundup}
use jos_ece.Monitor.Kernel.{Code, panics, stuck, done, text_at, print, ◌>>=◌, ◌>>◌}

-- What the linker lays out: where `buf` of lib/readline.c stands, the symbols of the kernel, and
-- the symbol table; and what `read_ebp()` gives in `mon_backtrace`.
pub record Image : Type 0 where
  pub line_buffer : ℕ
  pub start : ℕ
  pub entry : ℕ
  pub etext : ℕ
  pub edata : ℕ
  pub end : ℕ
  pub stabs : Stabs
  pub stab_count : ℕ
  pub stabstr : ℕ
  pub strsize : ℕ
  pub frame : ℕ

-- The functions that the table points to.
pub data Func : Type 0 where
  mon_help mon_kerninfo exec_hidden_cases mon_backtrace : Func

pub record Command : Type 0 where
  pub name : List ℕ
  pub desc : List ℕ
  pub func : Func

abbrev pub commands : List Command
commands =
    record { name = codes "help"; desc = codes "Display this list of commands"; func = mon_help }
    ∷ record {
      name = codes "kerninfo";
      desc = codes "Display information about the kernel";
      func = mon_kerninfo;
    }
    ∷ record {
      name = codes "hidden";
      desc = codes "Run hidden test cases";
      func = exec_hidden_cases;
    }
    ∷ record {
      name = codes "backtrace";
      desc = codes "lab1 ex10, stack backtrace function";
      func = mon_backtrace;
    }
    ∷ []

abbrev pub help_format : List ℕ
help_format = codes "%s - %s" ++ 10 ∷ []

-- The text of a symbol with one or with two addresses.
abbrev pub phys : List ℕ
phys = codes "%08x (phys)" ++ 10 ∷ []

abbrev pub virt_phys : List ℕ
virt_phys = codes "%08x (virt)  %08x (phys)" ++ 10 ∷ []

abbrev pub frame_format : List ℕ
frame_format = codes "  ebp %08x eip %08x args %08x %08x %08x %08x %08x" ++ 10 ∷ []

abbrev pub place_format : List ℕ
place_format = codes "         %s:%d: %.*s+%d" ++ 10 ∷ []

-- An address of the kernel less KERNBASE.
unfoldable pub physical : ℕ → ℕ
physical a = (a + 2 ^ 32 - kernbase) % 2 ^ 32

-- `ROUNDUP(end - entry, 1024) / 1024`: an `int`, whose division truncates.
unfoldable pub footprint : Image → ℕ
unfolding roundup
footprint image =
    let size = roundup ((image.end + 2 ^ 32 - image.entry) % 2 ^ 32) 1024 in
    if ltb size (2 ^ 31) then size / 1024 else (2 ^ 32 - (2 ^ 32 - size) / 1024) % 2 ^ 32

-- A name as an argument of `%s`, where "<unknown>" is the constant behind the format.
unfoldable pub name_pointer : Image → Name → ℕ
name_pointer image unknown = text_at + length place_format + 1
name_pointer image (at p) = (image.stabstr + p) % 2 ^ 32

-- The words that a frame's line prints. A word is read at an address that wraps.
unfoldable pub frame_words : Memory → ℕ → List ℕ
frame_words m ebp =
    ebp
    ∷ load32 m ((ebp + 4) % 2 ^ 32)
    ∷ load32 m ((ebp + 8) % 2 ^ 32)
    ∷ load32 m ((ebp + 12) % 2 ^ 32)
    ∷ load32 m ((ebp + 16) % 2 ^ 32)
    ∷ load32 m ((ebp + 20) % 2 ^ 32)
    ∷ load32 m ((ebp + 24) % 2 ^ 32)
    ∷ []

module _ {S : Type 0} (ports : Ports S) (image : Image) (f : ℕ) where
  unfoldable pub help_lines : List Command → Code S Unit
  help_lines [] = done tt
  help_lines (c ∷ cs) =
      print ports f (help_format ∷ c.name ∷ c.desc ∷ []) (
        (text_at + length help_format + 1)
        ∷ (text_at + length help_format + 1 + length c.name + 1)
        ∷ [])
      >> help_lines cs

  unfoldable pub help : Code S ℤ
  unfolding help_lines
  help = do help_lines commands; done (pos 0)

  -- A symbol's line.
  unfoldable pub symbol : List ℕ → ℕ → Code S Unit
  symbol label a = print ports f ((label ++ virt_phys) ∷ []) (a ∷ physical a ∷ [])

  unfoldable pub kerninfo_lines : Code S Unit
  unfolding symbol
  kerninfo_lines = do
    print ports f ((codes "Special kernel symbols:" ++ 10 ∷ []) ∷ []) []
    print ports f ((codes "  _start                  " ++ phys) ∷ []) (image.start ∷ [])
    symbol (codes "  entry  ") image.entry
    symbol (codes "  etext  ") image.etext
    symbol (codes "  edata  ") image.edata
    symbol (codes "  end    ") image.end
    print ports f ((codes "Kernel executable memory footprint: %dKB" ++ 10 ∷ []) ∷ [])
        (footprint image ∷ [])

  unfoldable pub kerninfo : Code S ℤ
  unfolding kerninfo_lines
  kerninfo = do kerninfo_lines; done (pos 0)

  unfoldable pub hidden_test_cases : Code S Bool
  hidden_test_cases = do
    print ports f ((codes "Running a Hidden Test Case" ++ 10 ∷ []) ∷ []) []
    done true

  unfoldable pub hidden : Code S ℤ
  unfolding hidden_test_cases
  hidden = hidden_test_cases >>= λ told. done (pos 0)

  -- `cprintf` of the place that `info` tells of.
  unfoldable pub print_place : ℕ → Eipdebuginfo → Code S Unit
  print_place eip info = print ports f (place_format ∷ codes "<unknown>" ∷ []) (
      name_pointer image info.eip_file
      ∷ info.eip_line
      ∷ info.eip_fn_namelen
      ∷ name_pointer image info.eip_fn_name
      ∷ (eip + 2 ^ 32 - info.eip_fn_addr) % 2 ^ 32
      ∷ [])

  -- `debuginfo_eip(eip, &info)` and the print behind it, whatever the result.
  unfoldable pub tell_place : ℕ → Code S Unit
  unfolding print_place
  tell_place eip k =
      let names : Memory = λ a. k.memory (image.stabstr + a) in
      elim (debuginfo_eip f image.stabs image.stab_count names image.strsize eip) [
        | looked result info ↦ print_place eip info k
        | Looked.panic ↦ panics k
        | outside ↦ stuck
        | Looked.no_fuel ↦ stuck
      ]

  unfoldable pub tell_frame : ℕ → Code S Unit
  unfolding frame_words tell_place
  tell_frame ebp k =
      (print ports f (frame_format ∷ []) (frame_words k.memory ebp)
          >> tell_place (load32 k.memory ((ebp + 4) % 2 ^ 32)))
        k

  -- `for (ebp = ...; ebp > 0; ebp = *((uint32_t *)ebp))`, for `n` frames at most.
  unfoldable pub frames : ℕ → ℕ → Code S ℤ
  frames zero ebp k = stuck
  frames (suc n) ebp k =
      let rest : Code S ℤ = λ k'. frames n (load32 k'.memory ebp) k' in
      if ebp == 0 then done (pos 0) k else (tell_frame ebp >> rest) k

  unfoldable pub backtrace : ℕ → Code S ℤ
  unfolding frames
  backtrace n =
      print ports f ((codes "Stack backtrace:" ++ 10 ∷ []) ∷ []) [] >> frames n image.frame

  -- `commands[i].func(argc, argv, tf)`: no command reads its arguments.
  unfoldable pub call : ℕ → Func → Code S ℤ
  unfolding help kerninfo hidden backtrace
  call n mon_help = help
  call n mon_kerninfo = kerninfo
  call n exec_hidden_cases = hidden
  call n mon_backtrace = backtrace n
