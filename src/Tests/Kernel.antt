-- ===== src/Tests/Kernel.antt =====
-- kern/monitor.c and kern/init.c on a machine whose devices give nothing, with one frame on its
-- stack.
use jos_ece.Prelude.{
  ℕ, ◌+◌, ◌-◌, ◌%◌, ◌^◌, ◌≡◌, refl, true, false, List, [], ◌∷◌, ◌++◌, replicate, get_or, set, arith,
  ◌==◌, ltb, if◌then◌else◌,
}
use jos_ece.Prelude.Int.{pos, negsuc}
use jos_ece.Memory.{Memory}
use jos_ece.Format.Text.{codes}
use jos_ece.Format.Print.{Printed, vprintfmt}
use jos_ece.Format.Print.Convert.{hex, decimal, letter, filled, converted, numeral}
use jos_ece.Format.Number.{padded, width_minus, digits}
use jos_ece.Format.Print.Pieces.{
  Piece, verbatim, number, zeros, string, spelled, words, output, Given, verbatims,
  vprintfmt-Pieces,
}
use jos_ece.Str.Block.{memset}
use jos_ece.Str.Block.Fill.{Filled}
use jos_ece.Console.Ports.{Ports}
use jos_ece.Console.Screen.{crt_size}
use jos_ece.Console.Input.{consbufsize}
use jos_ece.Console.Machine.{Machine}
use jos_ece.Kdebug.Info.{initial, debuginfo_eip}
use jos_ece.Boot.{load32}
use jos_ece.Monitor.Kernel.{Kernel, returned}
use jos_ece.Monitor.Kernel.Prints.{showing}
use jos_ece.Monitor.Commands.{Image, kerninfo, backtrace}
use jos_ece.Monitor.Kerninfo.{kerninfo_text, kerninfo-kerninfo_text}
use jos_ece.Monitor.Places.{IsBytes, Readable, FileAt, FunctionAt}
use jos_ece.Monitor.Backtrace.{Frame, Chain, trace_text, backtrace-trace_text}
use jos_ece.Monitor.Loop.{runcmd, monitor}
use jos_ece.Monitor.Stays.{Returns, monitor_stays}
use jos_ece.Start.{prepare, monitors, panic, warn, i386_init}
use jos_ece.Start.Ready.{Ready}
use jos_ece.Start.Panic.{Message, report_text, panic_once}
use jos_ece.Start.Trace.{greeting, i386_init-greeting}

-- "%s=%08x (%d%%)" at 0, and "hi" at 20.
abbrev format : List ℕ
format = codes "%s=%08x (%d%%)"

abbrev formatted : Memory
formatted a = if ltb a 20 then get_or format a 0 else get_or (codes "hi") (a - 20) 0

abbrev pieces : List Piece
pieces =
    string 20 (codes "hi")
    ∷ verbatim b'='
    ∷ zeros 8 hex 0xF010_0000
    ∷ verbatim b' '
    ∷ verbatim b'('
    ∷ number decimal 50
    ∷ Piece.percent
    ∷ verbatim b')'
    ∷ []

vprintfmt-Pieces_example : vprintfmt 500 formatted 0 (words pieces) ≡ Printed.done (output pieces)
unfolding spelled Given letter output filled converted numeral padded width_minus digits
vprintfmt-Pieces_example =
    vprintfmt-Pieces pieces 500 formatted 0 (ground arith) (ground arith) (omega arith)

-- No key has been pressed, and nothing listens.
abbrev pub ports : Ports (List ℕ)
ports = record { inb = λ port s. (0, s); outb = λ port byte s. s }

abbrev pub machine : Machine (List ℕ)
machine = record {
  serial_exists = false;
  keyboard = record {
    shift = 0;
    console = record {
      crt = record {
        crt_buf = replicate crt_size 0x0720;
        crt_pos = 0;
        crt_attr = 0x0700;
        addr_6845 = 0x3D4;
      };
      ansi = record { esc = 0; param = 0; params = 0 ∷ 0 ∷ 0 ∷ 0 ∷ []; nparams = 0 };
      dev = [];
    };
  };
  cons = record { buf = set (set (replicate consbufsize 0) 0 b'x') 1 10; rpos = 0; wpos = 2 };
}

-- A frame at 100 with the return address 0xF0100010, below which no frame is saved.
abbrev stack : Memory
stack a = if a == 104 then 0x10 else if a == 106 then 0x10 else if a == 107 then 0xF0 else 0

abbrev pub kernel : Kernel (List ℕ)
kernel = record { machine = machine; memory = stack; panicstr = 0 }

-- The string table is empty, so no place is known.
abbrev pub image : Image
image = record {
  line_buffer = 0x2000;
  start = 0x10_000C;
  entry = 0xF010_000C;
  etext = 0xF010_1871;
  edata = 0xF011_2300;
  end = 0xF011_2304;
  stabs = λ i. record { n_strx = 0; n_type = 0; n_other = 0; n_desc = 0; n_value = 0 };
  stab_count = 1;
  stabstr = 0x3000;
  strsize = 0;
  frame = 100;
}

kerninfo-kerninfo_text_example :
    kerninfo ports image 300 kernel ≡ returned (pos 0) (showing ports (kerninfo_text image) kernel)
kerninfo-kerninfo_text_example =
    kerninfo-kerninfo_text ports image 300 kernel (omega arith) (omega arith) (omega arith)
      (omega arith) (omega arith) (omega arith)

abbrev frame : Frame
frame = record {
  ebp = 100;
  result = negsuc 0;
  info = initial 0xF010_0010;
  file = codes "<unknown>";
  function = codes "<unknown>";
}

stack-IsBytes : IsBytes stack
stack-IsBytes x = ground arith

frame-Readable : (m : Memory) → Readable m image frame.info frame.file frame.function
unfolding FileAt FunctionAt
frame-Readable m = record {
  file_at = refl;
  function_at = refl;
  counted_by = refl;
  short_name = omega arith;
  line_word = omega arith;
}

frame-Chain : Chain image 800 stack 100 (frame ∷ [])
unfolding Chain load32 debuginfo_eip
frame-Chain = (omega arith, refl, refl, frame-Readable stack, omega arith, refl)

backtrace-trace_text_example :
    backtrace ports image 800 2 kernel
    ≡ returned
        (pos 0)
        (showing ports (codes "Stack backtrace:" ++ 10 ∷ trace_text stack (frame ∷ [])) kernel)
backtrace-trace_text_example =
    backtrace-trace_text ports image 800 (frame ∷ []) 2 kernel stack-IsBytes (omega arith)
      frame-Chain (omega arith) (omega arith)

monitor_stays_example :
    Returns false (monitor ports image 20 300 2 kernel)
    × Returns (pos 0) (runcmd ports image 20 300 0x2000 kernel)
monitor_stays_example = monitor_stays ports image 20 300 2 0x2000 kernel kernel

-- "f.c" at 8 and "bad %x" at 16.
abbrev told : Memory
told a = if ltb a 12 then get_or (codes "f.c") (a - 8) 0 else get_or (codes "bad %x") (a - 16) 0

abbrev bad_pieces : List Piece
bad_pieces = verbatims (codes "bad ") (number hex 10 ∷ [])

abbrev failing : Kernel (List ℕ)
failing = record kernel { memory = told }

panic_text : Message told 300 8 16 42 (codes "f.c") bad_pieces
unfolding spelled Given letter output verbatims converted numeral digits
panic_text = record {
  file_string = ground arith;
  file_some = omega arith;
  file_low = omega arith;
  file_short = omega arith;
  lineno_word = omega arith;
  format_string = ground arith;
  format_low = omega arith;
  pieces = ground arith;
  message_short = omega arith;
}

panic_once_example :
    (panic ports image 20 300 8 42 16 (words bad_pieces) 2 failing
      ≡ monitors ports image 20 300 2 2 (
          if failing.panicstr == 0
          then showing ports
              (report_text (codes "kernel panic at ") (codes "f.c") 42 (output bad_pieces))
              (record failing { panicstr = 16 })
          else failing))
    × (warn ports image 20 300 8 42 16 (words bad_pieces) failing
        ≡ returned tt (
            showing ports
              (report_text (codes "kernel warning at ") (codes "f.c") 42 (output bad_pieces))
              failing))
panic_once_example =
    panic_once ports image 20 300 8 16 42 2 (codes "f.c") bad_pieces failing panic_text

abbrev prepared : Kernel (List ℕ)
prepared = prepare ports image 20 800 true [] kernel

prepared-IsBytes : IsBytes prepared.memory
unfolding prepare memset
prepared-IsBytes x = ground arith

prepared-Chain : Chain image 800 prepared.memory 100 (frame ∷ [])
unfolding Chain load32 debuginfo_eip prepare memset
prepared-Chain = (omega arith, refl, refl, frame-Readable prepared.memory, omega arith, refl)

i386_init-greeting_example :
    (i386_init ports image 20 800 true [] 2 kernel
      ≡ monitors ports image 20 800 2 2
          (showing ports (greeting prepared.memory (frame ∷ [])) prepared))
    × Filled kernel.memory prepared.memory image.edata
        ((image.end + 2 ^ 32 - image.edata) % 2 ^ 32)
        0
    × Ready ports true [] kernel prepared
i386_init-greeting_example =
    i386_init-greeting ports image 20 800 true [] 2 (frame ∷ []) kernel prepared refl
      prepared-IsBytes (omega arith) prepared-Chain (omega arith) (omega arith)
