-- ===== src/Tests/Console.antt =====
-- kern/console.c with devices that are always ready and record what is written to them.
use jos_ece.Prelude.{
  ℕ, ◌%◌, ◌^◌, ltb, true, ◌==◌, ◌++◌, if◌then◌else◌, ◌+◌, ◌-◌, ◌≤◌, ◌<◌, ◌≡◌, refl, List, [], ◌∷◌,
  length, take, map, get_or, replicate, length-replicate, some, arith,
}
use jos_ece.Memory.{Memory}
use jos_ece.Console.Ports.{Ports}
use jos_ece.Console.Serial.{serial_proc_data}
use jos_ece.Console.Keyboard.{Keyboard, scan, kbd_proc_data}
use jos_ece.Console.Keyboard.Letters.{key_of, letter, typed, scan-letter}
use jos_ece.Console.Machine.{Machine, serial_proc, cons_getc}
use jos_ece.Console.Machine.Getc.{Fits, put_each, cons_getc-oldest}
use jos_ece.Console.Attr.{foreground, background}
use jos_ece.Console.Attr.Colours.{
  red, black, white, ansi_code, vga_code, exchanged, NotFrom, Sets, apply_sgr-exchanged,
}
use jos_ece.Console.Screen.{Crt, crt_size, crt_cols, scroll}
use jos_ece.Console.Screen.Scroll.{IsNear, scroll_rows}
use jos_ece.Console.Output.{Ansi, Console, cons_putc, cons_putc_depth}
use jos_ece.Console.Output.Safe.{IsSafe, cons_putc-IsSafe}
use jos_ece.Console.Output.Depth.{cons_putc_enough}
use jos_ece.Console.Output.Sgr.{Coloured, run_sgr, number, sgr_bytes, puts, puts-sgr_sequence}
use jos_ece.Console.Output.Print.{Typed, cons_putc_plain}
use jos_ece.Console.Input.{Cons, consbufsize, cons_store, cons_take}
use jos_ece.Console.Input.Queue.{IsRing, arrive, read, run, run_queue, get, pending, run-run_queue}

abbrev ports : Ports (List ℕ)
ports = record { inb = λ port s. (0xFF, s); outb = λ port byte s. byte ∷ s }

abbrev blank : List ℕ
blank = replicate crt_size 0x0720

-- The cursor at the end of the last row.
abbrev screen : Crt
screen = record { crt_buf = blank; crt_pos = crt_size - 1; crt_attr = 0x0700; addr_6845 = 0x3D4 }

abbrev below : Crt
below = record screen { crt_pos = crt_size }

abbrev quiet : Ansi
quiet = record { esc = 0; param = 0; params = 0 ∷ 0 ∷ 0 ∷ 0 ∷ []; nparams = 0 }

abbrev console : Console (List ℕ)
console = record { crt = screen; ansi = quiet; dev = [] }

blank-length : length blank ≡ crt_size
blank-length = length-replicate {A = ℕ} crt_size 0x0720

console-IsSafe : IsSafe console
console-IsSafe = record {
  screen = record { size = blank-length; cursor = omega arith; colours = omega arith };
  parser = record { mode = omega arith; used = omega arith; slots = refl };
}

below-IsNear : IsNear below
below-IsNear = record { size = blank-length; cursor = omega arith; colours = omega arith }

-- Red, and a parameter that names no colour.
apply_sgr-exchanged_example :
    Sets 0x0700 0 (vga_code white) (vga_code black)
    × Sets 0x0700 1
        (if ltb (foreground 0x0700) 8 then foreground 0x0700 + 8 else foreground 0x0700)
        (background 0x0700)
    × Sets 0x0700 (30 + ansi_code red) (vga_code (exchanged red)) (background 0x0700)
    × Sets 0x0700 (40 + ansi_code red) (foreground 0x0700) (vga_code (exchanged red))
    × Sets 0x0700 (90 + ansi_code red) (vga_code (exchanged red) + 8) (background 0x0700)
    × Sets 0x0700 (100 + ansi_code red) (foreground 0x0700) (vga_code (exchanged red) + 8)
    × (1 < 38
        → NotFrom 30 38
        → NotFrom 40 38
        → NotFrom 90 38
        → NotFrom 100 38
        → Sets 0x0700 38 (foreground 0x0700) (background 0x0700))
apply_sgr-exchanged_example = apply_sgr-exchanged 0x0700 red 38 (omega arith)

scroll_rows_example :
    ((j : ℕ)
      → j < crt_size - crt_cols
      → get_or (scroll below).crt_buf j 0 ≡ get_or below.crt_buf (crt_cols + j) 0)
    × ((j : ℕ)
        → crt_size - crt_cols ≤ j
        → j < crt_size
        → get_or (scroll below).crt_buf j 0 ≡ below.crt_attr + 0x20)
    × ((scroll below).crt_pos + crt_cols ≡ below.crt_pos)
scroll_rows_example = scroll_rows below below-IsNear (omega arith)

cons_putc-IsSafe_example : IsSafe (cons_putc ports 9 console)
cons_putc-IsSafe_example = cons_putc-IsSafe ports 9 console console-IsSafe

cons_putc_plain_example :
    Typed (console.crt.crt_attr + 65) console.crt (cons_putc ports 65 console).crt
    × ((cons_putc ports 65 console).ansi ≡ console.ansi)
cons_putc_plain_example =
    cons_putc_plain ports 65 console
      (record {
        byte = omega arith;
        no_escape = omega arith;
        no_backspace = omega arith;
        no_tab = omega arith;
        no_newline = omega arith;
        no_return = omega arith;
      })
      console-IsSafe refl

cons_putc_enough_example : cons_putc_depth ports 3 9 console ≡ cons_putc ports 9 console
cons_putc_enough_example = cons_putc_enough ports 1 9 console console-IsSafe

-- `ESC [ 3 1 ; 4 4 m`
puts-sgr_sequence_example :
    Coloured ports console
      (run_sgr console.crt.crt_attr (take 4 (map (number 0) ((3 ∷ 1 ∷ []) ∷ (4 ∷ 4 ∷ []) ∷ []))))
      (puts ports (0x1b ∷ b'[' ∷ sgr_bytes (3 ∷ 1 ∷ []) ((4 ∷ 4 ∷ []) ∷ [])) console)
puts-sgr_sequence_example =
    puts-sgr_sequence ports (3 ∷ 1 ∷ []) ((4 ∷ 4 ∷ []) ∷ []) console refl refl (
      (omega arith, (omega arith, tt)),
      omega arith,
      ((omega arith, (omega arith, tt)), omega arith, tt),
    )

abbrev ring : Cons
ring = record { buf = replicate consbufsize 0; rpos = 0; wpos = 0 }

ring-IsRing : IsRing ring
ring-IsRing = record {
  size = length-replicate {A = ℕ} consbufsize 0;
  reader = omega arith;
  writer = omega arith;
}

run-run_queue_example :
    run (arrive 97 ∷ arrive 98 ∷ read ∷ read ∷ read ∷ []) ring
    ≡ run_queue (arrive 97 ∷ arrive 98 ∷ read ∷ read ∷ read ∷ []) (pending ring)
run-run_queue_example =
    run-run_queue (arrive 97 ∷ arrive 98 ∷ read ∷ read ∷ read ∷ []) ring ring-IsRing

read_back : run (arrive 97 ∷ arrive 98 ∷ read ∷ read ∷ read ∷ []) ring ≡ 97 ∷ 98 ∷ 0 ∷ []
unfolding run cons_store cons_take
read_back = refl

-- A serial port that has as many bytes 97 as its state says, and a keyboard that has none.
abbrev serial : Ports ℕ
serial = record {
  inb = λ port n.
      if port == 0x3FD
      then ((if n == 0 then 0 else 1), n)
      else if port == 0x3F8
      then (97, n - 1)
      else (0, n);
  outb = λ port byte n. n;
}

abbrev keys : ℕ → Keyboard ℕ
keys n = record { shift = 0; console = record { crt = screen; ansi = quiet; dev = n } }

abbrev machine : Machine ℕ
machine = record { serial_exists = true; keyboard = keys 1; cons = ring }

cons_getc-oldest_example :
    (c : ℕ) × (k' : Cons) × (cons_getc serial 3 machine
      ≡ some (c, record machine { keyboard = keys 0; cons = k' }))
    × IsRing k'
    × ((c, pending k') ≡ get (put_each ((97 ∷ []) ++ []) (pending machine.cons)))
    × (Fits ((97 ∷ []) ++ []) (pending machine.cons)
        → put_each ((97 ∷ []) ++ []) (pending machine.cons)
          ≡ pending machine.cons ++ map (λ x. x % 2 ^ 8) ((97 ∷ []) ++ []))
unfolding serial_proc serial_proc_data kbd_proc_data
cons_getc-oldest_example =
    cons_getc-oldest serial 3 machine (keys 0) (keys 0) (97 ∷ []) [] ring-IsRing refl
      (keys 0, refl, omega arith, refl) refl (omega arith) (omega arith)

-- The key of `s` with SHIFT, which is the twelfth.
scan-letter_example : scan (key_of 11) 1 ≡ (typed (letter 11) 1, 1)
scan-letter_example = scan-letter 11 1 (omega arith) (omega arith)

abbrev bang : Memory
bang a = get_or (b'!' ∷ []) a 0
