-- ===== src/Start/Ready.antt =====
-- kern/init.c: what i386_init has set up before it prints.
use jos_ece.Prelude.{
  ℕ, ◌+◌, ◌*◌, ◌%◌, ◌^◌, ◌<◌, ◌≡◌, ◌∙◌, refl, ap, List, [], ◌∷◌, ◌++◌, length-replicate, Bool, true,
  false, not, ◌==◌, if◌then◌else◌, bit_or, arith,
}
use jos_ece.Prelude.Bits.{bit_or-fields}
use jos_ece.Format.Text.{codes, constant}
use jos_ece.Format.Print.{Printed, vprintfmt}
use jos_ece.Console.Ports.{Ports}
use jos_ece.Console.Serial.{serial_init}
use jos_ece.Console.Screen.{cga_init}
use jos_ece.Console.Output.{Console}
use jos_ece.Console.Output.Sgr.{puts}
use jos_ece.Console.Printf.{say}
use jos_ece.Console.Printf.Count.{cprintf_zero}
use jos_ece.Console.Input.{consbufsize}
use jos_ece.Console.Input.Queue.{IsRing, pending}
use jos_ece.Console.Machine.{cons_init}
use jos_ece.Monitor.Kernel.{Kernel}
use jos_ece.Monitor.Commands.{Image}
use jos_ece.Start.{prepare, clear_bss}

abbrev pub no_serial : List ℕ
no_serial = codes "Serial port does not exist!" ++ 10 ∷ []

no_serial-put : vprintfmt 29 (constant no_serial) 0 [] ≡ Printed.done no_serial
unfolding vprintfmt constant
no_serial-put = refl

module _ {S : Type 0} (ports : Ports S) where
  -- Bytes written to ports, one after the other.
  unfoldable pub written : List (ℕ × ℕ) → S → S
  written [] s = s
  written ((port, byte) ∷ rest) s = written rest (ports.outb port byte s)

  -- The first port of the display's controller, for colour and for monochrome.
  abbrev pub controller : Bool → ℕ
  controller colour = if colour then 0x3D4 else 0x3B4

  -- The halves of the cursor's position, of which the second is read behind the first.
  abbrev pub cursor_high : Bool → S → ℕ × S
  cursor_high colour s =
      ports.inb (controller colour + 1) (written ((controller colour, 14) ∷ []) s)

  abbrev pub cursor_low : Bool → S → ℕ × S
  cursor_low colour s =
      ports.inb (controller colour + 1)
        (written ((controller colour, 15) ∷ []) (cursor_high colour s).1)

  -- The line status of COM1 behind its set-up: no FIFO, 9600 baud, 8 bits and one stop bit, no modem
  -- control, and the interrupt for what is received.
  abbrev pub line_status : S → ℕ × S
  line_status s = ports.inb 0x3FD (
      written
        ((0x3FA, 0)
          ∷ (0x3FB, 0x80)
          ∷ (0x3F8, 12)
          ∷ (0x3F9, 0)
          ∷ (0x3FB, 0x03)
          ∷ (0x3FC, 0)
          ∷ (0x3F9, 0x01)
          ∷ [])
        s)

  -- A console whose display has these cells and the controller's cursor, outside a sequence.
  abbrev pub fresh_console : Bool → List ℕ → Console S → S → Console S
  fresh_console colour cells old s = record {
    crt = record {
      crt_buf = cells;
      crt_pos = ((cursor_high colour old.dev).0 * 2 ^ 8 + (cursor_low colour old.dev).0) % 2 ^ 16;
      crt_attr = old.crt.crt_attr;
      addr_6845 = controller colour;
    };
    ansi = record { esc = 0; param = old.ansi.param; params = 0 ∷ 0 ∷ 0 ∷ 0 ∷ []; nparams = 0 };
    dev = s;
  }

  -- A kernel whose console has been set up, for the devices that `old` has found: the serial port is
  -- there unless its line status reads 0xFF, and its absence is told on the display that has been
  -- set up; no key is held, no character waits, and there has been no panic.
  pub record Ready (colour : Bool) (cells : List ℕ) (old k : Kernel S) : Type 0 where
    pub serial_is :
        k.machine.serial_exists
        ≡ not ((line_status (cursor_low colour old.machine.keyboard.console.dev).1).0 == 0xFF)
    pub console_is :
        (cursor_low colour old.machine.keyboard.console.dev).0 < 2 ^ 8
        → let s = (line_status (cursor_low colour old.machine.keyboard.console.dev).1).1 in
          k.machine.keyboard.console
          ≡ puts ports (if k.machine.serial_exists then [] else no_serial) (
              fresh_console colour cells old.machine.keyboard.console
                (ports.inb 0x3F8 (ports.inb 0x3FA s).1).1)
    pub no_key : k.machine.keyboard.shift ≡ 0
    pub ring : IsRing k.machine.cons
    pub none_waits : pending k.machine.cons ≡ []
    pub no_panic : k.panicstr ≡ 0

  say-no_serial : (t : Console S) → say ports no_serial t ≡ puts ports no_serial t
  unfolding say
  say-no_serial t =
      rw (say, cprintf_zero ports 29 (constant no_serial) 0 [] no_serial t no_serial-put) refl

  told_absence :
      (exists : Bool) (t : Console S)
      → (if exists then t else say ports no_serial t)
        ≡ puts ports (if exists then [] else no_serial) t
  unfolding puts
  told_absence true t = refl
  told_absence false t = say-no_serial t

  pub prepare-Ready :
      (image : Image) (n f : ℕ) (colour : Bool) (cells : List ℕ) (k : Kernel S)
      → Ready colour cells k (prepare ports image n f colour cells k)
  unfolding prepare clear_bss cons_init cga_init serial_init written
  prepare-Ready image n f colour cells k =
      let old : Console S = k.machine.keyboard.console in
      let high : ℕ = (cursor_high colour old.dev).0 in
      let low : ℕ = (cursor_low colour old.dev).0 in
      let (status, s) = line_status (cursor_low colour old.dev).1 in
      let exists : Bool = not (status == 0xFF) in
      let ready : Console S =
        fresh_console colour cells old (ports.inb 0x3F8 (ports.inb 0x3FA s).1).1 in
      let at : ℕ → Console S =
        λ p. record ready { crt = record (ready.crt) { crt_pos = p % 2 ^ 16 } } in
      record {
        serial_is = refl;
        console_is = λ lt.
            told_absence exists (at (bit_or (high * 2 ^ 8) low))
            ∙ ap (λ p. puts ports (if exists then [] else no_serial) (at p))
                (bit_or-fields 8 high low lt);
        no_key = refl;
        ring = record {
          size = length-replicate {A = ℕ} consbufsize 0;
          reader = omega arith;
          writer = omega arith;
        };
        none_waits = refl;
        no_panic = refl;
      }
