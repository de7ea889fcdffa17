-- ===== src/Console/Serial.antt =====
-- kern/console.c: the serial port.
use jos_ece.Prelude.{ℕ, zero, suc, ◌+◌, ◌-◌, ◌^◌, ◌/◌, ◌%◌, Bool, bit_and, not, ◌==◌, if◌then◌else◌}
use jos_ece.Console.Ports.{Ports, delay}

abbrev pub com1 : ℕ
com1 = 0x3F8

abbrev com_lsr : ℕ
com_lsr = 5

module _ {S : Type 0} (ports : Ports S) where
  open ports use {inb, outb}

  -- -1, as an `int`, where no byte has come in.
  unfoldable pub serial_proc_data : S → ℕ × S
  serial_proc_data s =
      let (status, s1) = inb (com1 + com_lsr) s in
      let (byte, s2) = inb (com1 + 0) s1 in
      if bit_and status 0x01 == 0 then (2 ^ 32 - 1, s1) else (byte, s2)

  -- The loop reads the status before it looks at `i`; `k` rounds are left to 12800.
  serial_wait : ℕ → S → S
  serial_wait zero s = (inb (com1 + com_lsr) s).1
  serial_wait (suc k) s =
      let (status, s1) = inb (com1 + com_lsr) s in
      let rest = serial_wait k (delay ports s1) in if bit_and status 0x20 == 0 then rest else s1

  unfoldable pub serial_putc : ℕ → S → S
  unfolding serial_wait
  serial_putc c s = outb (com1 + 0) (c % 256) (serial_wait 12800 s)

  -- `serial_exists`, and the devices after the set-up.
  unfoldable pub serial_init : S → Bool × S
  serial_init s =
      let s1 = outb (com1 + 2) 0 s in
      let s2 = outb (com1 + 3) 0x80 s1 in
      let s3 = outb (com1 + 0) (115200 / 9600 % 256) s2 in
      let s4 = outb (com1 + 1) 0 s3 in
      let s5 = outb (com1 + 3) (bit_and 0x03 0x7F) s4 in
      let s6 = outb (com1 + 4) 0 s5 in
      let s7 = outb (com1 + 1) 0x01 s6 in
      let (status, s8) = inb (com1 + com_lsr) s7 in
      let s9 = (inb (com1 + 2) s8).1 in (not (status == 0xFF), (inb (com1 + 0) s9).1)
