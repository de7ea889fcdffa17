-- ===== src/Console/Lpt.antt =====
-- kern/console.c: output to the parallel port.
use jos_ece.Prelude.{ℕ, zero, suc, ◌+◌, ◌%◌, bit_and, bit_or, ◌==◌, if◌then◌else◌}
use jos_ece.Console.Ports.{Ports, delay}

module _ {S : Type 0} (ports : Ports S) where
  open ports use {inb, outb}

  -- The loop reads the status before it looks at `i`; `k` rounds are left to 12800.
  lpt_wait : ℕ → S → S
  lpt_wait zero s = (inb (0x378 + 1) s).1
  lpt_wait (suc k) s =
      let (status, s1) = inb (0x378 + 1) s in
      let rest = lpt_wait k (delay ports s1) in if bit_and status 0x80 == 0 then rest else s1

  unfoldable pub lpt_putc : ℕ → S → S
  unfolding lpt_wait
  lpt_putc c s = outb (0x378 + 2) 0x08 (
      outb (0x378 + 2) (bit_or (bit_or 0x08 0x04) 0x01)
        (outb (0x378 + 0) (c % 256) (lpt_wait 12800 s)))
