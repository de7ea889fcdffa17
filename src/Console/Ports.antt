-- ===== src/Console/Ports.antt =====
-- The port instructions of inc/x86.h that kern/console.c calls. What the devices behind the ports
-- do is no part of the program: it is a parameter, over any state of the devices.
use jos_ece.Prelude.{ℕ}

pub record Ports (S : Type 0) : Type 0 where
  pub inb : ℕ → S → ℕ × S
  pub outb : ℕ → ℕ → S → S

module _ {S : Type 0} (ports : Ports S) where
  open ports use {inb}

  -- Four reads of an unused port.
  unfoldable pub delay : S → S
  delay s = (inb 0x84 (inb 0x84 (inb 0x84 (inb 0x84 s).1).1).1).1
