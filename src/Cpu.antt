-- ===== src/Cpu.antt =====
-- inc/x86.h: the registers of the processor, and the string instructions over ports. Each
-- function of the file is one or two instructions; what they do beyond the state kept here, such
-- as a change of mode by CR0, is not modelled.
pub mod Strings
pub mod Lock
use jos_ece.Prelude.{
  ℕ, zero, suc, ◌+◌, ◌-◌, ◌/◌, ◌%◌, ◌^◌, Option, none, List, [], ◌∷◌, ◌==◌, if◌then◌else◌,
}
use jos_ece.Memory.{Memory, store}
use jos_ece.Boot.{load16, load32, store32}
use jos_ece.Mmu.{Pseudodesc}

-- `tlb` keeps the translations that the processor remembers, by page number.
pub record Cpu : Type 0 where
  pub cr0 : ℕ
  pub cr2 : ℕ
  pub cr3 : ℕ
  pub cr4 : ℕ
  pub eflags : ℕ
  pub ebp : ℕ
  pub esp : ℕ
  pub idtr : Pseudodesc
  pub gdtr : Pseudodesc
  pub ldtr : ℕ
  pub tr : ℕ
  pub tlb : ℕ → Option ℕ

unfoldable pub invlpg : ℕ → Cpu → Cpu
invlpg addr c = record c { tlb = λ page. if page == addr / 2 ^ 12 then none else c.tlb page }

pseudodesc_at : Memory → ℕ → Pseudodesc
pseudodesc_at m p = record { pd_lim = load16 m p; pd_base = load32 m (p + 2) }

unfoldable pub lidt : Memory → ℕ → Cpu → Cpu
unfolding pseudodesc_at
lidt m p c = record c { idtr = pseudodesc_at m p }

unfoldable pub lgdt : Memory → ℕ → Cpu → Cpu
unfolding pseudodesc_at
lgdt m p c = record c { gdtr = pseudodesc_at m p }

unfoldable pub lldt : ℕ → Cpu → Cpu
lldt sel c = record c { ldtr = sel }

unfoldable pub ltr : ℕ → Cpu → Cpu
ltr sel c = record c { tr = sel }

unfoldable pub lcr0 : ℕ → Cpu → Cpu
lcr0 val c = record c { cr0 = val }

unfoldable pub rcr0 : Cpu → ℕ
rcr0 c = c.cr0

unfoldable pub rcr2 : Cpu → ℕ
rcr2 c = c.cr2

-- A write of CR3 empties the TLB: no page is marked global.
unfoldable pub lcr3 : ℕ → Cpu → Cpu
lcr3 val c = record c { cr3 = val; tlb = λ page. none }

unfoldable pub rcr3 : Cpu → ℕ
rcr3 c = c.cr3

unfoldable pub lcr4 : ℕ → Cpu → Cpu
lcr4 val c = record c { cr4 = val }

unfoldable pub rcr4 : Cpu → ℕ
rcr4 c = c.cr4

unfoldable pub tlbflush : Cpu → Cpu
unfolding lcr3 rcr3
tlbflush c = lcr3 (rcr3 c) c

-- `pushfl; popl` and `pushl; popfl` write the word below the top of the stack.
unfoldable pub read_eflags : Memory → Cpu → ℕ × Memory
read_eflags m c =
    let below = (c.esp + (2 ^ 32 - 4)) % 2 ^ 32 in (c.eflags, store32 m below c.eflags)

unfoldable pub write_eflags : ℕ → Memory → Cpu → Cpu × Memory
write_eflags eflags m c =
    let below = (c.esp + (2 ^ 32 - 4)) % 2 ^ 32 in
    (record c { eflags = eflags }, store32 m below eflags)

unfoldable pub read_ebp : Cpu → ℕ
read_ebp c = c.ebp

unfoldable pub read_esp : Cpu → ℕ
read_esp c = c.esp

-- What the `cpuid` instruction puts into eax, ebx, ecx and edx.
pub record Identity : Type 0 where
  pub eax : ℕ
  pub ebx : ℕ
  pub ecx : ℕ
  pub edx : ℕ

-- `if (p) *p = w`
unfoldable pub put_word : ℕ → ℕ → Memory → Memory
put_word p w m = if p == 0 then m else store32 m p w

unfoldable pub cpuid : (ℕ → Identity) → ℕ → ℕ → ℕ → ℕ → ℕ → Memory → Memory
unfolding put_word
cpuid identity info eaxp ebxp ecxp edxp m =
    let r = identity info in
    put_word edxp r.edx (put_word ecxp r.ecx (put_word ebxp r.ebx (put_word eaxp r.eax m)))

-- What `*addr` was, and the memory with the new value in one step.
unfoldable pub xchg : ℕ → ℕ → Memory → ℕ × Memory
xchg addr newval m = (load32 m addr, store32 m addr newval)

-- The instructions of one port.
pub record IoPorts (S : Type 0) : Type 0 where
  pub inb : ℕ → S → ℕ × S
  pub inw : ℕ → S → ℕ × S
  pub inl : ℕ → S → ℕ × S
  pub outb : ℕ → ℕ → S → S
  pub outw : ℕ → ℕ → S → S
  pub outl : ℕ → ℕ → S → S

unfoldable pub store16 : Memory → ℕ → ℕ → Memory
store16 m a w = store (store m a (w % 256)) (a + 1) (w / 256)

-- `rep ins` and `rep outs` upward, `cnt` times.
module _ {S : Type 0} (ports : IoPorts S) where
  unfoldable pub insb : ℕ → ℕ → ℕ → Memory → S → Memory × S
  insb port addr zero m s = (m, s)
  insb port addr (suc cnt) m s =
      let (b, s1) = ports.inb port s in insb port (addr + 1) cnt (store m addr b) s1

  unfoldable pub insw : ℕ → ℕ → ℕ → Memory → S → Memory × S
  insw port addr zero m s = (m, s)
  insw port addr (suc cnt) m s =
      let (w, s1) = ports.inw port s in insw port (addr + 2) cnt (store16 m addr w) s1

  unfoldable pub insl : ℕ → ℕ → ℕ → Memory → S → Memory × S
  insl port addr zero m s = (m, s)
  insl port addr (suc cnt) m s =
      let (w, s1) = ports.inl port s in insl port (addr + 4) cnt (store32 m addr w) s1

  unfoldable pub outsb : ℕ → ℕ → ℕ → Memory → S → S
  outsb port addr zero m s = s
  outsb port addr (suc cnt) m s = outsb port (addr + 1) cnt m (ports.outb port (m addr) s)

  unfoldable pub outsw : ℕ → ℕ → ℕ → Memory → S → S
  outsw port addr zero m s = s
  outsw port addr (suc cnt) m s = outsw port (addr + 2) cnt m (ports.outw port (load16 m addr) s)

  unfoldable pub outsl : ℕ → ℕ → ℕ → Memory → S → S
  outsl port addr zero m s = s
  outsl port addr (suc cnt) m s = outsl port (addr + 4) cnt m (ports.outl port (load32 m addr) s)
