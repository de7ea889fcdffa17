-- ===== src/Mmu/Gates.antt =====
-- inc/mmu.h: a gate descriptor as two double words of memory.
use jos_ece.Prelude.{
  ℕ, ◌+◌, ◌*◌, ◌/◌, ◌%◌, ◌^◌, ◌<◌, ◌≡◌, refl, Bool, bit_and, if◌then◌else◌, arith,
}
use jos_ece.Prelude.Bits.{bit_and-ones}
use jos_ece.Mmu.{Gatedesc, setgate, setcallgate, sts_cg32, sts_ig32, sts_tg32}

-- The double words of the structure, whose bit fields fill from the lowest bit up.
unfoldable pub gate_words : Gatedesc → ℕ × ℕ
gate_words g = (
  g.gd_off_15_0 + g.gd_sel * 2 ^ 16,
  g.gd_args
      + g.gd_rsv1 * 2 ^ 5
      + g.gd_type * 2 ^ 8
      + g.gd_s * 2 ^ 12
      + g.gd_dpl * 2 ^ 13
      + g.gd_p * 2 ^ 15
      + g.gd_off_31_16 * 2 ^ 16,
)

-- What the processor takes out of them.
pub record Entered : Type 0 where
  pub selector : ℕ
  pub offset : ℕ
  pub type : ℕ
  pub dpl : ℕ
  pub present : ℕ

unfoldable pub enter : ℕ × ℕ → Entered
enter (lo, hi) = record {
  selector = lo / 2 ^ 16;
  offset = lo % 2 ^ 16 + hi / 2 ^ 16 * 2 ^ 16;
  type = hi / 2 ^ 8 % 2 ^ 4;
  dpl = hi / 2 ^ 13 % 2 ^ 2;
  present = hi / 2 ^ 15 % 2;
}

abbrev pub entered_at : ℕ → ℕ → ℕ → ℕ → Entered
entered_at sel off type dpl = record {
  selector = sel;
  offset = off;
  type = type;
  dpl = dpl;
  present = 1;
}

-- With a 16-bit selector, a 32-bit offset and a privilege level below 4, the processor takes out of
-- the gate that `SETGATE` or `SETCALLGATE` has set up, whatever it held before, exactly that
-- selector, offset and level, the type of a 32-bit trap, interrupt or call gate, and that it is
-- present.
pub enter-setgate :
    (gate : Gatedesc) (istrap : Bool) (sel off dpl : ℕ)
    → sel < 2 ^ 16
    → off < 2 ^ 32
    → dpl < 2 ^ 2
    → (enter (gate_words (setgate gate istrap sel off dpl))
        ≡ entered_at sel off (if istrap then sts_tg32 else sts_ig32) dpl)
      × (enter (gate_words (setcallgate gate sel off dpl)) ≡ entered_at sel off sts_cg32 dpl)
unfolding enter gate_words setgate setcallgate
enter-setgate gate istrap sel off dpl hs ho hd =
    let e : bit_and off 0xffff ≡ off % 2 ^ 16 = bit_and-ones 16 0xffff off refl in ground (arith, e)
