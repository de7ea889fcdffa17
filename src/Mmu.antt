-- ===== src/Mmu.antt =====
-- inc/mmu.h: segment and gate descriptors. A field of `k` bits keeps a value's low `k` bits.
pub mod Segments
pub mod Gates
pub mod Layout
use jos_ece.Prelude.{
  ℕ, ◌+◌, ◌*◌, ◌/◌, ◌%◌, ◌^◌, List, [], ◌∷◌, Bool, bit_and, bit_or, if◌then◌else◌,
}

pub record Segdesc : Type 0 where
  pub sd_lim_15_0 : ℕ
  pub sd_base_15_0 : ℕ
  pub sd_base_23_16 : ℕ
  pub sd_type : ℕ
  pub sd_s : ℕ
  pub sd_dpl : ℕ
  pub sd_p : ℕ
  pub sd_lim_19_16 : ℕ
  pub sd_avl : ℕ
  pub sd_rsv1 : ℕ
  pub sd_db : ℕ
  pub sd_g : ℕ
  pub sd_base_31_24 : ℕ

-- SEG_NULL and SEG_FAULT.
abbrev pub seg_null : Segdesc
seg_null = record {
  sd_lim_15_0 = 0;
  sd_base_15_0 = 0;
  sd_base_23_16 = 0;
  sd_type = 0;
  sd_s = 0;
  sd_dpl = 0;
  sd_p = 0;
  sd_lim_19_16 = 0;
  sd_avl = 0;
  sd_rsv1 = 0;
  sd_db = 0;
  sd_g = 0;
  sd_base_31_24 = 0;
}

abbrev pub seg_fault : Segdesc
seg_fault = record seg_null { sd_s = 1; sd_p = 1; sd_db = 1 }

-- SEG, of 32-bit words.
unfoldable pub seg : ℕ → ℕ → ℕ → ℕ → Segdesc
seg type base lim dpl = record {
  sd_lim_15_0 = bit_and (lim / 2 ^ 12) 0xffff;
  sd_base_15_0 = bit_and base 0xffff;
  sd_base_23_16 = bit_and (base / 2 ^ 16) 0xff;
  sd_type = type % 2 ^ 4;
  sd_s = 1;
  sd_dpl = dpl % 2 ^ 2;
  sd_p = 1;
  sd_lim_19_16 = lim / 2 ^ 28 % 2 ^ 4;
  sd_avl = 0;
  sd_rsv1 = 0;
  sd_db = 1;
  sd_g = 1;
  sd_base_31_24 = base / 2 ^ 24 % 2 ^ 8;
}

-- SEG16
unfoldable pub seg16 : ℕ → ℕ → ℕ → ℕ → Segdesc
seg16 type base lim dpl = record {
  sd_lim_15_0 = bit_and lim 0xffff;
  sd_base_15_0 = bit_and base 0xffff;
  sd_base_23_16 = bit_and (base / 2 ^ 16) 0xff;
  sd_type = type % 2 ^ 4;
  sd_s = 1;
  sd_dpl = dpl % 2 ^ 2;
  sd_p = 1;
  sd_lim_19_16 = lim / 2 ^ 16 % 2 ^ 4;
  sd_avl = 0;
  sd_rsv1 = 0;
  sd_db = 1;
  sd_g = 0;
  sd_base_31_24 = base / 2 ^ 24 % 2 ^ 8;
}

-- The assembler's SEG_NULL and SEG: the eight bytes of a descriptor.
abbrev pub seg_null_bytes : List ℕ
seg_null_bytes = 0 ∷ 0 ∷ 0 ∷ 0 ∷ 0 ∷ 0 ∷ 0 ∷ 0 ∷ []

unfoldable pub seg_bytes : ℕ → ℕ → ℕ → List ℕ
seg_bytes type base lim =
    let lim_word = bit_and (lim / 2 ^ 12) 0xffff in
    let base_word = bit_and base 0xffff in
    lim_word % 2 ^ 8
    ∷ lim_word / 2 ^ 8
    ∷ base_word % 2 ^ 8
    ∷ base_word / 2 ^ 8
    ∷ bit_and (base / 2 ^ 16) 0xff
    ∷ bit_or 0x90 type
    ∷ bit_or 0xC0 (bit_and (lim / 2 ^ 28) 0xf)
    ∷ bit_and (base / 2 ^ 24) 0xff
    ∷ []

abbrev pub sts_cg32 : ℕ
sts_cg32 = 0xC

abbrev pub sts_ig32 : ℕ
sts_ig32 = 0xE

abbrev pub sts_tg32 : ℕ
sts_tg32 = 0xF

pub record Gatedesc : Type 0 where
  pub gd_off_15_0 : ℕ
  pub gd_sel : ℕ
  pub gd_args : ℕ
  pub gd_rsv1 : ℕ
  pub gd_type : ℕ
  pub gd_s : ℕ
  pub gd_dpl : ℕ
  pub gd_p : ℕ
  pub gd_off_31_16 : ℕ

-- SETGATE and SETCALLGATE assign every field.
unfoldable pub setgate : Gatedesc → Bool → ℕ → ℕ → ℕ → Gatedesc
setgate gate istrap sel off dpl = record gate {
  gd_off_15_0 = bit_and off 0xffff;
  gd_sel = sel % 2 ^ 16;
  gd_args = 0;
  gd_rsv1 = 0;
  gd_type = if istrap then sts_tg32 else sts_ig32;
  gd_s = 0;
  gd_dpl = dpl % 2 ^ 2;
  gd_p = 1;
  gd_off_31_16 = off / 2 ^ 16 % 2 ^ 16;
}

unfoldable pub setcallgate : Gatedesc → ℕ → ℕ → ℕ → Gatedesc
setcallgate gate sel off dpl = record gate {
  gd_off_15_0 = bit_and off 0xffff;
  gd_sel = sel % 2 ^ 16;
  gd_args = 0;
  gd_rsv1 = 0;
  gd_type = sts_cg32;
  gd_s = 0;
  gd_dpl = dpl % 2 ^ 2;
  gd_p = 1;
  gd_off_31_16 = off / 2 ^ 16 % 2 ^ 16;
}

-- `struct Pseudodesc` is packed: a 16-bit limit and a 32-bit base.
pub record Pseudodesc : Type 0 where
  pub pd_lim : ℕ
  pub pd_base : ℕ
