-- ===== src/Mmu/Segments.antt =====
-- inc/mmu.h: a segment descriptor as the processor reads it.
use jos_ece.Prelude.{
  ℕ, ◌+◌, ◌-◌, ◌*◌, ◌/◌, ◌%◌, ◌^◌, ◌<◌, ◌≡◌, ◌∙◌, refl, sym, ap, List, [], ◌∷◌, bit_and, bit_or,
  ◌==◌, if◌then◌else◌, arith,
}
use jos_ece.Prelude.Bits.{bit_and-ones, bit_or-fields}
use jos_ece.Mmu.{Segdesc, seg, seg16, seg_bytes}

-- The eight bytes of the structure, whose bit fields fill from the lowest bit up.
unfoldable pub descriptor_bytes : Segdesc → List ℕ
descriptor_bytes d =
    d.sd_lim_15_0 % 2 ^ 8
    ∷ d.sd_lim_15_0 / 2 ^ 8
    ∷ d.sd_base_15_0 % 2 ^ 8
    ∷ d.sd_base_15_0 / 2 ^ 8
    ∷ d.sd_base_23_16
    ∷ (d.sd_type + d.sd_s * 2 ^ 4 + d.sd_dpl * 2 ^ 5 + d.sd_p * 2 ^ 7)
    ∷ (d.sd_lim_19_16 + d.sd_avl * 2 ^ 4 + d.sd_rsv1 * 2 ^ 5 + d.sd_db * 2 ^ 6 + d.sd_g * 2 ^ 7)
    ∷ d.sd_base_31_24
    ∷ []

-- Base and limit as the processor puts them together; with `sd_g` set the limit counts pages of
-- 4096 bytes.
unfoldable pub base_of : Segdesc → ℕ
base_of d = d.sd_base_15_0 + d.sd_base_23_16 * 2 ^ 16 + d.sd_base_31_24 * 2 ^ 24

unfoldable pub limit_of : Segdesc → ℕ
limit_of d =
    let lim = d.sd_lim_15_0 + d.sd_lim_19_16 * 2 ^ 16 in
    if d.sd_g == 0 then lim else lim * 2 ^ 12 + (2 ^ 12 - 1)

-- A descriptor of `SEG` has the base, and a limit that is the last byte of the page that `lim` lies
-- in; one of `SEG16` has the base and exactly the limit, of 20 bits.
pub seg-base_of :
    (type base lim lim16 dpl : ℕ)
    → base < 2 ^ 32
    → lim < 2 ^ 32
    → lim16 < 2 ^ 20
    → (base_of (seg type base lim dpl) ≡ base)
      × (limit_of (seg type base lim dpl) ≡ lim / 2 ^ 12 * 2 ^ 12 + (2 ^ 12 - 1))
      × (base_of (seg16 type base lim16 dpl) ≡ base)
      × (limit_of (seg16 type base lim16 dpl) ≡ lim16)
unfolding base_of limit_of seg seg16
seg-base_of type base lim lim16 dpl hb hl h16 =
    let b0 = bit_and-ones 16 0xffff base refl in
    let b1 = bit_and-ones 8 0xff (base / 2 ^ 16) refl in
    let l0 = bit_and-ones 16 0xffff (lim / 2 ^ 12) refl in
    let l1 = bit_and-ones 16 0xffff lim16 refl in
    (omega (arith, b0, b1), omega (arith, l0), omega (arith, b0, b1), omega (arith, l1))

-- The assembler's `SEG`, which boot/boot.S fills its table with, lays out the same eight bytes as
-- the C macro for privilege level 0.
pub descriptor_bytes-seg :
    (type base lim : ℕ)
    → type < 2 ^ 4
    → base < 2 ^ 32
    → lim < 2 ^ 32
    → descriptor_bytes (seg type base lim 0) ≡ seg_bytes type base lim
unfolding descriptor_bytes seg seg_bytes
descriptor_bytes-seg type base lim ht hb hl =
    let t : bit_or 0x90 type ≡ 0x90 + type = bit_or-fields 4 9 type ht in
    let l : bit_and (lim / 2 ^ 28) 0xf ≡ lim / 2 ^ 28 % 2 ^ 4 =
      bit_and-ones 4 0xf (lim / 2 ^ 28) refl in
    let h : bit_or 0xC0 (lim / 2 ^ 28 % 2 ^ 4) ≡ 0xC0 + lim / 2 ^ 28 % 2 ^ 4 =
      bit_or-fields 4 12 (lim / 2 ^ 28 % 2 ^ 4) (omega arith) in
    let b : bit_and (base / 2 ^ 24) 0xff ≡ base / 2 ^ 24 % 2 ^ 8 =
      bit_and-ones 8 0xff (base / 2 ^ 24) refl in
    let e5 : type % 16 + 16 + 0 + 128 ≡ bit_or 0x90 type = omega (arith, t) in
    let e6 : lim / 268435456 % 16 + 0 + 0 + 64 + 128 ≡ bit_or 0xC0 (bit_and (lim / 268435456) 0xf) =
      omega (arith, h) ∙ sym (ap (bit_or 0xC0) l) in
    cc (e5, e6)
