-- ===== src/Console/Attr.antt =====
-- kern/console.c: the colours. `crt_attr` is a `uint16_t` that holds the attribute byte in its
-- upper half: the background in the upper nibble, the foreground in the lower.
pub mod Colours
use jos_ece.Prelude.{
  ℕ, ◌+◌, ◌-◌, ◌*◌, ◌/◌, ◌%◌, ◌^◌, ◌<◌, ◌≡◌, ◌∙◌, refl, ap, bit_and, bit_or, arith, ◌&&◌, ◌==◌, ltb,
  leb, if◌then◌else◌,
}
use jos_ece.Prelude.Bits.{byte_table, all_below, bit_and-ones, bit_or-fields, bit_or_comm}

ansi_to_vga_basic : ℕ → ℕ
ansi_to_vga_basic ansi = bit_and ansi 7

unfoldable pub set_vga_fg : ℕ → ℕ → ℕ
set_vga_fg fg crt_attr =
    let attr = bit_and (crt_attr / 2 ^ 8) 0xFF in
    bit_or (bit_and attr 0xF0) (bit_and fg 0x0F) % 2 ^ 8 * 2 ^ 8 % 2 ^ 16

unfoldable pub set_vga_bg : ℕ → ℕ → ℕ
set_vga_bg bg crt_attr =
    let attr = bit_and (crt_attr / 2 ^ 8) 0xFF in
    bit_or (bit_and attr 0x0F) (bit_and bg 0x0F * 2 ^ 4) % 2 ^ 8 * 2 ^ 8 % 2 ^ 16

-- One parameter of an SGR sequence. A parameter that has overflowed is negative in the code and at
-- least 2 ^ 31 here, and matches nothing.
unfoldable pub apply_sgr : ℕ → ℕ → ℕ
unfolding ansi_to_vga_basic
apply_sgr p crt_attr =
    let fg = bit_and (bit_and (crt_attr / 2 ^ 8) 0xFF) 0x0F in
    if p == 0
    then 0x0700
    else if p == 1
    then (if ltb fg 8 then set_vga_fg (fg + 8) crt_attr else crt_attr)
    else if leb 30 p && leb p 37
    then set_vga_fg (ansi_to_vga_basic (p - 30)) crt_attr
    else if leb 40 p && leb p 47
    then set_vga_bg (ansi_to_vga_basic (p - 40)) crt_attr
    else if leb 90 p && leb p 97
    then set_vga_fg (ansi_to_vga_basic (p - 90) + 8) crt_attr
    else if leb 100 p && leb p 107
    then set_vga_bg (ansi_to_vga_basic (p - 100) + 8) crt_attr
    else crt_attr

-- The nibbles of an attribute word.
abbrev pub foreground : ℕ → ℕ
foreground crt_attr = crt_attr / 2 ^ 8 % 16

abbrev pub background : ℕ → ℕ
background crt_attr = crt_attr / 2 ^ 12

-- A word that holds an attribute byte over an empty character.
abbrev pub IsAttr : ℕ → Type 0
IsAttr crt_attr = (crt_attr < 2 ^ 16) × (crt_attr % 2 ^ 8 ≡ 0)

high_nibble : (x : ℕ) → x < 256 → bit_and x 0xF0 ≡ x / 16 * 16
unfolding all_below
high_nibble x h = byte_table (λ x. bit_and x 0xF0) (λ x. x / 16 * 16) x refl h

set_vga_fg_lem :
    (fg crt_attr : ℕ)
    → crt_attr < 2 ^ 16
    → set_vga_fg fg crt_attr ≡ crt_attr / 2 ^ 12 * 2 ^ 12 + fg % 16 * 2 ^ 8
unfolding set_vga_fg
set_vga_fg_lem fg crt_attr h =
    rw
      (
        bit_and-ones 8 0xFF (crt_attr / 2 ^ 8) refl,
        high_nibble (crt_attr / 2 ^ 8 % 2 ^ 8) (omega arith),
        bit_and-ones 4 0x0F fg refl,
        bit_or-fields 4 (crt_attr / 2 ^ 8 % 2 ^ 8 / 16) (fg % 2 ^ 4) (omega arith),
      )
      (omega arith)

set_vga_bg_lem :
    (bg crt_attr : ℕ)
    → crt_attr < 2 ^ 16
    → set_vga_bg bg crt_attr ≡ bg % 16 * 2 ^ 12 + crt_attr / 2 ^ 8 % 16 * 2 ^ 8
unfolding set_vga_bg
set_vga_bg_lem bg crt_attr h =
    rw
      (
        bit_and-ones 8 0xFF (crt_attr / 2 ^ 8) refl,
        bit_and-ones 4 0x0F (crt_attr / 2 ^ 8 % 2 ^ 8) refl,
        bit_and-ones 4 0x0F bg refl,
        bit_or_comm (crt_attr / 2 ^ 8 % 2 ^ 8 % 2 ^ 4) (bg % 2 ^ 4 * 2 ^ 4),
        bit_or-fields 4 (bg % 2 ^ 4) (crt_attr / 2 ^ 8 % 2 ^ 8 % 2 ^ 4) (omega arith),
      )
      (omega arith)

-- `set_vga_fg` sets the foreground to the colour's lower nibble and leaves the background alone.
pub set_vga_fg-IsAttr :
    (fg a : ℕ)
    → IsAttr a
    → IsAttr (set_vga_fg fg a)
      × (foreground (set_vga_fg fg a) ≡ fg % 16)
      × (background (set_vga_fg fg a) ≡ background a)
set_vga_fg-IsAttr fg a h = omega (arith, set_vga_fg_lem fg a h.0)

-- `set_vga_bg` sets the background to the colour's lower nibble and leaves the foreground alone.
pub set_vga_bg-IsAttr :
    (bg a : ℕ)
    → IsAttr a
    → IsAttr (set_vga_bg bg a)
      × (foreground (set_vga_bg bg a) ≡ foreground a)
      × (background (set_vga_bg bg a) ≡ bg % 16)
set_vga_bg-IsAttr bg a h = omega (arith, set_vga_bg_lem bg a h.0)

-- What a parameter means by itself: a pair of foreground and background from the pair before.
unfoldable pub sgr : ℕ → ℕ × ℕ → ℕ × ℕ
sgr p (fg, bg) =
    if p == 0
    then (7, 0)
    else if p == 1
    then ((if ltb fg 8 then fg + 8 else fg), bg)
    else if leb 30 p && leb p 37
    then (p - 30, bg)
    else if leb 40 p && leb p 47
    then (fg, p - 40)
    else if leb 90 p && leb p 97
    then (p - 90 + 8, bg)
    else if leb 100 p && leb p 107
    then (fg, p - 100 + 8)
    else (fg, bg)

-- Every SGR parameter keeps an attribute word one, and sets its colours as `sgr` says.
pub apply_sgr-sgr :
    (p a : ℕ)
    → IsAttr a
    → IsAttr (apply_sgr p a)
      × ((foreground (apply_sgr p a), background (apply_sgr p a))
          ≡ sgr p (foreground a, background a))
unfolding apply_sgr sgr
apply_sgr-sgr p a h =
    let low : bit_and (bit_and (a / 2 ^ 8) 0xFF) 0x0F ≡ a / 2 ^ 8 % 16 =
      bit_and-ones 4 0x0F (bit_and (a / 2 ^ 8) 0xFF) refl
      ∙ ap (λ x. x % 2 ^ 4) (bit_and-ones 8 0xFF (a / 2 ^ 8) refl)
      ∙ omega arith in
    rw
      (
        low,
        bit_and-ones 3 7 (p - 30) refl,
        bit_and-ones 3 7 (p - 40) refl,
        bit_and-ones 3 7 (p - 90) refl,
        bit_and-ones 3 7 (p - 100) refl,
      )
      (ground (
        arith,
        set_vga_fg_lem (a / 2 ^ 8 % 16 + 8) a,
        set_vga_fg_lem ((p - 30) % 2 ^ 3) a,
        set_vga_bg_lem ((p - 40) % 2 ^ 3) a,
        set_vga_fg_lem ((p - 90) % 2 ^ 3 + 8) a,
        set_vga_bg_lem ((p - 100) % 2 ^ 3 + 8) a,
      ))
