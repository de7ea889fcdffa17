-- ===== src/Console/Attr/Colours.antt =====
-- kern/console.c: the colours that an SGR sequence names, and those that the display shows.
use jos_ece.Prelude.{ℕ, ◌+◌, ◌<◌, ◌≤◌, ◌≡◌, ◌⊎◌, ◌∙◌, ap, refl, arith, ltb, if◌then◌else◌}
use jos_ece.Console.Attr.{IsAttr, foreground, background, apply_sgr, sgr, apply_sgr-sgr}

-- The eight colours that a sequence can name.
pub data Colour : Type 0 where
  black red green yellow blue magenta cyan white : Colour

-- Their numbers in a sequence, as the comment of ansi_to_vga_basic lists them.
unfoldable pub ansi_code : Colour → ℕ
ansi_code black = 0
ansi_code red = 1
ansi_code green = 2
ansi_code yellow = 3
ansi_code blue = 4
ansi_code magenta = 5
ansi_code cyan = 6
ansi_code white = 7

-- Their numbers on the display, which has blue in the lowest bit, green and then red.
unfoldable pub vga_code : Colour → ℕ
vga_code black = 0
vga_code blue = 1
vga_code green = 2
vga_code cyan = 3
vga_code red = 4
vga_code magenta = 5
vga_code yellow = 6
vga_code white = 7

-- Red and blue exchanged.
unfoldable pub exchanged : Colour → Colour
exchanged black = black
exchanged red = blue
exchanged green = green
exchanged yellow = cyan
exchanged blue = red
exchanged magenta = magenta
exchanged cyan = yellow
exchanged white = white

vga_code-exchanged : (h : Colour) → vga_code (exchanged h) ≡ ansi_code h
unfolding vga_code exchanged ansi_code
vga_code-exchanged black = refl
vga_code-exchanged red = refl
vga_code-exchanged green = refl
vga_code-exchanged yellow = refl
vga_code-exchanged blue = refl
vga_code-exchanged magenta = refl
vga_code-exchanged cyan = refl
vga_code-exchanged white = refl

ansi_code-lt : (h : Colour) → ansi_code h < 8
unfolding ansi_code
ansi_code-lt black = omega arith
ansi_code-lt red = omega arith
ansi_code-lt green = omega arith
ansi_code-lt yellow = omega arith
ansi_code-lt blue = omega arith
ansi_code-lt magenta = omega arith
ansi_code-lt cyan = omega arith
ansi_code-lt white = omega arith

-- A parameter that is not `from` with the number of a colour.
abbrev pub NotFrom : ℕ → ℕ → Type 0
NotFrom from p = (p < from) ⊎ (from + 8 ≤ p)

module _ (a : ℕ) where
  -- The parameter leaves an attribute word with these two colours.
  abbrev pub Sets : ℕ → ℕ → ℕ → Type 0
  Sets p fg bg =
      IsAttr (apply_sgr p a) × (foreground (apply_sgr p a) ≡ fg) × (background (apply_sgr p a) ≡ bg)

  sgr-Sets : (p fg bg : ℕ) → IsAttr a → sgr p (foreground a, background a) ≡ (fg, bg) → Sets p fg bg
  sgr-Sets p fg bg v e =
      let (is, both) = apply_sgr-sgr p a v in
      (is, ap (λ c. c.0) (both ∙ e), ap (λ c. c.1) (both ∙ e))

  -- On an attribute word an SGR parameter leaves an attribute word. 0 sets white, which is light
  -- grey, on black; 1 adds 8, which makes bright, to a foreground below 8. The parameters 30 and 40
  -- with the number of a colour set the foreground and the background, 90 and 100 with it the bright
  -- ones, and leave the other of the two alone; but what the display then shows is red for blue,
  -- blue for red, cyan for yellow and yellow for cyan. All other parameters change nothing.
  pub apply_sgr-exchanged :
      (h : Colour) (p : ℕ)
      → IsAttr a
      → Sets 0 (vga_code white) (vga_code black)
        × Sets 1 (if ltb (foreground a) 8 then foreground a + 8 else foreground a) (background a)
        × Sets (30 + ansi_code h) (vga_code (exchanged h)) (background a)
        × Sets (40 + ansi_code h) (foreground a) (vga_code (exchanged h))
        × Sets (90 + ansi_code h) (vga_code (exchanged h) + 8) (background a)
        × Sets (100 + ansi_code h) (foreground a) (vga_code (exchanged h) + 8)
        × (1 < p
            → NotFrom 30 p
            → NotFrom 40 p
            → NotFrom 90 p
            → NotFrom 100 p
            → Sets p (foreground a) (background a))
  unfolding sgr vga_code
  apply_sgr-exchanged h p v =
      let n : ℕ = ansi_code h in
      let lt : n < 8 = ansi_code-lt h in
      let e : vga_code (exchanged h) ≡ n = vga_code-exchanged h in
      (
        sgr-Sets 0 7 0 v refl,
        sgr-Sets 1 (if ltb (foreground a) 8 then foreground a + 8 else foreground a) (background a)
            v refl,
        sgr-Sets (30 + n) (vga_code (exchanged h)) (background a) v (rw e (ground arith)),
        sgr-Sets (40 + n) (foreground a) (vga_code (exchanged h)) v (rw e (ground arith)),
        sgr-Sets (90 + n) (vga_code (exchanged h) + 8) (background a) v (rw e (ground arith)),
        sgr-Sets (100 + n) (foreground a) (vga_code (exchanged h) + 8) v (rw e (ground arith)),
        λ other n30 n40 n90 n100. sgr-Sets p (foreground a) (background a) v (ground arith),
      )
