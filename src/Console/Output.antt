-- ===== src/Console/Output.antt =====
-- kern/console.c: cga_putc and cons_putc, with the parser of ANSI escape sequences, cputchar, and
-- iscons. The two functions call one another: `cga_putc` prints a tab as five calls of
-- `cons_putc(' ')`. What such a call does is an argument here, and the depth of the nesting is the
-- recursion's argument.
pub mod Depth
pub mod Safe
pub mod Params
pub mod Sgr
pub mod Print
use jos_ece.Prelude.{
  ℕ, zero, suc, ◌+◌, ◌-◌, ◌*◌, ◌%◌, ◌^◌, bit_and, List, set, take, Bool, ◌&&◌, ltb, leb, ◌==◌,
  if◌then◌else◌,
}
use mathlib.Core.List.{foldl}
use jos_ece.Console.Ports.{Ports}
use jos_ece.Console.Serial.{serial_putc}
use jos_ece.Console.Lpt.{lpt_putc}
use jos_ece.Console.Attr.{apply_sgr}
use jos_ece.Console.Screen.{
  Crt, backspace, carriage_return, newline, write_cell, scroll, coloured, show_cursor,
}

-- The parser's static variables: `esc` is 0 outside a sequence, 1 after ESC, 2 after `ESC [`, and
-- `param` is an `int`, so that -1 is 2 ^ 32 - 1.
pub record Ansi : Type 0 where
  pub esc : ℕ
  pub param : ℕ
  pub params : List ℕ
  pub nparams : ℕ

-- The state of console output, with the devices behind the ports.
pub record Console (S : Type 0) : Type 0 where
  pub crt : Crt
  pub ansi : Ansi
  pub dev : S

abbrev pub minus_one : ℕ
minus_one = 2 ^ 32 - 1

-- `param < 0` of an `int`.
abbrev negative : ℕ → Bool
negative w = leb (2 ^ 31) w

-- `if (nparams < 4) params[nparams++] = (param < 0) ? 0 : param`
pub push_param : Ansi → Ansi
push_param a =
    if ltb a.nparams 4
    then record a {
      params = set a.params a.nparams (if negative a.param then 0 else a.param);
      nparams = a.nparams + 1;
    }
    else a

module _ {S : Type 0} (ports : Ports S) where
  -- The switch of `cga_putc`, on a character with its colours.
  put_coloured : (Console S → Console S) → ℕ → Console S → Console S
  put_coloured space c t =
      let low = bit_and c 0xFF in
      if low == 8
      then record t { crt = backspace c t.crt }
      else if low == 10
      then record t { crt = newline t.crt }
      else if low == 13
      then record t { crt = carriage_return t.crt }
      else if low == 9
      then space (space (space (space (space t))))
      else record t { crt = write_cell c t.crt }

  -- The end of `cga_putc`: scroll, then move the cursor.
  settle : Console S → Console S
  settle t = let r = scroll t.crt in record t { crt = r; dev = show_cursor ports r t.dev }

  cga_putc : (Console S → Console S) → ℕ → Console S → Console S
  cga_putc space c t = settle (put_coloured space (coloured c t.crt) t)

  -- The three devices in turn.
  pub emit : (Console S → Console S) → ℕ → Console S → Console S
  emit space c t =
      cga_putc space c (record t { dev = lpt_putc ports c (serial_putc ports c t.dev) })

  -- A character inside `ESC [`.
  pub csi : ℕ → Console S → Console S
  csi ch t =
      let a = t.ansi in
      if leb b'0' ch && leb ch b'9'
      then (let before = if negative a.param then 0 else a.param in
          record t { ansi = record a { param = (before * 10 + (ch - b'0')) % 2 ^ 32 } })
      else if ch == b';'
      then record t { ansi = record (push_param a) { param = minus_one } }
      else if ch == b'm'
      then (let a' = push_param a in
          record t {
            crt = record (t.crt) {
              crt_attr =
                  foldl (λ attr p. apply_sgr p attr) t.crt.crt_attr (take a'.nparams a'.params);
            };
            ansi = record a' { esc = 0 };
          })
      else record t { ansi = record a { esc = 0 } }

  pub cons_putc_with : (Console S → Console S) → ℕ → Console S → Console S
  cons_putc_with space c t =
      let ch = bit_and c 0xFF in
      if t.ansi.esc == 0
      then (if ch == 0x1b then record t { ansi = record (t.ansi) { esc = 1 } } else emit space c t)
      else if t.ansi.esc == 1
      then (if ch == b'['
          then record t { ansi = record (t.ansi) { esc = 2; param = minus_one; nparams = 0 } }
          else emit space c (emit space 0x1b (record t { ansi = record (t.ansi) { esc = 0 } })))
      else if t.ansi.esc == 2
      then csi ch t
      else emit space c t

  pub cons_putc_depth : ℕ → ℕ → Console S → Console S
  cons_putc_depth zero c t = t
  cons_putc_depth (suc d) c t = cons_putc_with (cons_putc_depth d 0x20) c t

  -- A space prints no tab, so two calls are the deepest nesting.
  unfoldable pub cons_putc : ℕ → Console S → Console S
  unfolding push_param put_coloured settle cga_putc emit csi cons_putc_with cons_putc_depth
  cons_putc c t = cons_putc_depth 2 c t

  unfoldable pub cputchar : ℕ → Console S → Console S
  unfolding cons_putc
  cputchar c t = cons_putc c t

unfoldable pub iscons : ℕ → ℕ
iscons fdnum = 1
