-- ===== src/Console/Output/Print.antt =====
-- kern/console.c: cons_putc on a character outside an escape sequence.
use jos_ece.Prelude.{
  ℕ, ◌+◌, ◌-◌, ◌%◌, ◌^◌, ◌<◌, ◌≤◌, ◌≡◌, ◌≢◌, ◌∙◌, refl, sym, ap, subst, false, length, get_or,
  get_or-set_self, get_or-set_ne, leb, arith,
}
use jos_ece.Prelude.Bits.{bit_and-ones}
use jos_ece.Console.Ports.{Ports}
use jos_ece.Console.Serial.{serial_putc}
use jos_ece.Console.Lpt.{lpt_putc}
use jos_ece.Console.Screen.{Crt, crt_size, crt_cols, write_cell, scroll, coloured}
use jos_ece.Console.Screen.Scroll.{
  IsScreen, IsNear, write_cell-IsNear, scroll-IsScreen, scroll_rows,
}
use jos_ece.Console.Output.{
  Console, put_coloured, settle, cga_putc, emit, cons_putc_with, cons_putc_depth, cons_putc,
}
use jos_ece.Console.Output.Safe.{IsSafe}
use jos_ece.Console.Output.Depth.{coloured_byte, coloured_low}

-- A byte that the display shows: none that moves the cursor or begins a sequence.
pub record IsPlain (c : ℕ) : Type 0 where
  pub byte : c < 2 ^ 8
  pub no_escape : c ≢ 0x1b
  pub no_backspace : c ≢ 8
  pub no_tab : c ≢ 9
  pub no_newline : c ≢ 10
  pub no_return : c ≢ 13

-- `r'` is the display `r` after the word `x` has been put under the cursor.
pub record Typed (x : ℕ) (r r' : Crt) : Type 0 where
  pub put_here : r.crt_pos + 1 < crt_size → get_or r'.crt_buf r.crt_pos 0 ≡ x
  pub others :
      r.crt_pos + 1 < crt_size
      → (j : ℕ) → j ≢ r.crt_pos
      → get_or r'.crt_buf j 0 ≡ get_or r.crt_buf j 0
  pub moved_on : r.crt_pos + 1 < crt_size → r'.crt_pos ≡ r.crt_pos + 1
  pub put_above : r.crt_pos + 1 ≡ crt_size → get_or r'.crt_buf (crt_size - crt_cols - 1) 0 ≡ x
  pub rows :
      r.crt_pos + 1 ≡ crt_size
      → (j : ℕ) → j + 1 < crt_size - crt_cols
      → get_or r'.crt_buf j 0 ≡ get_or r.crt_buf (crt_cols + j) 0
  pub blank :
      r.crt_pos + 1 ≡ crt_size
      → (j : ℕ) → crt_size - crt_cols ≤ j
      → j < crt_size
      → get_or r'.crt_buf j 0 ≡ r.crt_attr + b' '
  pub last_row : r.crt_pos + 1 ≡ crt_size → r'.crt_pos ≡ crt_size - crt_cols
  pub cells : length r'.crt_buf ≡ crt_size
  pub colours : r'.crt_attr ≡ r.crt_attr

scroll_none : (r : Crt) → r.crt_pos < crt_size → scroll r ≡ r
unfolding scroll
scroll_none r lt = let t : leb crt_size r.crt_pos ≡ false = ground arith in rw (scroll, t) refl

crt_attr-scroll : (r : Crt) → (scroll r).crt_attr ≡ r.crt_attr
unfolding scroll
crt_attr-scroll r = ground arith

write_cell-Typed : (x : ℕ) (r : Crt) → IsScreen r → x < 2 ^ 16 → Typed x r (scroll (write_cell x r))
unfolding write_cell
write_cell-Typed x r v small =
    let w : Crt = write_cell x r in
    let near : IsNear w = write_cell-IsNear x r v in
    let here : get_or w.crt_buf r.crt_pos 0 ≡ x =
      get_or-set_self r.crt_buf r.crt_pos (x % 2 ^ 16) 0 (omega (arith, v.size, v.cursor))
      ∙ omega arith in
    let there : (j : ℕ) → j ≢ r.crt_pos → get_or w.crt_buf j 0 ≡ get_or r.crt_buf j 0 =
      λ j ne. get_or-set_ne r.crt_buf r.crt_pos j (x % 2 ^ 16) 0 (λ e. ne (sym e)) in
    let still : r.crt_pos + 1 < crt_size → scroll w ≡ w = λ lt. scroll_none w (omega arith) in
    let past : r.crt_pos + 1 ≡ crt_size → crt_size ≤ w.crt_pos = λ e. omega arith in
    record {
      put_here = λ lt. ap (λ q. get_or q.crt_buf r.crt_pos 0) (still lt) ∙ here;
      others = λ lt j ne. ap (λ q. get_or q.crt_buf j 0) (still lt) ∙ there j ne;
      moved_on = λ lt. ap (λ q. q.crt_pos) (still lt) ∙ omega arith;
      put_above = λ e.
          (scroll_rows w near (past e)).0 (crt_size - crt_cols - 1) (omega arith)
          ∙ ap (λ j. get_or w.crt_buf j 0) (omega arith)
          ∙ here;
      rows = λ e j lt.
          (scroll_rows w near (past e)).0 j (omega arith) ∙ there (crt_cols + j) (omega arith);
      blank = λ e j ge lt. (scroll_rows w near (past e)).1 j ge lt;
      last_row = λ e. omega (arith, (scroll_rows w near (past e)).2);
      cells = (scroll-IsScreen w near).size;
      colours = crt_attr-scroll w;
    }

module _ {S : Type 0} (ports : Ports S) where
  plain_cell :
      (space : Console S → Console S) (c : ℕ) (t : Console S)
      → IsPlain c
      → IsSafe t
      → put_coloured ports space (coloured c t.crt) t
        ≡ record t { crt = write_cell (t.crt.crt_attr + c) t.crt }
  unfolding put_coloured
  plain_cell space c t p v =
      rw (coloured_low c t.crt p.byte v.screen.colours)
        (ground (arith, coloured_byte c t.crt p.byte v.screen.colours))

  -- What is left by the display's part of `cons_putc`.
  plain_written :
      (c : ℕ) (t : Console S)
      → IsPlain c
      → IsSafe t
      → t.ansi.esc ≡ 0
      → ((cons_putc ports c t).crt ≡ scroll (write_cell (t.crt.crt_attr + c) t.crt))
        × ((cons_putc ports c t).ansi ≡ t.ansi)
  unfolding cons_putc cons_putc_depth cons_putc_with emit cga_putc settle
  plain_written c t p v e =
      let sent : Console S = record t { dev = lpt_putc ports c (serial_putc ports c t.dev) } in
      let safe : IsSafe sent = record { screen = v.screen; parser = v.parser } in
      ground
        (arith, bit_and-ones 8 0xFF c refl, plain_cell (cons_putc_depth ports 1 0x20) c sent p safe)

  -- Outside an escape sequence a plain byte comes to stand in the cell under the cursor, in the
  -- current colours, and the other cells stay as they are; the cursor moves on by one. From the last
  -- cell of the screen all rows then move up by one, the byte with them, the last row becomes spaces
  -- in the current colours, and the cursor stands at its begin. The colours and the parser stay as
  -- they are.
  pub cons_putc_plain :
      (c : ℕ) (t : Console S)
      → IsPlain c
      → IsSafe t
      → t.ansi.esc ≡ 0
      → Typed (t.crt.crt_attr + c) t.crt (cons_putc ports c t).crt
        × ((cons_putc ports c t).ansi ≡ t.ansi)
  cons_putc_plain c t p v e =
      let (crt_is, ansi_is) = plain_written c t p v e in
      (
        subst (Typed (t.crt.crt_attr + c) t.crt) (sym crt_is) (
            write_cell-Typed (t.crt.crt_attr + c) t.crt v.screen
              (omega (arith, p.byte, v.screen.colours))),
        ansi_is,
      )
