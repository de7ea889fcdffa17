-- ===== src/Console/Screen.antt =====
-- kern/console.c: the text-mode display. The cells of `crt_buf` are a list of CRT_SIZE words, which
-- a store out of range leaves alone, and `crt_pos` is a `uint16_t`.
pub mod Scroll
use jos_ece.Prelude.{
  ℕ, zero, suc, ◌+◌, ◌-◌, ◌*◌, ◌/◌, ◌%◌, ◌^◌, bit_and, bit_or, List, ◌++◌, set, take, drop, Bool,
  ltb, leb, ◌==◌, if◌then◌else◌,
}
use jos_ece.Console.Ports.{Ports}

abbrev pub crt_cols : ℕ
crt_cols = 80

abbrev pub crt_size : ℕ
crt_size = 25 * crt_cols

-- The display's static variables.
pub record Crt : Type 0 where
  pub crt_buf : List ℕ
  pub crt_pos : ℕ
  pub crt_attr : ℕ
  pub addr_6845 : ℕ

-- `'\b'`: the cell before the cursor becomes a space in the colours of `c`.
unfoldable pub backspace : ℕ → Crt → Crt
backspace c r =
    if ltb 0 r.crt_pos
    then record r {
      crt_buf = set r.crt_buf (r.crt_pos - 1) (bit_or (bit_and c 0xFFFF_FF00) 0x20 % 2 ^ 16);
      crt_pos = r.crt_pos - 1;
    }
    else r

unfoldable pub carriage_return : Crt → Crt
carriage_return r = record r { crt_pos = r.crt_pos - r.crt_pos % crt_cols }

-- `'\n'` falls through to `'\r'`.
unfoldable pub newline : Crt → Crt
unfolding carriage_return
newline r = carriage_return (record r { crt_pos = (r.crt_pos + crt_cols) % 2 ^ 16 })

unfoldable pub write_cell : ℕ → Crt → Crt
write_cell c r = record r {
  crt_buf = set r.crt_buf r.crt_pos (c % 2 ^ 16);
  crt_pos = (r.crt_pos + 1) % 2 ^ 16;
}

-- `for (i = ...; i < CRT_SIZE; i++) crt_buf[i] = cell`, with `k` rounds to go.
unfoldable pub blank_from : ℕ → ℕ → ℕ → List ℕ → List ℕ
blank_from zero i cell buf = buf
blank_from (suc k) i cell buf = blank_from k (i + 1) cell (set buf i cell)

-- The `memmove` of all rows but the first to the top, which leaves the last row where it is.
unfoldable pub rows_up : List ℕ → List ℕ
rows_up buf = take (crt_size - crt_cols) (drop crt_cols buf) ++ drop (crt_size - crt_cols) buf

unfoldable pub scroll : Crt → Crt
scroll r =
    if leb crt_size r.crt_pos
    then record r {
      crt_buf =
          blank_from crt_cols (crt_size - crt_cols) (bit_or r.crt_attr 0x20) (rows_up r.crt_buf);
      crt_pos = r.crt_pos - crt_cols;
    }
    else r

-- What is put into the cell: a character without colours takes the current ones.
unfoldable pub coloured : ℕ → Crt → ℕ
coloured c r = if bit_and c 0xFFFF_FF00 == 0 then bit_or c r.crt_attr else c

module _ {S : Type 0} (ports : Ports S) where
  open ports use {inb, outb}

  -- `colour` is whether the cell at CGA_BUF keeps what is written to it, and `cells` what the
  -- chosen buffer holds.
  unfoldable pub cga_init : Bool → List ℕ → ℕ → S → Crt × S
  cga_init colour cells attr s =
      let addr = if colour then 0x3D4 else 0x3B4 in
      let (high, s1) = inb (addr + 1) (outb addr 14 s) in
      let (low, s2) = inb (addr + 1) (outb addr 15 s1) in
      (
        record {
          crt_buf = cells;
          crt_pos = bit_or (high * 2 ^ 8) low % 2 ^ 16;
          crt_attr = attr;
          addr_6845 = addr;
        },
        s2,
      )

  -- The cursor registers.
  unfoldable pub show_cursor : Crt → S → S
  show_cursor r s = outb (r.addr_6845 + 1) (r.crt_pos % 2 ^ 8) (
      outb r.addr_6845 15
        (outb (r.addr_6845 + 1) (r.crt_pos / 2 ^ 8 % 2 ^ 8) (outb r.addr_6845 14 s)))
