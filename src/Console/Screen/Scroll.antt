-- ===== src/Console/Screen/Scroll.antt =====
-- kern/console.c: the well-formedness of the display, and the scrolling of cga_putc.
use jos_ece.Prelude.{
  ℕ, zero, suc, ◌+◌, ◌-◌, ◌%◌, ◌^◌, ◌≤◌, ◌<◌, ◌≡◌, ◌∙◌, ◌⊎◌, ap, refl, sym, true, bit_and, bit_or,
  List, set, take, drop, length, length-append, length-take, length-drop, length-set, get_or,
  get_or-set_self, get_or-set_ne, get_or-take, get_or-drop, get_or-append_left, arith, ℕ_discrete,
  leb,
}
use jos_ece.Prelude.Bits.{bit_or-low_byte}
use jos_ece.Console.Attr.{IsAttr}
use jos_ece.Console.Screen.{
  Crt, crt_cols, crt_size, backspace, carriage_return, newline, write_cell, blank_from, rows_up,
  scroll,
}

-- A display between two calls: the buffer has its size, the cursor stands inside it, and the
-- colours are an attribute word.
pub record IsScreen (r : Crt) : Type 0 where
  pub size : length r.crt_buf ≡ crt_size
  pub cursor : r.crt_pos < crt_size
  pub colours : IsAttr r.crt_attr

-- Before it scrolls, the cursor may stand one row below the last.
pub record IsNear (r : Crt) : Type 0 where
  pub size : length r.crt_buf ≡ crt_size
  pub cursor : r.crt_pos < crt_size + crt_cols
  pub colours : IsAttr r.crt_attr

pub backspace-IsNear : (c : ℕ) (r : Crt) → IsScreen r → IsNear (backspace c r)
unfolding backspace
backspace-IsNear c r v =
    ground
      (arith, length-set r.crt_buf (r.crt_pos - 1) (bit_or (bit_and c 0xFFFF_FF00) 0x20 % 2 ^ 16))

pub carriage_return-IsNear : (r : Crt) → IsScreen r → IsNear (carriage_return r)
unfolding carriage_return
carriage_return-IsNear r v = omega arith

pub newline-IsNear : (r : Crt) → IsScreen r → IsNear (newline r)
unfolding newline
newline-IsNear r v = omega arith

pub write_cell-IsNear : (c : ℕ) (r : Crt) → IsScreen r → IsNear (write_cell c r)
unfolding write_cell
write_cell-IsNear c r v = omega (arith, length-set r.crt_buf r.crt_pos (c % 2 ^ 16))

length-blank_from : (k i cell : ℕ) (buf : List ℕ) → length (blank_from k i cell buf) ≡ length buf
unfolding blank_from
length-blank_from zero i cell buf = refl
length-blank_from (suc k) i cell buf =
    length-blank_from k (i + 1) cell (set buf i cell) ∙ length-set buf i cell

length-rows_up : (buf : List ℕ) → length buf ≡ crt_size → length (rows_up buf) ≡ crt_size
unfolding rows_up
length-rows_up buf e = omega (
  arith,
  length-append (take (crt_size - crt_cols) (drop crt_cols buf)) (drop (crt_size - crt_cols) buf),
  length-take (crt_size - crt_cols) (drop crt_cols buf),
  length-drop crt_cols buf,
  length-drop (crt_size - crt_cols) buf,
)

pub scroll-IsScreen : (r : Crt) → IsNear r → IsScreen (scroll r)
unfolding scroll
scroll-IsScreen r v =
    let cell : ℕ = bit_or r.crt_attr 0x20 in
    ground (
      arith,
      length-blank_from crt_cols (crt_size - crt_cols) cell (rows_up r.crt_buf),
      length-rows_up r.crt_buf v.size,
    )

get_or-blank_from :
    (k i cell : ℕ) (buf : List ℕ) (j : ℕ)
    → i + k ≤ length buf
    → ((i ≤ j) × (j < i + k) → get_or (blank_from k i cell buf) j 0 ≡ cell)
      × ((j < i) ⊎ (i + k ≤ j) → get_or (blank_from k i cell buf) j 0 ≡ get_or buf j 0)
unfolding blank_from
get_or-blank_from zero i cell buf j fits = (λ p. absurd (omega arith), λ out. refl)
get_or-blank_from (suc k) i cell buf j fits =
    let (inside, outside) =
      get_or-blank_from k (i + 1) cell (set buf i cell) j (omega (arith, length-set buf i cell)) in
    (
      λ p. elim (ℕ_discrete i j) [
        | yes e ↦
            outside (omega arith)
            ∙ ap (λ n. get_or (set buf i cell) n 0) (sym e)
            ∙ get_or-set_self buf i cell 0 (omega arith)
        | no ne ↦ inside (omega arith, omega arith)
      ],
      λ out. outside (omega arith) ∙ get_or-set_ne buf i j cell 0 (omega arith),
    )

get_or-rows_up :
    (buf : List ℕ) (j : ℕ)
    → length buf ≡ crt_size
    → j < crt_size - crt_cols
    → get_or (rows_up buf) j 0 ≡ get_or buf (crt_cols + j) 0
unfolding rows_up
get_or-rows_up buf j e lt =
    let above : List ℕ = take (crt_size - crt_cols) (drop crt_cols buf) in
    get_or-append_left above (drop (crt_size - crt_cols) buf) j 0 (
      omega
        (arith, length-take (crt_size - crt_cols) (drop crt_cols buf), length-drop crt_cols buf))
    ∙ get_or-take (crt_size - crt_cols) (drop crt_cols buf) j 0 lt
    ∙ get_or-drop crt_cols buf j 0

-- Once the cursor has left the screen, `cga_putc` moves every row up by one, blanks the last row in
-- the current colours, and takes the cursor up by one row.
pub scroll_rows :
    (r : Crt)
    → IsNear r
    → crt_size ≤ r.crt_pos
    → ((j : ℕ)
        → j < crt_size - crt_cols
        → get_or (scroll r).crt_buf j 0 ≡ get_or r.crt_buf (crt_cols + j) 0)
      × ((j : ℕ)
          → crt_size - crt_cols ≤ j
          → j < crt_size
          → get_or (scroll r).crt_buf j 0 ≡ r.crt_attr + 0x20)
      × ((scroll r).crt_pos + crt_cols ≡ r.crt_pos)
unfolding scroll
scroll_rows r v past =
    let cell : ℕ = bit_or r.crt_attr 0x20 in
    let due : leb crt_size r.crt_pos ≡ true = ground arith in
    let fits : crt_size - crt_cols + crt_cols ≤ length (rows_up r.crt_buf) =
      omega (arith, length-rows_up r.crt_buf v.size) in
    let blank : cell ≡ r.crt_attr + 0x20 =
      bit_or-low_byte r.crt_attr 0x20 (omega (arith, v.colours)) (omega arith) in
    rw due (
      λ j lt.
          (get_or-blank_from crt_cols (crt_size - crt_cols) cell (rows_up r.crt_buf) j fits).1
            (omega arith)
          ∙ get_or-rows_up r.crt_buf j v.size lt,
      λ j ge lt.
          (get_or-blank_from crt_cols (crt_size - crt_cols) cell (rows_up r.crt_buf) j fits).0
            (omega arith, omega arith)
          ∙ blank,
      omega arith,
    )
