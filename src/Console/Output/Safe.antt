-- ===== src/Console/Output/Safe.antt =====
-- kern/console.c: the well-formedness of the display and of the parser under cons_putc.
use jos_ece.Prelude.{
  ℕ, zero, suc, ◌^◌, ◌≤◌, ◌≡◌, bit_and, List, [], ◌∷◌, take, length, length-set, arith, leb,
  if◌then◌else◌,
}
use mathlib.Core.List.{foldl}
use jos_ece.Console.Ports.{Ports}
use jos_ece.Console.Serial.{serial_putc}
use jos_ece.Console.Lpt.{lpt_putc}
use jos_ece.Console.Attr.{IsAttr, apply_sgr, apply_sgr-sgr}
use jos_ece.Console.Screen.{Crt, coloured}
use jos_ece.Console.Screen.Scroll.{
  IsScreen, IsNear, backspace-IsNear, newline-IsNear, carriage_return-IsNear, write_cell-IsNear,
  scroll-IsScreen,
}
use jos_ece.Console.Output.{
  Ansi, Console, push_param, put_coloured, settle, cga_putc, emit, csi, cons_putc_with,
  cons_putc_depth, cons_putc,
}

-- The parser between two characters.
pub record IsParser (a : Ansi) : Type 0 where
  pub mode : a.esc ≤ 2
  pub used : a.nparams ≤ 4
  pub slots : length a.params ≡ 4

pub record IsSafe {S : Type 0} (t : Console S) : Type 0 where
  pub screen : IsScreen t.crt
  pub parser : IsParser t.ansi

push_param-IsParser : (a : Ansi) → IsParser a → IsParser (push_param a)
unfolding push_param
push_param-IsParser a v =
    ground (arith, length-set a.params a.nparams (if leb (2 ^ 31) a.param then 0 else a.param))

pub sgrs-IsAttr :
    (ps : List ℕ) (a : ℕ) → IsAttr a → IsAttr (foldl (λ attr p. apply_sgr p attr) a ps)
sgrs-IsAttr [] a h = h
sgrs-IsAttr (p ∷ ps) a h = sgrs-IsAttr ps (apply_sgr p a) (apply_sgr-sgr p a h).0

IsNear-of_screen : (r : Crt) → IsScreen r → IsNear r
IsNear-of_screen r v = omega arith

module _ {S : Type 0} (ports : Ports S) where
  abbrev pub Keeps : (Console S → Console S) → Type 0
  Keeps f = (t : Console S) → IsSafe t → IsSafe (f t)

  module _ (space : Console S → Console S) (keeps : Keeps space) where
    put_coloured-IsNear :
        (c : ℕ) (t : Console S)
        → IsSafe t
        → IsNear (put_coloured ports space c t).crt × IsParser (put_coloured ports space c t).ansi
    unfolding put_coloured
    put_coloured-IsNear c t v =
        let five : IsSafe (space (space (space (space (space t))))) =
          keeps _ (keeps _ (keeps _ (keeps _ (keeps t v)))) in
        ground (
          arith,
          backspace-IsNear c t.crt v.screen,
          newline-IsNear t.crt v.screen,
          carriage_return-IsNear t.crt v.screen,
          write_cell-IsNear c t.crt v.screen,
          IsNear-of_screen (space (space (space (space (space t))))).crt five.screen,
        )

    cga_putc-Keeps : (c : ℕ) → Keeps (cga_putc ports space c)
    unfolding cga_putc settle
    cga_putc-Keeps c t v =
        let (near, parser) = put_coloured-IsNear (coloured c t.crt) t v in
        record {
          screen = scroll-IsScreen (put_coloured ports space (coloured c t.crt) t).crt near;
          parser = parser;
        }

    pub emit-Keeps : (c : ℕ) → Keeps (emit ports space c)
    unfolding emit
    emit-Keeps c t v =
        cga_putc-Keeps c (record t { dev = lpt_putc ports c (serial_putc ports c t.dev) })
          (record { screen = v.screen; parser = v.parser })

  csi-Keeps : (ch : ℕ) → Keeps (csi ports ch)
  unfolding csi
  csi-Keeps ch t v = ground (
    arith,
    push_param-IsParser t.ansi v.parser,
    sgrs-IsAttr (take (push_param t.ansi).nparams (push_param t.ansi).params) t.crt.crt_attr
        v.screen.colours,
  )

  cons_putc_with-Keeps :
      (space : Console S → Console S) → Keeps space → (c : ℕ) → Keeps (cons_putc_with ports space c)
  unfolding cons_putc_with
  cons_putc_with-Keeps space keeps c t v =
      let plain : Console S = record t { ansi = record (t.ansi) { esc = 0 } } in
      let safe : IsSafe plain = record { screen = v.screen; parser = omega (arith, v.parser) } in
      ground (
        arith,
        emit-Keeps space keeps c t v,
        emit-Keeps space keeps c (emit ports space 0x1b plain)
            (emit-Keeps space keeps 0x1b plain safe),
        csi-Keeps (bit_and c 0xFF) t v,
      )

  pub cons_putc_depth-Keeps : (d c : ℕ) → Keeps (cons_putc_depth ports d c)
  unfolding cons_putc_depth
  cons_putc_depth-Keeps zero c t v = v
  cons_putc_depth-Keeps (suc d) c t v =
      cons_putc_with-Keeps (cons_putc_depth ports d 0x20) (cons_putc_depth-Keeps d 0x20) c t v

  -- Whatever the character and the devices, `cons_putc` keeps the display inside its buffer, the
  -- colours an attribute word, and the parser inside its states and its four parameters.
  pub cons_putc-IsSafe : (c : ℕ) (t : Console S) → IsSafe t → IsSafe (cons_putc ports c t)
  unfolding cons_putc
  cons_putc-IsSafe c t v = cons_putc_depth-Keeps 2 c t v
