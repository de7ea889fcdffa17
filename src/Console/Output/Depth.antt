-- ===== src/Console/Output/Depth.antt =====
-- kern/console.c: the depth to which cons_putc and cga_putc call one another.
use jos_ece.Prelude.{ℕ, suc, ◌+◌, ◌^◌, ◌<◌, ◌≡◌, ◌≢◌, false, refl, bit_and, arith, ◌==◌}
use jos_ece.Prelude.Bits.{bit_and-ones, bit_and-high_bytes, bit_or-low_byte, bit_or_comm}
use jos_ece.Console.Ports.{Ports}
use jos_ece.Console.Serial.{serial_putc}
use jos_ece.Console.Lpt.{lpt_putc}
use jos_ece.Console.Attr.{IsAttr}
use jos_ece.Console.Screen.{Crt, coloured}
use jos_ece.Console.Output.{
  Console, put_coloured, cga_putc, emit, cons_putc_with, cons_putc_depth, cons_putc,
}
use jos_ece.Console.Output.Safe.{IsSafe, Keeps, emit-Keeps, cons_putc_depth-Keeps}

-- A character with no colours is put in the current ones.
pub coloured_byte :
    (c : ℕ) (r : Crt) → c < 2 ^ 8 → IsAttr r.crt_attr → coloured c r ≡ r.crt_attr + c
unfolding coloured
coloured_byte c r h v =
    rw (bit_and-high_bytes c)
      (ground (arith, bit_or_comm c r.crt_attr, bit_or-low_byte r.crt_attr c v.1 h))

pub coloured_low :
    (c : ℕ) (r : Crt) → c < 2 ^ 8 → IsAttr r.crt_attr → bit_and (coloured c r) 0xFF ≡ c
coloured_low c r h v =
    rw (coloured_byte c r h v) (rw (bit_and-ones 8 0xFF (r.crt_attr + c) refl) (omega (arith, v)))

module _ {S : Type 0} (ports : Ports S) where
  -- A character other than a tab is printed with no call of `cons_putc`.
  emit_plain :
      (f g : Console S → Console S) (c : ℕ) (t : Console S)
      → c < 2 ^ 8
      → c ≢ 9
      → IsAttr t.crt.crt_attr
      → emit ports f c t ≡ emit ports g c t
  unfolding emit cga_putc put_coloured
  emit_plain f g c t h ne v =
      let other : (c == 9) ≡ false = ground arith in rw (coloured_low c t.crt h v) (rw other)

  -- On safe states `f` and `g` do the same.
  abbrev Agree : (Console S → Console S) → (Console S → Console S) → Type 0
  Agree f g = (t : Console S) → IsSafe t → f t ≡ g t

  -- The call for a space does not depend on what a tab would do.
  space-Agree :
      (f g : Console S → Console S)
      → Keeps ports g
      → Agree (cons_putc_with ports f 0x20) (cons_putc_with ports g 0x20)
  unfolding cons_putc_with
  space-Agree f g keeps t v =
      let plain : Console S = record t { ansi = record (t.ansi) { esc = 0 } } in
      let safe : IsSafe plain = record { screen = v.screen; parser = omega (arith, v.parser) } in
      let shown : IsSafe (emit ports g 0x1b plain) = emit-Keeps ports g keeps 0x1b plain safe in
      ground (
        arith,
        emit_plain f g 0x20 t (omega arith) (omega arith) v.screen.colours,
        emit_plain f g 0x1b plain (omega arith) (omega arith) v.screen.colours,
        emit_plain f g 0x20 (emit ports g 0x1b plain) (omega arith) (omega arith)
            shown.screen.colours,
      )

  five-Agree :
      (f g : Console S → Console S)
      → Agree f g
      → Keeps ports g
      → (t : Console S) → IsSafe t
      → f (f (f (f (f t)))) ≡ g (g (g (g (g t))))
  five-Agree f g same keeps t v =
      let v1 : IsSafe (g t) = keeps t v in
      let v2 : IsSafe (g (g t)) = keeps (g t) v1 in
      let v3 : IsSafe (g (g (g t))) = keeps (g (g t)) v2 in
      let v4 : IsSafe (g (g (g (g t)))) = keeps (g (g (g t))) v3 in
      rw (
        same t v,
        same (g t) v1,
        same (g (g t)) v2,
        same (g (g (g t))) v3,
        same (g (g (g (g t)))) v4,
      )

  emit-Agree :
      (f g : Console S → Console S) (c : ℕ)
      → Agree f g
      → Keeps ports g
      → Agree (emit ports f c) (emit ports g c)
  unfolding emit cga_putc put_coloured
  emit-Agree f g c same keeps t v =
      let sent : Console S = record t { dev = lpt_putc ports c (serial_putc ports c t.dev) } in
      let safe : IsSafe sent = record { screen = v.screen; parser = v.parser } in
      rw (five-Agree f g same keeps sent safe)

  with-Agree :
      (f g : Console S → Console S) (c : ℕ)
      → Agree f g
      → Keeps ports g
      → Agree (cons_putc_with ports f c) (cons_putc_with ports g c)
  unfolding cons_putc_with
  with-Agree f g c same keeps t v =
      let plain : Console S = record t { ansi = record (t.ansi) { esc = 0 } } in
      let safe : IsSafe plain = record { screen = v.screen; parser = omega (arith, v.parser) } in
      let shown : IsSafe (emit ports g 0x1b plain) = emit-Keeps ports g keeps 0x1b plain safe in
      ground (
        arith,
        emit-Agree f g c same keeps t v,
        emit-Agree f g 0x1b same keeps plain safe,
        emit-Agree f g c same keeps (emit ports g 0x1b plain) shown,
      )

  -- From a safe state deeper nesting than two calls changes nothing: the calls that `cga_putc` and
  -- `cons_putc` make of one another end, and `cons_putc` is what they do.
  pub cons_putc_enough :
      (d c : ℕ) (t : Console S)
      → IsSafe t
      → cons_putc_depth ports (suc (suc d)) c t ≡ cons_putc ports c t
  unfolding cons_putc_depth cons_putc
  cons_putc_enough d c t v =
      with-Agree (cons_putc_depth ports (suc d) 0x20) (cons_putc_depth ports 1 0x20) c
        (space-Agree (cons_putc_depth ports d 0x20) (λ u. u) (λ u s. s))
        (cons_putc_depth-Keeps ports 1 0x20) t v
