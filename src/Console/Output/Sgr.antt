-- ===== src/Console/Output/Sgr.antt =====
-- kern/console.c: cons_putc on a whole escape sequence `ESC [ n ; ... ; n m`.
use jos_ece.Prelude.{
  ℕ, ◌+◌, ◌*◌, ◌%◌, ◌^◌, ◌≤◌, ◌<◌, ◌≡◌, ◌∙◌, refl, ap, subst, List, [], ◌∷◌, ◌++◌, map, take,
  length, arith, append_assoc,
}
use mathlib.Core.List.{foldl}
use jos_ece.Prelude.Bits.{bit_and-ones}
use jos_ece.Console.Ports.{Ports}
use jos_ece.Console.Attr.{apply_sgr}
use jos_ece.Console.Output.{
  Ansi, Console, minus_one, push_param, csi, cons_putc_with, cons_putc_depth, cons_putc,
}
use jos_ece.Console.Output.Params.{effective, Stored, esc-push_param, push_param-Stored}

-- The digits of a number, most significant first, each below 10.
abbrev pub Digits : List ℕ → Type 0
Digits [] = Unit
Digits (d ∷ ds) = (d < 10) × Digits ds

-- The number that digits stand for, behind a number already read.
abbrev pub number : ℕ → List ℕ → ℕ
number v [] = v
number v (d ∷ ds) = number (v * 10 + d) ds

-- Parameters whose numbers fit an `int`; an empty one stands for 0.
abbrev pub Params : List (List ℕ) → Type 0
Params [] = Unit
Params (ds ∷ rest) = Digits ds × (number 0 ds < 2 ^ 31) × Params rest

unfoldable pub digit_bytes : List ℕ → List ℕ
digit_bytes ds = map (λ d. d + b'0') ds

-- The bytes behind `ESC [`.
unfoldable pub sgr_bytes : List ℕ → List (List ℕ) → List ℕ
sgr_bytes ds [] = digit_bytes ds ++ b'm' ∷ []
sgr_bytes ds (es ∷ rest) = digit_bytes ds ++ b';' ∷ sgr_bytes es rest

abbrev pub run_sgr : ℕ → List ℕ → ℕ
run_sgr attr ps = foldl (λ attr p. apply_sgr p attr) attr ps

number-le : (v : ℕ) (ds : List ℕ) → v ≤ number v ds
number-le v [] = omega arith
number-le v (d ∷ ds) = omega (arith, number-le (v * 10 + d) ds)

module _ {S : Type 0} (ports : Ports S) where
  -- The bytes of a text in turn, as `cputchar` is called for each.
  unfoldable pub puts : List ℕ → Console S → Console S
  puts [] t = t
  puts (c ∷ cs) t = puts cs (cons_putc ports c t)

  pub puts-append : (bs cs : List ℕ) (t : Console S) → puts (bs ++ cs) t ≡ puts cs (puts bs t)
  unfolding puts
  puts-append [] cs t = refl
  puts-append (b ∷ bs) cs t = puts-append bs cs (cons_putc ports b t)

  -- Inside a sequence `cons_putc` is the parser's step.
  putc-csi :
      (c : ℕ) (t : Console S) → t.ansi.esc ≡ 2 → c < 256 → cons_putc ports c t ≡ csi ports c t
  unfolding cons_putc cons_putc_depth cons_putc_with
  putc-csi c t e h = ground (arith, bit_and-ones 8 0xFF c refl)

  csi_digit :
      (d : ℕ) (t : Console S)
      → d < 10
      → csi ports (d + b'0') t
        ≡ record t { ansi = record (t.ansi) { param = (effective t.ansi.param * 10 + d) % 2 ^ 32 } }
  unfolding csi
  csi_digit d t h = ground arith

  -- Digits are read as the number that they stand for.
  puts-Digits :
      (ds : List ℕ) (t : Console S)
      → t.ansi.esc ≡ 2
      → Digits ds
      → number (effective t.ansi.param) ds < 2 ^ 31
      → (p : ℕ) × (puts (digit_bytes ds) t ≡ record t { ansi = record (t.ansi) { param = p } })
        × (effective p ≡ number (effective t.ansi.param) ds)
  unfolding puts digit_bytes
  puts-Digits [] t e h small = (t.ansi.param, refl, refl)
  puts-Digits (d ∷ ds) t e (lt, h) small =
      let v : ℕ = effective t.ansi.param * 10 + d in
      let fits : v < 2 ^ 31 = omega (arith, number-le v ds) in
      let t1 : Console S = record t { ansi = record (t.ansi) { param = v % 2 ^ 32 } } in
      let now : effective (v % 2 ^ 32) ≡ v = ground arith in
      let (p, ran, eq) = puts-Digits ds t1 e h (rw now small) in
      (
        p,
        ap (puts (digit_bytes ds)) (putc-csi (d + b'0') t e (omega arith) ∙ csi_digit d t lt) ∙ ran,
        eq ∙ ap (λ x. number x ds) now,
      )

  -- The digits of a parameter and the byte behind them.
  puts_param :
      (ds : List ℕ) (c : ℕ) (cs : List ℕ) (t : Console S)
      → t.ansi.esc ≡ 2
      → effective t.ansi.param ≡ 0
      → Digits ds
      → number 0 ds < 2 ^ 31
      → c < 256
      → (p : ℕ) × (puts (digit_bytes ds ++ c ∷ cs) t
          ≡ puts cs (csi ports c (record t { ansi = record (t.ansi) { param = p } })))
        × (effective p ≡ number 0 ds)
  unfolding puts
  puts_param ds c cs t e z h small lt =
      let (p, ran, eq) = puts-Digits ds t e h (rw z small) in
      (
        p,
        puts-append (digit_bytes ds) (c ∷ cs) t
            ∙ ap (puts (c ∷ cs)) ran
            ∙ ap (puts cs) (putc-csi c (record t { ansi = record (t.ansi) { param = p } }) e lt),
        eq ∙ ap (λ x. number x ds) z,
      )

  -- What a finished sequence leaves: the colours, a parser outside a sequence, and all else as it
  -- was.
  abbrev pub Coloured : Console S → ℕ → Console S → Type 0
  Coloured t attr t' =
      (a : Ansi) × (t' ≡ record t { crt = record (t.crt) { crt_attr = attr }; ansi = a })
      × (a.esc ≡ 0)

  after_m : Console S → ℕ → Console S
  after_m t attr = record t {
    crt = record (t.crt) { crt_attr = attr };
    ansi = record (push_param t.ansi) { esc = 0 };
  }

  csi_m :
      (t : Console S)
      → csi ports b'm' t
        ≡ after_m t
            (run_sgr t.crt.crt_attr (take (push_param t.ansi).nparams (push_param t.ansi).params))
  unfolding csi after_m
  csi_m t = refl

  csi_semicolon :
      (t : Console S)
      → csi ports b';' t ≡ record t { ansi = record (push_param t.ansi) { param = minus_one } }
  unfolding csi
  csi_semicolon t = refl

  putc_begin :
      (t : Console S)
      → t.ansi.esc ≡ 0
      → cons_putc ports b'[' (cons_putc ports 0x1b t)
        ≡ record t { ansi = record (t.ansi) { esc = 2; param = minus_one; nparams = 0 } }
  unfolding cons_putc cons_putc_depth cons_putc_with
  putc_begin t e = ground arith

  puts_sgr :
      (ds : List ℕ) (rest : List (List ℕ)) (vs : List ℕ) (t : Console S)
      → t.ansi.esc ≡ 2
      → effective t.ansi.param ≡ 0
      → Stored t.ansi vs
      → Params (ds ∷ rest)
      → Coloured t
          (run_sgr t.crt.crt_attr (take 4 (vs ++ map (number 0) (ds ∷ rest))))
          (puts (sgr_bytes ds rest) t)
  unfolding sgr_bytes after_m puts
  puts_sgr ds [] vs t e z stored (h, small, _) =
      let (p, ran, eq) = puts_param ds b'm' [] t e z h small (omega arith) in
      let now : Console S = record t { ansi = record (t.ansi) { param = p } } in
      let pushed : Stored (push_param now.ansi) (vs ++ effective p ∷ []) =
        push_param-Stored now.ansi vs
          (record { used = stored.used; slots = stored.slots; same = stored.same }) in
      let params : take (push_param now.ansi).nparams (push_param now.ansi).params
          ≡ take 4 (vs ++ number 0 ds ∷ []) =
        pushed.same ∙ ap (λ x. take 4 (vs ++ x ∷ [])) eq in
      (
        record (push_param now.ansi) { esc = 0 },
        ran ∙ csi_m now ∙ ap (λ ps. after_m now (run_sgr t.crt.crt_attr ps)) params,
        refl,
      )
  puts_sgr ds (es ∷ rest) vs t e z stored (h, small, more) =
      let (p, ran, eq) = puts_param ds b';' (sgr_bytes es rest) t e z h small (omega arith) in
      let now : Console S = record t { ansi = record (t.ansi) { param = p } } in
      let pushed : Stored (push_param now.ansi) (vs ++ effective p ∷ []) =
        push_param-Stored now.ansi vs
          (record { used = stored.used; slots = stored.slots; same = stored.same }) in
      let all : Stored (push_param now.ansi) (vs ++ number 0 ds ∷ []) =
        subst (λ x. Stored (push_param now.ansi) (vs ++ x ∷ [])) eq pushed in
      let later : Console S = record now {
        ansi = record (push_param now.ansi) { param = minus_one };
      } in
      let (a, rest_ran, out) =
        puts_sgr es rest (vs ++ number 0 ds ∷ []) later (esc-push_param now.ansi ∙ e) refl
          (record { used = all.used; slots = all.slots; same = all.same }) more in
      (
        a,
        ran
            ∙ ap (puts (sgr_bytes es rest)) (csi_semicolon now)
            ∙ rest_ran
            ∙ ap
                (λ ps. record t {
                  crt = record (t.crt) { crt_attr = run_sgr t.crt.crt_attr (take 4 ps) };
                  ansi = a;
                })
                (append_assoc vs (number 0 ds ∷ []) (map (number 0) (es ∷ rest))),
        out,
      )

  -- From outside a sequence, `ESC [`, parameters separated by `;` and `m` leave the parser outside
  -- a sequence, change the colours by the first four numbers in turn, and change nothing else:
  -- neither the cells, nor the cursor, nor the state of the devices behind the ports. Each number
  -- fits an `int`, and an empty parameter is 0.
  pub puts-sgr_sequence :
      (ds : List ℕ) (rest : List (List ℕ)) (t : Console S)
      → t.ansi.esc ≡ 0
      → length t.ansi.params ≡ 4
      → Params (ds ∷ rest)
      → Coloured t
          (run_sgr t.crt.crt_attr (take 4 (map (number 0) (ds ∷ rest))))
          (puts (0x1b ∷ b'[' ∷ sgr_bytes ds rest) t)
  unfolding puts
  puts-sgr_sequence ds rest t e slots ps =
      let begun : Console S = record t {
        ansi = record (t.ansi) { esc = 2; param = minus_one; nparams = 0 };
      } in
      let (a, ran, out) =
        puts_sgr ds rest [] begun refl refl (record { used = refl; slots = slots; same = refl })
          ps in
      (a, ap (puts (sgr_bytes ds rest)) (putc_begin t e) ∙ ran, out)
