-- ===== src/Console/Output/Params.antt =====
-- kern/console.c: the numbers that cons_putc stores of an escape sequence.
use jos_ece.Prelude.{
  ℕ, zero, suc, ◌^◌, ◌≤◌, ◌<◌, ◌≡◌, ◌∙◌, refl, sym, ap, List, [], ◌∷◌, ◌++◌, set, take, length,
  length-set, length-append, true, false, arith, dec_lt, ltb, leb, if◌then◌else◌,
}
use Prim.Native.Nat.{min}
use jos_ece.Console.Output.{Ansi, push_param}

-- A parameter as it is stored.
abbrev pub effective : ℕ → ℕ
effective p = if leb (2 ^ 31) p then 0 else p

-- The parameters stored are the first four of `vs`.
pub record Stored (a : Ansi) (vs : List ℕ) : Type 0 where
  pub used : a.nparams ≡ min 4 (length vs)
  pub slots : length a.params ≡ 4
  pub same : take a.nparams a.params ≡ take 4 vs

take-set : (ps : List ℕ) (n v : ℕ) → n < length ps → take (suc n) (set ps n v) ≡ take n ps ++ v ∷ []
take-set [] n v lt = elim lt [ ]
take-set (p ∷ ps) zero v lt = refl
take-set (p ∷ ps) (suc n) v lt = ap (λ r. p ∷ r) (take-set ps n v (omega arith))

take-append_left : (n : ℕ) (vs ws : List ℕ) → n ≤ length vs → take n (vs ++ ws) ≡ take n vs
take-append_left zero vs ws h = refl
take-append_left (suc n) [] ws h = absurd (omega arith)
take-append_left (suc n) (v ∷ vs) ws h = ap (λ r. v ∷ r) (take-append_left n vs ws (omega arith))

take_all : (n : ℕ) (vs : List ℕ) → length vs ≤ n → take n vs ≡ vs
take_all zero [] h = refl
take_all zero (v ∷ vs) h = absurd (omega arith)
take_all (suc n) [] h = refl
take_all (suc n) (v ∷ vs) h = ap (λ r. v ∷ r) (take_all n vs (omega arith))

pub esc-push_param : (a : Ansi) → (push_param a).esc ≡ a.esc
unfolding push_param
esc-push_param a = ground arith

pub push_param-Stored :
    (a : Ansi) (vs : List ℕ) → Stored a vs → Stored (push_param a) (vs ++ effective a.param ∷ [])
unfolding push_param
push_param-Stored a vs v = elim (dec_lt (length vs) 4) [
  | yes room ↦
      let more : ltb a.nparams 4 ≡ true = ground (arith, v.used) in
      let n : a.nparams ≡ length vs = omega (arith, v.used) in
      rw more (record {
        used = omega (arith, v.used, length-append vs (effective a.param ∷ []));
        slots = length-set a.params a.nparams (effective a.param) ∙ v.slots;
        same =
            ap (λ k. take k (set a.params a.nparams (effective a.param))) {y = suc a.nparams}
              (omega arith)
            ∙ take-set a.params a.nparams (effective a.param) (omega (arith, v.slots))
            ∙ ap (λ r. r ++ effective a.param ∷ []) (v.same ∙ take_all 4 vs (omega arith))
            ∙ sym (
                take_all 4 (vs ++ effective a.param ∷ [])
                  (omega (arith, length-append vs (effective a.param ∷ []))));
      })
  | no full ↦
      let more : ltb a.nparams 4 ≡ false = ground (arith, v.used) in
      rw more (record {
        used = omega (arith, v.used, length-append vs (effective a.param ∷ []));
        slots = v.slots;
        same = v.same ∙ sym (take-append_left 4 vs (effective a.param ∷ []) (omega arith));
      })
]
