-- ===== src/Monitor/Kernel/Prints.antt =====
-- kern/printf.c: what a call of cprintf with constant texts prints.
use jos_ece.Prelude.{
  ℕ, zero, suc, ◌+◌, ◌-◌, ◌<◌, ◌≡◌, ◌∙◌, refl, sym, ap, subst, List, [], ◌∷◌, ◌++◌, length,
  length-append, get_or, Bool, true, false, not, ◌&&◌, ltb, ◌==◌, arith, append_assoc, ℕ_discrete,
}
use jos_ece.Memory.{Memory, StrAt, StrAt-SameBytes}
use jos_ece.Format.Print.Pieces.{Piece, spelled, words, output, Given, vprintfmt-Pieces}
use jos_ece.Console.Ports.{Ports}
use jos_ece.Console.Printf.Count.{cprintf_zero}
use jos_ece.Console.Output.Sgr.{puts, puts-append}
use jos_ece.Readline.{tell}
use jos_ece.Str.Compare.{NonNul}
use jos_ece.Monitor.Kernel.{Kernel, Code, returned, ◌>>◌, text_at, joined, rom, print}

unfoldable pub no_nul : List ℕ → Bool
no_nul [] = true
no_nul (c ∷ cs) = not (c == 0) && no_nul cs

pub no_nul-NonNul : (cs : List ℕ) → no_nul cs ≡ true → NonNul cs
unfolding no_nul
no_nul-NonNul [] h = tt
no_nul-NonNul (c ∷ cs) h = elim (ℕ_discrete c 0) [
  | yes e ↦ ground arith
  | no ne ↦ let t : (c == 0) ≡ false = ground arith in (ne, no_nul-NonNul cs (rw (← h, t) refl))
]

get_or-append_end :
    (xs ys : List ℕ) (n d : ℕ) → n ≡ length xs → get_or (xs ++ ys) n d ≡ get_or ys 0 d
get_or-append_end [] ys n d e = rw e refl
get_or-append_end (x ∷ xs) ys zero d e = absurd (omega arith)
get_or-append_end (x ∷ xs) ys (suc n) d e = get_or-append_end xs ys n d (omega arith)

rom_high :
    (m : Memory) (before l : List ℕ) (a : ℕ)
    → a ≡ text_at + length before
    → rom m (before ++ l) a ≡ get_or l 0 0
unfolding rom
rom_high m before l a at =
    let t : ltb a text_at ≡ false = ground arith in
    rw (rom, t) (get_or-append_end before l (a - text_at) 0 (omega arith))

pub rom_low : (m : Memory) (l : List ℕ) (a : ℕ) → a < text_at → rom m l a ≡ m a
unfolding rom
rom_low m l a lt = let t : ltb a text_at ≡ true = ground arith in rw (rom, t) refl

-- A constant stands where it has been put.
pub StrAt-rom :
    (m : Memory) (before cs rest : List ℕ) (a : ℕ)
    → NonNul cs
    → a ≡ text_at + length before
    → StrAt (rom m (before ++ (cs ++ 0 ∷ rest))) a cs
StrAt-rom m before [] rest a nn at = rom_high m before (0 ∷ rest) a at
StrAt-rom m before (c ∷ cs) rest a (ne, nn) at = (
  rom_high m before (c ∷ (cs ++ 0 ∷ rest)) a at,
  ne,
  subst (λ l. StrAt (rom m l) (a + 1) cs) (append_assoc before (c ∷ []) (cs ++ 0 ∷ rest))
      (StrAt-rom m (before ++ c ∷ []) cs rest (a + 1) nn
        (omega (arith, length-append before (c ∷ [])))),
)

joined-append :
    (before after : List (List ℕ)) → joined (before ++ after) ≡ joined before ++ joined after
unfolding joined
joined-append [] after = refl
joined-append (t ∷ before) after =
    ap (λ l. t ++ 0 ∷ l) (joined-append before after)
    ∙ sym (append_assoc t (0 ∷ joined before) (joined after))

-- Each of the constants of a call stands behind those before it.
pub StrAt-joined :
    (m : Memory) (before : List (List ℕ)) (cs : List ℕ) (after : List (List ℕ)) (a : ℕ)
    → no_nul cs ≡ true
    → a ≡ text_at + length (joined before)
    → StrAt (rom m (joined (before ++ cs ∷ after))) a cs
unfolding joined
StrAt-joined m before cs after a h e =
    subst (λ l. StrAt (rom m l) a cs) (sym (joined-append before (cs ∷ after)))
      (StrAt-rom m (joined before) cs (joined after) a (no_nul-NonNul cs h) e)

pub length-joined_two :
    (xs ys : List ℕ) → length (joined (xs ∷ ys ∷ [])) ≡ length xs + 1 + length ys + 1
unfolding joined
length-joined_two xs ys =
    omega (arith, length-append xs (0 ∷ (ys ++ 0 ∷ [])), length-append ys (0 ∷ []))

pub length-joined_one : (xs : List ℕ) → length (joined (xs ∷ [])) ≡ length xs + 1
unfolding joined
length-joined_one xs = omega (arith, length-append xs (0 ∷ []))

-- What stands in the address space is seen as before.
pub StrAt-rom_low :
    (m : Memory) (l : List ℕ) (a : ℕ) (cs : List ℕ)
    → a + length cs < text_at
    → StrAt m a cs
    → StrAt (rom m l) a cs
StrAt-rom_low m l a cs lt = StrAt-SameBytes m (rom m l) a cs (λ x p q. rom_low m l x (omega arith))

module _ {S : Type 0} (ports : Ports S) where
  -- The kernel once characters have been put on the console.
  unfoldable pub showing : List ℕ → Kernel S → Kernel S
  showing out k = record k {
    machine = record (k.machine) {
      keyboard = record (k.machine.keyboard) {
        console = puts ports out k.machine.keyboard.console;
      };
    };
  }

  pub showing-append :
      (xs ys : List ℕ) (k : Kernel S) → showing ys (showing xs k) ≡ showing (xs ++ ys) k
  unfolding showing
  showing-append xs ys k = rw (puts-append ports xs ys k.machine.keyboard.console) refl

  -- Two pieces of code one behind the other, where the first returns.
  pub >>-returned :
      {A : Type 0} (code : Code S Unit) (next : Code S A) (k k' : Kernel S)
      → code k ≡ returned tt k'
      → (code >> next) k ≡ next k'
  >>-returned code next k k' ran = rw (◌>>◌, ran) refl

  -- A call of `cprintf` with a format of pieces puts what the pieces stand for on the console.
  pub print-Pieces :
      (f : ℕ) (fmt : List ℕ) (texts : List (List ℕ)) (ps : List Piece) (k : Kernel S)
      → spelled ps ≡ fmt
      → no_nul fmt ≡ true
      → Given (rom k.memory (joined (fmt ∷ texts))) ps
      → length fmt + length (output ps) < f
      → print ports f (fmt ∷ texts) (words ps) k ≡ returned tt (showing (output ps) k)
  unfolding joined print tell showing
  print-Pieces f fmt texts ps k e h g lt =
      let m : Memory = rom k.memory (joined (fmt ∷ texts)) in
      let no_text : text_at ≡ text_at + length (joined []) = omega arith in
      let at : StrAt m text_at (spelled ps) =
        subst (StrAt m text_at) (sym e) (StrAt-joined k.memory [] fmt texts text_at h no_text) in
      let same : length (spelled ps) ≡ length fmt = ap length e in
      rw
        (
          print,
          tell,
          cprintf_zero ports f m text_at (words ps) (output ps) k.machine.keyboard.console
              (vprintfmt-Pieces ps f m text_at at g (omega arith)),
        )
        refl

  -- The same, with the arguments and what is put in another form.
  pub print_as :
      (f : ℕ) (fmt : List ℕ) (texts : List (List ℕ)) (va out : List ℕ) (ps : List Piece)
      → (k : Kernel S) → spelled ps ≡ fmt
      → words ps ≡ va
      → output ps ≡ out
      → no_nul fmt ≡ true
      → Given (rom k.memory (joined (fmt ∷ texts))) ps
      → length fmt + length out < f
      → print ports f (fmt ∷ texts) va k ≡ returned tt (showing out k)
  print_as f fmt texts va out ps k e args puts_out h g lt =
      rw (← args, ← puts_out) (print-Pieces f fmt texts ps k e h g (rw puts_out lt))
