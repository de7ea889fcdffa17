-- ===== src/Monitor/Kernel.antt =====
-- The state of the running kernel that kern/monitor.c and kern/init.c change, and their calls of
-- cprintf. String constants of the caller stand in the model behind the 32-bit address space.
pub mod Prints
use jos_ece.Prelude.{
  ℕ, ◌+◌, ◌-◌, ◌^◌, List, [], ◌∷◌, ◌++◌, get_or, Option, none, some, ltb, if◌then◌else◌,
}
use jos_ece.Memory.{Memory}
use jos_ece.Console.Ports.{Ports}
use jos_ece.Console.Machine.{Machine}
use jos_ece.Readline.{tell}

-- `panicstr` is 0 until the first panic.
pub record Kernel (S : Type 0) : Type 0 where
  pub machine : Machine S
  pub memory : Memory
  pub panicstr : ℕ

-- How a piece of code ends: it returns, it has called `panic`, or the model says no more, behind a
-- read outside an object or at the end of the fuel.
pub data Run (S A : Type 0) : Type 0 where
  returned : A → Kernel S → Run S A
  panics : Kernel S → Run S A
  stuck : Run S A

abbrev pub Code : Type 0 → Type 0 → Type 0
Code S A = Kernel S → Run S A

module _ {S A : Type 0} where
  abbrev pub done : A → Code S A
  done a k = returned a k

  infixl 5 ◌>>=◌ ◌>>◌
  abbrev pub ◌>>=◌ : {B : Type 0} → Code S A → (A → Code S B) → Code S B
  ◌>>=◌ code next k = elim (code k) [
    | returned a k' ↦ next a k'
    | panics k' ↦ panics k'
    | stuck ↦ stuck
  ]

  abbrev pub ◌>>◌ : Code S Unit → Code S A → Code S A
  ◌>>◌ code next k = elim (code k) [
    | returned a k' ↦ next k'
    | panics k' ↦ panics k'
    | stuck ↦ stuck
  ]

abbrev pub text_at : ℕ
text_at = 2 ^ 32

-- Constants one behind the other, each with its NUL.
unfoldable pub joined : List (List ℕ) → List ℕ
joined [] = []
joined (text ∷ texts) = text ++ 0 ∷ joined texts

unfoldable pub rom : Memory → List ℕ → Memory
rom m texts a = if ltb a text_at then m a else get_or texts (a - text_at) 0

module _ {S : Type 0} (ports : Ports S) where
  -- `cprintf` with the first of the constants as its format.
  unfoldable pub print : ℕ → List (List ℕ) → List ℕ → Code S Unit
  print f texts va k = elim (tell ports f (rom k.memory (joined texts)) text_at va k.machine) [
    | none ↦ stuck
    | some t ↦ returned tt (record k { machine = t })
  ]
