-- ===== src/Console/Input.antt =====
-- kern/console.c: the circular buffer of the console's input, filled by the device interrupts and
-- emptied by cons_getc. A character is an `int`, -1 being 2 ^ 32 - 1.
pub mod Queue
use jos_ece.Prelude.{
  ℕ, zero, suc, ◌+◌, ◌-◌, ◌%◌, ◌^◌, List, set, get_or, Option, none, some, Bool, ◌==◌,
  if◌then◌else◌,
}

abbrev pub consbufsize : ℕ
consbufsize = 512

pub record Cons : Type 0 where
  pub buf : List ℕ
  pub rpos : ℕ
  pub wpos : ℕ

-- The body of the loop of `cons_intr`, on a character other than -1.
unfoldable pub cons_store : ℕ → Cons → Cons
cons_store c k = if c == 0 then k else record k {
  buf = set k.buf k.wpos (c % 2 ^ 8);
  wpos = if k.wpos + 1 == consbufsize then 0 else k.wpos + 1;
}

-- The end of `cons_getc`: the next character, or 0 if none is waiting.
unfoldable pub cons_take : Cons → ℕ × Cons
cons_take k = if k.rpos == k.wpos then (0, k) else (
  get_or k.buf k.rpos 0,
  record k { rpos = if k.rpos + 1 == consbufsize then 0 else k.rpos + 1 },
)

module _ {S : Type 0} where
  -- `proc` is asked until it returns -1; with fuel, since a device may never do so.
  unfoldable pub cons_intr : ℕ → (S → ℕ × S) → S → Cons → Option (S × Cons)
  cons_intr zero proc s k = none
  cons_intr (suc f) proc s k =
      let (c, s1) = proc s in
      let rest = cons_intr f proc s1 (cons_store c k) in
      if c == 2 ^ 32 - 1 then some (s1, k) else rest
