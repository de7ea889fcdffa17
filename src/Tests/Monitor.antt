-- ===== src/Tests/Monitor.antt =====
-- kern/monitor.c: the arguments of a concrete line.
use jos_ece.Prelude.{ℕ, refl, List, [], ◌∷◌, get_or, arith}
use jos_ece.Memory.{Memory, StrAt}
use jos_ece.Monitor.Words.{IsLine, line}

-- "hi  x" and a newline.
abbrev typed : Memory
typed a = get_or (104 ∷ 105 ∷ 32 ∷ 32 ∷ 120 ∷ 10 ∷ []) a 0

abbrev pieces : List (List ℕ × List ℕ)
pieces = ([], 104 ∷ 105 ∷ []) ∷ (32 ∷ 32 ∷ [], 120 ∷ []) ∷ []

typed-StrAt : StrAt typed 0 (line pieces (10 ∷ []))
typed-StrAt = (
  refl,
  omega arith,
  (
    refl,
    omega arith,
    (refl, omega arith, (refl, omega arith, (refl, omega arith, (refl, omega arith, refl)))),
  ),
)

pieces-IsLine : IsLine pieces (10 ∷ [])
pieces-IsLine = (
  tt,
  (refl, (refl, tt)),
  omega arith,
  refl,
  ((refl, (refl, tt)), (refl, tt), omega arith, refl, (refl, tt)),
)
