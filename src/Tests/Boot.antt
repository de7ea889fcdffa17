-- ===== src/Tests/Boot.antt =====
-- boot/main.c: the sectors that are read for a segment.
use jos_ece.Prelude.{ℕ, ◌≡◌, refl, List, [], ◌∷◌, some}
use jos_ece.Boot.{readseg}

abbrev trace : ℕ → ℕ → List (ℕ × ℕ) → List (ℕ × ℕ)
trace pa offset log = (pa, offset) ∷ log

-- Two sectors, the last one first.
readseg_run :
    readseg (λ pa offset log. some (trace pa offset log)) 5 0x10_0010 1000 0x1010 []
    ≡ some ((0x10_0200, 10) ∷ (0x10_0000, 9) ∷ [])
unfolding readseg
readseg_run = refl
