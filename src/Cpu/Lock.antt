-- ===== src/Cpu/Lock.antt =====
-- inc/x86.h: xchg, as a lock is taken with it.
use jos_ece.Prelude.{ℕ, ◌^◌, ◌<◌, ◌≡◌, ◌∙◌, refl, ap, List, [], ◌∷◌, ◌++◌, arith}
use jos_ece.Memory.{Memory, SameOutside}
use jos_ece.Boot.{load32, store32}
use jos_ece.Boot.Disk.{stored_elsewhere}
use jos_ece.Cpu.{xchg}

-- `xchg` of one word by several callers, one after the other: what each gets, and the memory then.
unfoldable pub exchanges : ℕ → List ℕ → Memory → List ℕ × Memory
exchanges addr [] m = ([], m)
exchanges addr (v ∷ vs) m =
    let (old, m1) = xchg addr v m in let (olds, m') = exchanges addr vs m1 in (old ∷ olds, m')

-- Values that fit a word.
abbrev pub AreWords : List ℕ → Type 0
AreWords [] = Unit
AreWords (v ∷ vs) = (v < 2 ^ 32) × AreWords vs

load32-store32 : (m : Memory) (a w : ℕ) → w < 2 ^ 32 → load32 (store32 m a w) a ≡ w
unfolding load32 store32
load32-store32 m a w lt = ground arith

-- When callers exchange 32-bit values with one word, one after the other, nothing is lost or
-- doubled: what they get, in their order, and then what the word is left with, are what the word
-- held at first and then what they brought. So of callers that bring values other than 0 to a word
-- that is 0 only the first gets the 0. Nothing else in memory changes.
pub exchanges_lem :
    (addr : ℕ) (vs : List ℕ) (m : Memory)
    → AreWords vs
    → let (olds, m') = exchanges addr vs m in
      (olds ++ load32 m' addr ∷ [] ≡ load32 m addr ∷ vs) × SameOutside m m' addr 4
unfolding exchanges xchg
exchanges_lem addr [] m h = (refl, λ x out. refl)
exchanges_lem addr (v ∷ vs) m (lt, h) =
    let m1 : Memory = store32 m addr v in
    let (order, same) = exchanges_lem addr vs m1 h in
    (
      ap (λ l. load32 m addr ∷ l) (order ∙ ap (λ w. w ∷ vs) (load32-store32 m addr v lt)),
      λ x out. same x out ∙ stored_elsewhere m addr v x out,
    )
