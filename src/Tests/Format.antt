-- ===== src/Tests/Format.antt =====
-- lib/printfmt.c at concrete formats.
use jos_ece.Prelude.{
  map, replicate, ◌++◌, ℕ, ◌+◌, ◌-◌, ◌%◌, ◌^◌, ◌<◌, ◌≡◌, refl, List, [], ◌∷◌, length, get_or, some,
  arith,
}
use Prim.Native.Nat.{min}
use jos_ece.Prelude.Int.{pos}
use jos_ece.Memory.{Memory, SameOutside}
use jos_ece.Format.Number.{printnum, width_minus, hex_char, value, Below, Leads, printnum_lem}
use jos_ece.Format.Text.{signed32}
use jos_ece.Format.Print.{Printed, vprintfmt}
use jos_ece.Format.Buffer.{vsnprintf, vsnprintf_lem}

-- "n=%x!"
abbrev rom : Memory
rom a = get_or (b'n' ∷ b'=' ∷ b'%' ∷ b'x' ∷ b'!' ∷ []) a 0

abbrev bang : Memory
bang a = get_or (b'!' ∷ b'!' ∷ []) a 0

abbrev two : List ℕ
two = b'!' ∷ b'!' ∷ []

vprintfmt-bang : vprintfmt 3 bang 0 [] ≡ Printed.done two
unfolding vprintfmt
vprintfmt-bang = refl

printnum_example :
    (ds : List ℕ) × (printnum 64 1000 16 (pos 8) b'0'
      ≡ some (replicate (width_minus (pos 8) (length ds)) b'0' ++ map hex_char ds))
    × (value 16 0 ds ≡ 1000)
    × Below 16 ds
    × (0 < 1000 → Leads ds)
printnum_example = printnum_lem 1000 16 (pos 8) b'0' (omega arith) (omega arith) (omega arith)

-- A buffer of 2 bytes holds one of the two characters.
vsnprintf_example :
    (m' : Memory) × (vsnprintf 3 bang bang 16 (pos 2) 0 []
      ≡ some (signed32 (length two % 2 ^ 32), m'))
    × ((i : ℕ) → i < min (2 - 1) (length two) → m' (16 + i) ≡ get_or two i 0 % 2 ^ 8)
    × (m' (16 + min (2 - 1) (length two)) ≡ 0)
    × SameOutside bang m' 16 (min (2 - 1) (length two) + 1)
vsnprintf_example =
    vsnprintf_lem 3 bang bang 16 2 0 [] two vprintfmt-bang (omega arith) (omega arith)
