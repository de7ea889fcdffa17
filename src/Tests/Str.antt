-- ===== src/Tests/Str.antt =====
-- lib/string.c at concrete memories.
use jos_ece.Prelude.{
  ℕ, suc, ◌+◌, ◌-◌, ◌%◌, ◌≡◌, ◌↔◌, refl, inl, inr, List, [], ◌∷◌, ◌++◌, length, take, get_or, some,
  arith, ◌==◌, if◌then◌else◌,
}
use Prim.Native.Nat.{min}
use jos_ece.Prelude.Int.{pos}
use jos_ece.Memory.{Memory, StrAt, SameOutside}
use jos_ece.Str.Scan.{strchr, index_of, strchr-StrAt}
use jos_ece.Str.Compare.{strcmp, difference, strcmp-StrAt}
use jos_ece.Str.Copy.{strcat, strlcpy}
use jos_ece.Str.Copy.Strings.{strcat-StrAt}
use jos_ece.Str.Copy.Bounded.{strlcpy-StrAt}
use jos_ece.Str.Block.{memset, memmove}
use jos_ece.Str.Block.Fill.{Filled, memset-Filled}
use jos_ece.Str.Block.Move.{Moved, memmove-Moved}
use jos_ece.Str.Number.{strtol}
use jos_ece.Str.Number.RoundTrip.{strtol-printnum}
use jos_ece.Format.Number.{printnum, then_digit, pad_number, decrement, digit_char}

-- "help" at 0 and "hi" at 8.
abbrev rom : Memory
rom a = get_or (104 ∷ 101 ∷ 108 ∷ 112 ∷ 0 ∷ 0 ∷ 0 ∷ 0 ∷ 104 ∷ 105 ∷ 0 ∷ []) a 0

abbrev help : List ℕ
help = 104 ∷ 101 ∷ 108 ∷ 112 ∷ []

abbrev hi : List ℕ
hi = 104 ∷ 105 ∷ []

help-StrAt : StrAt rom 0 help
help-StrAt =
    (refl, omega arith, (refl, omega arith, (refl, omega arith, (refl, omega arith, refl))))

hi-StrAt : StrAt rom 8 hi
hi-StrAt = (refl, omega arith, (refl, omega arith, refl))

strchr-StrAt_example :
    strchr 5 rom 8 105 ≡ some (if index_of 105 hi == length hi then 0 else 8 + index_of 105 hi)
strchr-StrAt_example = strchr-StrAt 5 rom 8 105 hi hi-StrAt (omega arith)

strcmp-StrAt_example :
    (strcmp 5 rom 0 8 ≡ some (difference help hi))
    × ((strcmp 5 rom 0 8 ≡ some (pos 0)) ↔ (help ≡ hi))
strcmp-StrAt_example = strcmp-StrAt 5 rom 0 8 help hi help-StrAt hi-StrAt (omega arith)

strcat-StrAt_example :
    (m' : Memory) × (strcat 5 rom 0 8 ≡ some (0, m'))
    × StrAt m' 0 (help ++ hi)
    × SameOutside rom m' (0 + length help) (suc (length hi))
strcat-StrAt_example =
    strcat-StrAt 5 rom 0 8 help hi help-StrAt hi-StrAt (omega arith) (omega arith) (omega arith)
      (inl (omega arith))

strlcpy-StrAt_example :
    let (r, m') = strlcpy rom 16 0 3 in
    (r ≡ min (3 - 1) (length help)) × StrAt m' 16 (take (3 - 1) help) × SameOutside rom m' 16 3
strlcpy-StrAt_example = strlcpy-StrAt rom 16 0 3 help help-StrAt (omega arith) (inr (omega arith))

memset-Filled_example :
    let (r, m') = memset rom 4 0x12D 8 in (r ≡ 4) × Filled rom m' 4 8 (0x12D % 256)
memset-Filled_example = memset-Filled rom 4 0x12D 8

-- An overlapping move upwards.
memmove-Moved_example : let (r, m') = memmove rom 2 0 4 in (r ≡ 2) × Moved rom m' 2 0 4
memmove-Moved_example = memmove-Moved rom 2 0 4

-- "ff" at 0.
abbrev ff : Memory
ff a = get_or (102 ∷ 102 ∷ 0 ∷ []) a 0

abbrev ff_text : List ℕ
ff_text = 102 ∷ 102 ∷ []

strtol-printnum_example : strtol 3 ff 0 16 ≡ some (0 + length ff_text, 255)
unfolding printnum then_digit pad_number decrement digit_char
strtol-printnum_example =
    strtol-printnum 3 ff 0 255 16 32 ff_text (omega arith) (omega arith) (omega arith) refl
      (refl, omega arith, (refl, omega arith, refl)) (omega arith)
