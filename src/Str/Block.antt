-- ===== src/Str/Block.antt =====
-- lib/string.c: memset, memmove and memcpy, in the version with string instructions (`ASM` is 1).
-- An instruction under `rep` is a recursion on its count register; it steps the registers up after
-- `cld` and down after `std`. The step down from 0 is never followed by an access.
pub mod Fill
pub mod Move
use jos_ece.Prelude.{
  ℕ, zero, suc, ◌+◌, ◌-◌, ◌*◌, ◌/◌, ◌%◌, ◌^◌, bit_and, bit_or, ◌&&◌, ltb, ◌==◌, if◌then◌else◌,
}
use jos_ece.Memory.{Memory, store}

-- A double word in memory, lowest byte first.
store_word : Memory → ℕ → ℕ → Memory
store_word m d w =
    store (store (store (store m d (w % 256)) (d + 1) (w / 2 ^ 8 % 256)) (d + 2) (w / 2 ^ 16 % 256))
      (d + 3) (w / 2 ^ 24 % 256)

-- `cld; rep stosb` with `a` in EAX, of which AL is stored.
stosb : ℕ → Memory → ℕ → ℕ → Memory
stosb zero m d a = m
stosb (suc n) m d a = stosb n (store m d (a % 256)) (d + 1) a

-- `cld; rep stosl`
stosl : ℕ → Memory → ℕ → ℕ → Memory
stosl zero m d a = m
stosl (suc n) m d a = stosl n (store_word m d a) (d + 4) a

-- `c = (c<<24)|(c<<16)|(c<<8)|c`
spread : ℕ → ℕ
spread c =
    bit_or (bit_or (bit_or (c * 2 ^ 24 % 2 ^ 32) (c * 2 ^ 16 % 2 ^ 32)) (c * 2 ^ 8 % 2 ^ 32)) c

unfoldable pub memset : Memory → ℕ → ℕ → ℕ → ℕ × Memory
unfolding stosb stosl spread store_word
memset m v c n =
    if n == 0
    then (v, m)
    else if v % 4 == 0 && n % 4 == 0
    then (v, stosl (n / 4) m v (spread (bit_and c 0xFF)))
    else (v, stosb n m v c)

-- One `movsl`: the double word is read whole before it is written.
move_word : Memory → ℕ → ℕ → Memory
move_word m d s =
    store (store (store (store m d (m s)) (d + 1) (m (s + 1))) (d + 2) (m (s + 2))) (d + 3)
      (m (s + 3))

movsb_up : ℕ → Memory → ℕ → ℕ → Memory
movsb_up zero m d s = m
movsb_up (suc n) m d s = movsb_up n (store m d (m s)) (d + 1) (s + 1)

movsl_up : ℕ → Memory → ℕ → ℕ → Memory
movsl_up zero m d s = m
movsl_up (suc n) m d s = movsl_up n (move_word m d s) (d + 4) (s + 4)

movsb_down : ℕ → Memory → ℕ → ℕ → Memory
movsb_down zero m d s = m
movsb_down (suc n) m d s = movsb_down n (store m d (m s)) (d - 1) (s - 1)

movsl_down : ℕ → Memory → ℕ → ℕ → Memory
movsl_down zero m d s = m
movsl_down (suc n) m d s = movsl_down n (move_word m d s) (d - 4) (s - 4)

-- The copy from the end, where `s` and `d` already point past it.
move_down : Memory → ℕ → ℕ → ℕ → Memory
move_down m d s n =
    if s % 4 == 0 && d % 4 == 0 && n % 4 == 0
    then movsl_down (n / 4) m (d - 4) (s - 4)
    else movsb_down n m (d - 1) (s - 1)

move_up : Memory → ℕ → ℕ → ℕ → Memory
move_up m d s n =
    if s % 4 == 0 && d % 4 == 0 && n % 4 == 0 then movsl_up (n / 4) m d s else movsb_up n m d s

unfoldable pub memmove : Memory → ℕ → ℕ → ℕ → ℕ × Memory
unfolding move_down move_up move_word movsb_up movsl_up movsb_down movsl_down
memmove m dst src n =
    if ltb src dst && ltb dst (src + n)
    then (dst, move_down m (dst + n) (src + n) n)
    else (dst, move_up m dst src n)

unfoldable pub memcpy : Memory → ℕ → ℕ → ℕ → ℕ × Memory
unfolding memmove
memcpy m dst src n = memmove m dst src n
