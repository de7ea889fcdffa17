-- ===== src/Str/Copy.antt =====
-- lib/string.c: strcpy, strcat, strncpy, strlcpy. A routine returns its result beside the memory
-- that it leaves.
pub mod Strings
pub mod Bounded
use jos_ece.Prelude.{ℕ, zero, suc, ◌+◌, ◌-◌, Option, none, some, ◌==◌, if◌then◌else◌}
use jos_ece.Memory.{Memory, store}
use jos_ece.Str.Scan.{strlen}

strcpy_loop : ℕ → Memory → ℕ → ℕ → Option Memory
strcpy_loop zero m dst src = none
strcpy_loop (suc f) m dst src =
    let m' = store m dst (m src) in
    let rest = strcpy_loop f m' (dst + 1) (src + 1) in if m src == 0 then some m' else rest

unfoldable pub strcpy : ℕ → Memory → ℕ → ℕ → Option (ℕ × Memory)
unfolding strcpy_loop
strcpy f m dst src = elim (strcpy_loop f m dst src) [ none ↦ none | some m' ↦ some (dst, m') ]

unfoldable pub strcat : ℕ → Memory → ℕ → ℕ → Option (ℕ × Memory)
unfolding strcpy
strcat f m dst src = elim (strlen f m dst) [
  | none ↦ none
  | some len ↦ elim (strcpy f m (dst + len) src) [ none ↦ none | some (d, m') ↦ some (dst, m') ]
]

-- `src` stays at the NUL once it is reached.
strncpy_loop : ℕ → Memory → ℕ → ℕ → Memory
strncpy_loop zero m dst src = m
strncpy_loop (suc size) m dst src =
    strncpy_loop size (store m dst (m src)) (dst + 1)
      (if store m dst (m src) src == 0 then src else src + 1)

unfoldable pub strncpy : Memory → ℕ → ℕ → ℕ → ℕ × Memory
unfolding strncpy_loop
strncpy m dst src size = (dst, strncpy_loop size m dst src)

-- `while (--size > 0 && *src != 0) *dst++ = *src++`, from `suc size`; it returns where `dst` ends.
strlcpy_loop : ℕ → Memory → ℕ → ℕ → ℕ × Memory
strlcpy_loop zero m dst src = (dst, m)
strlcpy_loop (suc size) m dst src =
    let rest = strlcpy_loop size (store m dst (m src)) (dst + 1) (src + 1) in
    if m src == 0 then (dst, m) else rest

unfoldable pub strlcpy : Memory → ℕ → ℕ → ℕ → ℕ × Memory
unfolding strlcpy_loop
strlcpy m dst src zero = (dst - dst, m)
strlcpy m dst src (suc size) =
    let (end, m') = strlcpy_loop size m dst src in (end - dst, store m' end 0)
