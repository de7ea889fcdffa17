-- ===== src/Format/Args.antt =====
-- lib/printfmt.c: getuint and getint, and the arguments that they take. The arguments are the
-- words of the caller's stack, a `long long` being two, the lower first; `none` is a read past the
-- last argument, which C leaves undefined.
use jos_ece.Prelude.{
  ℕ, ◌+◌, ◌-◌, ◌*◌, ◌^◌, List, [], ◌∷◌, Option, none, some, ltb, leb, if◌then◌else◌,
}

-- `va_arg` of a 32-bit type.
unfoldable pub arg32 : List ℕ → Option (ℕ × List ℕ)
arg32 [] = none
arg32 (w ∷ ap) = some (w, ap)

-- `va_arg` of a 64-bit type.
unfoldable pub arg64 : List ℕ → Option (ℕ × List ℕ)
arg64 [] = none
arg64 (lo ∷ []) = none
arg64 (lo ∷ hi ∷ ap) = some (lo + hi * 2 ^ 32, ap)

-- `unsigned long` and `unsigned int` have the same width.
unfoldable pub getuint : List ℕ → ℕ → Option (ℕ × List ℕ)
unfolding arg32 arg64
getuint ap lflag = if leb 2 lflag then arg64 ap else arg32 ap

-- A 32-bit value as a `long long`, in the 64-bit pattern.
unfoldable pub sign_extend64 : ℕ → ℕ
sign_extend64 w = if ltb w (2 ^ 31) then w else w + (2 ^ 64 - 2 ^ 32)

unfoldable pub getint : List ℕ → ℕ → Option (ℕ × List ℕ)
unfolding arg32 arg64 sign_extend64
getint ap lflag =
    if leb 2 lflag
    then arg64 ap
    else elim (arg32 ap) [ none ↦ none | some (w, rest) ↦ some (sign_extend64 w, rest) ]
