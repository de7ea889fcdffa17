-- ===== src/Readline/Editing.antt =====
-- lib/readline.c: one character of the loop, against a plain editor with a length limit.
use jos_ece.Prelude.{
  ℕ, zero, suc, ◌+◌, ◌-◌, ◌%◌, ◌^◌, ◌≤◌, ◌<◌, ◌≡◌, ◌≢◌, ◌⊎◌, ◌∙◌, refl, ap, List, [], ◌∷◌, ◌++◌,
  set, take, length, length-set, get_or, get_or-set_self, true, false, Bool-cases, inl, inr, ◌&&◌,
  ◌||◌, ltb, leb, ◌==◌, if◌then◌else◌, arith,
}
use jos_ece.Readline.{buflen, Line, Edited, more, finished, failed, edit}

-- The line fits its buffer, with room for the NUL.
pub record IsLine (l : Line) : Type 0 where
  pub size : length l.buf ≡ buflen
  pub room : l.i < buflen

abbrev pub text : Line → List ℕ
text l = take l.i l.buf

-- The line without its last character.
unfoldable pub shorten : List ℕ → List ℕ
shorten [] = []
shorten (x ∷ []) = []
shorten (x ∷ y ∷ ys) = x ∷ shorten (y ∷ ys)

-- What a character makes of a line in which it is not the end: backspace and DEL shorten it, but
-- DEL is a character on the empty line; a character from the space on is put behind it while there
-- is room, and any other does nothing.
unfoldable pub typed_line : ℕ → List ℕ → List ℕ
typed_line c s =
    if (c == 8 || c == 0x7F) && ltb 0 (length s)
    then shorten s
    else if leb b' ' c && ltb (length s) (buflen - 1)
    then s ++ c % 2 ^ 8 ∷ []
    else s

take-shorten : (n : ℕ) (xs : List ℕ) → n < length xs → take n xs ≡ shorten (take (suc n) xs)
unfolding shorten
take-shorten n [] lt = elim lt [ ]
take-shorten zero (x ∷ xs) lt = refl
take-shorten (suc n) (x ∷ []) lt = absurd (omega arith)
take-shorten (suc n) (x ∷ y ∷ ys) lt = ap (λ r. x ∷ r) (take-shorten n (y ∷ ys) (omega arith))

length-take_all : (n : ℕ) (xs : List ℕ) → n ≤ length xs → length (take n xs) ≡ n
length-take_all zero xs le = refl
length-take_all (suc n) [] le = absurd (omega arith)
length-take_all (suc n) (x ∷ xs) le = ap suc (length-take_all n xs (omega arith))

take-set :
    (n : ℕ) (xs : List ℕ) (v : ℕ) → n < length xs → take (suc n) (set xs n v) ≡ take n xs ++ v ∷ []
take-set n [] v lt = elim lt [ ]
take-set zero (x ∷ xs) v lt = refl
take-set (suc n) (x ∷ xs) v lt = ap (λ r. x ∷ r) (take-set n xs v (omega arith))

take-set_same : (n : ℕ) (xs : List ℕ) (v : ℕ) → take n (set xs n v) ≡ take n xs
take-set_same zero xs v = refl
take-set_same (suc n) [] v = refl
take-set_same (suc n) (x ∷ xs) v = ap (λ r. x ∷ r) (take-set_same n xs v)

-- What holds of a line that has been edited.
abbrev pub EditedAs : ℕ → Line → Edited → Type 0
EditedAs c l (more e l') = IsLine l' × (text l' ≡ typed_line c (text l)) × (c ≢ 10) × (c ≢ 13)
EditedAs c l (finished l') =
    ((c ≡ 10) ⊎ (c ≡ 13)) × IsLine l' × (text l' ≡ text l) × (get_or l'.buf l'.i 1 ≡ 0)
EditedAs c l failed = 2 ^ 31 ≤ c

backspaced : (l : Line) → IsLine l → 0 < l.i → take (l.i - 1) l.buf ≡ shorten (text l)
backspaced l v pos =
    let before : suc (l.i - 1) ≡ l.i = omega arith in
    take-shorten (l.i - 1) l.buf (omega (arith, v)) ∙ ap (λ n. shorten (take n l.buf)) before

length-text : (l : Line) → IsLine l → length (text l) ≡ l.i
length-text l v = length-take_all l.i l.buf (omega (arith, v))

negative_lem : (c : ℕ) (l : Line) → leb (2 ^ 31) c ≡ true → EditedAs c l (edit c l)
unfolding edit
negative_lem c l e = rw e (ground arith)

back_lem :
    (c : ℕ) (l : Line)
    → IsLine l
    → leb (2 ^ 31) c ≡ false
    → ((c == 8 || c == 0x7F) && ltb 0 l.i) ≡ true
    → EditedAs c l (edit c l)
unfolding edit typed_line
back_lem c l v e back =
    rw (e, back)
      (
        record { size = v.size; room = omega (arith, v) },
        rw (length-text l v, back) (backspaced l v (ground arith)),
        ground arith,
        ground arith,
      )

char_lem :
    (c : ℕ) (l : Line)
    → IsLine l
    → leb (2 ^ 31) c ≡ false
    → ((c == 8 || c == 0x7F) && ltb 0 l.i) ≡ false
    → (leb b' ' c && ltb l.i (buflen - 1)) ≡ true
    → EditedAs c l (edit c l)
unfolding edit typed_line
char_lem c l v e back char =
    let fits : l.i < buflen - 1 = ground arith in
    let next : l.i + 1 ≡ suc l.i = omega arith in
    rw (e, back, char)
      (
        record { size = length-set l.buf l.i (c % 2 ^ 8) ∙ v.size; room = omega arith },
        rw (length-text l v, back, char, next) (take-set l.i l.buf (c % 2 ^ 8) (omega (arith, v))),
        ground arith,
        ground arith,
      )

end_cases : (c : ℕ) → (c == 10 || c == 13) ≡ true → (c ≡ 10) ⊎ (c ≡ 13)
end_cases c h = elim (Bool-cases (c == 10)) [
  | inl e ↦ inl (ground arith)
  | inr e ↦ inr (ground arith)
]

other_lem :
    (c : ℕ) (l : Line)
    → IsLine l
    → leb (2 ^ 31) c ≡ false
    → ((c == 8 || c == 0x7F) && ltb 0 l.i) ≡ false
    → (leb b' ' c && ltb l.i (buflen - 1)) ≡ false
    → EditedAs c l (edit c l)
unfolding edit typed_line
other_lem c l v e back char = elim (Bool-cases (c == 10 || c == 13)) [
  | inl end ↦
      rw (e, back, char, end)
        (
          end_cases c end,
          record { size = length-set l.buf l.i 0 ∙ v.size; room = v.room },
          take-set_same l.i l.buf 0,
          get_or-set_self l.buf l.i 0 1 (omega (arith, v)),
        )
  | inr go_on ↦
      rw (e, back, char, go_on)
        (v, rw (length-text l v, back, char) refl, ground arith, ground arith)
]

-- Every character keeps the line inside its buffer, with room for the NUL. A newline or a carriage
-- return ends the line, which is then followed by a NUL, and every other character that is not
-- negative edits it as `typed_line` says.
pub edit-EditedAs : (c : ℕ) (l : Line) → IsLine l → EditedAs c l (edit c l)
edit-EditedAs c l v = elim (Bool-cases (leb (2 ^ 31) c)) [
  | inl neg ↦ negative_lem c l neg
  | inr e ↦ elim (Bool-cases ((c == 8 || c == 0x7F) && ltb 0 l.i)) [
    | inl back ↦ back_lem c l v e back
    | inr back ↦ elim (Bool-cases (leb b' ' c && ltb l.i (buflen - 1))) [
      | inl char ↦ char_lem c l v e back char
      | inr char ↦ other_lem c l v e back char
    ]
  ]
]
