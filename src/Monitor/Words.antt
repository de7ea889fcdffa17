-- ===== src/Monitor/Words.antt =====
-- kern/monitor.c: lines of words and gaps, and the two loops of runcmd on them.
use jos_ece.Prelude.{
  ℕ, zero, suc, ◌+◌, ◌≤◌, ◌<◌, ◌≡◌, ◌≢◌, ◌∙◌, refl, sym, ap, subst, Bool, true, false, ◌||◌, List,
  [], ◌∷◌, ◌++◌, length, some, arith, ◌==◌,
}
use jos_ece.Memory.{Memory, store, StrAt, StrAt-SameBytes}
use jos_ece.Str.Scan.{strchr}
use jos_ece.Monitor.{is_space, gobble, skip_word}

-- The four characters that separate words.
abbrev pub blank : ℕ → Bool
blank c = c == 9 || c == 10 || c == 13 || c == 32

is_space-blank : (c : ℕ) → is_space c ≡ blank c
unfolding is_space strchr
is_space-blank c = ground arith

-- Blanks, and the characters of a word.
abbrev pub Blanks : List ℕ → Type 0
Blanks [] = Unit
Blanks (c ∷ cs) = (blank c ≡ true) × Blanks cs

abbrev pub Solid : List ℕ → Type 0
Solid [] = Unit
Solid (c ∷ cs) = (blank c ≡ false) × Solid cs

-- The rest of a line at a blank or at its end.
abbrev pub AtGap : List ℕ → Type 0
AtGap [] = Unit
AtGap (c ∷ cs) = blank c ≡ true

abbrev pub AtWord : List ℕ → Type 0
AtWord [] = Unit
AtWord (c ∷ cs) = blank c ≡ false

pub skip_word_lem :
    (f : ℕ) (m : Memory) (s : ℕ) (w rest : List ℕ)
    → Solid w
    → AtGap rest
    → StrAt m s (w ++ rest)
    → length w < f
    → skip_word f m s ≡ some (s + length w)
unfolding skip_word
skip_word_lem zero m s w rest solid gap str lt = elim lt [ ]
skip_word_lem (suc f) m s [] [] solid gap str lt = ground arith
skip_word_lem (suc f) m s [] (c ∷ rest) solid gap (e, ne, str) lt =
    let here : is_space (m s) ≡ true = rw e (is_space-blank c ∙ gap) in rw here (ground arith)
skip_word_lem (suc f) m s (c ∷ w) rest (sc, solid) gap (e, ne, str) lt =
    let here : is_space (m s) ≡ false = rw e (is_space-blank c ∙ sc) in
    let more : (m s == 0) ≡ false = ground arith in
    rw (here, more)
      (skip_word_lem f m (s + 1) w rest solid gap str (omega arith) ∙ ap some (omega arith))

-- Blanks become NULs, and nothing else changes.
pub gobble_lem :
    (f : ℕ) (m : Memory) (s : ℕ) (g rest : List ℕ)
    → Blanks g
    → AtWord rest
    → StrAt m s (g ++ rest)
    → length g < f
    → (m' : Memory) × (gobble f m s ≡ some (m', s + length g))
      × ((x : ℕ) → x < s → m' x ≡ m x)
      × ((x : ℕ) → s + length g ≤ x → m' x ≡ m x)
      × (0 < length g → m' s ≡ 0)
unfolding gobble
gobble_lem zero m s g rest blanks word str lt = elim lt [ ]
gobble_lem (suc f) m s [] [] blanks word str lt =
    (m, ground arith, λ x l. refl, λ x l. refl, λ z. absurd (omega arith))
gobble_lem (suc f) m s [] (c ∷ rest) blanks word (e, ne, str) lt =
    let here : is_space (m s) ≡ false = rw e (is_space-blank c ∙ word) in
    (m, rw here (ground arith), λ x l. refl, λ x l. refl, λ z. absurd (omega arith))
gobble_lem (suc f) m s (c ∷ g) rest (bc, blanks) word (e, ne, str) lt =
    let here : is_space (m s) ≡ true = rw e (is_space-blank c ∙ bc) in
    let more : (m s == 0) ≡ false = ground arith in
    let next : Memory = store m s 0 in
    let kept : StrAt next (s + 1) (g ++ rest) =
      StrAt-SameBytes m next (s + 1) (g ++ rest) (λ x p q. ground arith) str in
    let (m', ran, low, high, z) = gobble_lem f next (s + 1) g rest blanks word kept (omega arith) in
    (
      m',
      rw (here, more) (ran ∙ ap (λ p. some (m', p)) (omega arith)),
      λ x l. low x (omega arith) ∙ ground arith,
      λ x l. high x (omega arith) ∙ ground arith,
      λ any. low s (omega arith) ∙ ground arith,
    )

pub StrAt-end : (m : Memory) (s : ℕ) (cs : List ℕ) → StrAt m s cs → m (s + length cs) ≡ 0
StrAt-end m s [] h = ap m (omega arith) ∙ h
StrAt-end m s (c ∷ cs) (e, ne, str) = ap m (omega arith) ∙ StrAt-end m (s + 1) cs str

pub StrAt-drop :
    (m : Memory) (s : ℕ) (g rest : List ℕ) → StrAt m s (g ++ rest) → StrAt m (s + length g) rest
StrAt-drop m s [] rest str = subst (λ a. StrAt m a rest) (omega arith) str
StrAt-drop m s (c ∷ g) rest (e, ne, str) =
    subst (λ a. StrAt m a rest) (omega arith) (StrAt-drop m (s + 1) g rest str)

-- A word becomes a string once a NUL stands behind it.
pub StrAt-cut :
    (m m' : Memory) (s : ℕ) (w rest : List ℕ)
    → StrAt m s (w ++ rest)
    → ((x : ℕ) → x < s + length w → m' x ≡ m x)
    → m' (s + length w) ≡ 0
    → StrAt m' s w
StrAt-cut m m' s [] rest str same z = ap m' (omega arith) ∙ z
StrAt-cut m m' s (c ∷ w) rest (e, ne, str) same z = (
  same s (omega arith) ∙ e,
  ne,
  StrAt-cut m m' (s + 1) w rest str (λ x lt. same x (omega arith)) (ap m' (omega arith) ∙ z),
)

-- A line by its gaps and words, with the gap behind the last word.
abbrev pub line : List (List ℕ × List ℕ) → List ℕ → List ℕ
line [] last = last
line ((g, w) ∷ ps) last = g ++ (w ++ line ps last)

-- Gaps are blanks, words are not empty and have no blanks, and a gap follows each word.
abbrev pub IsLine : List (List ℕ × List ℕ) → List ℕ → Type 0
IsLine [] last = Blanks last
IsLine ((g, w) ∷ ps) last =
    Blanks g × Solid w × (0 < length w) × AtGap (line ps last) × IsLine ps last

-- Where the words begin, and that they are strings there.
abbrev pub starts : ℕ → List (List ℕ × List ℕ) → List ℕ
starts s [] = []
starts s ((g, w) ∷ ps) = (s + length g) ∷ starts (s + length g + length w) ps

abbrev pub Strings : Memory → ℕ → List (List ℕ × List ℕ) → Type 0
Strings m s [] = Unit
Strings m s ((g, w) ∷ ps) = StrAt m (s + length g) w × Strings m (s + length g + length w) ps

pub AtWord-Solid : (w rest : List ℕ) → Solid w → 0 < length w → AtWord (w ++ rest)
AtWord-Solid [] rest solid pos = elim pos [ ]
AtWord-Solid (c ∷ w) rest (sc, solid) pos = sc

-- A line that begins with a gap has a character in it.
pub gap-nonempty :
    (g w rest : List ℕ) → Solid w → 0 < length w → AtGap (g ++ (w ++ rest)) → 0 < length g
gap-nonempty [] [] rest solid pos gap = elim pos [ ]
gap-nonempty [] (c ∷ w) rest (sc, solid) pos gap = absurd (true-ne_false (sym gap ∙ sc))
  where
    true-ne_false : true ≡ false → ⊥
    true-ne_false e = cc e
gap-nonempty (c ∷ g) w rest solid pos gap = omega arith

pub word-nonzero :
    (m : Memory) (s : ℕ) (w rest : List ℕ) → 0 < length w → StrAt m s (w ++ rest) → m s ≢ 0
word-nonzero m s [] rest pos str = elim pos [ ]
word-nonzero m s (c ∷ w) rest pos (e, ne, str) = rw e ne
