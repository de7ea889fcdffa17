-- ===== src/Monitor/Parse.antt =====
-- kern/monitor.c: the argument parser of runcmd on a line of words and gaps.
use jos_ece.Prelude.{
  ℕ, zero, suc, ◌+◌, ◌-◌, ◌≤◌, ◌<◌, ◌≡◌, ◌≢◌, ◌∙◌, refl, sym, ap, subst, dec_lt, true, false, List,
  [], ◌∷◌, ◌++◌, length, some, arith, ◌==◌, append_assoc, append-nil, length-append,
}
use jos_ece.Memory.{Memory, StrAt, StrAt-SameBytes}
use jos_ece.Monitor.Words.{
  Blanks, AtGap, line, IsLine, starts, Strings, skip_word_lem, gobble_lem, StrAt-end, StrAt-drop,
  StrAt-cut, AtWord-Solid, gap-nonempty, word-nonzero,
}
use jos_ece.Monitor.{maxargs, gobble, skip_word, Parsed, arguments, parse}

-- What has become of the line from `s` on.
record Cut (m : Memory) (s : ℕ) (argv : List ℕ) (ps : List (List ℕ × List ℕ)) (last : List ℕ)
    (r : Parsed) : Type 0 where
  memory : Memory
  ran : r ≡ arguments (argv ++ starts s ps) memory
  words : Strings memory s ps
  below : (x : ℕ) → x < s → memory x ≡ m x
  ended : AtGap (line ps last) → memory s ≡ 0

parse_end :
    (n f : ℕ) (m m1 : Memory) (s s1 : ℕ) (argv : List ℕ)
    → gobble f m s ≡ some (m1, s1)
    → m1 s1 ≡ 0
    → parse (suc n) f m s argv ≡ arguments argv m1
unfolding parse
parse_end n f m m1 s s1 argv ran z =
    let t : (m1 s1 == 0) ≡ true = ground arith in rw (parse, ran, t) refl

pub parse_word :
    (n f : ℕ) (m m1 : Memory) (s s1 s2 : ℕ) (argv : List ℕ)
    → gobble f m s ≡ some (m1, s1)
    → m1 s1 ≢ 0
    → length argv < maxargs - 1
    → skip_word f m1 s1 ≡ some s2
    → parse (suc n) f m s argv ≡ parse n f m1 s2 (argv ++ s1 ∷ [])
unfolding parse
parse_word n f m m1 s s1 s2 argv ran nz room word =
    let t : (m1 s1 == 0) ≡ false = ground arith in
    let u : (length argv == maxargs - 1) ≡ false = ground arith in rw (parse, ran, t, u, word) refl

parse_last :
    (n f : ℕ) (m : Memory) (s : ℕ) (argv last : List ℕ)
    → Blanks last
    → StrAt m s last
    → length last < f
    → Cut m s argv [] last (parse (suc n) f m s argv)
parse_last n f m s argv last blanks str lt =
    let (m1, ran, low, high, z) =
      gobble_lem f m s last [] blanks tt (subst (StrAt m s) (sym (append-nil last)) str) lt in
    let end : m1 (s + length last) ≡ 0 =
      high (s + length last) (omega arith) ∙ StrAt-end m s last str in
    record {
      memory = m1;
      ran =
          parse_end n f m m1 s (s + length last) argv ran end
          ∙ ap (λ a. arguments a m1) (sym (append-nil argv));
      words = tt;
      below = low;
      ended = λ gap. elim (dec_lt 0 (length last)) [
        | yes some_gap ↦ z some_gap
        | no none_left ↦ ap m1 (omega arith) ∙ end
      ];
    }

parse-Cut :
    (n f : ℕ) (m : Memory) (s : ℕ) (argv : List ℕ) (ps : List (List ℕ × List ℕ)) (last : List ℕ)
    → IsLine ps last
    → StrAt m s (line ps last)
    → length ps < n
    → length (line ps last) < f
    → length argv + length ps ≤ maxargs - 1
    → Cut m s argv ps last (parse n f m s argv)
parse-Cut zero f m s argv ps last v str lt fuel room = elim lt [ ]
parse-Cut (suc n) f m s argv [] last v str lt fuel room = parse_last n f m s argv last v str fuel
parse-Cut (suc n) f m s argv ((g, w) ∷ ps) last (blanks, solid, pos, gap, v) str lt fuel room =
    let rest : List ℕ = line ps last in
    let long : length (g ++ (w ++ rest)) ≡ length g + (length w + length rest) =
      length-append g (w ++ rest) ∙ ap (λ k. length g + k) (length-append w rest) in
    let s1 : ℕ = s + length g in
    let (m1, ran, low, high, z) =
      gobble_lem f m s g (w ++ rest) blanks (AtWord-Solid w rest solid pos) str (omega arith) in
    let str1 : StrAt m1 s1 (w ++ rest) =
      StrAt-SameBytes m m1 s1 (w ++ rest) (λ x p q. high x p) (StrAt-drop m s g (w ++ rest) str) in
    let s2 : ℕ = s1 + length w in
    let word : skip_word f m1 s1 ≡ some s2 =
      skip_word_lem f m1 s1 w rest solid gap str1 (omega arith) in
    let r : Cut m1 s2 (argv ++ s1 ∷ []) ps last (parse n f m1 s2 (argv ++ s1 ∷ [])) =
      parse-Cut n f m1 s2 (argv ++ s1 ∷ []) ps last v (StrAt-drop m1 s1 w rest str1) (omega arith)
        (omega arith) (omega (arith, length-append argv (s1 ∷ []))) in
    record {
      memory = r.memory;
      ran =
          parse_word n f m m1 s s1 s2 argv ran (word-nonzero m1 s1 w rest pos str1) (omega arith)
            word
          ∙ r.ran
          ∙ ap (λ a. arguments a r.memory) (append_assoc argv (s1 ∷ []) (starts s2 ps));
      words = (StrAt-cut m1 r.memory s1 w rest str1 r.below (r.ended gap), r.words);
      below = λ x lt. r.below x (omega arith) ∙ low x lt;
      ended = λ at_gap. r.below s (omega (arith, pos)) ∙ z (gap-nonempty g w rest solid pos at_gap);
    }

-- On a line of at most 15 words that stands in memory, the argument parser of `runcmd` ends and
-- finds exactly its words: each argument points to where a word begins, in order, and each is left
-- as a string that holds that word alone; nothing before the line changes. A round more than there
-- are words, and fuel above the length of the line, are enough.
pub parse-words :
    (n f : ℕ) (m : Memory) (s : ℕ) (ps : List (List ℕ × List ℕ)) (last : List ℕ)
    → IsLine ps last
    → StrAt m s (line ps last)
    → length ps < n
    → length (line ps last) < f
    → length ps ≤ maxargs - 1
    → (m' : Memory) × (parse n f m s [] ≡ arguments (starts s ps) m')
      × Strings m' s ps
      × ((x : ℕ) → x < s → m' x ≡ m x)
parse-words n f m s ps last v str lt fuel room =
    let r : Cut m s [] ps last (parse n f m s []) =
      parse-Cut n f m s [] ps last v str lt fuel (omega arith) in
    (r.memory, r.ran, r.words, r.below)
