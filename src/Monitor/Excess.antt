-- ===== src/Monitor/Excess.antt =====
-- kern/monitor.c: runcmd on a line of too many words.
use jos_ece.Prelude.{
  ℕ, zero, suc, ◌+◌, ◌-◌, ◌≤◌, ◌<◌, ◌≡◌, ◌≢◌, ◌∙◌, refl, ap, List, [], ◌∷◌, ◌++◌, length,
  length-append, some, false, true, arith, ◌==◌, ℕ_discrete,
}
use jos_ece.Prelude.Int.{pos}
use jos_ece.Memory.{Memory, StrAt, StrAt-SameBytes}
use jos_ece.Format.Text.{codes}
use jos_ece.Format.Print.Convert.{letter, decimal, converted, numeral}
use jos_ece.Format.Number.{digits, digit_char}
use jos_ece.Format.Print.Pieces.{number, verbatims, spelled, words, output, Given}
use jos_ece.Console.Ports.{Ports}
use jos_ece.Monitor.{maxargs, too_many, gobble, skip_word, parse}
use jos_ece.Monitor.Words.{
  line, IsLine, gobble_lem, skip_word_lem, StrAt-drop, AtWord-Solid, word-nonzero,
}
use jos_ece.Monitor.Parse.{parse_word}
use jos_ece.Monitor.Kernel.{Kernel, returned, print, ◌>>◌}
use jos_ece.Monitor.Kernel.Prints.{no_nul, showing, print_as}
use jos_ece.Monitor.Commands.{Image}
use jos_ece.Monitor.Loop.{many_format, run_parsed, runcmd}

parse_full :
    (n f : ℕ) (m m1 : Memory) (s s1 : ℕ) (argv : List ℕ)
    → gobble f m s ≡ some (m1, s1)
    → m1 s1 ≢ 0
    → length argv ≡ maxargs - 1
    → parse (suc n) f m s argv ≡ too_many m1
unfolding parse
parse_full n f m m1 s s1 argv ran nz full =
    let t : (m1 s1 == 0) ≡ false = ground arith in
    let u : (length argv == maxargs - 1) ≡ true = ground arith in rw (parse, ran, t, u) refl

parse_excess :
    (n f : ℕ) (m : Memory) (s : ℕ) (argv : List ℕ) (ps : List (List ℕ × List ℕ)) (last : List ℕ)
    → IsLine ps last
    → StrAt m s (line ps last)
    → length ps < n
    → length (line ps last) < f
    → length argv ≤ maxargs - 1
    → maxargs ≤ length argv + length ps
    → (m' : Memory) × (parse n f m s argv ≡ too_many m') × ((x : ℕ) → x < s → m' x ≡ m x)
parse_excess zero f m s argv ps last v str lt fuel room many = elim lt [ ]
parse_excess (suc n) f m s argv [] last v str lt fuel room many = absurd (omega arith)
parse_excess (suc n) f m s argv ((g, w) ∷ ps) last (blanks, solid, some_word, gap, v) str lt fuel
      room many =
    let rest : List ℕ = line ps last in
    let long : length (g ++ (w ++ rest)) ≡ length g + (length w + length rest) =
      length-append g (w ++ rest) ∙ ap (λ k. length g + k) (length-append w rest) in
    let s1 : ℕ = s + length g in
    let (m1, ran, low, high, z) =
      gobble_lem f m s g (w ++ rest) blanks (AtWord-Solid w rest solid some_word) str
        (omega arith) in
    let str1 : StrAt m1 s1 (w ++ rest) =
      StrAt-SameBytes m m1 s1 (w ++ rest) (λ x p q. high x p) (StrAt-drop m s g (w ++ rest) str) in
    let s2 : ℕ = s1 + length w in
    let nz : m1 s1 ≢ 0 = word-nonzero m1 s1 w rest some_word str1 in
    elim (ℕ_discrete (length argv) (maxargs - 1)) [
      | yes full ↦ (m1, parse_full n f m m1 s s1 argv ran nz full, low)
      | no below ↦
          let word : skip_word f m1 s1 ≡ some s2 =
            skip_word_lem f m1 s1 w rest solid gap str1 (omega arith) in
          let one : length (argv ++ s1 ∷ []) ≡ length argv + 1 = length-append argv (s1 ∷ []) in
          let (m', more, same) =
            parse_excess n f m1 s2 (argv ++ s1 ∷ []) ps last v (StrAt-drop m1 s1 w rest str1)
              (omega arith) (omega arith) (omega arith) (omega arith) in
          (
            m',
            parse_word n f m m1 s s1 s2 argv ran nz (omega arith) word ∙ more,
            λ x before. same x (omega arith) ∙ low x before,
          )
    ]

module _ {S : Type 0} (ports : Ports S) (image : Image) (n f : ℕ) where
  print-many :
      (k : Kernel S)
      → 100 ≤ f
      → print ports f (many_format ∷ []) (maxargs ∷ []) k
        ≡ returned tt (showing ports (codes "Too many arguments (max 16)" ++ 10 ∷ []) k)
  unfolding words output spelled Given verbatims no_nul letter converted numeral digits digit_char
  print-many k enough =
      print_as ports f many_format [] (maxargs ∷ [])
        (codes "Too many arguments (max 16)" ++ 10 ∷ [])
        (verbatims (codes "Too many arguments (max ")
          (number decimal 16 ∷ verbatims (codes ")" ++ 10 ∷ []) []))
        k refl refl refl refl (ground arith) (omega arith)

  -- `runcmd` on a line of 16 words or more runs no command: it returns 0 and has said that the
  -- arguments are too many, and nothing before the line has changed. A round more than there are
  -- words, and fuel above the length of the line and of at least 100, are enough.
  pub runcmd_too_many :
      (buf : ℕ) (ps : List (List ℕ × List ℕ)) (last : List ℕ) (k : Kernel S)
      → IsLine ps last
      → StrAt k.memory buf (line ps last)
      → length ps < n
      → length (line ps last) < f
      → 100 ≤ f
      → maxargs ≤ length ps
      → (m : Memory) × (runcmd ports image n f buf k
          ≡ returned (pos 0) (
              showing ports
                (codes "Too many arguments (max 16)" ++ 10 ∷ [])
                (record k { memory = m })))
        × ((x : ℕ) → x < buf → m x ≡ k.memory x)
  unfolding runcmd run_parsed
  runcmd_too_many buf ps last k v str rounds fuel enough many =
      let (m, ran, same) =
        parse_excess n f k.memory buf [] ps last v str rounds fuel (omega arith) (omega arith) in
      (
        m,
        rw (runcmd, run_parsed, ran, ◌>>◌, print-many (record k { memory = m }) enough) refl,
        same,
      )
