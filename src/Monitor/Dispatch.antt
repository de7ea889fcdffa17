-- ===== src/Monitor/Dispatch.antt =====
-- kern/monitor.c: which command runcmd runs for a line of words.
use jos_ece.Prelude.{
  ℕ, zero, suc, ◌+◌, ◌-◌, ◌≤◌, ◌<◌, ◌≡◌, ◌≢◌, ◌∙◌, refl, ap, List, [], ◌∷◌, ◌++◌, map, length,
  length-append, length-map, Option, none, some, true, arith, Bool-cases, inl, inr, ℕ_discrete,
}
use jos_ece.Prelude.Int.{ℤ, pos, negsuc}
use jos_ece.Memory.{Memory, StrAt}
use jos_ece.Str.Compare.{strcmp-StrAt, difference}
use jos_ece.Format.Text.{codes, sign_extend}
use jos_ece.Format.Print.Pieces.{string, verbatims, spelled, words, output, Given}
use jos_ece.Console.Ports.{Ports}
use jos_ece.Monitor.{maxargs}
use jos_ece.Monitor.Words.{line, IsLine, starts, Strings}
use jos_ece.Monitor.Parse.{parse-words}
use jos_ece.Monitor.Kernel.{Kernel, Run, returned, text_at, joined, rom, print, ◌>>◌}
use jos_ece.Monitor.Kernel.Prints.{no_nul, StrAt-joined, StrAt-rom_low, showing, print_as}
use jos_ece.Monitor.Commands.{Image, Command, Func, commands, call}
use jos_ece.Monitor.Loop.{is_zero, unknown_format, lookup, run_arguments, run_parsed, runcmd}

pub list_discrete : Discrete (List ℕ)
list_discrete = hlevel ℕ_discrete

-- The first command of a table with a name.
unfoldable pub named : List ℕ → List Command → Option Func
named w [] = none
named w (c ∷ cs) = elim (list_discrete w c.name) [ yes same ↦ some c.func | no other ↦ named w cs ]

unfoldable pub unknown_text : List ℕ → List ℕ
unknown_text w = codes "Unknown command '" ++ (map sign_extend w ++ (codes "'" ++ 10 ∷ []))

-- The names of a table are strings.
unfoldable pub Named : List Command → Type 0
Named [] = Unit
Named (c ∷ cs) = (no_nul c.name ≡ true) × Named cs

is_zero_lem : (r : ℤ) → is_zero r ≡ true → r ≡ pos 0
is_zero_lem (pos zero) h = refl
is_zero_lem (pos (suc n)) h = cc
is_zero_lem (negsuc n) h = cc

module _ {S : Type 0} (ports : Ports S) (image : Image) (n f : ℕ) where
  -- What the code does with a word: it calls the function of its name, or says that there is none.
  unfoldable pub act : Option Func → List ℕ → Kernel S → Run S ℤ
  act none w k = returned (pos 0) (showing ports (unknown_text w) k)
  act (some func) w k = call ports image f n func k

  print-unknown :
      (a : ℕ) (w : List ℕ) (k : Kernel S)
      → a ≢ 0
      → a + length w < text_at
      → StrAt k.memory a w
      → 100 + length w < f
      → print ports f (unknown_format ∷ []) (a ∷ []) k
        ≡ returned tt (showing ports (unknown_text w) k)
  unfolding unknown_text words output spelled Given verbatims no_nul
  print-unknown a w k nz low str enough =
      let there : StrAt (rom k.memory (joined (unknown_format ∷ []))) a w =
        StrAt-rom_low k.memory (joined (unknown_format ∷ [])) a w low str in
      print_as ports f unknown_format [] (a ∷ []) (unknown_text w)
        (verbatims (codes "Unknown command '") (string a w ∷ verbatims (codes "'" ++ 10 ∷ []) [])) k
        refl refl refl refl (ground (arith, there))
        (omega (
          arith,
          length-map w sign_extend,
          length-append (map sign_extend w) (codes "'" ++ 10 ∷ []),
        ))

  lookup-act :
      (cs : List Command) (a : ℕ) (w : List ℕ) (k : Kernel S)
      → Named cs
      → a ≢ 0
      → a + length w < text_at
      → StrAt k.memory a w
      → 100 + length w < f
      → lookup ports image n f cs a k ≡ act (named w cs) w k
  unfolding lookup named Named act joined
  lookup-act [] a w k h nz low str enough =
      rw (lookup, ◌>>◌, print-unknown a w k nz low str enough) refl
  lookup-act (c ∷ cs) a w k (nn, h) nz low str enough =
      let m : Memory = rom k.memory (joined (c.name ∷ [])) in
      let (ran, same) =
        strcmp-StrAt f m a text_at w c.name
          (StrAt-rom_low k.memory (joined (c.name ∷ [])) a w low str)
          (StrAt-joined k.memory [] c.name [] text_at nn (omega arith)) (omega arith) in
      elim (list_discrete w c.name)
        as (λ d.
          lookup ports image n f (c ∷ cs) a k
          ≡ act (elim d [ yes e ↦ some c.func | no other ↦ named w cs ]) w k) [
            | yes e ↦ rw (lookup, same.1 e) refl
            | no other ↦ elim (Bool-cases (is_zero (difference w c.name))) [
              | inl zero_is ↦
                  absurd
                    (other (same.0 (ran ∙ ap some (is_zero_lem (difference w c.name) zero_is))))
              | inr differ ↦ rw (lookup, ran, differ) (lookup-act cs a w k h nz low str enough)
            ]
          ]

  -- The arguments of a line, by its words.
  unfoldable pub act_on : List (List ℕ × List ℕ) → Kernel S → Run S ℤ
  act_on [] k = returned (pos 0) k
  act_on ((g, w) ∷ ps) k = act (named w commands) w k

  run_arguments-act_on :
      (ps : List (List ℕ × List ℕ)) (last : List ℕ) (s : ℕ) (k : Kernel S)
      → Strings k.memory s ps
      → s ≢ 0
      → s + length (line ps last) < text_at
      → 100 + length (line ps last) < f
      → run_arguments ports image n f (starts s ps) k ≡ act_on ps k
  unfolding run_arguments act_on Named no_nul
  run_arguments-act_on [] last s k strs nz low enough = refl
  run_arguments-act_on ((g, w) ∷ ps) last s k (str, strs) nz low enough =
      let e1 = length-append g (w ++ line ps last) in
      let e2 = length-append w (line ps last) in
      lookup-act commands (s + length g) w k (refl, (refl, (refl, (refl, tt)))) (omega arith)
        (omega (arith, e1, e2)) str (omega (arith, e1, e2))

  -- `runcmd` on a line of at most 15 words that stands in memory below 2^32, not at 0: the words
  -- are cut out in place, as strings, and nothing before the line changes; then a line without
  -- words returns 0 and does nothing, a first word that is the name of a command runs that command,
  -- and any other is reported as unknown. A round more than there are words, and fuel of 101 above
  -- the length of the line, are enough.
  pub runcmd-act_on :
      (buf : ℕ) (ps : List (List ℕ × List ℕ)) (last : List ℕ) (k : Kernel S)
      → IsLine ps last
      → StrAt k.memory buf (line ps last)
      → buf ≢ 0
      → buf + length (line ps last) < text_at
      → length ps < n
      → 100 + length (line ps last) < f
      → length ps ≤ maxargs - 1
      → (m : Memory) × (runcmd ports image n f buf k ≡ act_on ps (record k { memory = m }))
        × Strings m buf ps
        × ((x : ℕ) → x < buf → m x ≡ k.memory x)
  unfolding runcmd run_parsed
  runcmd-act_on buf ps last k v str nz low rounds enough few =
      let (m, ran, strs, before) =
        parse-words n f k.memory buf ps last v str rounds (omega arith) few in
      (
        m,
        rw (runcmd, run_parsed, ran)
            (run_arguments-act_on ps last buf (record k { memory = m }) strs nz low enough),
        strs,
        before,
      )
