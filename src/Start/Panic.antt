-- ===== src/Start/Panic.antt =====
-- kern/init.c: what _panic and _warn print.
use jos_ece.Prelude.{
  ℕ, ◌+◌, ◌^◌, ◌≤◌, ◌<◌, ◌≡◌, ◌≢◌, ◌∙◌, refl, ap, List, [], ◌∷◌, ◌++◌, map, length, length-append,
  length-map, true, ◌==◌, if◌then◌else◌, Bool-cases, inl, inr, arith,
}
use jos_ece.Memory.{Memory, StrAt}
use jos_ece.Format.Text.{codes, sign_extend}
use jos_ece.Format.Print.Convert.{letter, decimal, converted}
use jos_ece.Format.Print.Pieces.{
  Piece, string, number, verbatims, spelled, words, output, Given, Given-verbatims, no_percent,
  vprintfmt-Pieces,
}
use jos_ece.Format.Print.Filled.{
  length-converted, spelled-verbatims, output-verbatims, words-verbatims,
}
use jos_ece.Console.Ports.{Ports}
use jos_ece.Console.Printf.Count.{cprintf_zero}
use jos_ece.Readline.{tell}
use jos_ece.Monitor.Kernel.{Kernel, returned, text_at, joined, rom, print, ◌>>◌}
use jos_ece.Monitor.Kernel.Prints.{no_nul, StrAt-rom_low, showing, showing-append, print_as}
use jos_ece.Monitor.Commands.{Image}
use jos_ece.Start.{vprint, report, monitors, panic, warn}

-- The place, in front of the message.
unfoldable pub place : List ℕ → List ℕ → ℕ → List ℕ
place head file lineno =
    head ++ (map sign_extend file ++ (codes ":" ++ (converted decimal lineno ++ codes ": ")))

unfoldable pub report_text : List ℕ → List ℕ → ℕ → List ℕ → List ℕ
report_text head file lineno message = place head file lineno ++ (message ++ 10 ∷ [])

abbrev place_pieces : ℕ → List ℕ → ℕ → List Piece
place_pieces at file lineno =
    string at file ∷ verbatims (codes ":") (number decimal lineno ∷ verbatims (codes ": ") [])

-- The file name is a string of memory; the format is one, of pieces whose strings are.
pub record Message (m : Memory) (f file_at fmt lineno : ℕ) (file : List ℕ) (ps : List Piece)
    : Type 0 where
  pub file_string : StrAt m file_at file
  pub file_some : file_at ≢ 0
  pub file_low : file_at + length file < text_at
  pub file_short : 200 + length file ≤ f
  pub lineno_word : lineno < 2 ^ 32
  pub format_string : StrAt m fmt (spelled ps)
  pub format_low : fmt + length (spelled ps) < text_at
  pub pieces : Given (rom m []) ps
  pub message_short : length (spelled ps) + length (output ps) < f

module _ {S : Type 0} (ports : Ports S) (image : Image) (n f : ℕ) where
  vprint-shown :
      (fmt : ℕ) (ps : List Piece) (k : Kernel S)
      → StrAt k.memory fmt (spelled ps)
      → fmt + length (spelled ps) < text_at
      → Given (rom k.memory []) ps
      → length (spelled ps) + length (output ps) < f
      → vprint ports image n f fmt (words ps) k ≡ returned tt (showing ports (output ps) k)
  unfolding vprint tell showing
  vprint-shown fmt ps k str low g enough =
      let m : Memory = rom k.memory [] in
      rw
        (
          vprint,
          tell,
          cprintf_zero ports f m fmt (words ps) (output ps) k.machine.keyboard.console (
              vprintfmt-Pieces ps f m fmt (StrAt-rom_low k.memory [] fmt (spelled ps) low str) g
                enough),
        )
        refl

  place_short :
      (head file : List ℕ) (lineno : ℕ)
      → length (place head file lineno) ≤ length head + length file + 70
  unfolding place
  place_short head file lineno =
      let t1 : List ℕ = converted decimal lineno ++ codes ": " in
      omega (
        arith,
        length-append (converted decimal lineno) (codes ": "),
        length-append (map sign_extend file) (codes ":" ++ t1),
        length-append head (map sign_extend file ++ (codes ":" ++ t1)),
        length-map file sign_extend,
        length-converted decimal lineno,
      )

  print-place :
      (head : List ℕ) (file_at lineno : ℕ) (file : List ℕ) (k : Kernel S)
      → no_percent head ≡ true
      → no_nul (head ++ codes "%s:%d: ") ≡ true
      → length head ≤ 30
      → StrAt k.memory file_at file
      → file_at ≢ 0
      → file_at + length file < text_at
      → 200 + length file ≤ f
      → lineno < 2 ^ 32
      → print ports f ((head ++ codes "%s:%d: ") ∷ []) (file_at ∷ lineno ∷ []) k
        ≡ returned tt (showing ports (place head file lineno) k)
  unfolding place words output spelled Given verbatims letter
  print-place head file_at lineno file k np nn short str nz low enough small =
      let fmt : List ℕ = head ++ codes "%s:%d: " in
      let ps : List Piece = place_pieces file_at file lineno in
      let there : StrAt (rom k.memory (joined (fmt ∷ []))) file_at file =
        StrAt-rom_low k.memory (joined (fmt ∷ [])) file_at file low str in
      print_as ports f fmt [] (file_at ∷ lineno ∷ []) (place head file lineno) (verbatims head ps) k
        (spelled-verbatims head ps) (words-verbatims head ps) (output-verbatims head ps) nn
        (Given-verbatims (rom k.memory (joined (fmt ∷ []))) head ps np (ground (arith, there)))
        (omega (arith, place_short head file lineno, length-append head (codes "%s:%d: ")))

  newline-shown :
      (k : Kernel S)
      → 10 ≤ f
      → print ports f ((10 ∷ []) ∷ []) [] k ≡ returned tt (showing ports (10 ∷ []) k)
  unfolding words output spelled Given verbatims no_nul
  newline-shown k enough =
      print_as ports f (10 ∷ []) [] [] (10 ∷ []) (verbatims (10 ∷ []) []) k refl refl refl refl
        (ground arith) (omega arith)

  report-report_text :
      (head : List ℕ) (file_at fmt lineno : ℕ) (file : List ℕ) (ps : List Piece) (k : Kernel S)
      → no_percent head ≡ true
      → no_nul (head ++ codes "%s:%d: ") ≡ true
      → length head ≤ 30
      → Message k.memory f file_at fmt lineno file ps
      → report ports image n f (head ++ codes "%s:%d: ") file_at lineno fmt (words ps) k
        ≡ returned tt (showing ports (report_text head file lineno (output ps)) k)
  unfolding report report_text showing
  report-report_text head file_at fmt lineno file ps k np nn short h =
      let t0 : List ℕ = place head file lineno in
      let k1 : Kernel S = showing ports t0 k in
      let k2 : Kernel S = showing ports (output ps) k1 in
      rw
        (
          report,
          ◌>>◌,
          print-place head file_at lineno file k np nn short h.file_string h.file_some h.file_low
              h.file_short h.lineno_word,
          vprint-shown fmt ps k1 h.format_string h.format_low h.pieces h.message_short,
          newline-shown k2 (omega (arith, h.file_short)),
        )
        (ap (returned tt) (
          showing-append ports (output ps) (10 ∷ []) k1
          ∙ showing-append ports t0 (output ps ++ 10 ∷ []) k))

  -- The first `_panic` remembers its format, prints `kernel panic at`, the file, the line and the
  -- message, which is that of the format and its arguments, on a line, and goes to the monitor; a
  -- later one goes to the monitor without a word. `_warn` prints the same behind `kernel warning
  -- at`, and returns. The file name and the format are strings below 2^32, the format made of the
  -- pieces of `vprintfmt`, and the fuel is above their lengths and that of what they print.
  pub panic_once :
      (file_at fmt lineno rounds : ℕ) (file : List ℕ) (ps : List Piece) (k : Kernel S)
      → Message k.memory f file_at fmt lineno file ps
      → (panic ports image n f file_at lineno fmt (words ps) rounds k
          ≡ monitors ports image n f rounds rounds (
              if k.panicstr == 0
              then showing ports
                  (report_text (codes "kernel panic at ") file lineno (output ps))
                  (record k { panicstr = fmt })
              else k))
        × (warn ports image n f file_at lineno fmt (words ps) k
            ≡ returned tt (
                showing ports (report_text (codes "kernel warning at ") file lineno (output ps)) k))
  unfolding panic warn no_percent no_nul
  panic_once file_at fmt lineno rounds file ps k h = (
    elim (Bool-cases (k.panicstr == 0)) [
      | inl first ↦
          rw
            (
              panic,
              first,
              ◌>>◌,
              report-report_text (codes "kernel panic at ") file_at fmt lineno file ps
                  (record k { panicstr = fmt }) refl refl (omega arith) h,
            )
            refl
      | inr later ↦ rw (panic, later) refl
    ],
    report-report_text (codes "kernel warning at ") file_at fmt lineno file ps k refl refl
        (omega arith) h,
  )
