-- ===== src/Monitor/Help.antt =====
-- kern/monitor.c: what mon_help prints.
use jos_ece.Prelude.{
  ℕ, ◌+◌, ◌<◌, ◌≡◌, ◌∙◌, refl, ap, List, [], ◌∷◌, ◌++◌, map, length, length-append, true, arith,
}
use jos_ece.Prelude.Int.{pos}
use jos_ece.Memory.{Memory}
use jos_ece.Format.Text.{codes, sign_extend}
use jos_ece.Format.Print.Pieces.{
  Piece, verbatim, string, verbatims, spelled, words, output, Given, Given-verbatims, no_percent,
}
use jos_ece.Console.Ports.{Ports}
use jos_ece.Console.Output.Sgr.{puts}
use jos_ece.Monitor.Kernel.{Kernel, returned, text_at, joined, rom, print, ◌>>◌}
use jos_ece.Monitor.Kernel.Prints.{
  no_nul, StrAt-joined, length-joined_one, length-joined_two, showing, showing-append, >>-returned,
  print-Pieces,
}
use jos_ece.Monitor.Commands.{Image, Command, commands, help_format, help_lines, help}

-- The line of a command, and those of a table.
unfoldable pub help_line : Command → List ℕ
help_line c = map sign_extend c.name ++ (codes " - " ++ (map sign_extend c.desc ++ 10 ∷ []))

unfoldable pub help_text : List Command → List ℕ
help_text [] = []
help_text (c ∷ cs) = help_line c ++ help_text cs

-- Names and descriptions are strings.
unfoldable pub AreStrings : List Command → Type 0
AreStrings [] = Unit
AreStrings (c ∷ cs) = (no_nul c.name ≡ true) × (no_nul c.desc ≡ true) × AreStrings cs

abbrev line_pieces : Command → List Piece
line_pieces c =
    string (text_at + length help_format + 1) c.name
    ∷ verbatims (codes " - ")
        (string (text_at + length help_format + 1 + length c.name + 1) c.desc ∷ verbatim 10 ∷ [])

line_pieces-Given :
    (m : Memory) (c : Command)
    → no_nul c.name ≡ true
    → no_nul c.desc ≡ true
    → Given (rom m (joined (help_format ∷ c.name ∷ c.desc ∷ []))) (line_pieces c)
unfolding Given no_percent
line_pieces-Given m c hn hd =
    let one = length-joined_one help_format in
    let two = length-joined_two help_format c.name in
    (
      StrAt-joined m (help_format ∷ []) c.name (c.desc ∷ []) (text_at + length help_format + 1) hn
          (omega (arith, one)),
      omega arith,
      Given-verbatims (rom m (joined (help_format ∷ c.name ∷ c.desc ∷ []))) (codes " - ")
          (string (text_at + length help_format + 1 + length c.name + 1) c.desc ∷ verbatim 10 ∷ [])
          refl
          (
            StrAt-joined m (help_format ∷ c.name ∷ []) c.desc []
                (text_at + length help_format + 1 + length c.name + 1) hd (omega (arith, two)),
            omega arith,
            (omega arith, tt),
          ),
    )

module _ {S : Type 0} (ports : Ports S) (image : Image) (f : ℕ) where
  print-line :
      (c : Command) (k : Kernel S)
      → no_nul c.name ≡ true
      → no_nul c.desc ≡ true
      → 8 + length (help_line c) < f
      → print ports f (help_format ∷ c.name ∷ c.desc ∷ []) (words (line_pieces c)) k
        ≡ returned tt (showing ports (help_line c) k)
  unfolding help_line spelled output verbatims no_nul
  print-line c k hn hd lt =
      print-Pieces ports f help_format (c.name ∷ c.desc ∷ []) (line_pieces c) k refl refl
        (line_pieces-Given k.memory c hn hd) lt

  help_lines-help_text :
      (cs : List Command) (k : Kernel S)
      → AreStrings cs
      → 8 + length (help_text cs) < f
      → help_lines ports image f cs k ≡ returned tt (showing ports (help_text cs) k)
  unfolding help_lines help_text AreStrings words verbatims showing puts
  help_lines-help_text [] k h lt = refl
  help_lines-help_text (c ∷ cs) k (hn, hd, h) lt =
      let k' : Kernel S = showing ports (help_line c) k in
      let long = length-append (help_line c) (help_text cs) in
      >>-returned ports (print ports f (help_format ∷ c.name ∷ c.desc ∷ []) (words (line_pieces c)))
        (help_lines ports image f cs) k k' (print-line c k hn hd (omega (arith, long)))
      ∙ help_lines-help_text cs k' h (omega (arith, long))
      ∙ ap (returned tt) (showing-append ports (help_line c) (help_text cs) k)

  -- `mon_help` returns 0 and has printed a line for each command of the table, in its order: the
  -- name, ` - ` and the description. Fuel above 201 is enough for each call of `cprintf`.
  pub help-help_text :
      (k : Kernel S)
      → 201 < f
      → help ports image f k ≡ returned (pos 0) (showing ports (help_text commands) k)
  unfolding help help_text help_line sign_extend no_nul AreStrings
  help-help_text k lt =
      rw
        (
          help,
          ◌>>◌,
          help_lines-help_text commands k (refl, refl, (refl, refl, (refl, refl, (refl, refl, tt))))
              (omega arith),
        )
        refl
