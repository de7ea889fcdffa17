-- ===== src/Monitor/Kerninfo.antt =====
-- kern/monitor.c: what mon_kerninfo prints.
use jos_ece.Prelude.{
  ℕ, ◌+◌, ◌^◌, ◌≤◌, ◌<◌, ◌≡◌, ◌∙◌, refl, ap, List, [], ◌∷◌, ◌++◌, length, length-append, true,
  arith, leb, ltb, ◌-◌, ◌/◌, ◌%◌, if◌then◌else◌,
}
use jos_ece.Prelude.Int.{pos}
use jos_ece.Format.Text.{codes}
use jos_ece.Format.Print.Convert.{letter, hex, decimal, filled, converted}
use jos_ece.Format.Print.Pieces.{
  Piece, zeros, number, verbatims, spelled, words, output, Given, Given-verbatims, no_percent,
}
use jos_ece.Format.Print.Filled.{
  length-filled, length-converted, spelled-verbatims, output-verbatims, words-verbatims,
}
use jos_ece.Console.Ports.{Ports}
use jos_ece.Monitor.Kernel.{Kernel, returned, joined, rom, print, ◌>>◌}
use jos_ece.Monitor.Kernel.Prints.{no_nul, showing, showing-append, print_as}
use jos_ece.Paging.{roundup, rounddown}
use jos_ece.Monitor.Commands.{Image, phys, virt_phys, physical, footprint, symbol, kerninfo}

-- A word as eight hexadecimal digits.
unfoldable pub hex8 : ℕ → List ℕ
hex8 w = filled b'0' (pos 8) hex w

pub hex8_short : (w : ℕ) → length (hex8 w) ≤ 73
unfolding hex8
hex8_short w = length-filled 8 b'0' w hex

-- The place 0xF0000000 below an address, in the 32-bit address space.
unfoldable pub loaded_at : ℕ → ℕ
loaded_at a = if leb 0xF000_0000 a then a - 0xF000_0000 else a + 0x1000_0000

physical-loaded_at : (a : ℕ) → a < 2 ^ 32 → physical a ≡ loaded_at a
unfolding physical loaded_at
physical-loaded_at a lt = ground arith

loaded_at-lt : (a : ℕ) → a < 2 ^ 32 → loaded_at a < 2 ^ 32
unfolding loaded_at
loaded_at-lt a lt = ground arith

-- The 1024-byte blocks that the bytes from `entry` up to `end` reach into, as a 32-bit word: from
-- 2^21 blocks on, which are 2^31 bytes, the `int` is negative.
unfoldable pub blocks : Image → ℕ
blocks image =
    let size =
      if leb image.entry image.end
      then image.end - image.entry
      else image.end + 2 ^ 32 - image.entry in
    let k = (size + 1023) / 1024 in if ltb k (2 ^ 21) then k else (k + 2 ^ 32 - 2 ^ 22) % 2 ^ 32

footprint-blocks :
    (image : Image) → image.entry < 2 ^ 32 → image.end < 2 ^ 32 → footprint image ≡ blocks image
unfolding footprint blocks roundup rounddown
footprint-blocks image h1 h2 = ground arith

unfoldable pub symbol_text : List ℕ → ℕ → List ℕ
symbol_text label a =
    label ++ (hex8 a ++ (codes " (virt)  " ++ (hex8 (loaded_at a) ++ (codes " (phys)" ++ 10 ∷ []))))

unfoldable pub start_text : ℕ → List ℕ
start_text a = codes "  _start                  " ++ (hex8 a ++ (codes " (phys)" ++ 10 ∷ []))

unfoldable pub footprint_text : ℕ → List ℕ
footprint_text n =
    codes "Kernel executable memory footprint: " ++ (converted decimal n ++ (codes "KB" ++ 10 ∷ []))

-- All that is printed.
unfoldable pub kerninfo_text : Image → List ℕ
kerninfo_text image =
    (codes "Special kernel symbols:" ++ 10 ∷ [])
    ++ (start_text image.start
        ++ (symbol_text (codes "  entry  ") image.entry
            ++ (symbol_text (codes "  etext  ") image.etext
                ++ (symbol_text (codes "  edata  ") image.edata
                    ++ (symbol_text (codes "  end    ") image.end
                        ++ footprint_text (blocks image))))))

abbrev symbol_pieces : ℕ → List Piece
symbol_pieces a =
    zeros 8 hex a
    ∷ verbatims (codes " (virt)  ")
        (zeros 8 hex (loaded_at a) ∷ verbatims (codes " (phys)" ++ 10 ∷ []) [])

abbrev start_pieces : ℕ → List Piece
start_pieces a =
    verbatims (codes "  _start                  ")
      (zeros 8 hex a ∷ verbatims (codes " (phys)" ++ 10 ∷ []) [])

abbrev footprint_pieces : ℕ → List Piece
footprint_pieces n =
    verbatims (codes "Kernel executable memory footprint: ")
      (number decimal n ∷ verbatims (codes "KB" ++ 10 ∷ []) [])

blocks-lt : (image : Image) → blocks image < 2 ^ 32
unfolding blocks
blocks-lt image = ground arith

symbol_text_short : (label : List ℕ) (a : ℕ) → length (symbol_text label a) ≤ length label + 163
unfolding symbol_text
symbol_text_short label a =
    let tail : List ℕ = hex8 (loaded_at a) ++ (codes " (phys)" ++ 10 ∷ []) in
    omega (
      arith,
      length-append label (hex8 a ++ (codes " (virt)  " ++ tail)),
      length-append (hex8 a) (codes " (virt)  " ++ tail),
      length-append (hex8 (loaded_at a)) (codes " (phys)" ++ 10 ∷ []),
      hex8_short a,
      hex8_short (loaded_at a),
    )

module _ {S : Type 0} (ports : Ports S) (image : Image) (f : ℕ) where
  symbol-symbol_text :
      (label : List ℕ) (a : ℕ) (k : Kernel S)
      → a < 2 ^ 32
      → no_percent label ≡ true
      → no_nul (label ++ virt_phys) ≡ true
      → length label ≤ 20
      → 300 ≤ f
      → symbol ports image f label a k ≡ returned tt (showing ports (symbol_text label a) k)
  unfolding symbol symbol_text hex8 words output spelled Given verbatims no_percent letter
  symbol-symbol_text label a k lt np nn short enough =
      rw (symbol, physical-loaded_at a lt)
        (print_as ports f (label ++ virt_phys) [] (a ∷ loaded_at a ∷ []) (symbol_text label a)
          (verbatims label (symbol_pieces a)) k (spelled-verbatims label (symbol_pieces a))
          (words-verbatims label (symbol_pieces a)) (output-verbatims label (symbol_pieces a)) nn
          (Given-verbatims (rom k.memory (joined ((label ++ virt_phys) ∷ []))) label
            (symbol_pieces a) np (ground (arith, loaded_at-lt a)))
          (omega (arith, symbol_text_short label a, length-append label virt_phys)))

  start-start_text :
      (a : ℕ) (k : Kernel S)
      → a < 2 ^ 32
      → 300 ≤ f
      → print ports f ((codes "  _start                  " ++ phys) ∷ []) (a ∷ []) k
        ≡ returned tt (showing ports (start_text a) k)
  unfolding start_text hex8 words output spelled Given verbatims no_percent letter no_nul
  start-start_text a k lt enough =
      let tail : List ℕ = codes " (phys)" ++ 10 ∷ [] in
      print_as ports f (codes "  _start                  " ++ phys) [] (a ∷ []) (start_text a)
        (start_pieces a) k refl refl refl refl (ground arith)
        (omega (arith, hex8_short a, length-append (hex8 a) tail))

  footprint-footprint_text :
      (n : ℕ) (k : Kernel S)
      → n < 2 ^ 32
      → 300 ≤ f
      → print ports f
          ((codes "Kernel executable memory footprint: %dKB" ++ 10 ∷ []) ∷ [])
          (n ∷ [])
          k
        ≡ returned tt (showing ports (footprint_text n) k)
  unfolding footprint_text words output spelled Given verbatims no_percent letter no_nul
  footprint-footprint_text n k lt enough =
      print_as ports f (codes "Kernel executable memory footprint: %dKB" ++ 10 ∷ []) [] (n ∷ [])
        (footprint_text n) (footprint_pieces n) k refl refl refl refl (ground arith)
        (omega (
          arith,
          length-converted decimal n,
          length-append (converted decimal n) (codes "KB" ++ 10 ∷ []),
        ))

  heading-shown :
      (k : Kernel S)
      → 300 ≤ f
      → print ports f ((codes "Special kernel symbols:" ++ 10 ∷ []) ∷ []) [] k
        ≡ returned tt (showing ports (codes "Special kernel symbols:" ++ 10 ∷ []) k)
  unfolding words output spelled Given verbatims no_nul
  heading-shown k enough =
      let text : List ℕ = codes "Special kernel symbols:" ++ 10 ∷ [] in
      print_as ports f text [] [] text (verbatims text []) k refl refl refl refl (ground arith)
        (omega arith)

  -- With the symbols at 32-bit addresses, `mon_kerninfo` returns 0 and has printed: its heading,
  -- the address of `_start`, those of `entry`, `etext`, `edata` and `end`, each with the place
  -- 0xF0000000 below it, all of them in eight hexadecimal digits, and in decimal how many blocks of
  -- 1024 bytes those from `entry` up to `end` reach into, as an `int`: a size from 2^31 on is
  -- negative. Fuel of 300 is enough for each call of `cprintf`.
  pub kerninfo-kerninfo_text :
      (k : Kernel S)
      → image.start < 2 ^ 32
      → image.entry < 2 ^ 32
      → image.etext < 2 ^ 32
      → image.edata < 2 ^ 32
      → image.end < 2 ^ 32
      → 300 ≤ f
      → kerninfo ports image f k ≡ returned (pos 0) (showing ports (kerninfo_text image) k)
  unfolding kerninfo kerninfo_text no_percent no_nul
  kerninfo-kerninfo_text k h1 h2 h3 h4 h5 enough =
      let t0 : List ℕ = codes "Special kernel symbols:" ++ 10 ∷ [] in
      let t1 : List ℕ = start_text image.start in
      let t2 : List ℕ = symbol_text (codes "  entry  ") image.entry in
      let t3 : List ℕ = symbol_text (codes "  etext  ") image.etext in
      let t4 : List ℕ = symbol_text (codes "  edata  ") image.edata in
      let t5 : List ℕ = symbol_text (codes "  end    ") image.end in
      let t6 : List ℕ = footprint_text (blocks image) in
      let k1 : Kernel S = showing ports t0 k in
      let k2 : Kernel S = showing ports t1 k1 in
      let k3 : Kernel S = showing ports t2 k2 in
      let k4 : Kernel S = showing ports t3 k3 in
      let k5 : Kernel S = showing ports t4 k4 in
      let k6 : Kernel S = showing ports t5 k5 in
      rw
        (
          ◌>>◌,
          heading-shown k enough,
          start-start_text image.start k1 h1 enough,
          symbol-symbol_text (codes "  entry  ") image.entry k2 h2 refl refl (omega arith) enough,
          symbol-symbol_text (codes "  etext  ") image.etext k3 h3 refl refl (omega arith) enough,
          symbol-symbol_text (codes "  edata  ") image.edata k4 h4 refl refl (omega arith) enough,
          symbol-symbol_text (codes "  end    ") image.end k5 h5 refl refl (omega arith) enough,
          footprint-blocks image h2 h5,
          footprint-footprint_text (blocks image) k6 (blocks-lt image) enough,
        )
        (ap (returned (pos 0)) (
          showing-append ports t5 t6 k5
          ∙ showing-append ports t4 (t5 ++ t6) k4
          ∙ showing-append ports t3 (t4 ++ (t5 ++ t6)) k3
          ∙ showing-append ports t2 (t3 ++ (t4 ++ (t5 ++ t6))) k2
          ∙ showing-append ports t1 (t2 ++ (t3 ++ (t4 ++ (t5 ++ t6)))) k1
          ∙ showing-append ports t0 (t1 ++ (t2 ++ (t3 ++ (t4 ++ (t5 ++ t6))))) k))
