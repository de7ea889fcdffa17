-- ===== src/Monitor/Places.antt =====
-- kern/monitor.c: the texts of mon_backtrace for a frame, and the names in the symbol table.
use jos_ece.Prelude.{
  ℕ, ◌+◌, ◌-◌, ◌%◌, ◌^◌, ◌≤◌, ◌<◌, ◌≡◌, ◌≢◌, ◌∙◌, refl, List, [], ◌∷◌, ◌++◌, map, length,
  length-append, length-map, arith,
}
use jos_ece.Memory.{Memory, StrAt}
use jos_ece.Format.Text.{codes, sign_extend}
use jos_ece.Format.Print.Convert.{hex, decimal, converted}
use jos_ece.Format.Print.Escapes.{CharsAt}
use jos_ece.Format.Print.Pieces.{Piece, zeros, number, string, counted, verbatims}
use jos_ece.Format.Print.Filled.{length-converted}
use jos_ece.Kdebug.Info.{Name, unknown, at, Eipdebuginfo}
use jos_ece.Boot.{load32}
use jos_ece.Monitor.Kernel.{text_at, joined, rom}
use jos_ece.Monitor.Kernel.Prints.{no_nul, StrAt-joined, StrAt-rom_low, rom_low, length-joined_one}
use jos_ece.Monitor.Commands.{Image, place_format, name_pointer}
use jos_ece.Monitor.Kerninfo.{hex8, hex8_short}

-- The memory holds bytes.
abbrev pub IsBytes : Memory → Type 0
IsBytes m = (x : ℕ) → m x < 256

pub load32-lt : (m : Memory) (a : ℕ) → IsBytes m → load32 m a < 2 ^ 32
unfolding load32
load32-lt m a h = omega (arith, h a, h (a + 1), h (a + 2), h (a + 3))

-- A double word, at an address that wraps.
abbrev pub word : Memory → ℕ → ℕ
word m a = load32 m (a % 2 ^ 32)

-- The five words that stand where arguments would.
unfoldable pub arguments_text : Memory → ℕ → List ℕ
arguments_text m ebp =
    hex8 (word m (ebp + 8))
    ++ (codes " "
        ++ (hex8 (word m (ebp + 12))
            ++ (codes " "
                ++ (hex8 (word m (ebp + 16))
                    ++ (codes " "
                        ++ (hex8 (word m (ebp + 20))
                            ++ (codes " " ++ (hex8 (word m (ebp + 24)) ++ 10 ∷ []))))))))

-- The line of a frame: its address, and the return address and the words above it.
unfoldable pub frame_text : Memory → ℕ → List ℕ
frame_text m ebp =
    codes "  ebp "
    ++ (hex8 ebp
        ++ (codes " eip " ++ (hex8 (word m (ebp + 4)) ++ (codes " args " ++ arguments_text m ebp))))

abbrev pub frame_pieces : Memory → ℕ → List Piece
frame_pieces m ebp = verbatims (codes "  ebp ") (
    zeros 8 hex ebp
    ∷ verbatims (codes " eip ") (
        zeros 8 hex (word m (ebp + 4))
        ∷ verbatims (codes " args ") (
            zeros 8 hex (word m (ebp + 8))
            ∷ verbatims (codes " ") (
                zeros 8 hex (word m (ebp + 12))
                ∷ verbatims (codes " ") (
                    zeros 8 hex (word m (ebp + 16))
                    ∷ verbatims (codes " ") (
                        zeros 8 hex (word m (ebp + 20))
                        ∷ verbatims (codes " ")
                            (zeros 8 hex (word m (ebp + 24)) ∷ verbatims (10 ∷ []) [])))))))

-- The text of a file's name, and the part of a function's name that is printed.
unfoldable pub FileAt : Memory → Image → Name → List ℕ → Type 0
FileAt m image unknown cs = cs ≡ codes "<unknown>"
FileAt m image (at p) cs =
    let a = (image.stabstr + p) % 2 ^ 32 in (a ≢ 0) × (a + length cs < 2 ^ 32) × StrAt m a cs

unfoldable pub FunctionAt : Memory → Image → Name → List ℕ → Type 0
FunctionAt m image unknown cs = cs ≡ codes "<unknown>"
FunctionAt m image (at p) cs =
    let a = (image.stabstr + p) % 2 ^ 32 in (a ≢ 0) × (a + length cs < 2 ^ 32) × CharsAt m a cs

pub word-lt : (m : Memory) (a : ℕ) → IsBytes m → word m a < 2 ^ 32
word-lt m a h = load32-lt m (a % 2 ^ 32) h

pub arguments_text_short : (m : Memory) (ebp : ℕ) → length (arguments_text m ebp) ≤ 370
unfolding arguments_text
arguments_text_short m ebp =
    let t4 : List ℕ = hex8 (word m (ebp + 24)) ++ 10 ∷ [] in
    let t3 : List ℕ = hex8 (word m (ebp + 20)) ++ (codes " " ++ t4) in
    let t2 : List ℕ = hex8 (word m (ebp + 16)) ++ (codes " " ++ t3) in
    let t1 : List ℕ = hex8 (word m (ebp + 12)) ++ (codes " " ++ t2) in
    omega (
      arith,
      length-append (hex8 (word m (ebp + 24))) (10 ∷ []),
      length-append (hex8 (word m (ebp + 20))) (codes " " ++ t4),
      length-append (hex8 (word m (ebp + 16))) (codes " " ++ t3),
      length-append (hex8 (word m (ebp + 12))) (codes " " ++ t2),
      length-append (hex8 (word m (ebp + 8))) (codes " " ++ t1),
      hex8_short (word m (ebp + 24)),
      hex8_short (word m (ebp + 20)),
      hex8_short (word m (ebp + 16)),
      hex8_short (word m (ebp + 12)),
      hex8_short (word m (ebp + 8)),
    )

pub frame_text_short : (m : Memory) (ebp : ℕ) → length (frame_text m ebp) ≤ 540
unfolding frame_text
frame_text_short m ebp =
    let t1 : List ℕ = codes " args " ++ arguments_text m ebp in
    let t0 : List ℕ = codes " eip " ++ (hex8 (word m (ebp + 4)) ++ t1) in
    omega (
      arith,
      arguments_text_short m ebp,
      length-append (hex8 (word m (ebp + 4))) t1,
      length-append (hex8 ebp) t0,
      hex8_short (word m (ebp + 4)),
      hex8_short ebp,
    )

-- The line of a place in the source.
unfoldable pub place_text : List ℕ → ℕ → List ℕ → ℕ → List ℕ
place_text file line function offset =
    codes "         "
    ++ (map sign_extend file
        ++ (codes ":"
            ++ (converted decimal line
                ++ (codes ": "
                    ++ (map sign_extend function
                        ++ (codes "+" ++ (converted decimal offset ++ 10 ∷ [])))))))

abbrev pub place_pieces : Image → Eipdebuginfo → List ℕ → List ℕ → ℕ → List Piece
place_pieces image info file function offset = verbatims (codes "         ") (
    string (name_pointer image info.eip_file) file
    ∷ verbatims (codes ":") (
        number decimal info.eip_line
        ∷ verbatims (codes ": ") (
            counted (name_pointer image info.eip_fn_name) function
            ∷ verbatims (codes "+") (number decimal offset ∷ verbatims (10 ∷ []) []))))

pub place_text_short :
    (file function : List ℕ) (line offset : ℕ)
    → length (place_text file line function offset) ≤ 144 + length file + length function
unfolding place_text
place_text_short file function line offset =
    let t3 : List ℕ = converted decimal offset ++ 10 ∷ [] in
    let t2 : List ℕ = map sign_extend function ++ (codes "+" ++ t3) in
    let t1 : List ℕ = converted decimal line ++ (codes ": " ++ t2) in
    omega (
      arith,
      length-append (converted decimal offset) (10 ∷ []),
      length-append (map sign_extend function) (codes "+" ++ t3),
      length-append (converted decimal line) (codes ": " ++ t2),
      length-append (map sign_extend file) (codes ":" ++ t1),
      length-map file sign_extend,
      length-map function sign_extend,
      length-converted decimal line,
      length-converted decimal offset,
    )

-- The constants of the call stand in front of the names of the symbol table.
abbrev pub place_rom : Memory → Memory
place_rom m = rom m (joined (place_format ∷ codes "<unknown>" ∷ []))

unknown-StrAt :
    (m : Memory) → StrAt (place_rom m) (text_at + length place_format + 1) (codes "<unknown>")
unfolding no_nul
unknown-StrAt m =
    StrAt-joined m (place_format ∷ []) (codes "<unknown>") [] (text_at + length place_format + 1)
      refl (omega (arith, length-joined_one place_format))

pub StrAt-CharsAt : (m : Memory) (a : ℕ) (cs : List ℕ) → StrAt m a cs → CharsAt m a cs
StrAt-CharsAt m a [] h = tt
StrAt-CharsAt m a (c ∷ cs) (e, ne, h) = (e, ne, StrAt-CharsAt m (a + 1) cs h)

CharsAt-rom_low :
    (m : Memory) (l : List ℕ) (a : ℕ) (cs : List ℕ)
    → a + length cs < text_at
    → CharsAt m a cs
    → CharsAt (rom m l) a cs
CharsAt-rom_low m l a [] lt h = tt
CharsAt-rom_low m l a (c ∷ cs) lt (e, ne, h) =
    (rom_low m l a (omega arith) ∙ e, ne, CharsAt-rom_low m l (a + 1) cs (omega arith) h)

pub file-StrAt :
    (m : Memory) (image : Image) (name : Name) (cs : List ℕ)
    → FileAt m image name cs
    → StrAt (place_rom m) (name_pointer image name) cs × (name_pointer image name ≢ 0)
unfolding FileAt name_pointer
file-StrAt m image unknown cs e = (rw e (unknown-StrAt m), omega arith)
file-StrAt m image (at p) cs (nz, lt, h) = (
  StrAt-rom_low m (joined (place_format ∷ codes "<unknown>" ∷ [])) ((image.stabstr + p) % 2 ^ 32) cs
      lt h,
  nz,
)

pub function-CharsAt :
    (m : Memory) (image : Image) (name : Name) (cs : List ℕ)
    → FunctionAt m image name cs
    → CharsAt (place_rom m) (name_pointer image name) cs × (name_pointer image name ≢ 0)
unfolding FunctionAt name_pointer
function-CharsAt m image unknown cs e = (
  rw e (
      StrAt-CharsAt (place_rom m) (text_at + length place_format + 1) (codes "<unknown>")
        (unknown-StrAt m)),
  omega arith,
)
function-CharsAt m image (at p) cs (nz, lt, h) = (
  CharsAt-rom_low m (joined (place_format ∷ codes "<unknown>" ∷ [])) ((image.stabstr + p) % 2 ^ 32)
      cs lt h,
  nz,
)

-- What the names of a place are, and that its numbers are words.
pub record Readable (m : Memory) (image : Image) (info : Eipdebuginfo) (file function : List ℕ)
    : Type 0 where
  pub file_at : FileAt m image info.eip_file file
  pub function_at : FunctionAt m image info.eip_fn_name function
  pub counted_by : info.eip_fn_namelen ≡ length function
  pub short_name : length function < 2 ^ 31
  pub line_word : info.eip_line < 2 ^ 32

abbrev pub offset_in : ℕ → Eipdebuginfo → ℕ
offset_in eip info = (eip + 2 ^ 32 - info.eip_fn_addr) % 2 ^ 32
