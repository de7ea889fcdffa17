-- ===== src/Console/Keyboard.antt =====
-- kern/console.c: the keyboard driver, with the key codes and the controller's ports of
-- inc/kbdreg.h. The tables are functions of the scan code; what an initialiser leaves out is 0.
pub mod Letters
use jos_ece.Prelude.{
  ℕ, zero, suc, ◌+◌, ◌-◌, ◌%◌, ◌^◌, List, [], ◌∷◌, ◌++◌, get_or, Bool, not, ◌&&◌, bit_and, bit_or,
  bit_xor, ltb, leb, ◌==◌, if◌then◌else◌,
}
use jos_ece.Console.Ports.{Ports}
use jos_ece.Console.Output.{Console}
use jos_ece.Console.Printf.{say}
use jos_ece.Format.Text.{codes}

abbrev pub key_del : ℕ
key_del = 0xE9

abbrev shift_bit : ℕ
shift_bit = 1

abbrev ctl : ℕ
ctl = 2

abbrev alt : ℕ
alt = 4

abbrev capslock : ℕ
capslock = 8

abbrev numlock : ℕ
numlock = 16

abbrev scrolllock : ℕ
scrolllock = 32

abbrev e0esc : ℕ
e0esc = 64

-- The value of the first pair with this key, or 0.
abbrev pub at_key : List (ℕ × ℕ) → ℕ → ℕ
at_key [] k = 0
at_key ((j, v) ∷ rows) k = let rest = at_key rows k in if j == k then v else rest

unfoldable pub shiftcode : ℕ → ℕ
shiftcode code =
    at_key
      ((0x1D, ctl)
        ∷ (0x2A, shift_bit)
        ∷ (0x36, shift_bit)
        ∷ (0x38, alt)
        ∷ (0x9D, ctl)
        ∷ (0xB8, alt)
        ∷ [])
      code

unfoldable pub togglecode : ℕ → ℕ
togglecode code = at_key ((0x3A, capslock) ∷ (0x45, numlock) ∷ (0x46, scrolllock) ∷ []) code

-- The rows by index, and those with a designator.
abbrev pub in_map : List ℕ → List (ℕ × ℕ) → ℕ → ℕ
in_map rows named code = if at_key named code == 0 then get_or rows code 0 else at_key named code

-- The arrow keys and their neighbours, which all maps name in the same way.
abbrev special : List (ℕ × ℕ)
special =
    (0xC8, 0xE2)
    ∷ (0xC9, 0xE6)
    ∷ (0xCB, 0xE4)
    ∷ (0xCD, 0xE5)
    ∷ (0xCF, 0xE1)
    ∷ (0xD0, 0xE3)
    ∷ (0xD1, 0xE7)
    ∷ (0xD2, 0xE8)
    ∷ (0xD3, key_del)
    ∷ []

unfoldable pub normalmap : ℕ → ℕ
normalmap code =
    in_map
      ((0 ∷ 0x1B ∷ codes "1234567890-="
          ++ 8 ∷ 9 ∷ codes "qwertyuiop[]"
          ++ 10 ∷ 0 ∷ codes "asdfghjkl;")
        ++ (39 ∷ 96 ∷ 0 ∷ 92 ∷ codes "zxcvbnm,./" ++ 0 ∷ 42 ∷ 0 ∷ 32 ∷ 0 ∷ 0 ∷ 0 ∷ 0 ∷ 0 ∷ 0 ∷ [])
        ++ (0 ∷ 0 ∷ 0 ∷ 0 ∷ 0 ∷ 0 ∷ 0 ∷ codes "789-456+1230."))
      ((0xC7, 0xE0) ∷ (0x9C, 10) ∷ (0xB5, b'/') ∷ special) code

unfoldable pub shiftmap : ℕ → ℕ
shiftmap code =
    in_map
      ((0 ∷ 0x1B ∷ codes "!@#$%^&*()_+"
          ++ 8 ∷ 9 ∷ codes "QWERTYUIOP{}"
          ++ 10 ∷ 0 ∷ codes "ASDFGHJKL:")
        ++ (34 ∷ 126 ∷ 0 ∷ 124 ∷ codes "ZXCVBNM<>?" ++ 0 ∷ 42 ∷ 0 ∷ 32 ∷ 0 ∷ 0 ∷ 0 ∷ 0 ∷ 0 ∷ 0 ∷ [])
        ++ (0 ∷ 0 ∷ 0 ∷ 0 ∷ 0 ∷ 0 ∷ 0 ∷ codes "789-456+1230."))
      ((0xC7, 0xE0) ∷ (0x9C, 10) ∷ (0xB5, b'/') ∷ special) code

-- `C(x)`, stored as a byte.
abbrev control : List ℕ → List ℕ
control [] = []
control (x ∷ xs) = (x + 2 ^ 8 - b'@') % 2 ^ 8 ∷ control xs

unfoldable pub ctlmap : ℕ → ℕ
ctlmap code =
    in_map
      ((0
          ∷ 0
          ∷ 0
          ∷ 0
          ∷ 0
          ∷ 0
          ∷ 0
          ∷ 0
          ∷ 0
          ∷ 0
          ∷ 0
          ∷ 0
          ∷ 0
          ∷ 0
          ∷ 0
          ∷ 0
          ∷ control (codes "QWERTYUIOP"))
        ++ (0 ∷ 0 ∷ 13 ∷ 0 ∷ control (codes "ASDFGHJKL") ++ 0 ∷ 0 ∷ 0 ∷ 0 ∷ [])
        ++ (control (92 ∷ codes "ZXCVBNM") ++ 0 ∷ 0 ∷ control (b'/' ∷ []) ++ 0 ∷ 0 ∷ []))
      ((0x97, 0xE0) ∷ (0xB5, (b'/' + 2 ^ 8 - b'@') % 2 ^ 8) ∷ special) code

-- `charcode[shift & (CTL | SHIFT)][code]`
unfoldable pub charcode : ℕ → ℕ → ℕ
unfolding normalmap shiftmap ctlmap
charcode modifiers code =
    if modifiers == 0 then normalmap code else if modifiers == 1 then shiftmap code else ctlmap code

-- The case of a letter under caps lock.
unfoldable pub swap_case : ℕ → ℕ
swap_case c =
    if leb b'a' c && leb c b'z' then c - 32 else if leb b'A' c && leb c b'Z' then c + 32 else c

-- What a scan code makes of the static `shift`: the character, or 0, and the new `shift`. `~x` is
-- taken in 32 bits.
unfoldable pub scan : ℕ → ℕ → ℕ × ℕ
unfolding shiftcode togglecode charcode swap_case
scan code shift =
    if code == 0xE0
    then (0, bit_or shift e0esc)
    else if not (bit_and code 0x80 == 0)
    then (let key = if bit_and shift e0esc == 0 then bit_and code 0x7F else code in
        (0, bit_and shift (2 ^ 32 - 1 - bit_or (shiftcode key) e0esc)))
    else (let escaped = not (bit_and shift e0esc == 0) in
        let key = if escaped then bit_or code 0x80 else code in
        let before = if escaped then bit_and shift (2 ^ 32 - 1 - e0esc) else shift in
        let after = bit_xor (bit_or before (shiftcode key)) (togglecode key) in
        let c = charcode (bit_and after (bit_or ctl shift_bit)) key in
        ((if bit_and after capslock == 0 then c else swap_case c), after))

-- The keyboard's static `shift`, beside the console that a reboot is announced on.
pub record Keyboard (S : Type 0) : Type 0 where
  pub shift : ℕ
  pub console : Console S

-- The test for Ctrl-Alt-Del. The code does not reach it where it returns 0 early, and there the
-- test fails, since 0 is not KEY_DEL.
reboots : ℕ → ℕ → Bool
reboots c shift = bit_and (2 ^ 32 - 1 - shift) (bit_or ctl alt) == 0 && c == key_del

module _ {S : Type 0} (ports : Ports S) where
  open ports use {inb, outb}

  -- -1, as an `int`, where no byte of the keyboard has come in.
  unfoldable pub kbd_proc_data : Keyboard S → ℕ × Keyboard S
  unfolding scan reboots
  kbd_proc_data k =
      let (status, s1) = inb 0x64 k.console.dev in
      let (code, s2) = inb 0x60 s1 in
      let (c, shift) = scan code k.shift in
      let nothing = record k { console = record (k.console) { dev = s1 } } in
      let pressed = record k { shift = shift; console = record (k.console) { dev = s2 } } in
      let told = say ports (codes "Rebooting!" ++ 10 ∷ []) pressed.console in
      if bit_and status 0x01 == 0
      then (2 ^ 32 - 1, nothing)
      else if not (bit_and status 0x20 == 0)
      then (2 ^ 32 - 1, nothing)
      else if reboots c shift
      then (c, record pressed { console = record told { dev = outb 0x92 0x3 told.dev } })
      else (c, pressed)
