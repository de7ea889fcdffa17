-- ===== src/Monitor/Frames.antt =====
-- kern/monitor.c: what mon_backtrace prints for one frame.
use jos_ece.Prelude.{ℕ, ◌+◌, ◌^◌, ◌≤◌, ◌<◌, ◌≡◌, refl, sym, ap, List, [], ◌∷◌, ◌++◌, length, arith}
use jos_ece.Prelude.Int.{ℤ}
use jos_ece.Memory.{Memory}
use jos_ece.Format.Text.{codes}
use jos_ece.Format.Print.Convert.{letter}
use jos_ece.Format.Print.Pieces.{verbatims, spelled, words, output, Given, no_percent}
use jos_ece.Console.Ports.{Ports}
use jos_ece.Kdebug.Info.{Eipdebuginfo, looked, debuginfo_eip}
use jos_ece.Monitor.Kernel.{Kernel, returned, print, ◌>>◌}
use jos_ece.Monitor.Kernel.Prints.{no_nul, showing, showing-append, print_as}
use jos_ece.Monitor.Commands.{
  Image, frame_format, place_format, name_pointer, frame_words, print_place, tell_place, tell_frame,
}
use jos_ece.Monitor.Kerninfo.{hex8}
use jos_ece.Monitor.Places.{
  IsBytes, word, word-lt, arguments_text, frame_text, frame_pieces, frame_text_short, place_text,
  place_pieces, place_text_short, file-StrAt, function-CharsAt, Readable, offset_in,
}

module _ {S : Type 0} (ports : Ports S) (image : Image) (f : ℕ) where
  print-frame_text :
      (m : Memory) (ebp : ℕ) (k : Kernel S)
      → IsBytes m
      → ebp < 2 ^ 32
      → 700 ≤ f
      → print ports f (frame_format ∷ []) (frame_words m ebp) k
        ≡ returned tt (showing ports (frame_text m ebp) k)
  unfolding frame_words frame_text arguments_text hex8 words output spelled Given verbatims
      no_percent letter no_nul
  print-frame_text m ebp k h lt enough =
      print_as ports f frame_format [] (frame_words m ebp) (frame_text m ebp) (frame_pieces m ebp) k
        refl refl refl refl
        (ground (
          arith,
          word-lt m (ebp + 4) h,
          word-lt m (ebp + 8) h,
          word-lt m (ebp + 12) h,
          word-lt m (ebp + 16) h,
          word-lt m (ebp + 20) h,
          word-lt m (ebp + 24) h,
        ))
        (omega (arith, frame_text_short m ebp))

  print_place-place_text :
      (eip : ℕ) (info : Eipdebuginfo) (file function : List ℕ) (k : Kernel S)
      → Readable k.memory image info file function
      → 200 + length file + length function ≤ f
      → print_place ports image f eip info k
        ≡ returned tt
            (showing ports (place_text file info.eip_line function (offset_in eip info)) k)
  unfolding print_place place_text words output spelled Given verbatims no_percent letter no_nul
  print_place-place_text eip info file function k h enough =
      let offset : ℕ = offset_in eip info in
      let (file_there, file_nz) = file-StrAt k.memory image info.eip_file file h.file_at in
      let (fn_there, fn_nz) =
        function-CharsAt k.memory image info.eip_fn_name function h.function_at in
      let va : List ℕ =
        name_pointer image info.eip_file
        ∷ info.eip_line
        ∷ info.eip_fn_namelen
        ∷ name_pointer image info.eip_fn_name
        ∷ offset
        ∷ [] in
      print_as ports f place_format (codes "<unknown>" ∷ []) va
        (place_text file info.eip_line function offset)
        (place_pieces image info file function offset) k refl
        (ap
          (λ n.
            name_pointer image info.eip_file
            ∷ info.eip_line
            ∷ n
            ∷ name_pointer image info.eip_fn_name
            ∷ offset
            ∷ [])
          (sym h.counted_by))
        refl refl (ground (arith, file_there, fn_there))
        (omega (arith, place_text_short file function info.eip_line offset))

  tell_place-place_text :
      (eip : ℕ) (result : ℤ) (info : Eipdebuginfo) (file function : List ℕ) (k : Kernel S)
      → debuginfo_eip f image.stabs image.stab_count
          (λ a. k.memory (image.stabstr + a))
          image.strsize
          eip
        ≡ looked result info
      → Readable k.memory image info file function
      → 200 + length file + length function ≤ f
      → tell_place ports image f eip k
        ≡ returned tt
            (showing ports (place_text file info.eip_line function (offset_in eip info)) k)
  unfolding tell_place
  tell_place-place_text eip result info file function k found h enough =
      rw (tell_place, found) (print_place-place_text eip info file function k h enough)

  -- The two lines of a frame whose return address `debuginfo_eip` tells of.
  pub tell_frame-shown :
      (ebp : ℕ) (result : ℤ) (info : Eipdebuginfo) (file function : List ℕ) (k : Kernel S)
      → IsBytes k.memory
      → ebp < 2 ^ 32
      → debuginfo_eip f image.stabs image.stab_count
          (λ a. k.memory (image.stabstr + a))
          image.strsize
          (word k.memory (ebp + 4))
        ≡ looked result info
      → Readable k.memory image info file function
      → 700 + length file + length function ≤ f
      → tell_frame ports image f ebp k
        ≡ returned tt (
            showing ports
              (frame_text k.memory ebp
                ++ place_text file info.eip_line function
                    (offset_in (word k.memory (ebp + 4)) info))
              k)
  unfolding tell_frame showing
  tell_frame-shown ebp result info file function k bytes lt found h enough =
      let line : List ℕ = frame_text k.memory ebp in
      let eip : ℕ = word k.memory (ebp + 4) in
      let k1 : Kernel S = showing ports line k in
      rw
        (
          tell_frame,
          ◌>>◌,
          print-frame_text k.memory ebp k bytes lt (omega arith),
          tell_place-place_text eip result info file function k1 found h (omega arith),
        )
        (ap (returned tt) (
          showing-append ports line (place_text file info.eip_line function (offset_in eip info))
            k))
