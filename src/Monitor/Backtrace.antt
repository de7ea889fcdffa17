-- ===== src/Monitor/Backtrace.antt =====
-- kern/monitor.c: the walk of mon_backtrace along the saved frame pointers.
use jos_ece.Prelude.{
  ℕ, zero, suc, ◌+◌, ◌%◌, ◌^◌, ◌≤◌, ◌<◌, ◌≡◌, ◌≢◌, ◌∙◌, refl, ap, subst, List, [], ◌∷◌, ◌++◌,
  length, true, false, ◌==◌, arith,
}
use jos_ece.Prelude.Int.{ℤ, pos}
use jos_ece.Memory.{Memory}
use jos_ece.Format.Text.{codes}
use jos_ece.Format.Print.Pieces.{verbatims, spelled, words, output, Given}
use jos_ece.Console.Ports.{Ports}
use jos_ece.Console.Output.Sgr.{puts}
use jos_ece.Kdebug.Info.{Eipdebuginfo, looked, debuginfo_eip}
use jos_ece.Boot.{load32}
use jos_ece.Monitor.Kernel.{Kernel, returned, print, ◌>>◌}
use jos_ece.Monitor.Kernel.Prints.{no_nul, showing, showing-append, print_as}
use jos_ece.Monitor.Commands.{Image, tell_frame, frames, backtrace}
use jos_ece.Monitor.Places.{IsBytes, load32-lt, frame_text, place_text, Readable, offset_in}
use jos_ece.Monitor.Frames.{tell_frame-shown}

-- A frame with what is known of its return address.
pub record Frame : Type 0 where
  pub ebp : ℕ
  pub result : ℤ
  pub info : Eipdebuginfo
  pub file : List ℕ
  pub function : List ℕ

abbrev pub return_address : Memory → ℕ → ℕ
return_address m ebp = load32 m ((ebp + 4) % 2 ^ 32)

unfoldable pub trace_text : Memory → List Frame → List ℕ
trace_text m [] = []
trace_text m (t ∷ ts) =
    (frame_text m t.ebp
      ++ place_text t.file t.info.eip_line t.function (offset_in (return_address m t.ebp) t.info))
    ++ trace_text m ts

-- The frames are those that the chain from `ebp` on leads through up to a saved 0, and
-- `debuginfo_eip` with fuel `f` tells of the place of each.
unfoldable pub Chain : Image → ℕ → Memory → ℕ → List Frame → Type 0
Chain image f m ebp [] = ebp ≡ 0
Chain image f m ebp (t ∷ ts) =
    (ebp ≢ 0)
    × (t.ebp ≡ ebp)
    × (debuginfo_eip f image.stabs image.stab_count (λ a. m (image.stabstr + a)) image.strsize
          (return_address m t.ebp)
        ≡ looked t.result t.info)
    × Readable m image t.info t.file t.function
    × (700 + length t.file + length t.function ≤ f)
    × Chain image f m (load32 m ebp) ts

module _ {S : Type 0} (ports : Ports S) (image : Image) (f : ℕ) where
  frames_end :
      (n ebp : ℕ) (k : Kernel S) → ebp ≡ 0 → frames ports image f (suc n) ebp k ≡ returned (pos 0) k
  unfolding frames
  frames_end n ebp k e = let t : (ebp == 0) ≡ true = ground arith in rw t refl

  frames_next :
      (n ebp : ℕ) (k k' : Kernel S)
      → ebp ≢ 0
      → tell_frame ports image f ebp k ≡ returned tt k'
      → frames ports image f (suc n) ebp k ≡ frames ports image f n (load32 k'.memory ebp) k'
  unfolding frames
  frames_next n ebp k k' nz told =
      let t : (ebp == 0) ≡ false = ground arith in rw (frames, ◌>>◌, t, told) refl

  frames-trace_text :
      (ts : List Frame) (n ebp : ℕ) (k : Kernel S)
      → IsBytes k.memory
      → ebp < 2 ^ 32
      → Chain image f k.memory ebp ts
      → length ts < n
      → frames ports image f n ebp k ≡ returned (pos 0) (showing ports (trace_text k.memory ts) k)
  unfolding Chain trace_text showing puts
  frames-trace_text ts zero ebp k bytes lt h short = elim short [ ]
  frames-trace_text [] (suc n) ebp k bytes lt h short = frames_end n ebp k h
  frames-trace_text (t ∷ ts) (suc n) ebp k bytes lt (nz, here, found, readable, enough, h) short =
      let text : List ℕ =
        frame_text k.memory t.ebp
        ++ place_text t.file t.info.eip_line t.function
            (offset_in (return_address k.memory t.ebp) t.info) in
      let k' : Kernel S = showing ports text k in
      let told : tell_frame ports image f t.ebp k ≡ returned tt k' =
        tell_frame-shown ports image f t.ebp t.result t.info t.file t.function k bytes (rw here lt)
          found readable enough in
      frames_next n ebp k k' nz
        (subst (λ e. tell_frame ports image f e k ≡ returned tt k') here told)
      ∙ frames-trace_text ts n (load32 k.memory ebp) k' bytes (load32-lt k.memory ebp bytes) h
          (omega arith)
      ∙ ap (returned (pos 0)) (showing-append ports text (trace_text k.memory ts) k)

  heading-shown :
      (k : Kernel S)
      → 100 ≤ f
      → print ports f ((codes "Stack backtrace:" ++ 10 ∷ []) ∷ []) [] k
        ≡ returned tt (showing ports (codes "Stack backtrace:" ++ 10 ∷ []) k)
  unfolding words output spelled Given verbatims no_nul
  heading-shown k enough =
      let text : List ℕ = codes "Stack backtrace:" ++ 10 ∷ [] in
      print_as ports f text [] [] text (verbatims text []) k refl refl refl refl (ground arith)
        (omega arith)

  -- Where the frame pointer that `read_ebp` gives leads, word by word, through a chain of frames up
  -- to a saved 0, and `debuginfo_eip` finds the place of each return address, `mon_backtrace` ends,
  -- with one round more than there are frames: it returns 0, changes nothing but the console, and
  -- has printed for each frame, from the innermost on, its address, the return address and the five
  -- words above in hexadecimal, and the file, the line, the function and the offset in it. The
  -- names are strings below 2^32, memory holds bytes, and fuel of 700 beside the length of the
  -- names is enough.
  pub backtrace-trace_text :
      (ts : List Frame) (n : ℕ) (k : Kernel S)
      → IsBytes k.memory
      → image.frame < 2 ^ 32
      → Chain image f k.memory image.frame ts
      → length ts < n
      → 100 ≤ f
      → backtrace ports image f n k
        ≡ returned
            (pos 0)
            (showing ports (codes "Stack backtrace:" ++ 10 ∷ trace_text k.memory ts) k)
  unfolding backtrace showing
  backtrace-trace_text ts n k bytes lt h short enough =
      let text : List ℕ = codes "Stack backtrace:" ++ 10 ∷ [] in
      let k' : Kernel S = showing ports text k in
      rw (backtrace, ◌>>◌, heading-shown k enough)
        (frames-trace_text ts n image.frame k' bytes lt h short
          ∙ ap (returned (pos 0)) (showing-append ports text (trace_text k.memory ts) k))
