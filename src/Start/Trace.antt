-- ===== src/Start/Trace.antt =====
-- kern/init.c: what test_backtrace and the greeting of i386_init print.
use jos_ece.Prelude.{
  ℕ, zero, suc, ◌+◌, ◌-◌, ◌%◌, ◌^◌, ◌≤◌, ◌<◌, ◌≡◌, ◌∙◌, refl, ap, subst, List, [], ◌∷◌, ◌++◌,
  length, length-append, Bool, arith,
}
use jos_ece.Memory.{Memory}
use jos_ece.Format.Text.{codes}
use jos_ece.Format.Print.Convert.{letter, decimal, octal, converted, numeral}
use jos_ece.Format.Number.{digits, digit_char}
use jos_ece.Str.Block.Fill.{Filled, memset-Filled}
use jos_ece.Format.Print.Pieces.{number, verbatims, spelled, words, output, Given}
use jos_ece.Format.Print.Filled.{length-converted}
use jos_ece.Console.Ports.{Ports}
use jos_ece.Monitor.Kernel.{Kernel, returned, print, ◌>>◌, ◌>>=◌}
use jos_ece.Monitor.Kernel.Prints.{no_nul, showing, showing-append, print_as}
use jos_ece.Monitor.Commands.{Image}
use jos_ece.Monitor.Places.{IsBytes}
use jos_ece.Monitor.Backtrace.{Frame, Chain, trace_text, backtrace-trace_text}
use jos_ece.Start.Ready.{Ready, prepare-Ready}
use jos_ece.Start.{
  test_backtrace, greet, prepare, monitors, i386_init, entering_format, leaving_format, red_text,
  blue_text,
}

-- The lines around the trace: those of the calls, from `x` down to 0, and of the returns.
unfoldable pub entering : ℕ → List ℕ
entering x = codes "entering test_backtrace " ++ (converted decimal x ++ 10 ∷ [])

unfoldable pub leaving : ℕ → List ℕ
leaving x = codes "leaving test_backtrace " ++ (converted decimal x ++ 10 ∷ [])

unfoldable pub nested : List ℕ → ℕ → List ℕ
nested trace zero = entering 0 ++ (trace ++ leaving 0)
nested trace (suc x) = entering (suc x) ++ (nested trace x ++ leaving (suc x))

-- What a backtrace prints.
abbrev pub backtrace_text : Memory → List Frame → List ℕ
backtrace_text m ts = codes "Stack backtrace:" ++ 10 ∷ trace_text m ts

-- All that is printed before the monitor.
unfoldable pub greeting : Memory → List Frame → List ℕ
greeting m ts =
    red_text
    ++ (blue_text ++ (codes "444544 decimal is 1544200 octal!" ++ nested (backtrace_text m ts) 5))

module _ {S : Type 0} (ports : Ports S) (image : Image) (n f : ℕ) where
  print-entering :
      (x : ℕ) (k : Kernel S)
      → x < 2 ^ 32
      → 200 ≤ f
      → (print ports f (entering_format ∷ []) (x ∷ []) k
          ≡ returned tt (showing ports (entering x) k))
        × (print ports f (leaving_format ∷ []) (x ∷ []) k
            ≡ returned tt (showing ports (leaving x) k))
  unfolding entering leaving words output spelled Given verbatims letter no_nul
  print-entering x k lt enough =
      let short : length (converted decimal x ++ 10 ∷ []) ≤ 66 =
        omega (arith, length-append (converted decimal x) (10 ∷ []), length-converted decimal x) in
      (
        print_as ports f entering_format [] (x ∷ []) (entering x)
            (verbatims (codes "entering test_backtrace ")
              (number decimal x ∷ verbatims (10 ∷ []) []))
            k refl refl refl refl (ground arith) (omega arith),
        print_as ports f leaving_format [] (x ∷ []) (leaving x)
            (verbatims (codes "leaving test_backtrace ")
              (number decimal x ∷ verbatims (10 ∷ []) []))
            k refl refl refl refl (ground arith) (omega arith),
      )

  test_backtrace-nested :
      (x : ℕ) (ts : List Frame) (k : Kernel S)
      → x < 2 ^ 32
      → IsBytes k.memory
      → image.frame < 2 ^ 32
      → Chain image f k.memory image.frame ts
      → length ts < n
      → 200 ≤ f
      → test_backtrace ports image n f x k
        ≡ returned tt (showing ports (nested (backtrace_text k.memory ts) x) k)
  unfolding test_backtrace nested showing
  test_backtrace-nested zero ts k lt bytes framed h short enough =
      let text : List ℕ = backtrace_text k.memory ts in
      let k1 : Kernel S = showing ports (entering 0) k in
      let k2 : Kernel S = showing ports text k1 in
      rw
        (
          ◌>>◌,
          ◌>>=◌,
          (print-entering 0 k lt enough).0,
          backtrace-trace_text ports image f ts n k1 bytes framed h short (omega arith),
          (print-entering 0 k2 lt enough).1,
        )
        (ap (returned tt) (
          showing-append ports text (leaving 0) k1
          ∙ showing-append ports (entering 0) (text ++ leaving 0) k))
  test_backtrace-nested (suc x) ts k lt bytes framed h short enough =
      let text : List ℕ = nested (backtrace_text k.memory ts) x in
      let k1 : Kernel S = showing ports (entering (suc x)) k in
      let k2 : Kernel S = showing ports text k1 in
      rw
        (
          ◌>>◌,
          (print-entering (suc x) k lt enough).0,
          test_backtrace-nested x ts k1 (omega arith) bytes framed h short enough,
          (print-entering (suc x) k2 lt enough).1,
        )
        (ap (returned tt) (
          showing-append ports text (leaving (suc x)) k1
          ∙ showing-append ports (entering (suc x)) (text ++ leaving (suc x)) k))

  print-octal :
      (k : Kernel S)
      → 200 ≤ f
      → print ports f (codes "%d decimal is %o octal!" ∷ []) (444544 ∷ 444544 ∷ []) k
        ≡ returned tt (showing ports (codes "444544 decimal is 1544200 octal!") k)
  unfolding words output spelled Given verbatims letter no_nul converted numeral digits digit_char
  print-octal k enough =
      print_as ports f (codes "%d decimal is %o octal!") [] (444544 ∷ 444544 ∷ [])
        (codes "444544 decimal is 1544200 octal!")
        (number decimal 444544
          ∷ verbatims (codes " decimal is ") (number octal 444544 ∷ verbatims (codes " octal!") []))
        k refl refl refl refl (ground arith) (omega arith)

  print-colours :
      (k : Kernel S)
      → 200 ≤ f
      → (print ports f (red_text ∷ []) [] k ≡ returned tt (showing ports red_text k))
        × (print ports f (blue_text ∷ []) [] k ≡ returned tt (showing ports blue_text k))
  unfolding words output spelled Given verbatims no_nul
  print-colours k enough = (
    print_as ports f red_text [] [] red_text (verbatims red_text []) k refl refl refl refl
        (ground arith) (omega arith),
    print_as ports f blue_text [] [] blue_text (verbatims blue_text []) k refl refl refl refl
        (ground arith) (omega arith),
  )

  greet-greeting :
      (ts : List Frame) (k : Kernel S)
      → IsBytes k.memory
      → image.frame < 2 ^ 32
      → Chain image f k.memory image.frame ts
      → length ts < n
      → 200 ≤ f
      → greet ports image n f k ≡ returned tt (showing ports (greeting k.memory ts) k)
  unfolding greet greeting showing
  greet-greeting ts k bytes framed h short enough =
      let t2 : List ℕ = codes "444544 decimal is 1544200 octal!" in
      let t3 : List ℕ = nested (backtrace_text k.memory ts) 5 in
      let k1 : Kernel S = showing ports red_text k in
      let k2 : Kernel S = showing ports blue_text k1 in
      let k3 : Kernel S = showing ports t2 k2 in
      rw
        (
          greet,
          ◌>>◌,
          (print-colours k enough).0,
          (print-colours k1 enough).1,
          print-octal k2 enough,
          test_backtrace-nested 5 ts k3 (omega arith) bytes framed h short enough,
        )
        (ap (returned tt) (
          showing-append ports t2 t3 k2
          ∙ showing-append ports blue_text (t2 ++ t3) k1
          ∙ showing-append ports red_text (blue_text ++ (t2 ++ t3)) k))

  -- `i386_init` clears the bytes from `edata` up to `end` and no others, and sets the console up: the
  -- display at its cells and the cursor of its controller, which gives bytes, the parser outside a
  -- sequence, no key held, no character waiting, and the serial port, which is there unless the line
  -- status behind its set-up reads 0xFF, and whose absence it tells. It then prints the two lines of
  -- colours, the number 444544 in decimal and in octal, the six nested entries of `test_backtrace`
  -- with the backtrace in their midst and the returns in the opposite order; then it is in the
  -- monitor. The backtrace is along the chain of frames that memory holds then, whose places
  -- `debuginfo_eip` finds, and fuel of 200 beside that of the backtrace is enough.
  pub i386_init-greeting :
      (colour : Bool) (cells : List ℕ) (rounds : ℕ) (ts : List Frame) (k k' : Kernel S)
      → prepare ports image n f colour cells k ≡ k'
      → IsBytes k'.memory
      → image.frame < 2 ^ 32
      → Chain image f k'.memory image.frame ts
      → length ts < n
      → 200 ≤ f
      → (i386_init ports image n f colour cells rounds k
          ≡ monitors ports image n f rounds rounds (showing ports (greeting k'.memory ts) k'))
        × Filled k.memory k'.memory image.edata ((image.end + 2 ^ 32 - image.edata) % 2 ^ 32) 0
        × Ready ports colour cells k k'
  unfolding i386_init prepare
  i386_init-greeting colour cells rounds ts k k' ready bytes framed h short enough =
      let size : ℕ = (image.end + 2 ^ 32 - image.edata) % 2 ^ 32 in
      let (r, filled) = memset-Filled k.memory image.edata 0 size in
      (
        rw (i386_init, ready, ◌>>◌, greet-greeting ts k' bytes framed h short enough) refl,
        subst (λ j. Filled k.memory j.memory image.edata size 0) ready filled,
        subst (Ready ports colour cells k) ready (prepare-Ready ports image n f colour cells k),
      )
