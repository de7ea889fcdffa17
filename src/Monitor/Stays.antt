-- ===== src/Monitor/Stays.antt =====
-- kern/monitor.c: the monitor does not end.
use jos_ece.Prelude.{
  ℕ, zero, suc, ◌≡◌, refl, List, [], ◌∷◌, ◌++◌, Option, none, some, Bool, true, false, Option-cases,
  inl, inr, Bool-cases, ◌==◌, if◌then◌else◌, ◌+◌,
}
use jos_ece.Prelude.Int.{ℤ, pos}
use jos_ece.Boot.{load32}
use jos_ece.Format.Text.{codes}
use jos_ece.Console.Ports.{Ports}
use jos_ece.Monitor.Kernel.{
  Kernel, Code, Run, returned, panics, stuck, done, text_at, joined, rom, print, ◌>>◌,
}
use jos_ece.Monitor.Commands.{
  Image, Command, Func, mon_help, mon_kerninfo, exec_hidden_cases, mon_backtrace, commands, call,
  help_lines, tell_frame, help, kerninfo_lines, kerninfo, hidden, backtrace, frames,
  hidden_test_cases,
}
use jos_ece.Monitor.Loop.{
  put_bytes, bytes_at, is_zero, is_negative, unknown_format, many_format, prompt_texts, lookup,
  run_arguments, run_parsed, runcmd, served, serve, monitor_loop, monitor,
}
use jos_ece.Str.Compare.{strcmp}
use jos_ece.Console.Machine.{Machine}
use jos_ece.Readline.{Line, buflen, readline}
use jos_ece.Monitor.{maxargs, Parsed, arguments, too_many, parse}

module _ {S A : Type 0} where
  -- What a piece of code returns, if it does, is `a`.
  abbrev pub Returns : A → Run S A → Type 0
  Returns a (returned b k) = b ≡ a
  Returns a (panics k) = Unit
  Returns a stuck = Unit

  abbrev pub Always : A → Code S A → Type 0
  Always a code = (k : Kernel S) → Returns a (code k)

  behind_Returns :
      (a : A) (r : Run S Unit) (next : Code S A)
      → Always a next
      → Returns a
          (elim r as (λ x. Run S A) [ returned b k ↦ next k | panics k ↦ panics k | stuck ↦ stuck ])
  behind_Returns a (returned b k) next h = h k
  behind_Returns a (panics k) next h = tt
  behind_Returns a stuck next h = tt

  >>-Always :
      (a : A) (code : Code S Unit) (next : Code S A) → Always a next → Always a (code >> next)
  >>-Always a code next h k = behind_Returns a (code k) next h

module _ {S : Type 0} (ports : Ports S) (image : Image) (n f : ℕ) where
  frames-Always : (r ebp : ℕ) → Always (pos 0) (frames ports image f r ebp)
  unfolding frames
  frames-Always zero ebp k = tt
  frames-Always (suc r) ebp k = elim (Bool-cases (ebp == 0)) [
    | inl end ↦ rw end refl
    | inr more ↦
        let rest : Code S ℤ = λ k'. frames ports image f r (load32 k'.memory ebp) k' in
        rw more (
          >>-Always (pos 0) (tell_frame ports image f ebp) rest
            (λ k'. frames-Always r (load32 k'.memory ebp) k') k)
  ]

  help-Always : Always (pos 0) (help ports image f)
  unfolding help
  help-Always = >>-Always (pos 0) (help_lines ports image f commands) (done (pos 0)) (λ k. refl)

  kerninfo-Always : Always (pos 0) (kerninfo ports image f)
  unfolding kerninfo
  kerninfo-Always = >>-Always (pos 0) (kerninfo_lines ports image f) (done (pos 0)) (λ k. refl)

  hidden-Always : Always (pos 0) (hidden ports image f)
  unfolding hidden
  hidden-Always k =
      elim (hidden_test_cases ports image f k)
        as (λ r. Returns (pos 0) (elim r as (λ x. Run S ℤ) [
          | returned b k' ↦ returned (pos 0) k'
          | panics k' ↦ panics k'
          | stuck ↦ stuck
        ])) [ returned b k' ↦ refl | panics k' ↦ tt | stuck ↦ tt ]

  backtrace-Always : Always (pos 0) (backtrace ports image f n)
  unfolding backtrace
  backtrace-Always =
      >>-Always (pos 0) (print ports f ((codes "Stack backtrace:" ++ 10 ∷ []) ∷ []) [])
        (frames ports image f n image.frame) (frames-Always n image.frame)

  call-Always : (func : Func) → Always (pos 0) (call ports image f n func)
  unfolding call
  call-Always mon_help = help-Always
  call-Always mon_kerninfo = kerninfo-Always
  call-Always exec_hidden_cases = hidden-Always
  call-Always mon_backtrace = backtrace-Always

  lookup-Always : (cs : List Command) (a : ℕ) → Always (pos 0) (lookup ports image n f cs a)
  unfolding lookup
  lookup-Always [] a k =
      >>-Always (pos 0) (print ports f (unknown_format ∷ []) (a ∷ [])) (done (pos 0)) (λ k'. refl) k
  lookup-Always (c ∷ cs) a k =
      elim (Option-cases (strcmp f (rom k.memory (joined (c.name ∷ []))) a text_at)) [
        | inl none_left ↦ rw (lookup, none_left) tt
        | inr (r, compared) ↦ elim (Bool-cases (is_zero r)) [
          | inl same ↦ rw (lookup, compared, same) (call-Always c.func k)
          | inr other ↦ rw (lookup, compared, other) (lookup-Always cs a k)
        ]
      ]

  run_arguments-Always : (argv : List ℕ) → Always (pos 0) (run_arguments ports image n f argv)
  unfolding run_arguments
  run_arguments-Always [] k = refl
  run_arguments-Always (a ∷ argv) k = lookup-Always commands a k

  parsed_Returns : (p : Parsed) (k : Kernel S) → Returns (pos 0) (run_parsed ports image n f p k)
  unfolding run_parsed
  parsed_Returns (arguments argv m) k = run_arguments-Always argv (record k { memory = m })
  parsed_Returns (too_many m) k =
      >>-Always (pos 0) (print ports f (many_format ∷ []) (maxargs ∷ [])) (done (pos 0))
        (λ k'. refl) (record k { memory = m })
  parsed_Returns Parsed.no_fuel k = tt

  runcmd-Always : (buf : ℕ) → Always (pos 0) (runcmd ports image n f buf)
  unfolding runcmd
  runcmd-Always buf k = parsed_Returns (parse n f k.memory buf []) k

  served-Returns :
      (r : Option (Option Line × Machine S)) (k : Kernel S)
      → Returns (pos 0) (served ports image n f r k)
  unfolding served
  served-Returns none k = tt
  served-Returns (some (none, t)) k = refl
  served-Returns (some (some l, t)) k =
      runcmd-Always image.line_buffer
        (record k { machine = t; memory = put_bytes k.memory image.line_buffer buflen l.buf })

  serve-Always : Always (pos 0) (serve ports image n f)
  unfolding serve
  serve-Always k =
      served-Returns
        (readline ports n f (rom k.memory (joined prompt_texts)) text_at (text_at + 3)
          (bytes_at k.memory image.line_buffer buflen) k.machine)
        k

  round_Returns :
      (r : Run S ℤ) (rounds : ℕ)
      → Returns (pos 0) r
      → Always false (monitor_loop ports image n f rounds)
      → Returns false (elim r as (λ x. Run S Bool) [
        | returned a k ↦
            (if is_negative a then done true else monitor_loop ports image n f rounds) k
        | panics k ↦ panics k
        | stuck ↦ stuck
      ])
  round_Returns (returned a k) rounds zero_is h = rw zero_is (h k)
  round_Returns (panics k) rounds zero_is h = tt
  round_Returns stuck rounds zero_is h = tt

  monitor_loop-Always : (rounds : ℕ) → Always false (monitor_loop ports image n f rounds)
  unfolding monitor_loop
  monitor_loop-Always zero k = refl
  monitor_loop-Always (suc rounds) k =
      round_Returns (serve ports image n f k) rounds (serve-Always k) (monitor_loop-Always rounds)

  -- Where `runcmd` returns, whatever stands in the line, it returns 0: no command has a negative
  -- result. So `monitor` does not leave its loop: where it returns after some number of rounds, the
  -- loop has not been left.
  pub monitor_stays :
      (rounds buf : ℕ) (k j : Kernel S)
      → Returns false (monitor ports image n f rounds k)
        × Returns (pos 0) (runcmd ports image n f buf j)
  unfolding monitor
  monitor_stays rounds buf k j =
      let second : Code S Unit =
        print ports f ((codes "Type 'help' for a list of commands." ++ 10 ∷ []) ∷ []) [] in
      let loop : Code S Bool = monitor_loop ports image n f rounds in
      (
        >>-Always false
            (print ports f ((codes "Welcome to the JOS kernel monitor!" ++ 10 ∷ []) ∷ []) [])
            (second >> loop) (>>-Always false second loop (monitor_loop-Always rounds)) k,
        runcmd-Always buf j,
      )
