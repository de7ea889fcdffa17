-- ===== src/Monitor/Loop.antt =====
-- kern/monitor.c: runcmd, which looks a command up, and the loop of monitor.
use jos_ece.Prelude.{
  ℕ, zero, suc, ◌+◌, ◌-◌, List, [], ◌∷◌, ◌++◌, get_or, Option, none, some, Bool, true, false, ◌&&◌,
  ltb, leb, if◌then◌else◌,
}
use jos_ece.Prelude.Int.{ℤ, pos, negsuc}
use jos_ece.Memory.{Memory}
use jos_ece.Str.Compare.{strcmp}
use jos_ece.Format.Text.{codes}
use jos_ece.Console.Ports.{Ports}
use jos_ece.Console.Machine.{Machine}
use jos_ece.Readline.{Line, buflen, readline}
use jos_ece.Monitor.{maxargs, Parsed, arguments, too_many, parse}
use jos_ece.Monitor.Kernel.{Code, returned, stuck, done, text_at, joined, rom, print, ◌>>=◌, ◌>>◌}
use jos_ece.Monitor.Commands.{Image, Command, commands, call}

-- The static `buf` of lib/readline.c as a part of memory.
unfoldable pub bytes_at : Memory → ℕ → ℕ → List ℕ
bytes_at m a zero = []
bytes_at m a (suc n) = m a ∷ bytes_at m (a + 1) n

unfoldable pub put_bytes : Memory → ℕ → ℕ → List ℕ → Memory
put_bytes m a n bytes x = if leb a x && ltb x (a + n) then get_or bytes (x - a) 0 else m x

-- `strcmp(...) == 0`
abbrev pub is_zero : ℤ → Bool
is_zero (pos zero) = true
is_zero (pos (suc n)) = false
is_zero (negsuc n) = false

abbrev pub is_negative : ℤ → Bool
is_negative (pos n) = false
is_negative (negsuc n) = true

abbrev pub unknown_format : List ℕ
unknown_format = codes "Unknown command '%s'" ++ 10 ∷ []

abbrev pub many_format : List ℕ
many_format = codes "Too many arguments (max %d)" ++ 10 ∷ []

abbrev pub prompt_texts : List (List ℕ)
prompt_texts = codes "%s" ∷ codes "K> " ∷ []

-- `n` bounds the arguments, the frames of a backtrace and the characters of a line; `f` is the fuel
-- of the loops over strings.
module _ {S : Type 0} (ports : Ports S) (image : Image) (n f : ℕ) where
  -- The loop over the table, for the word at `a`.
  unfoldable pub lookup : List Command → ℕ → Code S ℤ
  lookup [] a k = (print ports f (unknown_format ∷ []) (a ∷ []) >> done (pos 0)) k
  lookup (c ∷ cs) a k =
      let rest = lookup cs a k in
      elim (strcmp f (rom k.memory (joined (c.name ∷ []))) a text_at) [
        | none ↦ stuck
        | some r ↦ if is_zero r then call ports image f n c.func k else rest
      ]

  unfoldable pub run_arguments : List ℕ → Code S ℤ
  unfolding lookup
  run_arguments [] = done (pos 0)
  run_arguments (a ∷ argv) = lookup commands a

  -- `runcmd` behind its argument parser.
  unfoldable pub run_parsed : Parsed → Code S ℤ
  unfolding run_arguments
  run_parsed (arguments argv m) k = run_arguments argv (record k { memory = m })
  run_parsed (too_many m) k =
      (print ports f (many_format ∷ []) (maxargs ∷ []) >> done (pos 0)) (record k { memory = m })
  run_parsed Parsed.no_fuel k = stuck

  unfoldable pub runcmd : ℕ → Code S ℤ
  unfolding run_parsed
  runcmd buf k = run_parsed (parse n f k.memory buf []) k

  -- A round of the loop behind `readline`: what `runcmd` returns, or 0 where there is no line.
  -- Behind NULL what has been typed stays unread.
  unfoldable pub served : Option (Option Line × Machine S) → Code S ℤ
  unfolding runcmd
  served none k = stuck
  served (some (none, t)) k = returned (pos 0) (record k { machine = t })
  served (some (some l, t)) k =
      runcmd image.line_buffer
        (record k { machine = t; memory = put_bytes k.memory image.line_buffer buflen l.buf })

  unfoldable pub serve : Code S ℤ
  unfolding served
  serve k =
      let buf = bytes_at k.memory image.line_buffer buflen in
      served
        (readline ports n f (rom k.memory (joined prompt_texts)) text_at (text_at + 3) buf
          k.machine)
        k

  -- The loop, for `rounds` at most: whether it has been left.
  unfoldable pub monitor_loop : ℕ → Code S Bool
  unfolding serve
  monitor_loop zero = done false
  monitor_loop (suc rounds) =
      serve >>= λ r. if is_negative r then done true else monitor_loop rounds

  unfoldable pub monitor : ℕ → Code S Bool
  unfolding monitor_loop
  monitor rounds = do
    print ports f ((codes "Welcome to the JOS kernel monitor!" ++ 10 ∷ []) ∷ []) []
    print ports f ((codes "Type 'help' for a list of commands." ++ 10 ∷ []) ∷ []) []
    monitor_loop rounds
