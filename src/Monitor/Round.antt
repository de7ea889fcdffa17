-- ===== src/Monitor/Round.antt =====
-- kern/monitor.c: a round of monitor's loop, from the keys to the command.
use jos_ece.Prelude.{
  ℕ, zero, suc, ◌+◌, ◌-◌, ◌≤◌, ◌<◌, ◌≡◌, ◌≢◌, ◌∙◌, refl, sym, ap, subst, List, [], ◌∷◌, length,
  take, get_or, some, true, false, ◌&&◌, ltb, leb, arith, length-take,
}
use jos_ece.Memory.{Memory, StrAt}
use jos_ece.Str.Compare.{NonNul}
use jos_ece.Format.Text.{codes}
use jos_ece.Console.Ports.{Ports}
use jos_ece.Console.Machine.{Machine}
use jos_ece.Readline.{Line, buflen, readline}
use jos_ece.Readline.Session.{Session, prompted, typed_keys, readline-Session}
use jos_ece.Monitor.{maxargs}
use jos_ece.Monitor.Words.{line, IsLine, Strings}
use jos_ece.Monitor.Kernel.{Kernel, text_at, joined, rom}
use jos_ece.Monitor.Kernel.Prints.{no_nul, StrAt-joined}
use jos_ece.Monitor.Commands.{Image}
use jos_ece.Monitor.Loop.{bytes_at, put_bytes, prompt_texts, runcmd, served, serve}
use jos_ece.Monitor.Dispatch.{act_on, runcmd-act_on}

pub length-bytes_at : (m : Memory) (a n : ℕ) → length (bytes_at m a n) ≡ n
unfolding bytes_at
length-bytes_at m a zero = refl
length-bytes_at m a (suc n) = ap suc (length-bytes_at m (a + 1) n)

-- A list in memory, cut at a NUL of it.
StrAt-take :
    (m : Memory) (s i : ℕ) (xs : List ℕ)
    → ((j : ℕ) → j ≤ i → m (s + j) ≡ get_or xs j 1)
    → NonNul (take i xs)
    → get_or xs i 1 ≡ 0
    → StrAt m s (take i xs)
StrAt-take m s zero xs there nn nul = ap m (omega arith) ∙ there 0 (omega arith) ∙ nul
StrAt-take m s (suc i) [] there nn nul = absurd (omega arith)
StrAt-take m s (suc i) (x ∷ xs) there (ne, nn) nul = (
  ap m (omega arith) ∙ there 0 (omega arith),
  ne,
  StrAt-take m (s + 1) i xs (λ j le. ap m (omega arith) ∙ there (suc j) (omega arith)) nn nul,
)

get_or_default : (xs : List ℕ) (j d e : ℕ) → j < length xs → get_or xs j d ≡ get_or xs j e
get_or_default [] j d e lt = elim lt [ ]
get_or_default (x ∷ xs) zero d e lt = refl
get_or_default (x ∷ xs) (suc j) d e lt = get_or_default xs j d e (omega arith)

put_bytes_at :
    (m : Memory) (a n j : ℕ) (xs : List ℕ)
    → j < n
    → length xs ≡ n
    → put_bytes m a n xs (a + j) ≡ get_or xs j 1
unfolding put_bytes
put_bytes_at m a n j xs lt size =
    let t : (leb a (a + j) && ltb (a + j) (a + n)) ≡ true = ground arith in
    let e : a + j - a ≡ j = omega arith in
    rw (put_bytes, t, e) (get_or_default xs j 0 1 (omega arith))

put_bytes_below : (m : Memory) (a n x : ℕ) (xs : List ℕ) → x < a → put_bytes m a n xs x ≡ m x
unfolding put_bytes
put_bytes_below m a n x xs lt =
    let t : (leb a x && ltb x (a + n)) ≡ false = ground arith in rw (put_bytes, t) refl

module _ {S : Type 0} (ports : Ports S) (image : Image) (n f : ℕ) where
  serve_ran :
      (k : Kernel S) (l : Line) (t : Machine S)
      → readline ports n f
          (rom k.memory (joined prompt_texts))
          text_at
          (text_at + 3)
          (bytes_at k.memory image.line_buffer buflen)
          k.machine
        ≡ some (some l, t)
      → serve ports image n f k
        ≡ runcmd ports image n f image.line_buffer
            (record k { machine = t; memory = put_bytes k.memory image.line_buffer buflen l.buf })
  unfolding serve served
  serve_ran k l t ran = rw (serve, served, ran) refl

  -- A round of the monitor on keys that make a line of at most 15 words: behind the prompt `K> ` it
  -- reads the line, and then does what the first word asks for, the words being strings in the
  -- line's buffer: it runs the command of that name, says that there is none, or does nothing on a
  -- line without words. Nothing below the buffer changes before that. The buffer lies inside the
  -- 32-bit address space and not at 0, no key is a NUL, the rounds are as many as the keys and more
  -- than the words, and fuel of 1200 is enough.
  pub serve-act_on :
      (k : Kernel S) (keys last : List ℕ) (ps : List (List ℕ × List ℕ)) (l : Line) (t : Machine S)
      → Session ports f
          (record { i = 0; buf = bytes_at k.memory image.line_buffer buflen })
          (prompted ports f (codes "K> ") k.machine)
          keys
          l
          t
      → typed_keys keys [] ≡ line ps last
      → IsLine ps last
      → NonNul (line ps last)
      → image.line_buffer ≢ 0
      → image.line_buffer + buflen ≤ text_at
      → length keys ≤ n
      → length ps < n
      → length ps ≤ maxargs - 1
      → 1200 ≤ f
      → (m : Memory) × (serve ports image n f k
          ≡ act_on ports image n f ps (record k { machine = t; memory = m }))
        × Strings m image.line_buffer ps
        × ((x : ℕ) → x < image.line_buffer → m x ≡ k.memory x)
  unfolding no_nul joined
  serve-act_on k keys last ps l t session typed v nn nz inside rounds more few enough =
      let buf : List ℕ = bytes_at k.memory image.line_buffer buflen in
      let m0 : Memory = rom k.memory (joined prompt_texts) in
      let (ran, fits, is_typed, nul) =
        readline-Session ports f n m0 text_at (text_at + 3) (codes "K> ") buf keys k.machine t l
          (length-bytes_at k.memory image.line_buffer buflen)
          (StrAt-joined k.memory [] (codes "%s") (codes "K> " ∷ []) text_at refl (omega arith))
          (StrAt-joined k.memory (codes "%s" ∷ []) (codes "K> ") [] (text_at + 3) refl refl)
          (omega arith) (omega arith) session rounds in
      let same : take l.i l.buf ≡ line ps last = is_typed ∙ typed in
      let m1 : Memory = put_bytes k.memory image.line_buffer buflen l.buf in
      let at : StrAt m1 image.line_buffer (take l.i l.buf) =
        StrAt-take m1 image.line_buffer l.i l.buf
          (λ j le.
            put_bytes_at k.memory image.line_buffer buflen j l.buf (omega (arith, fits.room, le))
              fits.size)
          (subst NonNul (sym same) nn) nul in
      let short : length (line ps last) ≤ l.i =
        omega (arith, ap length same, length-take l.i l.buf) in
      let (m, does, strs, below) =
        runcmd-act_on ports image n f image.line_buffer ps last
          (record k { machine = t; memory = m1 }) v (subst (StrAt m1 image.line_buffer) same at) nz
          (omega (arith, short, fits.room)) more (omega (arith, short, fits.room)) few in
      (
        m,
        serve_ran k l t ran ∙ does,
        strs,
        λ x lt. below x lt ∙ put_bytes_below k.memory image.line_buffer buflen x l.buf lt,
      )
