-- ===== src/Readline/Session.antt =====
-- lib/readline.c: the whole loop, on the keys that come in.
use jos_ece.Prelude.{
  ℕ, zero, suc, ◌+◌, ◌^◌, ◌≤◌, ◌<◌, ◌≡◌, ◌≢◌, ◌⊎◌, ◌∙◌, inl, inr, refl, ap, List, [], ◌∷◌, ◌++◌,
  map, length, length-map, append-nil, get_or, Option, none, some, false, ◌==◌, arith,
}
use jos_ece.Memory.{Memory, StrAt}
use jos_ece.Format.Text.{codes, sign_extend}
use jos_ece.Format.Print.Pieces.{string, spelled, words, output, Given, vprintfmt-Pieces}
use jos_ece.Console.Ports.{Ports}
use jos_ece.Console.Output.Sgr.{puts}
use jos_ece.Console.Printf.Count.{cprintf_zero}
use jos_ece.Console.Machine.{Machine, getchar}
use jos_ece.Readline.{
  Line, Edited, more, finished, failed, edit, buflen, echo, tell, read_loop, readline,
}
use jos_ece.Readline.Editing.{IsLine, text, typed_line, EditedAs, edit-EditedAs}

-- What keys make of a line, the last of them being its end.
unfoldable pub typed_keys : List ℕ → List ℕ → List ℕ
typed_keys [] s = s
typed_keys (c ∷ []) s = s
typed_keys (c ∷ d ∷ cs) s = typed_keys (d ∷ cs) (typed_line c s)

-- The line behind a key.
unfoldable pub line_of : Line → Edited → Line
line_of l (more e l') = l'
line_of l (finished l') = l'
line_of l failed = l

module _ {S : Type 0} (ports : Ports S) (f : ℕ) where
  -- The machine behind a key and its echo.
  unfoldable pub echoed : Edited → Machine S → Machine S
  echoed (more none l) t = t
  echoed (more (some e) l) t = echo ports e t
  echoed (finished l) t = echo ports 10 t
  echoed failed t = t

  -- Keys in the order in which `getchar` returns them, each from the machine behind the echo of the
  -- key before it.
  -- The last is a newline or a carriage return, and none before it is one, or negative.
  pub data Session : Line → Machine S → List ℕ → Line → Machine S → Type 0 where
    last_key :
        {l : Line} {t t1 : Machine S} {c : ℕ}
        → getchar ports f f t ≡ some (c, t1)
        → (c ≡ 10) ⊎ (c ≡ 13)
        → Session l t (c ∷ []) (line_of l (edit c l)) (echo ports 10 t1)
    key :
        {l l' : Line} {t t1 t' : Machine S} {c d : ℕ} {cs : List ℕ}
        → getchar ports f f t ≡ some (c, t1)
        → c ≢ 10
        → c ≢ 13
        → c < 2 ^ 31
        → Session (line_of l (edit c l)) (echoed (edit c l) t1) (d ∷ cs) l' t'
        → Session l t (c ∷ d ∷ cs) l' t'

  -- A round of the loop whose key does not end it, and one whose key does.
  loop_more :
      (n c : ℕ) (l : Line) (t t1 : Machine S) (r : Edited) (out : Option (Option Line × Machine S))
      → getchar ports f f t ≡ some (c, t1)
      → edit c l ≡ r
      → EditedAs c l r
      → c ≢ 10
      → c ≢ 13
      → c < 2 ^ 31
      → read_loop ports n f (line_of l r) (echoed r t1) ≡ out
      → read_loop ports (suc n) f l t ≡ out
  unfolding read_loop line_of echoed
  loop_more n c l t t1 (more none l') out came e edits n10 n13 small rest =
      rw (read_loop, came, e) rest
  loop_more n c l t t1 (more (some x) l') out came e edits n10 n13 small rest =
      rw (read_loop, came, e) rest
  loop_more n c l t t1 (finished l') out came e (ends, v, same, nul) n10 n13 small rest =
      elim ends [ inl same ↦ absurd (n10 same) | inr same ↦ absurd (n13 same) ]
  loop_more n c l t t1 failed out came e edits n10 n13 small rest = absurd (omega arith)

  loop_last :
      (n c : ℕ) (l : Line) (t t1 : Machine S) (r : Edited)
      → getchar ports f f t ≡ some (c, t1)
      → edit c l ≡ r
      → EditedAs c l r
      → (c ≡ 10) ⊎ (c ≡ 13)
      → (read_loop ports (suc n) f l t ≡ some (some (line_of l r), echo ports 10 t1))
        × IsLine (line_of l r)
        × (text (line_of l r) ≡ text l)
        × (get_or (line_of l r).buf (line_of l r).i 1 ≡ 0)
  unfolding read_loop line_of
  loop_last n c l t t1 (more x l') came e (v, edits, n10, n13) ends = elim ends [
    | inl same ↦ absurd (n10 same)
    | inr same ↦ absurd (n13 same)
  ]
  loop_last n c l t t1 (finished l') came e (end, v, same, nul) ends =
      (rw (read_loop, came, e) refl, v, same, nul)
  loop_last n c l t t1 failed came e neg ends = elim ends [
    | inl same ↦ absurd (omega arith)
    | inr same ↦ absurd (omega arith)
  ]

  next_line :
      (c : ℕ) (l : Line) (r : Edited)
      → IsLine l
      → EditedAs c l r
      → c ≢ 10
      → c ≢ 13
      → c < 2 ^ 31
      → IsLine (line_of l r) × (text (line_of l r) ≡ typed_line c (text l))
  unfolding line_of
  next_line c l (more x l') v (v', edits, m10, m13) n10 n13 small = (v', edits)
  next_line c l (finished l') v (ends, v', kept, nul) n10 n13 small = elim ends [
    | inl same ↦ absurd (n10 same)
    | inr same ↦ absurd (n13 same)
  ]
  next_line c l failed v neg n10 n13 small = absurd (omega arith)

  read_loop-Session :
      (n : ℕ) (keys : List ℕ) (l : Line) (t : Machine S) (l' : Line) (t' : Machine S)
      → IsLine l
      → Session l t keys l' t'
      → length keys ≤ n
      → (read_loop ports n f l t ≡ some (some l', t'))
        × IsLine l'
        × (text l' ≡ typed_keys keys (text l))
        × (get_or l'.buf l'.i 1 ≡ 0)
  unfolding typed_keys
  read_loop-Session zero (c ∷ cs) l t l' t' v session enough = absurd (omega arith)
  read_loop-Session zero [] l t l' t' v session enough = elim session [ ]
  read_loop-Session (suc n) [] l t l' t' v session enough = elim session [ ]
  read_loop-Session (suc n) (c ∷ []) l t l' t' v (last_key {t1 = t1} came ends) enough =
      loop_last n c l t t1 (edit c l) came refl (edit-EditedAs c l v) ends
  read_loop-Session (suc n) (c ∷ d ∷ cs) l t l' t' v (key {t1 = t1} came n10 n13 small session)
        enough =
      let edits = edit-EditedAs c l v in
      let l1 : Line = line_of l (edit c l) in
      let t2 : Machine S = echoed (edit c l) t1 in
      let (v1, typed) = next_line c l (edit c l) v edits n10 n13 small in
      let (ran, v', all, nul) = read_loop-Session n (d ∷ cs) l1 t2 l' t' v1 session (omega arith) in
      (
        loop_more n c l t t1 (edit c l) (some (some l', t')) came refl edits n10 n13 small ran,
        v',
        all ∙ ap (typed_keys (d ∷ cs)) typed,
        nul,
      )

  -- The machine behind the prompt.
  unfoldable pub prompted : List ℕ → Machine S → Machine S
  prompted cs t = record t {
    keyboard = record (t.keyboard) { console = puts ports (map sign_extend cs) t.keyboard.console };
  }

  tell-prompted :
      (rom : Memory) (format prompt : ℕ) (cs : List ℕ) (t : Machine S)
      → StrAt rom format (codes "%s")
      → StrAt rom prompt cs
      → prompt ≢ 0
      → 2 + length cs < f
      → tell ports f rom format (prompt ∷ []) t ≡ some (prompted cs t)
  unfolding tell prompted spelled words output Given
  tell-prompted rom format prompt cs t percent_s str nz enough =
      let put : length (map sign_extend cs ++ []) ≡ length cs =
        ap length (append-nil (map sign_extend cs)) ∙ length-map cs sign_extend in
      rw
        (
          tell,
          cprintf_zero ports f rom format (prompt ∷ []) (map sign_extend cs ++ [])
              t.keyboard.console
              (vprintfmt-Pieces (string prompt cs ∷ []) f rom format percent_s (str, nz, tt)
                (omega arith)),
        )
        (ap
          (λ out. some (record t {
            keyboard = record (t.keyboard) { console = puts ports out t.keyboard.console };
          }))
          (append-nil (map sign_extend cs)))

  -- `readline` with a prompt, where keys come in up to a newline or a carriage return: it ends and
  -- returns its line, which fits the buffer and is followed there by a NUL. The line's text is what
  -- the keys make of an empty one: backspace and DEL take the last character back, characters from
  -- the space on are added while there is room, others do nothing. Each key is waited for behind
  -- the prompt and the echoes of those before, and the rounds are at least as many as the keys.
  pub readline-Session :
      (n : ℕ) (rom : Memory) (format prompt : ℕ) (cs buf keys : List ℕ) (t t' : Machine S)
      (l' : Line)
      → length buf ≡ buflen
      → StrAt rom format (codes "%s")
      → StrAt rom prompt cs
      → prompt ≢ 0
      → 2 + length cs < f
      → Session (record { i = 0; buf = buf }) (prompted cs t) keys l' t'
      → length keys ≤ n
      → (readline ports n f rom format prompt buf t ≡ some (some l', t'))
        × IsLine l'
        × (text l' ≡ typed_keys keys [])
        × (get_or l'.buf l'.i 1 ≡ 0)
  unfolding readline
  readline-Session n rom format prompt cs buf keys t t' l' size percent_s str nz enough session
        rounds =
      let z : (prompt == 0) ≡ false = ground arith in
      let begin : Line = record { i = 0; buf = buf } in
      let v : IsLine begin = record { size = size; room = omega arith } in
      let (ran, v', typed, nul) =
        read_loop-Session n keys begin (prompted cs t) l' t' v session rounds in
      (
        rw (readline, z, tell-prompted rom format prompt cs t percent_s str nz enough) ran,
        v',
        typed,
        nul,
      )
