-- ===== src/Cpu/Strings.antt =====
-- inc/x86.h: blocks of memory sent through a port and read back.
use jos_ece.Prelude.{ℕ, zero, suc, ◌+◌, ◌*◌, ◌<◌, ◌≡◌, ◌∙◌, refl, ap, subst, List, [], ◌∷◌, arith}
use jos_ece.Memory.{Memory, store}
use jos_ece.Boot.{load32, store32}
use jos_ece.Boot.Disk.{Loaded, Loaded-append, store32-Loaded}
use jos_ece.Cpu.{IoPorts, insb, insl, outsb, outsl}

module _ {S : Type 0} (ports : IoPorts S) (port : ℕ) where
  -- The next reads of double words, and of bytes, give these.
  pub data GivesWords : List ℕ → S → S → Type 0 where
    no_word : {s : S} → GivesWords [] s s
    a_word :
        {w : ℕ} {ws : List ℕ} {s s1 s' : S}
        → ports.inl port s ≡ (w, s1)
        → GivesWords ws s1 s'
        → GivesWords (w ∷ ws) s s'

  pub data GivesBytes : List ℕ → S → S → Type 0 where
    no_byte : {s : S} → GivesBytes [] s s
    a_byte :
        {b : ℕ} {bs : List ℕ} {s s1 s' : S}
        → ports.inb port s ≡ (b, s1)
        → GivesBytes bs s1 s'
        → GivesBytes (b ∷ bs) s s'

  -- What a block holds, and a device that has been sent it.
  unfoldable pub words_at : Memory → ℕ → ℕ → List ℕ
  words_at m a zero = []
  words_at m a (suc n) = load32 m a ∷ words_at m (a + 4) n

  unfoldable pub bytes_at : Memory → ℕ → ℕ → List ℕ
  bytes_at m a zero = []
  bytes_at m a (suc n) = m a ∷ bytes_at m (a + 1) n

  unfoldable pub sent_words : List ℕ → S → S
  sent_words [] s = s
  sent_words (w ∷ ws) s = sent_words ws (ports.outl port w s)

  unfoldable pub sent_bytes : List ℕ → S → S
  sent_bytes [] s = s
  sent_bytes (b ∷ bs) s = sent_bytes bs (ports.outb port b s)

  outsl-sent :
      (n a : ℕ) (m : Memory) (s : S) → outsl ports port a n m s ≡ sent_words (words_at m a n) s
  unfolding outsl words_at sent_words
  outsl-sent zero a m s = refl
  outsl-sent (suc n) a m s = outsl-sent n (a + 4) m (ports.outl port (load32 m a) s)

  outsb-sent :
      (n a : ℕ) (m : Memory) (s : S) → outsb ports port a n m s ≡ sent_bytes (bytes_at m a n) s
  unfolding outsb bytes_at sent_bytes
  outsb-sent zero a m s = refl
  outsb-sent (suc n) a m s = outsb-sent n (a + 1) m (ports.outb port (m a) s)

  nothing_read : (disk m : Memory) (d b : ℕ) → Loaded disk m m d b 0
  nothing_read disk m d b = record {
    inside = λ x i lt e. absurd (omega arith);
    outside = λ x out. refl;
  }

  insl-Loaded :
      (n d b : ℕ) (source m : Memory) (s s' : S)
      → ((x : ℕ) → source x < 256)
      → GivesWords (words_at source b n) s s'
      → (m' : Memory) × (insl ports port d n m s ≡ (m', s')) × Loaded source m m' d b (n * 4)
  unfolding insl words_at
  insl-Loaded zero d b source m s s' bytes no_word = (m, refl, nothing_read source m d b)
  insl-Loaded (suc n) d b source m s s' bytes (a_word {s1 = s1} read more) =
      let m1 : Memory = store32 m d (load32 source b) in
      let (m', ran, rest) = insl-Loaded n (d + 4) (b + 4) source m1 s1 s' bytes more in
      (
        m',
        rw (insl, read) ran,
        subst (Loaded source m m' d b) (omega arith)
            (Loaded-append source m m1 m' d b 4 (n * 4) (store32-Loaded source m d b bytes) rest),
      )

  store-Loaded : (source m : Memory) (d b : ℕ) → Loaded source m (store m d (source b)) d b 1
  store-Loaded source m d b = record {
    inside = λ x i lt e.
        let at : b ≡ b + i = omega arith in
        let here : store m d (source b) x ≡ source b = ground arith in here ∙ ap source at;
    outside = λ x out. ground arith;
  }

  insb-Loaded :
      (n d b : ℕ) (source m : Memory) (s s' : S)
      → GivesBytes (bytes_at source b n) s s'
      → (m' : Memory) × (insb ports port d n m s ≡ (m', s')) × Loaded source m m' d b n
  unfolding insb bytes_at
  insb-Loaded zero d b source m s s' no_byte = (m, refl, nothing_read source m d b)
  insb-Loaded (suc n) d b source m s s' (a_byte {s1 = s1} read more) =
      let m1 : Memory = store m d (source b) in
      let (m', ran, rest) = insb-Loaded n (d + 1) (b + 1) source m1 s1 s' more in
      (
        m',
        rw (insb, read) ran,
        subst (Loaded source m m' d b) (omega arith)
            (Loaded-append source m m1 m' d b 1 n (store-Loaded source m d b) rest),
      )

  -- A block sent by `outsl` to a port whose device then gives back, in order, the double words that
  -- it has been sent, and read by `insl` at another place, is copied there, and nothing else in
  -- memory changes; the same holds of `outsb` and `insb` by bytes. Memory holds bytes, and the
  -- blocks may overlap.
  pub insl-outsl :
      (n d b : ℕ) (m : Memory) (s sl sb : S)
      → ((x : ℕ) → m x < 256)
      → GivesWords (words_at m b n) (sent_words (words_at m b n) s) sl
      → GivesBytes (bytes_at m b n) (sent_bytes (bytes_at m b n) s) sb
      → (ml : Memory) × (insl ports port d n m (outsl ports port b n m s) ≡ (ml, sl))
        × Loaded m m ml d b (n * 4)
        × (mb : Memory) × (insb ports port d n m (outsb ports port b n m s) ≡ (mb, sb))
        × Loaded m m mb d b n
  insl-outsl n d b m s sl sb bytes words_back bytes_back =
      let (ml, ran, loaded) =
        insl-Loaded n d b m m (sent_words (words_at m b n) s) sl bytes words_back in
      let (mb, ran', loaded') =
        insb-Loaded n d b m m (sent_bytes (bytes_at m b n) s) sb bytes_back in
      (
        ml,
        ap (insl ports port d n m) (outsl-sent n b m s) ∙ ran,
        loaded,
        mb,
        ap (insb ports port d n m) (outsb-sent n b m s) ∙ ran',
        loaded',
      )
