-- ===== src/Boot/Disk.antt =====
-- boot/main.c: readsect on a disk that works.
use jos_ece.Prelude.{
  ℕ, zero, suc, ◌+◌, ◌-◌, ◌*◌, ◌/◌, ◌%◌, ◌^◌, ◌≤◌, ◌<◌, ◌≡◌, ◌⊎◌, ◌∙◌, inl, inr, refl, ap, subst,
  some, bit_or, arith, dec_lt, ◌==◌, if◌then◌else◌,
}
use jos_ece.Prelude.Bits.{bit_or-fields, bit_or_comm}
use jos_ece.Memory.{Memory, SameOutside}
use jos_ece.Boot.{DiskPorts, sectsize, load32, store32, waitdisk, insl, ask, readsect}

-- The `n` bytes from `d` on are those of `disk` from `b` on, and nothing else has changed.
pub record Loaded (disk m m' : Memory) (d b n : ℕ) : Type 0 where
  pub inside : (x i : ℕ) → i < n → x ≡ d + i → m' x ≡ disk (b + i)
  pub outside : SameOutside m m' d n

pub Loaded-append :
    (disk m m1 m2 : Memory) (d b n k : ℕ)
    → Loaded disk m m1 d b n
    → Loaded disk m1 m2 (d + n) (b + n) k
    → Loaded disk m m2 d b (n + k)
Loaded-append disk m m1 m2 d b n k h1 h2 = record {
  inside = λ x i lt e. elim (dec_lt i n) [
    | yes first ↦ h2.outside x (inl (omega arith)) ∙ h1.inside x i first e
    | no second ↦ h2.inside x (i - n) (omega arith) (omega arith) ∙ ap disk (omega arith)
  ];
  outside = λ x out. elim out [
    | inl low ↦ h2.outside x (inl (omega arith)) ∙ h1.outside x (inl low)
    | inr high ↦ h2.outside x (inr (omega arith)) ∙ h1.outside x (inr (omega arith))
  ];
}

-- The four bytes of a double word.
pub four_bytes :
    (disk : Memory) (b : ℕ)
    → ((x : ℕ) → disk x < 256)
    → (load32 disk b % 256 ≡ disk b)
      × (load32 disk b / 2 ^ 8 % 256 ≡ disk (b + 1))
      × (load32 disk b / 2 ^ 16 % 256 ≡ disk (b + 2))
      × (load32 disk b / 2 ^ 24 % 256 ≡ disk (b + 3))
unfolding load32
four_bytes disk b bytes =
    let h0 = bytes b in
    let h1 = bytes (b + 1) in
    let h2 = bytes (b + 2) in
    let h3 = bytes (b + 3) in
    (
      omega (arith, h0),
      omega (arith, h0, h1),
      omega (arith, h0, h1, h2),
      omega (arith, h0, h1, h2, h3),
    )

pub stored_byte :
    (m : Memory) (d w i : ℕ)
    → i < 4
    → store32 m d w (d + i) ≡ (
        if i == 0
        then w % 256
        else if i == 1
        then w / 2 ^ 8 % 256
        else if i == 2
        then w / 2 ^ 16 % 256
        else w / 2 ^ 24 % 256)
unfolding store32
stored_byte m d w i lt = ground arith

pub stored_elsewhere : (m : Memory) (d w x : ℕ) → (x < d) ⊎ (d + 4 ≤ x) → store32 m d w x ≡ m x
unfolding store32
stored_elsewhere m d w x out = ground arith

-- A double word of the disk, once stored, is its four bytes.
pub store32-Loaded :
    (disk m : Memory) (d b : ℕ)
    → ((x : ℕ) → disk x < 256)
    → Loaded disk m (store32 m d (load32 disk b)) d b 4
store32-Loaded disk m d b bytes = record {
  inside = λ x i lt e. ap (store32 m d w) e ∙ stored_byte m d w i lt ∙ byte i lt;
  outside = λ x out. unchanged x out;
}
  where
    w : ℕ
    w = load32 disk b

    byte :
        (i : ℕ)
        → i < 4
        → (if i == 0
            then w % 256
            else if i == 1
            then w / 2 ^ 8 % 256
            else if i == 2
            then w / 2 ^ 16 % 256
            else w / 2 ^ 24 % 256)
          ≡ disk (b + i)
    byte zero lt = (four_bytes disk b bytes).0 ∙ ap disk (omega arith)
    byte (suc zero) lt = (four_bytes disk b bytes).1
    byte (suc (suc zero)) lt = (four_bytes disk b bytes).2
    byte (suc (suc (suc zero))) lt = (four_bytes disk b bytes).3
    byte (suc (suc (suc (suc i)))) lt = absurd (omega arith)

    unchanged : (x : ℕ) → (x < d) ⊎ (d + 4 ≤ x) → store32 m d w x ≡ m x
    unchanged x out = stored_elsewhere m d w x out

module _ {S : Type 0} (ports : DiskPorts S) (disk : Memory) where
  open ports use {outb, inl}

  -- The next `n` double words of the data port are those of the disk from byte `b` on.
  pub data Delivers : ℕ → ℕ → S → S → Type 0 where
    none_left : {b : ℕ} {s : S} → Delivers 0 b s s
    next_word :
        {n b : ℕ} {s s1 s' : S}
        → inl 0x1F0 s ≡ (load32 disk b, s1)
        → Delivers n (b + 4) s1 s'
        → Delivers (suc n) b s s'

  -- A disk that works, with what it has: an idle one is ready within `f` polls, and it stays idle;
  -- one that has been asked for a sector by its ports is ready within `f` polls too, and then
  -- delivers the sector and is idle. A sector's number has 28 bits.
  pub record Works (f : ℕ) (Idle : S → Type 0) : Type 0 where
    pub bytes : (x : ℕ) → disk x < 256
    pub ready : (s : S) → Idle s → (s1 : S) × (waitdisk ports f s ≡ some s1) × Idle s1
    pub answers :
        (s : S) (d0 d1 d2 d3 : ℕ)
        → Idle s
        → let asked = outb 0x1F7 0x20 (
            outb 0x1F6
              (d3 + 0xE0)
              (outb 0x1F5 d2 (outb 0x1F4 d1 (outb 0x1F3 d0 (outb 0x1F2 1 s))))) in
          d0 < 2 ^ 8
          → d1 < 2 ^ 8
          → d2 < 2 ^ 8
          → d3 < 2 ^ 4
          → (s2 : S) × (waitdisk ports f asked ≡ some s2)
            × (s' : S) × Delivers
                (sectsize / 4)
                ((d0 + d1 * 2 ^ 8 + d2 * 2 ^ 16 + d3 * 2 ^ 24) * sectsize)
                s2
                s'
            × Idle s'

  insl-Loaded :
      (n d b : ℕ) (m : Memory) (s s' : S)
      → ((x : ℕ) → disk x < 256)
      → Delivers n b s s'
      → (m' : Memory) × (insl ports n d m s ≡ (m', s')) × Loaded disk m m' d b (n * 4)
  unfolding insl
  insl-Loaded zero d b m s s' bytes none_left =
      (m, refl, record { inside = λ x i lt e. absurd (omega arith); outside = λ x out. refl })
  insl-Loaded (suc n) d b m s s' bytes (next_word {s1 = s1} read more) =
      let m1 : Memory = store32 m d (load32 disk b) in
      let (m', ran, rest) = insl-Loaded n (d + 4) (b + 4) m1 s1 s' bytes more in
      (
        m',
        rw (insl, read) ran,
        subst (Loaded disk m m' d b) (omega arith)
            (Loaded-append disk m m1 m' d b 4 (n * 4) (store32-Loaded disk m d b bytes) rest),
      )

  head_register : (d : ℕ) → d < 2 ^ 4 → bit_or d 0xE0 % 2 ^ 8 ≡ d + 0xE0
  head_register d lt =
      let e : bit_or d 0xE0 ≡ 14 * 2 ^ 4 + d = bit_or_comm d 0xE0 ∙ bit_or-fields 4 14 d lt in
      omega (arith, e)

  readsect_ran :
      (f dst offset : ℕ) (m m' : Memory) (s s1 s2 s' : S)
      → offset < 2 ^ 28
      → waitdisk ports f s ≡ some s1
      → waitdisk ports f (
          outb 0x1F7 0x20 (
            outb 0x1F6 (offset / 2 ^ 24 + 0xE0) (
              outb 0x1F5 (offset / 2 ^ 16 % 2 ^ 8) (
                outb 0x1F4
                  (offset / 2 ^ 8 % 2 ^ 8)
                  (outb 0x1F3 (offset % 2 ^ 8) (outb 0x1F2 1 s1))))))
        ≡ some s2
      → insl ports 128 dst m s2 ≡ (m', s')
      → readsect ports f dst offset (m, s) ≡ some (m', s')
  unfolding readsect ask
  readsect_ran f dst offset m m' s s1 s2 s' lt waited waited2 ran =
      rw (readsect, waited, ask, head_register (offset / 2 ^ 24) (omega arith), waited2, ran) refl

  -- On a disk that works, `readsect` ends: it has put the 512 bytes of the sector of a 28-bit
  -- number at `dst` and changed nothing else, and the disk is idle again.
  pub readsect-Loaded :
      (f dst offset : ℕ) (m : Memory) (s : S) (Idle : S → Type 0)
      → Works f Idle
      → Idle s
      → offset < 2 ^ 28
      → (m' : Memory) × (s' : S) × (readsect ports f dst offset (m, s) ≡ some (m', s'))
        × Loaded disk m m' dst (offset * sectsize) sectsize
        × Idle s'
  readsect-Loaded f dst offset m s Idle h idle lt =
      let (s1, waited, idle1) = h.ready s idle in
      let (s2, waited2, s', given, idle') =
        h.answers s1 (offset % 2 ^ 8) (offset / 2 ^ 8 % 2 ^ 8) (offset / 2 ^ 16 % 2 ^ 8)
          (offset / 2 ^ 24) idle1 (omega arith) (omega arith) (omega arith) (omega arith) in
      let given' : Delivers 128 (offset * sectsize) s2 s' =
        subst (λ b. Delivers 128 b s2 s') (omega arith) given in
      let (m', ran, loaded) = insl-Loaded 128 dst (offset * sectsize) m s2 s' h.bytes given' in
      (m', s', readsect_ran f dst offset m m' s s1 s2 s' lt waited waited2 ran, loaded, idle')
