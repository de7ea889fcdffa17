-- ===== src/Console/Machine/Getc.antt =====
-- kern/console.c: cons_intr and cons_getc, against the queue of waiting characters.
use jos_ece.Prelude.{
  ℕ, zero, suc, ◌+◌, ◌%◌, map, append-nil, append_assoc, length-append, ◌-◌, ◌^◌, ◌≡◌, ◌≢◌, ◌<◌,
  ◌∙◌, refl, sym, ap, length, List, [], ◌∷◌, ◌++◌, Option, some, true, false, ◌==◌, arith,
}
use jos_ece.Console.Ports.{Ports}
use jos_ece.Console.Keyboard.{Keyboard, kbd_proc_data}
use jos_ece.Console.Input.{consbufsize, Cons, cons_store, cons_intr, cons_take}
use jos_ece.Console.Input.Queue.{
  IsRing, pending, put, get, pending-cons_store, pending-cons_take, cons_store-IsRing,
  cons_take-IsRing,
}
use jos_ece.Console.Machine.{Machine, serial_proc, serial_intr, kbd_intr, cons_getc}

-- The state of the buffer once the characters `cs` have come in one by one.
unfoldable pub put_each : List ℕ → List ℕ → List ℕ
put_each [] q = q
put_each (c ∷ cs) q = put_each cs (put c q)

put_each-append : (cs ds q : List ℕ) → put_each (cs ++ ds) q ≡ put_each ds (put_each cs q)
unfolding put_each
put_each-append [] ds q = refl
put_each-append (c ∷ cs) ds q = put_each-append cs ds (put c q)

-- There is no 0 among the characters, and they do not overflow the buffer behind `q`.
abbrev pub NoZero : List ℕ → Type 0
NoZero [] = Unit
NoZero (c ∷ cs) = (c ≢ 0) × NoZero cs

abbrev pub Fits : List ℕ → List ℕ → Type 0
Fits cs q = NoZero cs × (length q + length cs < consbufsize)

put-room : (c : ℕ) (q : List ℕ) → c ≢ 0 → length q + 1 < consbufsize → put c q ≡ q ++ c % 2 ^ 8 ∷ []
unfolding put
put-room c q ne lt = ground arith

put_each-Fits : (cs q : List ℕ) → Fits cs q → put_each cs q ≡ q ++ map (λ x. x % 2 ^ 8) cs
unfolding put_each
put_each-Fits [] q h = sym (append-nil q)
put_each-Fits (c ∷ cs) q ((ne, h), lt) =
    let more : put c q ≡ q ++ c % 2 ^ 8 ∷ [] = put-room c q ne (omega arith) in
    ap (put_each cs) more
    ∙ put_each-Fits cs (q ++ c % 2 ^ 8 ∷ []) (h, omega (arith, length-append q (c % 2 ^ 8 ∷ [])))
    ∙ append_assoc q (c % 2 ^ 8 ∷ []) (map (λ x. x % 2 ^ 8) cs)

module _ {K : Type 0} (proc : K → ℕ × K) where
  -- Asked again and again, `proc` returns the characters `cs` and then -1, and is left in `s'`.
  abbrev pub Drains : K → List ℕ → K → Type 0
  Drains s [] s' = proc s ≡ (2 ^ 32 - 1, s')
  Drains s (c ∷ cs) s' = (s1 : K) × (proc s ≡ (c, s1)) × (c ≢ 2 ^ 32 - 1) × Drains s1 cs s'

  cons_intr_end :
      (f : ℕ) (s s' : K) (k : Cons)
      → proc s ≡ (2 ^ 32 - 1, s')
      → cons_intr (suc f) proc s k ≡ some (s', k)
  unfolding cons_intr
  cons_intr_end f s s' k e = rw e refl

  cons_intr_more :
      (f : ℕ) (s s1 : K) (c : ℕ) (k : Cons)
      → proc s ≡ (c, s1)
      → c ≢ 2 ^ 32 - 1
      → cons_intr (suc f) proc s k ≡ cons_intr f proc s1 (cons_store c k)
  unfolding cons_intr
  cons_intr_more f s s1 c k e ne =
      let t : (c == 2 ^ 32 - 1) ≡ false = ground arith in rw (e, t) refl

  -- What the loop has left: the device's state, and the characters in the buffer.
  abbrev pub Fed : Cons → List ℕ → K → Option (K × Cons) → Type 0
  Fed k cs s' r =
      (k' : Cons) × (r ≡ some (s', k')) × IsRing k' × (pending k' ≡ put_each cs (pending k))

  pub cons_intr-Fed :
      (f : ℕ) (s s' : K) (k : Cons) (cs : List ℕ)
      → IsRing k
      → Drains s cs s'
      → length cs < f
      → Fed k cs s' (cons_intr f proc s k)
  unfolding put_each
  cons_intr-Fed zero s s' k cs v h lt = elim lt [ ]
  cons_intr-Fed (suc f) s s' k [] v h lt = (k, cons_intr_end f s s' k h, v, refl)
  cons_intr-Fed (suc f) s s' k (c ∷ cs) v (s1, e, ne, h) lt =
      let (k', ran, ring, fed) =
        cons_intr-Fed f s1 s' (cons_store c k) cs (cons_store-IsRing c k v) h (omega arith) in
      (
        k',
        cons_intr_more f s s1 c k e ne ∙ ran,
        ring,
        fed ∙ ap (put_each cs) (pending-cons_store c k v),
      )

module _ {S : Type 0} (ports : Ports S) where
  serial_intr_ran :
      (f : ℕ) (t : Machine S) (k1 : Keyboard S) (k' : Cons)
      → t.serial_exists ≡ true
      → cons_intr f (serial_proc ports) t.keyboard t.cons ≡ some (k1, k')
      → serial_intr ports f t ≡ some (record t { keyboard = k1; cons = k' })
  unfolding serial_intr
  serial_intr_ran f t k1 k' exists ran = simp (exists, ran) refl

  serial_intr-Fed :
      (f : ℕ) (t : Machine S) (k1 : Keyboard S) (cs : List ℕ)
      → IsRing t.cons
      → t.serial_exists ≡ true
      → Drains (serial_proc ports) t.keyboard cs k1
      → length cs < f
      → (k' : Cons) × (serial_intr ports f t ≡ some (record t { keyboard = k1; cons = k' }))
        × IsRing k'
        × (pending k' ≡ put_each cs (pending t.cons))
  serial_intr-Fed f t k1 cs v exists h lt =
      let (k', ran, ring, fed) =
        cons_intr-Fed (serial_proc ports) f t.keyboard k1 t.cons cs v h lt in
      (k', serial_intr_ran f t k1 k' exists ran, ring, fed)

  kbd_intr-Fed :
      (f : ℕ) (t : Machine S) (k1 : Keyboard S) (cs : List ℕ)
      → IsRing t.cons
      → Drains (kbd_proc_data ports) t.keyboard cs k1
      → length cs < f
      → (k' : Cons) × (kbd_intr ports f t ≡ some (record t { keyboard = k1; cons = k' }))
        × IsRing k'
        × (pending k' ≡ put_each cs (pending t.cons))
  unfolding kbd_intr
  kbd_intr-Fed f t k1 cs v h lt =
      let (k', ran, ring, fed) =
        cons_intr-Fed (kbd_proc_data ports) f t.keyboard k1 t.cons cs v h lt in
      (k', rw (kbd_intr, ran) refl, ring, fed)

  -- Where the serial port exists and gives the characters `cs` before it has no more, and the
  -- keyboard then gives `ds`, `cons_getc` ends, and returns what `get` takes from the queue of the
  -- waiting characters that these have been put to one by one: a 0 is dropped, and a character that
  -- comes in while 511 wait empties the queue. Where neither `cs` nor `ds` has a 0 and together with
  -- the waiting ones they are at most 511, the queue is the waiting characters, then the bytes of
  -- `cs`, then those of `ds`: the oldest is returned, or 0 if there is none, and the others wait.
  pub cons_getc-oldest :
      (f : ℕ) (t : Machine S) (k1 k2 : Keyboard S) (cs ds : List ℕ)
      → IsRing t.cons
      → t.serial_exists ≡ true
      → Drains (serial_proc ports) t.keyboard cs k1
      → Drains (kbd_proc_data ports) k1 ds k2
      → length cs < f
      → length ds < f
      → (c : ℕ) × (k' : Cons) × (cons_getc ports f t
          ≡ some (c, record t { keyboard = k2; cons = k' }))
        × IsRing k'
        × ((c, pending k') ≡ get (put_each (cs ++ ds) (pending t.cons)))
        × (Fits (cs ++ ds) (pending t.cons)
            → put_each (cs ++ ds) (pending t.cons)
              ≡ pending t.cons ++ map (λ x. x % 2 ^ 8) (cs ++ ds))
  unfolding cons_getc
  cons_getc-oldest f t k1 k2 cs ds v exists hs hk ls lk =
      let (a, ran1, ring1, fed1) = serial_intr-Fed f t k1 cs v exists hs ls in
      let t1 : Machine S = record t { keyboard = k1; cons = a } in
      let (b, ran2, ring2, fed2) = kbd_intr-Fed f t1 k2 ds ring1 hk lk in
      (
        (cons_take b).0,
        (cons_take b).1,
        rw (cons_getc, ran1, ran2) refl,
        cons_take-IsRing b ring2,
        pending-cons_take b ring2
            ∙ ap get (fed2 ∙ ap (put_each ds) fed1 ∙ sym (put_each-append cs ds (pending t.cons))),
        put_each-Fits (cs ++ ds) (pending t.cons),
      )
