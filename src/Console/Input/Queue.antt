-- ===== src/Console/Input/Queue.antt =====
-- kern/console.c: the circular input buffer, against a queue.
use jos_ece.Prelude.{
  ℕ, zero, suc, ◌+◌, ◌-◌, ◌%◌, ◌^◌, ◌<◌, ◌≡◌, ◌≢◌, ◌∙◌, refl, sym, ap, ap₂, true, false, Bool-cases,
  inl, inr, List, [], ◌∷◌, ◌++◌, length, set, get_or, length-set, get_or-set_self, get_or-set_ne,
  arith, ◌==◌, if◌then◌else◌,
}
use jos_ece.Console.Input.{Cons, consbufsize, cons_store, cons_take}

pub record IsRing (k : Cons) : Type 0 where
  pub size : length k.buf ≡ consbufsize
  pub reader : k.rpos < consbufsize
  pub writer : k.wpos < consbufsize

abbrev window : List ℕ → ℕ → ℕ → List ℕ
window buf i zero = []
window buf i (suc n) = get_or buf i 0 ∷ window buf ((i + 1) % consbufsize) n

-- How many characters are waiting.
abbrev pub waiting : Cons → ℕ
waiting k = (k.wpos + consbufsize - k.rpos) % consbufsize

-- The characters waiting, oldest first.
abbrev pub pending : Cons → List ℕ
pending k = window k.buf k.rpos (waiting k)

pub length-pending : (k : Cons) → length (pending k) ≡ waiting k
length-pending k = go (waiting k) k.rpos
  where
    go : (n i : ℕ) → length (window k.buf i n) ≡ n
    go zero i = refl
    go (suc n) i = ap suc (go n ((i + 1) % consbufsize))

window-snoc :
    (buf : List ℕ) (i n : ℕ)
    → i < consbufsize
    → window buf i (suc n) ≡ window buf i n ++ get_or buf ((i + n) % consbufsize) 0 ∷ []
window-snoc buf i zero h = ap (λ j. get_or buf j 0 ∷ []) (omega arith)
window-snoc buf i (suc n) h =
    ap (λ q. get_or buf i 0 ∷ q)
      (window-snoc buf ((i + 1) % consbufsize) n (omega arith)
        ∙ ap (λ j. window buf ((i + 1) % consbufsize) n ++ get_or buf j 0 ∷ []) (omega arith))

-- A store outside a window does not show in it.
window-set :
    (buf : List ℕ) (i n w x : ℕ)
    → i < consbufsize
    → n < consbufsize
    → w ≡ (i + n) % consbufsize
    → window (set buf w x) i n ≡ window buf i n
window-set buf i zero w x hi hn e = refl
window-set buf i (suc n) w x hi hn e =
    ap₂ ◌∷◌ (get_or-set_ne buf w i x 0 (omega arith))
      (window-set buf ((i + 1) % consbufsize) n w x (omega arith) (omega arith) (omega arith))

pub cons_store-IsRing : (c : ℕ) (k : Cons) → IsRing k → IsRing (cons_store c k)
unfolding cons_store
cons_store-IsRing c k v = ground (arith, length-set k.buf k.wpos (c % 2 ^ 8))

pub cons_take-IsRing : (k : Cons) → IsRing k → IsRing (cons_take k).1
unfolding cons_take
cons_take-IsRing k v = ground arith

-- What one stored character makes of the waiting ones.
unfoldable pub put : ℕ → List ℕ → List ℕ
put c q = if c == 0 then q else if length q == consbufsize - 1 then [] else q ++ c % 2 ^ 8 ∷ []

unfoldable pub get : List ℕ → ℕ × List ℕ
get [] = (0, [])
get (c ∷ q) = (c, q)

stored : ℕ → Cons → Cons
stored c k = record k { buf = set k.buf k.wpos (c % 2 ^ 8); wpos = (k.wpos + 1) % consbufsize }

cons_store-stored : (c : ℕ) (k : Cons) → IsRing k → c ≢ 0 → cons_store c k ≡ stored c k
unfolding cons_store stored
cons_store-stored c k v ne = ground arith

pending-stored :
    (c : ℕ) (k : Cons)
    → IsRing k
    → pending (stored c k)
      ≡ (if waiting k == consbufsize - 1 then [] else pending k ++ c % 2 ^ 8 ∷ [])
unfolding stored
pending-stored c k v = elim (Bool-cases (waiting k == consbufsize - 1)) [
  | inl full ↦
      let none_left : waiting (stored c k) ≡ 0 = ground arith in
      rw full (ap (λ n. window (stored c k).buf k.rpos n) none_left)
  | inr room ↦
      let one_more : waiting (stored c k) ≡ suc (waiting k) = ground arith in
      let here : (k.rpos + waiting k) % consbufsize ≡ k.wpos = omega (arith, v) in
      let buf : List ℕ = set k.buf k.wpos (c % 2 ^ 8) in
      rw room (
        ap (λ n. window buf k.rpos n) one_more
        ∙ window-snoc buf k.rpos (waiting k) v.reader
        ∙ ap₂ (λ q x. q ++ x ∷ [])
            (window-set k.buf k.rpos (waiting k) k.wpos (c % 2 ^ 8) v.reader (omega arith)
              (sym here))
            (ap (λ j. get_or buf j 0) here
              ∙ get_or-set_self k.buf k.wpos (c % 2 ^ 8) 0 (omega (arith, v))))
]

nothing_stored : (c : ℕ) (k : Cons) → c ≡ 0 → cons_store c k ≡ k
unfolding cons_store
nothing_stored c k e = ground arith

-- A character that comes in is put behind those that wait; 0 is dropped; and the 512th character
-- empties the buffer, itself included.
pub pending-cons_store :
    (c : ℕ) (k : Cons) → IsRing k → pending (cons_store c k) ≡ put c (pending k)
unfolding put
pending-cons_store c k v = elim (Bool-cases (c == 0)) [
  | inl zero_in ↦ rw zero_in (ap pending (nothing_stored c k (ground arith)))
  | inr more ↦
      rw (more, length-pending k)
        (ap pending (cons_store-stored c k v (ground arith)) ∙ pending-stored c k v)
]

pub pending-cons_take :
    (k : Cons) → IsRing k → ((cons_take k).0, pending (cons_take k).1) ≡ get (pending k)
unfolding cons_take get
pending-cons_take k v = go (waiting k) refl
  where
    go :
        (n : ℕ)
        → waiting k ≡ n
        → ((cons_take k).0, pending (cons_take k).1) ≡ get (window k.buf k.rpos n)
    go zero e =
        let same : (k.rpos == k.wpos) ≡ true = ground arith in
        rw same (ap (λ n. (0, window k.buf k.rpos n)) e)
    go (suc n) e =
        let other : (k.rpos == k.wpos) ≡ false = ground arith in
        let next : (if k.rpos + 1 == consbufsize then 0 else k.rpos + 1)
            ≡ (k.rpos + 1) % consbufsize =
          ground arith in
        let fewer : (k.wpos + consbufsize - (k.rpos + 1) % consbufsize) % consbufsize ≡ n =
          omega (arith, v) in
        rw (other, next)
          (ap (λ m. (get_or k.buf k.rpos 0, window k.buf ((k.rpos + 1) % consbufsize) m)) fewer)

-- What an interrupt routine stores, and what a reader takes.
pub data Event : Type 0 where
  arrive : ℕ → Event
  read : Event

-- The results of the reads.
unfoldable pub run : List Event → Cons → List ℕ
run [] k = []
run (arrive c ∷ es) k = run es (cons_store c k)
run (read ∷ es) k = let (c, k') = cons_take k in c ∷ run es k'

unfoldable pub run_queue : List Event → List ℕ → List ℕ
run_queue [] q = []
run_queue (arrive c ∷ es) q = run_queue es (put c q)
run_queue (read ∷ es) q = let (c, q') = get q in c ∷ run_queue es q'

-- For any interleaving of arriving characters and reads, the reads of the circular buffer return
-- what a queue returns that starts from the waiting characters, drops a 0, and is emptied by a
-- character that comes in while 511 wait.
pub run-run_queue : (es : List Event) (k : Cons) → IsRing k → run es k ≡ run_queue es (pending k)
unfolding run run_queue
run-run_queue [] k v = refl
run-run_queue (arrive c ∷ es) k v =
    run-run_queue es (cons_store c k) (cons_store-IsRing c k v)
    ∙ ap (run_queue es) (pending-cons_store c k v)
run-run_queue (read ∷ es) k v =
    ap (λ q. (cons_take k).0 ∷ q) (run-run_queue es (cons_take k).1 (cons_take-IsRing k v))
    ∙ ap (λ r. r.0 ∷ run_queue es r.1) (pending-cons_take k v)
