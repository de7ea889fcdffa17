-- ===== src/Format/Buffer.antt =====
-- lib/printfmt.c: vsnprintf and snprintf. The format and the strings that it prints stand in one
-- memory, the buffer in another: they do not overlap. `buf` is never 0 when it is written through.
use jos_ece.Prelude.{
  ℕ, zero, suc, ◌+◌, ◌-◌, ◌%◌, ◌^◌, ◌≤◌, ◌<◌, ◌≡◌, ◌≢◌, ◌∙◌, refl, sym, subst, ap, true, false,
  ltb→lt, List, [], ◌∷◌, length, get_or, Option, none, some, ◌||◌, Bool-cases, inl, inr, arith, ltb,
  ◌==◌, if◌then◌else◌,
}
use Prim.Native.Nat.{min}
use jos_ece.Prelude.Int.{ℤ, pos, negsuc, ltb_ℤ, pos_part}
use jos_ece.Memory.{Memory, store, SameOutside}
use jos_ece.Format.Text.{signed32}
use jos_ece.Format.Print.{Printed, vprintfmt}

pub record SprintBuf : Type 0 where
  pub buf : ℕ
  pub ebuf : ℕ
  pub cnt : ℕ

unfoldable pub sprintputch : ℕ → SprintBuf × Memory → SprintBuf × Memory
sprintputch ch (b, m) =
    if ltb b.buf b.ebuf
    then (record b { buf = b.buf + 1; cnt = (b.cnt + 1) % 2 ^ 32 }, store m b.buf (ch % 2 ^ 8))
    else (record b { cnt = (b.cnt + 1) % 2 ^ 32 }, m)

unfoldable pub sprint : List ℕ → SprintBuf × Memory → SprintBuf × Memory
sprint [] s = s
sprint (ch ∷ out) s = sprint out (sprintputch ch s)

-- The result, as the `int` that `cnt` is, and the memory of the buffer; `none` where vprintfmt gives no list. -E_INVAL is -3.
unfoldable pub vsnprintf : ℕ → Memory → Memory → ℕ → ℤ → ℕ → List ℕ → Option (ℤ × Memory)
unfolding sprint sprintputch
vsnprintf f rom m buf n fmt ap =
    if buf == 0 || ltb_ℤ n (pos 1) then some (negsuc 2, m) else elim (vprintfmt f rom fmt ap) [
      | Printed.done out ↦
          let (b, m') =
            sprint out (record { buf = buf; ebuf = buf + pos_part n - 1; cnt = 0 }, m) in
          some (signed32 b.cnt, store m' b.buf 0)
      | Printed.undefined ↦ none
      | Printed.no_fuel ↦ none
    ]

unfoldable pub snprintf : ℕ → Memory → Memory → ℕ → ℤ → ℕ → List ℕ → Option (ℤ × Memory)
unfolding vsnprintf
snprintf f rom m buf n fmt ap = vsnprintf f rom m buf n fmt ap

-- What the callback has left after `out`, from the place `b.buf` with `room` bytes to the end.
record Sprinted (out : List ℕ) (b : SprintBuf) (m : Memory) (r : SprintBuf × Memory) : Type 0 where
  at : r.0.buf ≡ b.buf + min (b.ebuf - b.buf) (length out)
  count : r.0.cnt ≡ (b.cnt + length out) % 2 ^ 32
  bytes : (i : ℕ) → i < min (b.ebuf - b.buf) (length out) → r.1 (b.buf + i) ≡ get_or out i 0 % 2 ^ 8
  same : SameOutside m r.1 b.buf (min (b.ebuf - b.buf) (length out))

sprintputch_room :
    (ch : ℕ) (b : SprintBuf) (m : Memory)
    → ltb b.buf b.ebuf ≡ true
    → sprintputch ch (b, m)
      ≡ (record b { buf = b.buf + 1; cnt = (b.cnt + 1) % 2 ^ 32 }, store m b.buf (ch % 2 ^ 8))
unfolding sprintputch
sprintputch_room ch b m room = rw room

sprintputch_full :
    (ch : ℕ) (b : SprintBuf) (m : Memory)
    → ltb b.buf b.ebuf ≡ false
    → sprintputch ch (b, m) ≡ (record b { cnt = (b.cnt + 1) % 2 ^ 32 }, m)
unfolding sprintputch
sprintputch_full ch b m full = rw full

sprint-Sprinted :
    (out : List ℕ) (b : SprintBuf) (m : Memory)
    → b.cnt < 2 ^ 32
    → Sprinted out b m (sprint out (b, m))
unfolding sprint
sprint-Sprinted [] b m h = record {
  at = omega arith;
  count = omega arith;
  bytes = λ i lt. absurd (omega arith);
  same = λ x o. refl;
}
sprint-Sprinted (ch ∷ out) b m h = elim (Bool-cases (ltb b.buf b.ebuf)) [
  | inl room ↦
      let b1 : SprintBuf = record b { buf = b.buf + 1; cnt = (b.cnt + 1) % 2 ^ 32 } in
      let m1 : Memory = store m b.buf (ch % 2 ^ 8) in
      let r : Sprinted out b1 m1 (sprint out (b1, m1)) = sprint-Sprinted out b1 m1 (omega arith) in
      let lt : b.buf < b.ebuf = ltb→lt b.buf b.ebuf room in
      subst (Sprinted (ch ∷ out) b m) (ap (sprint out) (sym (sprintputch_room ch b m room)))
        (record {
          at = omega (arith, r.at);
          count = omega (arith, r.count);
          bytes =
              bytes_suc ch out b m1 (sprint out (b1, m1)).1 lt
                (r.same b.buf (omega arith) ∙ ground arith)
                (λ i below. ap (sprint out (b1, m1)).1 (omega arith) ∙ r.bytes i (omega arith));
          same = λ x o. r.same x (omega arith) ∙ ground arith;
        })
  | inr full ↦
      let b1 : SprintBuf = record b { cnt = (b.cnt + 1) % 2 ^ 32 } in
      let r : Sprinted out b1 m (sprint out (b1, m)) = sprint-Sprinted out b1 m (omega arith) in
      let ge : b.ebuf ≤ b.buf = ground arith in
      subst (Sprinted (ch ∷ out) b m) (ap (sprint out) (sym (sprintputch_full ch b m full)))
        (record {
          at = omega (arith, r.at);
          count = omega (arith, r.count);
          bytes = λ i below. absurd (omega arith);
          same = λ x o. r.same x (omega arith);
        })
]
  where
    bytes_suc :
        (ch : ℕ) (out : List ℕ) (b : SprintBuf) (m1 m' : Memory)
        → b.buf < b.ebuf
        → m' b.buf ≡ ch % 2 ^ 8
        → ((i : ℕ)
            → i < min (b.ebuf - (b.buf + 1)) (length out)
            → m' (b.buf + suc i) ≡ get_or out i 0 % 2 ^ 8)
        → (i : ℕ) → i < min (b.ebuf - b.buf) (suc (length out))
        → m' (b.buf + i) ≡ get_or (ch ∷ out) i 0 % 2 ^ 8
    bytes_suc ch out b m1 m' lt first later zero below = ap m' (omega arith) ∙ first
    bytes_suc ch out b m1 m' lt first later (suc i) below = later i (omega arith)

store_self : (m : Memory) (p q v : ℕ) → p ≡ q → store m p v q ≡ v
store_self m p q v e = ground arith

store_other : (m : Memory) (p q v : ℕ) → p ≢ q → store m p v q ≡ m q
store_other m p q v ne = ground arith

vsnprintf_total :
    (f : ℕ) (rom m : Memory) (buf n fmt : ℕ) (va : List ℕ) (out : List ℕ)
    → vprintfmt f rom fmt va ≡ Printed.done out
    → 0 < buf
    → 0 < n
    → vsnprintf f rom m buf (pos n) fmt va ≡ (
        let r = sprint out (record { buf = buf; ebuf = buf + n - 1; cnt = 0 }, m) in
        some (signed32 r.0.cnt, store r.1 r.0.buf 0))
unfolding vsnprintf
vsnprintf_total f rom m zero n fmt va out ran nonnull room = elim nonnull [ ]
vsnprintf_total f rom m (suc buf) zero fmt va out ran nonnull room = elim room [ ]
vsnprintf_total f rom m (suc buf) (suc n) fmt va out ran nonnull room =
    let tests : (suc buf == 0 || ltb_ℤ (pos (suc n)) (pos 1)) ≡ false = ground arith in
    rw (tests, ran) refl

-- Where vprintfmt puts the characters `out`, and for a buffer of `n` bytes, `n` not 0, `vsnprintf`
-- returns how many these are, as an `int` that wraps, leaves the first `n - 1` of them in the buffer with a
-- NUL behind them, and changes nothing outside what these take, so nothing outside the buffer.
pub vsnprintf_lem :
    (f : ℕ) (rom m : Memory) (buf n fmt : ℕ) (va : List ℕ) (out : List ℕ)
    → vprintfmt f rom fmt va ≡ Printed.done out
    → 0 < buf
    → 0 < n
    → (m' : Memory) × (vsnprintf f rom m buf (pos n) fmt va
        ≡ some (signed32 (length out % 2 ^ 32), m'))
      × ((i : ℕ) → i < min (n - 1) (length out) → m' (buf + i) ≡ get_or out i 0 % 2 ^ 8)
      × (m' (buf + min (n - 1) (length out)) ≡ 0)
      × SameOutside m m' buf (min (n - 1) (length out) + 1)
vsnprintf_lem f rom m buf n fmt va out ran nonnull room =
    let b : SprintBuf = record { buf = buf; ebuf = buf + n - 1; cnt = 0 } in
    let r : SprintBuf × Memory = sprint out (b, m) in
    let s : Sprinted out b m r = sprint-Sprinted out b m (omega arith) in
    let place : r.0.buf ≡ buf + min (n - 1) (length out) = omega (arith, s.at) in
    let count : r.0.cnt ≡ length out % 2 ^ 32 = omega (arith, s.count) in
    (
      store r.1 r.0.buf 0,
      rw (vsnprintf_total f rom m buf n fmt va out ran nonnull room, count) refl,
      λ i lt. store_other r.1 r.0.buf (buf + i) 0 (λ e. omega arith) ∙ s.bytes i (omega arith),
      store_self r.1 r.0.buf (buf + min (n - 1) (length out)) 0 place,
      λ x o. store_other r.1 r.0.buf x 0 (λ e. omega arith) ∙ s.same x (omega arith),
    )
