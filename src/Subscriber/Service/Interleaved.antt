-- ===== src/Subscriber/Service/Interleaved.antt =====
-- internal/subscriber/service.go: `nextID` in requests that run at the same time. No lock guards the
-- counter: `idCounter++` is a read and a write, and the text is made from a further read.
use mathlib.Core.Path.{subst}
use mathlib.Core.Option.{some-injective}
use my_demo_app.Prelude.{
  replicate, length-set, length-replicate, ap, ◌∙◌, ◌^◌, ◌<◌, ℕ, zero, suc, ◌+◌, ◌^◌, ◌≤◌, ◌<◌, ◌≡◌,
  refl, ap, ◌∙◌, some, List, [], ◌∷◌, arith, length, get_elem?, set, length-set, replicate,
  length-replicate,
}
use my_demo_app.Prelude.Int.{ℤ, pos}
use my_demo_app.Word.{add64, add64_one}

-- How far a call has come: it has read the counter, written it, or read it again for the text.
pub data Call : Type 0 where
  entered : Call
  loaded : ℤ → Call
  written : Call
  drawn : ℤ → Call

-- The counter, and the calls that run.
pub record Calls : Type 0 where
  pub id_counter : ℤ
  pub calls : List Call

-- One step of the call number `i`.
pub data CallStep : Calls → Calls → Type 0 where
  loads :
      (c : Calls) (i : ℕ)
      → get_elem? c.calls i ≡ some entered
      → CallStep c (record c { calls = set c.calls i (loaded c.id_counter) })
  writes :
      (c : Calls) (i : ℕ) (n : ℤ)
      → get_elem? c.calls i ≡ some (loaded n)
      → CallStep c (record { id_counter = add64 n (pos 1); calls = set c.calls i written })
  reads :
      (c : Calls) (i : ℕ)
      → get_elem? c.calls i ≡ some written
      → CallStep c (record c { calls = set c.calls i (drawn c.id_counter) })

-- What some number of calls may come to, from a counter at `n`.
pub data CallsReach (n k : ℕ) : Calls → Type 0 where
  all_entered : CallsReach n k (record { id_counter = pos n; calls = replicate k entered })
  stepped : (c c' : Calls) → CallsReach n k c → CallStep c c' → CallsReach n k c'

has_written : Call → ℕ
has_written entered = 0
has_written (loaded n) = 0
has_written written = 1
has_written (drawn n) = 1

-- The calls that have written.
writers : List Call → ℕ
writers [] = 0
writers (c ∷ calls) = has_written c + writers calls

-- A value of the counter from `low` to `high`.
abbrev pub Within : ℕ → ℕ → ℤ → Type 0
Within low high z = (m : ℕ) × (z ≡ pos m) × (low ≤ m) × (m ≤ high)

IsHeld : ℕ → ℕ → Call → Type 0
IsHeld n w entered = Unit
IsHeld n w (loaded z) = Within n (n + w) z
IsHeld n w written = Unit
IsHeld n w (drawn z) = Within (n + 1) (n + w) z

AllHeld : ℕ → ℕ → List Call → Type 0
AllHeld n w [] = Unit
AllHeld n w (c ∷ calls) = IsHeld n w c × AllHeld n w calls

record IsBounded (n k : ℕ) (c : Calls) : Type 0 where
  counter : Within n (n + writers c.calls) c.id_counter
  raised : 1 ≤ writers c.calls → Within (n + 1) (n + writers c.calls) c.id_counter
  held : AllHeld n (writers c.calls) c.calls
  number : length c.calls ≡ k

writers-le : (calls : List Call) → writers calls ≤ length calls
unfolding writers has_written
writers-le [] = omega arith
writers-le (entered ∷ calls) = omega (arith, writers-le calls)
writers-le (loaded n ∷ calls) = omega (arith, writers-le calls)
writers-le (written ∷ calls) = omega (arith, writers-le calls)
writers-le (drawn n ∷ calls) = omega (arith, writers-le calls)

writers-set :
    (calls : List Call) (i : ℕ) (old new : Call)
    → get_elem? calls i ≡ some old
    → writers (set calls i new) + has_written old ≡ writers calls + has_written new
unfolding writers
writers-set [] i old new h = cc
writers-set (c ∷ calls) zero old new h = ground arith
writers-set (c ∷ calls) (suc i) old new h = omega (arith, writers-set calls i old new h)

AllHeld-up : (n v w : ℕ) (calls : List Call) → v ≤ w → AllHeld n v calls → AllHeld n w calls
unfolding AllHeld IsHeld
AllHeld-up n v w [] le h = tt
AllHeld-up n v w (entered ∷ calls) le (h, hs) = (tt, AllHeld-up n v w calls le hs)
AllHeld-up n v w (loaded z ∷ calls) le ((m, is, low, high), hs) =
    ((m, is, low, omega arith), AllHeld-up n v w calls le hs)
AllHeld-up n v w (written ∷ calls) le (h, hs) = (tt, AllHeld-up n v w calls le hs)
AllHeld-up n v w (drawn z ∷ calls) le ((m, is, low, high), hs) =
    ((m, is, low, omega arith), AllHeld-up n v w calls le hs)

AllHeld-set :
    (n w : ℕ) (calls : List Call) (i : ℕ) (new : Call)
    → IsHeld n w new
    → AllHeld n w calls
    → AllHeld n w (set calls i new)
unfolding AllHeld
AllHeld-set n w [] i new p h = tt
AllHeld-set n w (c ∷ calls) zero new p (h, hs) = (p, hs)
AllHeld-set n w (c ∷ calls) (suc i) new p (h, hs) = (h, AllHeld-set n w calls i new p hs)

AllHeld-at :
    (n w : ℕ) (calls : List Call) (i : ℕ) (c : Call)
    → get_elem? calls i ≡ some c
    → AllHeld n w calls
    → IsHeld n w c
unfolding AllHeld
AllHeld-at n w [] i c e h = cc
AllHeld-at n w (d ∷ calls) zero c e (h, hs) = subst (IsHeld n w) (some-injective _ _ e) h
AllHeld-at n w (d ∷ calls) (suc i) c e (h, hs) = AllHeld-at n w calls i c e hs

step-IsBounded :
    (n k : ℕ) (c c' : Calls) → n + k < 2 ^ 63 → CallStep c c' → IsBounded n k c → IsBounded n k c'
unfolding has_written IsHeld
step-IsBounded n k _ _ room (loads c i at) b =
    let same : writers (set c.calls i (loaded c.id_counter)) ≡ writers c.calls =
      omega (arith, writers-set c.calls i entered (loaded c.id_counter) at) in
    record {
      counter = rw same b.counter;
      raised = rw same b.raised;
      held =
          rw same
            (AllHeld-set n (writers c.calls) c.calls i (loaded c.id_counter) b.counter b.held);
      number = length-set c.calls i (loaded c.id_counter) ∙ b.number;
    }
step-IsBounded n k _ _ room (writes c i z at) b =
    let calls = set c.calls i written in
    let more : writers calls ≡ writers c.calls + 1 =
      omega (arith, writers-set c.calls i (loaded z) written at) in
    let number : length calls ≡ k = length-set c.calls i written ∙ b.number in
    let (m, is, low, high) = AllHeld-at n (writers c.calls) c.calls i (loaded z) at b.held in
    let up : add64 z (pos 1) ≡ pos (m + 1) =
      ap (λ x. add64 x (pos 1)) is ∙ add64_one m (omega (arith, writers-le calls, more, number)) in
    record {
      counter = (m + 1, up, omega arith, omega (arith, more));
      raised = λ some. (m + 1, up, omega arith, omega (arith, more));
      held =
          AllHeld-set n (writers calls) c.calls i written tt
            (AllHeld-up n (writers c.calls) (writers calls) c.calls (omega (arith, more)) b.held);
      number = number;
    }
step-IsBounded n k _ _ room (reads c i at) b =
    let calls = set c.calls i (drawn c.id_counter) in
    let same : writers calls ≡ writers c.calls =
      omega (arith, writers-set c.calls i written (drawn c.id_counter) at) in
    let one : 1 ≤ writers c.calls = omega (arith, writers-set c.calls i written entered at) in
    record {
      counter = rw same b.counter;
      raised = rw same b.raised;
      held =
          rw same
            (AllHeld-set n (writers c.calls) c.calls i (drawn c.id_counter) (b.raised one) b.held);
      number = length-set c.calls i (drawn c.id_counter) ∙ b.number;
    }

begun-AllHeld : (n w k : ℕ) → AllHeld n w (replicate k entered)
unfolding AllHeld IsHeld
begun-AllHeld n w zero = tt
begun-AllHeld n w (suc k) = (tt, begun-AllHeld n w k)

writers-replicate : (k : ℕ) → writers (replicate k entered) ≡ 0
unfolding writers has_written
writers-replicate zero = refl
writers-replicate (suc k) = omega (arith, writers-replicate k)

CallsReach-IsBounded : (n k : ℕ) (c : Calls) → n + k < 2 ^ 63 → CallsReach n k c → IsBounded n k c
CallsReach-IsBounded n k _ room all_entered = record {
  counter = (n, refl, omega arith, omega arith);
  raised = λ some. absurd (omega (arith, writers-replicate k));
  held = begun-AllHeld n (writers (replicate k entered)) k;
  number = length-replicate k entered;
}
CallsReach-IsBounded n k _ room (stepped c c' before step) =
    step-IsBounded n k c c' room step (CallsReach-IsBounded n k c room before)

-- However k calls of nextID interleave from a counter at n, while the counter does not wrap, the
-- counter stays from n to n + k and every number that a call draws is from n + 1 to n + k.
pub drawn-Within :
    (n k : ℕ) (c : Calls)
    → n + k < 2 ^ 63
    → CallsReach n k c
    → Within n (n + k) c.id_counter
      × ((i : ℕ) (z : ℤ) → get_elem? c.calls i ≡ some (drawn z) → Within (n + 1) (n + k) z)
unfolding IsHeld
drawn-Within n k c room reach =
    let b = CallsReach-IsBounded n k c room reach in
    let (m, is, low, high) = b.counter in
    let few = writers-le c.calls in
    (
      (m, is, low, omega (arith, few, b.number)),
      λ i z at.
          let (d, d_is, d_low, d_high) =
            AllHeld-at n (writers c.calls) c.calls i (drawn z) at b.held in
          (d, d_is, d_low, omega (arith, few, b.number)),
    )

-- From every counter that does not wrap, two calls of nextID can interleave so that both draw the
-- same number.
pub CallsReach-same :
    (n : ℕ)
    → n + 1 < 2 ^ 63
    → (c : Calls) × CallsReach n 2 c × (c.calls ≡ drawn (pos (n + 1)) ∷ drawn (pos (n + 1)) ∷ [])
CallsReach-same n room = (
  _,
  stepped _ _
      (stepped _ _
        (stepped _ _
          (stepped _ _ (stepped _ _ (stepped _ _ all_entered (loads _ 0 refl)) (loads _ 1 refl))
            (writes _ 0 (pos n) refl))
          (writes _ 1 (pos n) refl))
        (reads _ 0 refl))
      (reads _ 1 refl),
  rw (add64_one n room) refl,
)
