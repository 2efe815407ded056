-- ===== src/Loadgen/Counters.antt =====
-- cmd/loadgen/main.go: the counters under any interleaving of the workers.
use my_demo_app.Prelude.{◌∙◌, ℕ, ◌+◌, ◌%◌, ◌^◌, ◌<◌, ◌≡◌, refl, ◌∙◌, inl, inr, arith, Bool-cases}
use my_demo_app.Prelude.Int.{ℤ, ◌+ℤ◌, pos}
use my_demo_app.Word.{bits64-signed64, bits64-add, add64_one, bits64, wrap64, add64}
use my_demo_app.Exec.{Reply, value, error}
use my_demo_app.Loadgen.{Stats, no_stats, between, add_total, add_outcome, record_outcome}

abbrev pub outcomes : Stats → ℕ
outcomes s = bits64 s.ok_count + bits64 s.client_4xx + bits64 s.server + bits64 s.errored

-- The counters of the outcomes add up to the total, but for `pending` calls of `record` that have
-- raised the total and no other counter yet, on 64 bits.
abbrev pub IsBalanced : ℕ → Stats → Type 0
IsBalanced pending s = bits64 s.total ≡ (outcomes s + pending) % 2 ^ 64

bits64-inc : (a : ℤ) → bits64 (add64 a (pos 1)) ≡ (bits64 a + 1) % 2 ^ 64
unfolding add64 wrap64
bits64-inc a = bits64-signed64 (bits64 (a +ℤ pos 1)) (omega arith) ∙ bits64-add a (pos 1)

add_total-IsBalanced :
    (pending : ℕ) (s : Stats) → IsBalanced pending s → IsBalanced (pending + 1) (add_total s)
unfolding add_total
add_total-IsBalanced pending s h = omega (arith, bits64-inc s.total)

add_outcome-IsBalanced :
    (pending : ℕ) (outcome : Reply ℤ) (s : Stats)
    → IsBalanced (pending + 1) s
    → IsBalanced pending (add_outcome outcome s)
unfolding add_outcome
add_outcome-IsBalanced pending (error e) s h = omega (arith, bits64-inc s.errored)
add_outcome-IsBalanced pending (value status) s h =
    elim (Bool-cases (between (pos 200) status (pos 300))) [
      | inl fine ↦ rw fine (omega (arith, bits64-inc s.ok_count))
      | inr other ↦ elim (Bool-cases (between (pos 400) status (pos 500))) [
        | inl client ↦ rw (other, client) (omega (arith, bits64-inc s.client_4xx))
        | inr rest ↦ rw (other, rest) (omega (arith, bits64-inc s.server))
      ]
    ]

pub record_outcome-IsBalanced :
    (outcome : Reply ℤ) (s : Stats) → IsBalanced 0 s → IsBalanced 0 (record_outcome outcome s)
record_outcome-IsBalanced outcome s h =
    add_outcome-IsBalanced 0 outcome (add_total s) (add_total-IsBalanced 0 s h)

-- The counters after some increments of any number of workers, in any order: `n` calls of `record`
-- have begun and `pending` of them have not ended.
pub data Counted : ℕ → ℕ → Stats → Type 0 where
  started : Counted 0 0 no_stats
  begun :
      {n pending : ℕ} {s : Stats}
      → Counted n pending s
      → Counted (n + 1) (pending + 1) (add_total s)
  ended :
      {n pending : ℕ} {s : Stats} (outcome : Reply ℤ)
      → Counted n (pending + 1) s
      → Counted n pending (add_outcome outcome s)

Counted-IsBalanced : {n pending : ℕ} {s : Stats} → Counted n pending s → IsBalanced pending s
Counted-IsBalanced started = refl
Counted-IsBalanced (begun {n} {pending} {s} c) =
    add_total-IsBalanced pending s (Counted-IsBalanced c)
Counted-IsBalanced (ended {n} {pending} {s} outcome c) =
    add_outcome-IsBalanced pending outcome s (Counted-IsBalanced c)

-- Under any interleaving of the workers' increments, below 2 ^ 63 requests, the total is the number
-- of requests recorded, and the four counters of outcomes add up to it but for the requests whose
-- outcome is yet to be counted.
pub Counted-exact :
    {n pending : ℕ} {s : Stats}
    → Counted n pending s
    → n < 2 ^ 63
    → (fine client server failed : ℕ) × (s.total ≡ pos n)
      × (s.ok_count ≡ pos fine)
      × (s.client_4xx ≡ pos client)
      × (s.server ≡ pos server)
      × (s.errored ≡ pos failed)
      × (fine + client + server + failed + pending ≡ n)
unfolding add_total add_outcome
Counted-exact started h = (0, 0, 0, 0, refl, refl, refl, refl, refl, refl)
Counted-exact (begun {n} {pending} {s} c) h =
    let (f, k, v, e, total, p, q, r, t, sum) = Counted-exact c (omega arith) in
    (f, k, v, e, rw total (add64_one n h), p, q, r, t, omega arith)
Counted-exact (ended (error message) c) h =
    let (f, k, v, e, total, p, q, r, t, sum) = Counted-exact c h in
    (f, k, v, e + 1, total, p, q, r, rw t (add64_one e (omega arith)), omega arith)
Counted-exact (ended (value status) c) h =
    let (f, k, v, e, total, p, q, r, t, sum) = Counted-exact c h in
    elim (Bool-cases (between (pos 200) status (pos 300))) [
      | inl fine ↦
          rw fine (f + 1, k, v, e, total, rw p (add64_one f (omega arith)), q, r, t, omega arith)
      | inr other ↦ elim (Bool-cases (between (pos 400) status (pos 500))) [
        | inl client ↦
            rw (other, client)
              (f, k + 1, v, e, total, p, rw q (add64_one k (omega arith)), r, t, omega arith)
        | inr rest ↦
            rw (other, rest)
              (f, k, v + 1, e, total, p, q, rw r (add64_one v (omega arith)), t, omega arith)
      ]
    ]
