-- ===== src/Command/Select.antt =====
-- cmd/server/main.go: the goroutine of the listener and the `select` of `run`, as steps.
use my_demo_app.Prelude.{
  ◌≤◌, ◌<◌, ◌≡◌, refl, ap, ◌⊎◌, inl, inr, Bool, true, false, Option, none, some, List, [], ◌∷◌,
  ◌++◌, arith, Bool-cases, length,
}
use my_demo_app.Text.{Str}
use my_demo_app.Exec.{Reply, value}
use my_demo_app.Command.{Wake, served_out, signalled}

-- How `ListenAndServe` ends: `ErrServerClosed` behind a shutdown, or another error.
pub data ListenEnd : Type 0 where
  closed : ListenEnd
  broke : Str → ListenEnd

-- What the goroutine sends on `serveErr`.
unfoldable pub sent : ListenEnd → Option Str
sent closed = none
sent (broke e) = some e

-- Whether the goroutine still serves, the buffer of `serveErr`, which has room for one value, whether
-- a signal has come, and what woke `run`.
pub record Process : Type 0 where
  pub listening : Bool
  pub buffer : List (Option Str)
  pub signal_came : Bool
  pub woken : Option Wake

abbrev pub started : Process
started = record { listening = true; buffer = []; signal_came = false; woken = none }

-- A step. A send waits for room in the buffer; `run` takes what is ready, in any order.
pub data ProcessStep : Process → Process → Type 0 where
  listener_ends :
      (p : Process) (e : ListenEnd)
      → p.listening ≡ true
      → length p.buffer < 1
      → ProcessStep p (record p { listening = false; buffer = p.buffer ++ sent e ∷ [] })
  signal_comes : (p : Process) → ProcessStep p (record p { signal_came = true })
  receives :
      (p : Process) (e : Option Str) (more : List (Option Str))
      → p.woken ≡ none
      → p.buffer ≡ e ∷ more
      → ProcessStep p (record p { buffer = more; woken = some (served_out e) })
  shuts_down :
      (p : Process) (r : Reply (Unit {0}))
      → p.woken ≡ none
      → p.signal_came ≡ true
      → ProcessStep p (record p { woken = some (signalled r) })

pub data ProcessReaches : Process → Type 0 where
  begun : ProcessReaches started
  stepped : (p q : Process) → ProcessReaches p → ProcessStep p q → ProcessReaches q

-- What holds of every reachable process.
pub record IsOrderly (p : Process) : Type 0 where
  pub one_slot : length p.buffer ≤ 1
  pub nothing_sent : p.listening ≡ true → p.buffer ≡ []
  pub by_listener : (e : Option Str) → p.woken ≡ some (served_out e) → p.listening ≡ false
  pub by_signal : (r : Reply (Unit {0})) → p.woken ≡ some (signalled r) → p.signal_came ≡ true
  pub kept : p.listening ≡ false → p.woken ≡ none → (e : Option Str) × (p.buffer ≡ e ∷ [])

step-IsOrderly : (p q : Process) → ProcessStep p q → IsOrderly p → IsOrderly q
step-IsOrderly _ _ (listener_ends p e on room) h =
    let empty = h.nothing_sent on in
    record {
      one_slot = rw empty (omega arith);
      nothing_sent = λ off. cc;
      by_listener = λ e' w. refl;
      by_signal = h.by_signal;
      kept = λ off asleep. (sent e, rw empty refl);
    }
step-IsOrderly _ _ (signal_comes p) h = record {
  one_slot = h.one_slot;
  nothing_sent = h.nothing_sent;
  by_listener = h.by_listener;
  by_signal = λ r w. refl;
  kept = h.kept;
}
step-IsOrderly _ _ (receives p e more asleep full) h =
    let off : p.listening ≡ false = elim (Bool-cases p.listening) [
      | inl on ↦ cc (h.nothing_sent on)
      | inr off ↦ off
    ] in
    let kept = h.kept off asleep in
    record {
      one_slot = omega (arith, h.one_slot, ap length full);
      nothing_sent = λ on. cc;
      by_listener = λ e' w. off;
      by_signal = λ r w. cc;
      kept = λ off' w. cc;
    }
step-IsOrderly _ _ (shuts_down p r asleep came) h = record {
  one_slot = h.one_slot;
  nothing_sent = h.nothing_sent;
  by_listener = λ e w. cc;
  by_signal = λ r' w. came;
  kept = λ off w. cc;
}

ProcessReaches-IsOrderly : {p : Process} → ProcessReaches p → IsOrderly p
ProcessReaches-IsOrderly begun = record {
  one_slot = omega arith;
  nothing_sent = λ on. refl;
  by_listener = λ e w. cc;
  by_signal = λ r w. cc;
  kept = λ off w. cc;
}
ProcessReaches-IsOrderly (stepped p q before s) =
    step-IsOrderly p q s (ProcessReaches-IsOrderly before)

-- In every reachable state of the server the listener can end without waiting for room in the
-- channel, run can wake once the listener has ended or a signal has come, and it wakes by nothing
-- else.
pub ProcessReaches-live :
    (p : Process)
    → ProcessReaches p
    → (p.listening ≡ true
        → (e : ListenEnd) → (q : Process) × ProcessStep p q × (q.listening ≡ false))
      × (p.woken ≡ none
          → (p.listening ≡ false) ⊎ (p.signal_came ≡ true)
          → (q : Process) × (w : Wake) × ProcessStep p q × (q.woken ≡ some w))
      × ((e : Option Str) → p.woken ≡ some (served_out e) → p.listening ≡ false)
      × ((r : Reply (Unit {0})) → p.woken ≡ some (signalled r) → p.signal_came ≡ true)
ProcessReaches-live p reached =
    let h = ProcessReaches-IsOrderly reached in
    (
      λ on e. (_, listener_ends p e on (rw (h.nothing_sent on) (omega arith)), refl),
      λ asleep ready. elim ready [
        | inl off ↦
            let (e, full) = h.kept off asleep in
            (_, served_out e, receives p e [] asleep full, refl)
        | inr came ↦ (_, signalled (value tt), shuts_down p (value tt) asleep came, refl)
      ],
      h.by_listener,
      h.by_signal,
    )
