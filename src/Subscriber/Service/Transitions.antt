-- ===== src/Subscriber/Service/Transitions.antt =====
-- internal/subscriber/service.go: the status machine behind `ChangeStatus`.
use my_demo_app.Prelude.{◌≡◌, refl, ◌↔◌, Bool, true, false, ◌&&◌, none, some}
use my_demo_app.Subscriber.{Status, active, suspended, terminated, unknown}
use my_demo_app.Subscriber.Service.{allowed_transitions, is_known}

-- The moves that a subscriber's status may make.
pub data Moves : Status → Status → Type 0 where
  suspend : Moves active suspended
  terminate : Moves active terminated
  resume : Moves suspended active
  terminate_suspended : Moves suspended terminated
  reactivate : Moves terminated active

-- What the guards of `ChangeStatus` test.
abbrev pub passes : Status → Status → Bool
passes from to =
    is_known to && elim (allowed_transitions from) [ none ↦ false | some allowed ↦ allowed to ]

-- The two tests of ChangeStatus let a change of status through exactly where it is one of the five
-- moves of the status machine.
pub passes_iff : (from to : Status) → (passes from to ≡ true) ↔ Moves from to
unfolding is_known allowed_transitions
passes_iff from to = (sound from to, complete)
  where
    sound : (a b : Status) → passes a b ≡ true → Moves a b
    sound active suspended h = suspend
    sound active terminated h = terminate
    sound suspended active h = resume
    sound suspended terminated h = terminate_suspended
    sound terminated active h = reactivate
    sound active active h = cc
    sound active (unknown s) h = cc
    sound suspended suspended h = cc
    sound suspended (unknown s) h = cc
    sound terminated suspended h = cc
    sound terminated terminated h = cc
    sound terminated (unknown s) h = cc
    sound (unknown s) active h = cc
    sound (unknown s) suspended h = cc
    sound (unknown s) terminated h = cc
    sound (unknown s) (unknown t) h = cc

    complete : {a b : Status} → Moves a b → passes a b ≡ true
    complete suspend = refl
    complete terminate = refl
    complete resume = refl
    complete terminate_suspended = refl
    complete reactivate = refl
