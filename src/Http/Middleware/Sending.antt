-- ===== src/Http/Middleware/Sending.antt =====
-- internal/httpapi/middleware.go: what the status recorder sees, next to what the client receives.
use my_demo_app.Prelude.{
  ◌≡◌, refl, ◌∙◌, Bool, true, false, ◌&&◌, ◌||◌, List, [], ◌∷◌, arith, ltb, ◌==◌, if◌then◌else◌,
}
use my_demo_app.Http.{Call, deliver, set_header, write_header, write}
use my_demo_app.Http.Middleware.{StatusRecorder, new_recorder, record_call, recorded, final_status}

-- Whether a status goes out, by `WriteHeader` or by `Write`.
abbrev pub sends : List Call → Bool
sends [] = false
sends (set_header key value ∷ calls) = sends calls
sends (_ ∷ calls) = true

-- No `WriteHeader`.
abbrev pub has_no_status : List Call → Bool
has_no_status [] = true
has_no_status (write_header code ∷ calls) = false
has_no_status (_ ∷ calls) = has_no_status calls

-- At most one status: none behind the first one.
abbrev pub sends_once : List Call → Bool
sends_once [] = true
sends_once (set_header key value ∷ calls) = sends_once calls
sends_once (_ ∷ calls) = has_no_status calls

pub recorded-wrote_header :
    (calls : List Call) (sr : StatusRecorder)
    → (recorded calls sr).wrote_header ≡ (sr.wrote_header || sends calls)
unfolding recorded record_call
recorded-wrote_header [] sr = ground arith
recorded-wrote_header (set_header key value ∷ calls) sr = recorded-wrote_header calls sr
recorded-wrote_header (write_header code ∷ calls) sr =
    recorded-wrote_header calls (record { status = code; wrote_header = true }) ∙ ground arith
recorded-wrote_header (write payload ∷ calls) sr =
    recorded-wrote_header calls (record_call (write payload) sr) ∙ ground arith

-- Behind a sent status that is not 0, the recorder keeps it while no other comes.
recorded_kept :
    (calls : List Call) (sr : StatusRecorder)
    → has_no_status calls ≡ true
    → (sr.status == 0) ≡ false
    → (recorded calls sr).status ≡ sr.status
unfolding recorded record_call
recorded_kept [] sr h filled = refl
recorded_kept (set_header key value ∷ calls) sr h filled = recorded_kept calls sr h filled
recorded_kept (write_header code ∷ calls) sr h filled = ground arith
recorded_kept (write payload ∷ calls) sr h filled =
    recorded_kept calls (record_call (write payload) sr) h (rw filled filled) ∙ rw filled refl

-- The statuses that are passed to `WriteHeader` are positive.
abbrev pub has_codes : List Call → Bool
has_codes [] = true
has_codes (write_header code ∷ calls) = ltb 0 code && has_codes calls
has_codes (_ ∷ calls) = has_codes calls

recorded_first :
    (calls : List Call)
    → sends_once calls ≡ true
    → has_codes calls ≡ true
    → let status = (recorded calls new_recorder).status in
      (if status == 0 then 200 else status) ≡ (deliver calls).status
unfolding recorded record_call deliver
recorded_first [] once codes = refl
recorded_first (set_header key value ∷ calls) once codes = recorded_first calls once codes
recorded_first (write_header code ∷ calls) once codes =
    rw (recorded_kept calls (record { status = code; wrote_header = true }) once (ground arith))
      (ground arith)
recorded_first (write payload ∷ calls) once codes =
    rw (recorded_kept calls (record { status = 200; wrote_header = true }) once refl) refl

-- For calls with at most one status, and that a positive one, the status that the metrics layer
-- counts is the one that the client receives.
pub final_status-deliver :
    (calls : List Call)
    → sends_once calls ≡ true
    → has_codes calls ≡ true
    → final_status calls ≡ (deliver calls).status
unfolding final_status
final_status-deliver calls once codes = recorded_first calls once codes
