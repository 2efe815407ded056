-- ===== src/Http/Middleware/Recover.antt =====
-- internal/httpapi/middleware.go: what `recover` makes of a panic.
use my_demo_app.Prelude.{
  ◌≡◌, refl, inl, inr, true, false, Option, none, some, List, [], ◌∷◌, ◌++◌, arith, Bool-cases,
}
use my_demo_app.Text.{Str, lit}
use my_demo_app.Http.{
  Request, Payload, Call, write_error, deliver, Server, fields, set_header, write_header, write,
}
use my_demo_app.Http.Middleware.{Reply, Layered, new_recorder, recorded, recover_reply, recover}
use my_demo_app.Http.Middleware.Sending.{sends, recorded-wrote_header}

abbrev pub panic_body : Str → List Payload
panic_body e = fields ((lit "error", lit "internal error: " ++ e) ∷ []) ∷ []

-- How the reply of the inner layer becomes the reply of `recover`.
pub data RecoverOutcome : Reply → Reply → Type 0 where
  passed_on : {reply : Reply} → reply.panic ≡ none → RecoverOutcome reply reply
  answered_500 :
      {reply out : Reply}
      → (e : Str) → reply.panic ≡ some e
      → sends reply.calls ≡ false
      → out.panic ≡ none
      → (deliver out.calls).status ≡ 500
      → (deliver out.calls).body ≡ panic_body e
      → RecoverOutcome reply out
  cut_off :
      {reply out : Reply}
      → (e : Str) → reply.panic ≡ some e
      → sends reply.calls ≡ true
      → out.panic ≡ none
      → out.calls ≡ reply.calls
      → RecoverOutcome reply out

deliver-append :
    (calls more : List Call)
    → sends calls ≡ false
    → ((deliver (calls ++ more)).status ≡ (deliver more).status)
      × ((deliver (calls ++ more)).body ≡ (deliver more).body)
unfolding deliver
deliver-append [] more h = (refl, refl)
deliver-append (set_header key value ∷ calls) more h = deliver-append calls more h
deliver-append (write_header code ∷ calls) more h = absurd (ground arith)
deliver-append (write payload ∷ calls) more h = absurd (ground arith)

module _ {S : Type 0} where
  outcome :
      (r : Request) (calls : List Call) (panic : Option Str) (sv : Server S)
      → let reply : Reply = record { calls = calls; panic = panic } in
        RecoverOutcome reply ((recover_reply r (reply, sv)).0)
  unfolding deliver
  outcome r calls none sv = passed_on refl
  outcome r calls (some e) sv =
      let more = write_error 500 (lit "internal error: " ++ e) in
      let sent : (recorded calls new_recorder).wrote_header ≡ sends calls =
        recorded-wrote_header calls new_recorder in
      elim (Bool-cases (sends calls)) [
        | inl started ↦ cut_off e refl started refl (rw (sent, started) refl)
        | inr silent ↦
            answered_500 e refl silent refl (rw (sent, silent) (deliver-append calls more silent).0)
              (rw (sent, silent) (deliver-append calls more silent).1)
      ]

  -- Around any handler, recover passes a reply without a panic on; on a panic the client receives a
  -- 500 with the panic's text where the handler had sent nothing, and just what it had sent where
  -- it had; no panic gets through.
  pub recover-RecoverOutcome :
      (next : Layered S) (r : Request) (sv : Server S)
      → RecoverOutcome ((next r sv).0) ((recover next r sv).0)
  unfolding recover
  recover-RecoverOutcome next r sv =
      let (reply, sv') = next r sv in outcome r reply.calls reply.panic sv'
