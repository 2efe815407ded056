-- ===== src/Http/Subscribers/Provision.antt =====
-- internal/httpapi/handlers_subscribers.go: what a 201 of `POST /v1/subscribers` stands for.
use my_demo_app.Prelude.{
  ℕ, ◌+◌, ◌^◌, ◌<◌, ◌≡◌, refl, sym, ap, ◌∙◌, ◌≢◌, inl, inr, Option, none, some, List, ◌∷◌, arith,
  Bool-cases, Option-cases,
}
use my_demo_app.Http.{
  Request, Payload, Call, write_json, write_error, http_status_for_error, Server, subscriber_json,
  set_header, write_header, write,
}
use my_demo_app.Http.Subscribers.{
  CreateSubscriberRequest, input_of, provision, handle_create_subscriber, handle_get_subscriber,
}
use mathlib.Core.Option.{some-injective}
use my_demo_app.Prelude.Int.{pos}
use my_demo_app.Text.{Str, is_empty}
use my_demo_app.Time.{Time}
use my_demo_app.Exec.{
  Result-cases, ok, Error, not_found, validation, invalid_status_transition, failed,
}
use my_demo_app.Subscriber.{Store, Subscriber}
use my_demo_app.Subscriber.Service.{create_subscriber, get_subscriber, get_plan}
use my_demo_app.Subscriber.Service.Create.{get_subscriber-create_subscriber}
use my_demo_app.Subscriber.Service.Issued.{IsIssued}
use my_demo_app.Store.Db.{Db, IsStore}

-- The status that a reply begins with.
abbrev sent_status : List Call → ℕ
sent_status (set_header k v ∷ write_header status ∷ calls) = status
sent_status calls = 0

abbrev sent_subscriber : List Call → Option Subscriber
sent_subscriber (c ∷ d ∷ write (subscriber_json s) ∷ calls) = some s
sent_subscriber calls = none

refused_400 : {message : Str} {payload : Payload} → write_error 400 message ≢ write_json 201 payload
refused_400 h = far (ap sent_status h)
  where
    far : ¬ (Path ℕ 400 201)
    far e = omega arith

not_created : (e : Error) → http_status_for_error e ≢ 201
unfolding http_status_for_error
not_created not_found h = omega arith
not_created (validation p) h = omega arith
not_created invalid_status_transition h = omega arith
not_created (failed message) h = omega arith

module _ {S : Type 0} (store : Store S) (quote : Str → Str) where
  provision_created :
      (now : Time) (req : CreateSubscriberRequest) (sv : Server S) (sub : Subscriber)
      → (provision store quote now req sv).0 ≡ write_json 201 (subscriber_json sub)
      → let made = create_subscriber store now (input_of req) sv.world in
        (made.0 ≡ ok sub) × ((provision store quote now req sv).1.world ≡ made.1)
  unfolding provision get_plan
  provision_created now req sv sub h =
      elim (Result-cases (store.get_plan req.plan_id sv.world.store)) [
        | inr (e, lost) ↦ absurd (not_created e (ap sent_status (rw lost at h)))
        | inl (plan, there) ↦
            elim (Result-cases ((create_subscriber store now (input_of req) sv.world).0)) [
              | inr (e, bad) ↦ absurd (not_created e (ap sent_status (rw (there, bad) at h)))
              | inl (s, good) ↦
                  let same : s ≡ sub =
                    some-injective _ _ (ap sent_subscriber (rw (there, good) at h)) in
                  (good ∙ ap ok same, rw (there, good) refl)
            ]
      ]

  create_created :
      (now : Time) (decode : Str → Option CreateSubscriberRequest) (r : Request) (sv : Server S)
      (sub : Subscriber)
      → (handle_create_subscriber store quote now decode r sv).0
        ≡ write_json 201 (subscriber_json sub)
      → (req : CreateSubscriberRequest) × (decode r.body ≡ some req)
        × (handle_create_subscriber store quote now decode r sv ≡ provision store quote now req sv)
  unfolding handle_create_subscriber
  create_created now decode r sv sub h = elim (Option-cases (decode r.body)) [
    | inl bad ↦ absurd (refused_400 (rw bad at h))
    | inr (req, given) ↦ (
      req,
      given,
      elim (Bool-cases (is_empty req.msisdn)) [
        | inl bad ↦ absurd (refused_400 (rw (given, bad) at h))
        | inr a ↦ elim (Bool-cases (is_empty req.name)) [
          | inl bad ↦ absurd (refused_400 (rw (given, a, bad) at h))
          | inr b ↦ elim (Bool-cases (is_empty req.plan_id)) [
            | inl bad ↦ absurd (refused_400 (rw (given, a, b, bad) at h))
            | inr c ↦ elim (Bool-cases (is_empty req.owner_account_id)) [
              | inl bad ↦ absurd (refused_400 (rw (given, a, b, c, bad) at h))
              | inr e ↦ rw (given, a, b, c, e) refl
            ]
          ]
        ]
      ],
    )
  ]

module _ {S : Type 0} {store : Store S} {view : S → Db} (laws : IsStore store view) where
  -- Over a lawful store with issued IDs and a counter that does not wrap, where POST
  -- /v1/subscribers replies 201 with a subscriber, a GET of its ID right after it replies 200 with
  -- the same subscriber and changes nothing.
  pub handle_get_subscriber-handle_create_subscriber :
      (quote : Str → Str) (n : ℕ) (now : Time) (decode : Str → Option CreateSubscriberRequest)
      (r r' : Request) (sv : Server S) (sub : Subscriber)
      → sv.world.id_counter ≡ pos n
      → n + 1 < 2 ^ 63
      → IsIssued n (view sv.world.store)
      → (handle_create_subscriber store quote now decode r sv).0
        ≡ write_json 201 (subscriber_json sub)
      → let after = (handle_create_subscriber store quote now decode r sv).1 in
        handle_get_subscriber store quote sub.id r' after
        ≡ (write_json 200 (subscriber_json sub), after)
  unfolding handle_get_subscriber get_subscriber
  handle_get_subscriber-handle_create_subscriber quote n now decode r r' sv sub counter room issued
        h =
      let (req, given, through) = create_created store quote now decode r sv sub h in
      let (made, world) =
        provision_created store quote now req sv sub (ap (λ p. p.0) (sym through) ∙ h) in
      let back =
        get_subscriber-create_subscriber laws n now (input_of req) sv.world sub counter room issued
          made in
      let after = (handle_create_subscriber store quote now decode r sv).1 in
      let moved : after.world ≡ (create_subscriber store now (input_of req) sv.world).1 =
        ap (λ p. p.1.world) through ∙ world in
      let read : store.get_subscriber sub.id after.world.store ≡ ok sub =
        ap (λ w. store.get_subscriber sub.id w.store) moved ∙ back in
      rw read refl
