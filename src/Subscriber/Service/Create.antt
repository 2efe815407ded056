-- ===== src/Subscriber/Service/Create.antt =====
-- internal/subscriber/service.go: what `CreateSubscriber` does over a store that
-- keeps its promises.
use mathlib.Core.Path.{subst}
use my_demo_app.Prelude.{
  ℕ, ◌+◌, ◌^◌, ◌≤◌, ◌<◌, ◌≡◌, ap, ◌∙◌, false, ◌||◌, Option, none, some, arith, ltb, if◌then◌else◌,
  Option-cases, inl, inr, refl,
}
use my_demo_app.Prelude.Int.{pos}
use my_demo_app.Word.{add64_one, add64}
use my_demo_app.Text.{Str, is_empty, byte_len, str_eq_refl}
use my_demo_app.Text.Trim.{trim_space}
use my_demo_app.Time.{Time, utc, within}
use my_demo_app.Exec.{
  Problem, Result, msisdn_required, msisdn_length, plan_id_required, owner_required, validation, ok,
  err,
}
use my_demo_app.Subscriber.{Subscriber, Store, active, known-IsCanonical}
use my_demo_app.Subscriber.Service.{
  World, CreateSubscriberInput, next_id, validate_msisdn, create_subscriber, get_subscriber,
}
use my_demo_app.Subscriber.Service.Issued.{
  sub_id, IsIssued, put_subscriber-IsIssued, IsIssued-up, fresh_subscriber,
}
use my_demo_app.Store.Db.{Db, put_subscriber, IsStore, or_not_found}

-- The input that is accepted: an MSISDN of 5 to 20 bytes within its white space, and a plan and an
-- owner that are not blank.
pub record IsAcceptable (input : CreateSubscriberInput) : Type 0 where
  pub given : is_empty (trim_space input.msisdn) ≡ false
  pub long_enough : 5 ≤ byte_len (trim_space input.msisdn)
  pub short_enough : byte_len (trim_space input.msisdn) ≤ 20
  pub plan : is_empty (trim_space input.plan_id) ≡ false
  pub owner : is_empty (trim_space input.owner_account_id) ≡ false

-- What is stored for an accepted input: trimmed, active, and created now in UTC.
abbrev pub new_subscriber : Str → Time → CreateSubscriberInput → Subscriber
new_subscriber id now input = record {
  id = id;
  msisdn = trim_space input.msisdn;
  imsi = trim_space input.imsi;
  name = trim_space input.name;
  plan_id = input.plan_id;
  owner_account_id = input.owner_account_id;
  status = active;
  created_at = within utc now;
}

-- What a request to create a subscriber may lead to from `w`.
pub data CreateOutcome {S : Type 0} (view : S → Db) (n : ℕ) (now : Time)
    (input : CreateSubscriberInput) (w : World S) : Result Subscriber × World S → Type 0 where
  rejected :
      (why : Problem)
      → ¬ IsAcceptable input
      → CreateOutcome view n now input w (err (validation why), w)
  created :
      (s : S)
      → IsAcceptable input
      → view s ≡ put_subscriber (new_subscriber (sub_id (n + 1)) now input) (view w.store)
      → CreateOutcome view n now input w (
        ok (new_subscriber (sub_id (n + 1)) now input),
        record { store = s; id_counter = pos (n + 1) },
      )

-- The checks before anything is written.
abbrev pub problem : CreateSubscriberInput → Option Problem
problem input =
    if is_empty (trim_space input.msisdn)
    then some msisdn_required
    else if ltb (byte_len (trim_space input.msisdn)) 5
        || ltb 20 (byte_len (trim_space input.msisdn))
    then some msisdn_length
    else if is_empty (trim_space input.plan_id)
    then some plan_id_required
    else if is_empty (trim_space input.owner_account_id)
    then some owner_required
    else none

module _ {S : Type 0} (store : Store S) where
  pub create_rejected :
      (now : Time) (input : CreateSubscriberInput) (w : World S) (why : Problem)
      → problem input ≡ some why
      → create_subscriber store now input w ≡ (err (validation why), w)
  unfolding create_subscriber validate_msisdn
  create_rejected now input w why h = ground arith

  pub create_accepted :
      (n : ℕ) (now : Time) (input : CreateSubscriberInput) (w : World S)
      → problem input ≡ none
      → w.id_counter ≡ pos n
      → n + 1 < 2 ^ 63
      → let new = new_subscriber (sub_id (n + 1)) now input in
        (store.create_subscriber new w.store).0 ≡ ok tt
        → create_subscriber store now input w ≡ (
          ok new,
          record { store = (store.create_subscriber new w.store).1; id_counter = pos (n + 1) },
        )
  unfolding create_subscriber validate_msisdn next_id
  create_accepted n now input w h counter room done =
      let up : add64 w.id_counter (pos 1) ≡ pos (n + 1) =
        ap (λ c. add64 c (pos 1)) counter ∙ add64_one n room in
      ground (arith, up)

problem-none : (input : CreateSubscriberInput) → problem input ≡ none → IsAcceptable input
problem-none input h = ground arith

problem-some :
    (input : CreateSubscriberInput) (why : Problem)
    → problem input ≡ some why
    → ¬ IsAcceptable input
problem-some input why h a = ground arith

module _ {S : Type 0} {store : Store S} {view : S → Db} (laws : IsStore store view) where
  -- Over a store that keeps the interface's laws, with issued IDs and a counter that does not wrap,
  -- CreateSubscriber rejects input that is not acceptable and changes nothing, and stores
  -- acceptable input trimmed and active under the next ID, changing nothing else.
  pub create_subscriber-CreateOutcome :
      (n : ℕ) (now : Time) (input : CreateSubscriberInput) (w : World S)
      → w.id_counter ≡ pos n
      → n + 1 < 2 ^ 63
      → IsIssued n (view w.store)
      → CreateOutcome view n now input w (create_subscriber store now input w)
  create_subscriber-CreateOutcome n now input w counter room h =
      elim (Option-cases (problem input)) [
        | inl fine ↦
            let (done, effect) =
              laws.create_subscriber_lem (new_subscriber (sub_id (n + 1)) now input) w.store
                (fresh_subscriber n (view w.store) h room) known-IsCanonical.0 in
            rw (create_accepted store n now input w fine counter room done)
              (created _ (problem-none input fine) effect)
        | inr (why, wrong) ↦
            rw (create_rejected store now input w why wrong)
              (rejected why (problem-some input why wrong))
      ]

  -- Over a lawful store with issued IDs and a counter that does not wrap, a subscriber that
  -- CreateSubscriber returned is what GetSubscriber returns for its ID.
  pub get_subscriber-create_subscriber :
      (n : ℕ) (now : Time) (input : CreateSubscriberInput) (w : World S) (sub : Subscriber)
      → w.id_counter ≡ pos n
      → n + 1 < 2 ^ 63
      → IsIssued n (view w.store)
      → (create_subscriber store now input w).0 ≡ ok sub
      → (get_subscriber store sub.id (create_subscriber store now input w).1).0 ≡ ok sub
  unfolding get_subscriber
  get_subscriber-create_subscriber n now input w sub counter room h e =
      laws.get_subscriber_lem sub.id (create_subscriber store now input w).1.store
      ∙ stored (create_subscriber-CreateOutcome n now input w counter room h) e
    where
      stored :
          {out : Result Subscriber × World S}
          → CreateOutcome view n now input w out
          → out.0 ≡ ok sub
          → or_not_found ((view out.1.store).subscribers sub.id) ≡ ok sub
      stored (rejected why bad) o = cc
      stored (created s good effect) o =
          let new = new_subscriber (sub_id (n + 1)) now input in
          let there : or_not_found ((put_subscriber new (view w.store)).subscribers new.id)
              ≡ ok new =
            rw (str_eq_refl (sub_id (n + 1))) in
          let is : new ≡ sub = cc in
          rw effect (
            subst
              (λ (x : Subscriber).
                or_not_found ((put_subscriber new (view w.store)).subscribers x.id) ≡ ok x)
              is there)

  -- Over a lawful store and while the counter does not wrap, CreateSubscriber leaves a counter that
  -- covers every stored ID.
  pub create_subscriber-IsIssued :
      (n : ℕ) (now : Time) (input : CreateSubscriberInput) (w : World S)
      → w.id_counter ≡ pos n
      → n + 1 < 2 ^ 63
      → IsIssued n (view w.store)
      → (m : ℕ) × (m ≤ n + 1)
        × ((create_subscriber store now input w).1.id_counter ≡ pos m)
        × IsIssued m (view (create_subscriber store now input w).1.store)
  create_subscriber-IsIssued n now input w counter room h =
      keeps (create_subscriber-CreateOutcome n now input w counter room h)
    where
      keeps :
          {out : Result Subscriber × World S}
          → CreateOutcome view n now input w out
          → (m : ℕ) × (m ≤ n + 1) × (out.1.id_counter ≡ pos m) × IsIssued m (view out.1.store)
      keeps (rejected why bad) = (n, omega arith, counter, h)
      keeps (created s good effect) = (
        n + 1,
        omega arith,
        refl,
        rw effect (
            put_subscriber-IsIssued (n + 1) (n + 1) (view w.store)
              (new_subscriber (sub_id (n + 1)) now input) refl (omega arith)
              (IsIssued-up n (n + 1) (view w.store) (omega arith) h)),
      )
