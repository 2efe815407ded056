-- ===== src/Subscriber/Service/Usage.antt =====
-- internal/subscriber/service.go: what `AddUsage` does over a store that keeps its promises.
use my_demo_app.Prelude.{
  ℕ, ◌+◌, ◌^◌, ◌≤◌, ◌<◌, refl, ◌≡◌, ap, ◌∙◌, inl, inr, true, false, none, some, arith,
  if◌then◌else◌, Bool-cases, Option-cases, ℕ,
}
use my_demo_app.Prelude.Int.{ℤ, pos}
use my_demo_app.Word.{add64_one, add64}
use my_demo_app.Text.{Str}
use my_demo_app.Time.{Time, utc, within, is_zero}
use my_demo_app.Exec.{Result, unknown_kind, not_found, validation, ok, err}
use my_demo_app.Subscriber.{Subscriber, UsageRecord, Store}
use my_demo_app.Subscriber.Service.{World, is_valid_kind, next_id, add_usage}
use my_demo_app.Subscriber.Service.Issued.{
  use_id, IsIssued, IsIssued-up, fresh_usage, put_usage-IsIssued,
}
use my_demo_app.Store.Db.{Db, or_not_found, put_usage, IsStore}

-- The record of an event: a zero timestamp stands for now.
abbrev pub new_record : ℕ → Time → Str → Str → ℤ → Time → UsageRecord
new_record n now subscriber_id kind qty ts = record {
  id = use_id (n + 1);
  subscriber_id = subscriber_id;
  kind = kind;
  quantity = qty;
  timestamp = if is_zero ts then within utc now else ts;
}

-- What a request to record usage may lead to from `w`. The quantity is not checked.
pub data UsageOutcome {S : Type 0} (view : S → Db) (n : ℕ) (now : Time) (id kind : Str) (qty : ℤ)
    (ts : Time) (w : World S) : Result UsageRecord × World S → Type 0 where
  missing :
      (view w.store).subscribers id ≡ none
      → UsageOutcome view n now id kind qty ts w (err not_found, w)
  unknown_kind_given :
      (sub : Subscriber)
      → (view w.store).subscribers id ≡ some sub
      → is_valid_kind kind ≡ false
      → UsageOutcome view n now id kind qty ts w (err (validation (unknown_kind kind)), w)
  recorded :
      (sub : Subscriber) (s : S)
      → (view w.store).subscribers id ≡ some sub
      → is_valid_kind kind ≡ true
      → view s ≡ put_usage (new_record n now id kind qty ts) (view w.store)
      → UsageOutcome view n now id kind qty ts w
          (ok (new_record n now id kind qty ts), record { store = s; id_counter = pos (n + 1) })

module _ {S : Type 0} {store : Store S} {view : S → Db} (laws : IsStore store view) (n : ℕ)
    (now : Time) (id kind : Str) (qty : ℤ) (ts : Time) (w : World S) where
  pub usage_missing :
      (view w.store).subscribers id ≡ none
      → add_usage store now id kind qty ts w ≡ (err not_found, w)
  unfolding add_usage
  usage_missing none_there =
      let e : store.get_subscriber id w.store ≡ err not_found =
        laws.get_subscriber_lem id w.store ∙ ap or_not_found none_there in
      rw e

  pub usage_refused :
      (sub : Subscriber)
      → (view w.store).subscribers id ≡ some sub
      → is_valid_kind kind ≡ false
      → add_usage store now id kind qty ts w ≡ (err (validation (unknown_kind kind)), w)
  unfolding add_usage
  usage_refused sub there bad =
      let e : store.get_subscriber id w.store ≡ ok sub =
        laws.get_subscriber_lem id w.store ∙ ap or_not_found there in
      rw e (ground arith)

  pub usage_recorded :
      (sub : Subscriber)
      → (view w.store).subscribers id ≡ some sub
      → is_valid_kind kind ≡ true
      → w.id_counter ≡ pos n
      → n + 1 < 2 ^ 63
      → let new = new_record n now id kind qty ts in
        (store.add_usage new w.store).0 ≡ ok tt
        → add_usage store now id kind qty ts w
          ≡ (ok new, record { store = (store.add_usage new w.store).1; id_counter = pos (n + 1) })
  unfolding add_usage next_id
  usage_recorded sub there good counter room done =
      let up : add64 w.id_counter (pos 1) ≡ pos (n + 1) =
        ap (λ c. add64 c (pos 1)) counter ∙ add64_one n room in
      let e : store.get_subscriber id w.store ≡ ok sub =
        laws.get_subscriber_lem id w.store ∙ ap or_not_found there in
      rw e (ground (arith, up))

  -- Over a lawful store with issued IDs and a counter that does not wrap, AddUsage refuses an
  -- unknown subscriber or kind and changes nothing; otherwise it appends the event, whatever its
  -- quantity, to the subscriber's records under the next ID, and changes nothing else.
  pub add_usage-UsageOutcome :
      w.id_counter ≡ pos n
      → n + 1 < 2 ^ 63
      → IsIssued n (view w.store)
      → UsageOutcome view n now id kind qty ts w (add_usage store now id kind qty ts w)
  add_usage-UsageOutcome counter room h = elim (Option-cases ((view w.store).subscribers id)) [
    | inl none_there ↦ rw (usage_missing none_there) (missing none_there)
    | inr (sub, there) ↦ elim (Bool-cases (is_valid_kind kind)) [
      | inl good ↦
          let (done, effect) =
            laws.add_usage_lem (new_record n now id kind qty ts) w.store
              (fresh_usage n (view w.store) (new_record n now id kind qty ts) refl h room) in
          rw (usage_recorded sub there good counter room done) (recorded sub _ there good effect)
      | inr bad ↦ rw (usage_refused sub there bad) (unknown_kind_given sub there bad)
    ]
  ]

  -- It keeps every stored ID an issued one.
  pub add_usage-IsIssued :
      w.id_counter ≡ pos n
      → n + 1 < 2 ^ 63
      → IsIssued n (view w.store)
      → (m : ℕ) × (m ≤ n + 1)
        × ((add_usage store now id kind qty ts w).1.id_counter ≡ pos m)
        × IsIssued m (view (add_usage store now id kind qty ts w).1.store)
  add_usage-IsIssued counter room h = keeps (add_usage-UsageOutcome counter room h)
    where
      keeps :
          {out : Result UsageRecord × World S}
          → UsageOutcome view n now id kind qty ts w out
          → (m : ℕ) × (m ≤ n + 1) × (out.1.id_counter ≡ pos m) × IsIssued m (view out.1.store)
      keeps (missing none_there) = (n, omega arith, counter, h)
      keeps (unknown_kind_given sub there bad) = (n, omega arith, counter, h)
      keeps (recorded sub s there good effect) = (
        n + 1,
        omega arith,
        refl,
        rw effect (
            put_usage-IsIssued (n + 1) (view w.store) (new_record n now id kind qty ts) refl
              (IsIssued-up n (n + 1) (view w.store) (omega arith) h)),
      )
