-- ===== src/Subscriber/Service/Change.antt =====
-- internal/subscriber/service.go: what `ChangeStatus` does over a store that keeps its promises.
use my_demo_app.Prelude.{
  ℕ, ◌≡◌, ap, ◌∙◌, inl, inr, true, false, none, some, arith, if◌then◌else◌, Bool-cases,
  Option-cases,
}
use my_demo_app.Text.{Str}
use my_demo_app.Exec.{
  Error, unknown_status, not_found, validation, invalid_status_transition, ok, err, Result,
}
use my_demo_app.Subscriber.{Status, status_text, Subscriber, Store, IsCanonical, unknown}
use my_demo_app.Subscriber.Service.{World, is_known, change_status}
use my_demo_app.Subscriber.Service.Transitions.{passes, Moves, passes_iff}
use my_demo_app.Subscriber.Service.Issued.{IsIssued, put_subscriber-IsIssued}
use my_demo_app.Subscriber.{active, suspended, terminated, unknown, known-IsCanonical, IsCanonical}
use my_demo_app.Store.Db.{Db, or_not_found, IsStore, put_subscriber}

-- The error of a refused request for `to`.
abbrev pub refusal : Status → Error
refusal to =
    if is_known to then invalid_status_transition else validation (unknown_status (status_text to))

-- What a request to move subscriber `id` to `to` may lead to from `w`: the subscriber is missing,
-- the move is refused, or the status alone changes. The counter stays.
pub data ChangeOutcome {S : Type 0} (view : S → Db) (id : Str) (to : Status) (w : World S)
    : Result Subscriber × World S → Type 0 where
  missing : (view w.store).subscribers id ≡ none → ChangeOutcome view id to w (err not_found, w)
  refused :
      (sub : Subscriber)
      → (view w.store).subscribers id ≡ some sub
      → ¬ Moves sub.status to
      → ChangeOutcome view id to w (err (refusal to), w)
  changed :
      (sub : Subscriber) (s : S)
      → (view w.store).subscribers id ≡ some sub
      → Moves sub.status to
      → view s ≡ put_subscriber (record sub { status = to }) (view w.store)
      → ChangeOutcome view id to w (ok (record sub { status = to }), record w { store = s })

pub passes-IsCanonical : (from to : Status) → passes from to ≡ true → IsCanonical to
unfolding is_known
passes-IsCanonical from active h = known-IsCanonical.0
passes-IsCanonical from suspended h = known-IsCanonical.1
passes-IsCanonical from terminated h = known-IsCanonical.2
passes-IsCanonical from (unknown s) h = ground arith

module _ {S : Type 0} {store : Store S} {view : S → Db} (laws : IsStore store view) where
  pub change_missing :
      (id : Str) (to : Status) (w : World S)
      → (view w.store).subscribers id ≡ none
      → change_status store id to w ≡ (err not_found, w)
  unfolding change_status
  change_missing id to w none_there =
      let e : store.get_subscriber id w.store ≡ err not_found =
        laws.get_subscriber_lem id w.store ∙ ap or_not_found none_there in
      rw e

  pub change_refused :
      (id : Str) (to : Status) (w : World S) (sub : Subscriber)
      → (view w.store).subscribers id ≡ some sub
      → passes sub.status to ≡ false
      → change_status store id to w ≡ (err (refusal to), w)
  unfolding change_status
  change_refused id to w sub there no_pass =
      let e : store.get_subscriber id w.store ≡ ok sub =
        laws.get_subscriber_lem id w.store ∙ ap or_not_found there in
      rw e (ground arith)

  pub change_passed :
      (id : Str) (to : Status) (w : World S) (sub : Subscriber)
      → (view w.store).subscribers id ≡ some sub
      → passes sub.status to ≡ true
      → (store.update_subscriber (record sub { status = to }) w.store).0 ≡ ok tt
      → change_status store id to w ≡ (
        ok (record sub { status = to }),
        record w { store = (store.update_subscriber (record sub { status = to }) w.store).1 },
      )
  unfolding change_status
  change_passed id to w sub there pass done =
      let e : store.get_subscriber id w.store ≡ ok sub =
        laws.get_subscriber_lem id w.store ∙ ap or_not_found there in
      rw e (ground arith)

  -- Over a store that keeps the interface's laws and holds issued IDs, ChangeStatus has one of its
  -- outcomes: an unknown subscriber, an unknown status or a move that the status machine lacks is
  -- refused and changes nothing; a move that it has stores the new status and changes nothing else.
  pub change_status-ChangeOutcome :
      (n : ℕ) (id : Str) (to : Status) (w : World S)
      → IsIssued n (view w.store)
      → ChangeOutcome view id to w (change_status store id to w)
  change_status-ChangeOutcome n id to w h = elim (Option-cases ((view w.store).subscribers id)) [
    | inl none_there ↦ rw (change_missing id to w none_there) (missing none_there)
    | inr (sub, there) ↦ elim (Bool-cases (passes sub.status to)) [
      | inl pass ↦
          let key : (view w.store).subscribers sub.id ≡ some sub =
            ap (view w.store).subscribers (h.subscriber id sub there).0 ∙ there in
          let (done, effect) =
            laws.update_subscriber_lem (record sub { status = to }) sub w.store key
              (passes-IsCanonical sub.status to pass) in
          rw (change_passed id to w sub there pass done)
            (changed sub _ there ((passes_iff sub.status to).0 pass) effect)
      | inr no_pass ↦
          rw (change_refused id to w sub there no_pass)
            (refused sub there (λ move. cc ((passes_iff sub.status to).1 move)))
    ]
  ]

  -- Over a lawful store, ChangeStatus keeps every stored ID an issued one.
  pub change_status-IsIssued :
      (n : ℕ) (id : Str) (to : Status) (w : World S)
      → IsIssued n (view w.store)
      → IsIssued n (view (change_status store id to w).1.store)
  change_status-IsIssued n id to w h = keeps (change_status-ChangeOutcome n id to w h)
    where
      keeps :
          {out : Result Subscriber × World S}
          → ChangeOutcome view id to w out
          → IsIssued n (view out.1.store)
      keeps (missing none_there) = h
      keeps (refused sub there stays) = h
      keeps (changed sub s there move effect) =
          let (same, issued) = h.subscriber id sub there in
          let (i, le, is) = issued in
          rw effect (
            put_subscriber-IsIssued n i (view w.store) (record sub { status = to }) (same ∙ is) le
              h)
