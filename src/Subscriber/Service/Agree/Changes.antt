-- ===== src/Subscriber/Service/Agree/Changes.antt =====
-- internal/subscriber/service.go: reads, `ChangeStatus`, `AddUsage` and the reset over two stores.
use my_demo_app.Subscriber.Service.{
  World, get_plan, get_subscriber, change_status, add_usage, on_store, is_valid_kind,
}
use my_demo_app.Subscriber.{Status, Store}
use my_demo_app.Subscriber.Service.Transitions.{passes}
use my_demo_app.Subscriber.Service.Usage.{new_record, usage_missing, usage_refused, usage_recorded}
use my_demo_app.Subscriber.Service.Change.{
  change_missing, change_refused, change_passed, passes-IsCanonical,
}
use my_demo_app.Prelude.{
  ℕ, ◌+◌, ◌^◌, ◌<◌, ◌≡◌, refl, sym, ap, ◌∙◌, inl, inr, some, arith, Bool-cases, Option-cases,
}
use my_demo_app.Subscriber.Service.Issued.{
  IsIssued, fresh_usage, IsIssued-up, put_subscriber-IsIssued, put_usage-IsIssued, empty-IsIssued,
}
use my_demo_app.Store.Db.{Db, or_not_found, put_subscriber, put_usage, IsStore}
use mathlib.Core.Path.{subst}
use my_demo_app.Prelude.Int.{ℤ}
use my_demo_app.Text.{Str}
use my_demo_app.Time.{Time}
use my_demo_app.Subscriber.Service.Agree.{plan, subscriber, usage, done, through, IsAlike, Follows}

module _ {S T : Type 0} {store_s : Store S} {store_t : Store T} {view_s : S → Db} {view_t : T → Db}
    (laws_s : IsStore store_s view_s) (laws_t : IsStore store_t view_t) where
  pub reads-Follows :
      (n : ℕ) (id : Str) (v : World S) (w : World T)
      → IsAlike view_s view_t n v w
      → Follows view_s view_t n
          (through plan (get_plan store_s id v))
          (through plan (get_plan store_t id w))
        × Follows view_s view_t n
            (through subscriber (get_subscriber store_s id v))
            (through subscriber (get_subscriber store_t id w))
  unfolding get_plan get_subscriber
  reads-Follows n id v w h =
      let plans : or_not_found ((view_s v.store).plans id)
          ≡ or_not_found ((view_t w.store).plans id) =
        ap (λ (d : Db). or_not_found (d.plans id)) h.same in
      let subs : or_not_found ((view_s v.store).subscribers id)
          ≡ or_not_found ((view_t w.store).subscribers id) =
        ap (λ (d : Db). or_not_found (d.subscribers id)) h.same in
      (
        (
          ap plan (laws_s.get_plan_lem id v.store ∙ plans ∙ sym (laws_t.get_plan_lem id w.store)),
          (n, omega arith, h),
        ),
        (
          ap subscriber (
              laws_s.get_subscriber_lem id v.store
              ∙ subs
              ∙ sym (laws_t.get_subscriber_lem id w.store)),
          (n, omega arith, h),
        ),
      )

  pub status_changed-Follows :
      (n : ℕ) (id : Str) (to : Status) (v : World S) (w : World T)
      → IsAlike view_s view_t n v w
      → Follows view_s view_t n
          (through subscriber (change_status store_s id to v))
          (through subscriber (change_status store_t id to w))
  status_changed-Follows n id to v w h =
      let there_w : (view_t w.store).subscribers id ≡ (view_s v.store).subscribers id =
        ap (λ (d : Db). d.subscribers id) (sym h.same) in
      elim (Option-cases ((view_s v.store).subscribers id)) [
        | inl none_there ↦
            rw
              (
                change_missing laws_s id to v none_there,
                change_missing laws_t id to w (there_w ∙ none_there),
              )
              (refl, (n, omega arith, h))
        | inr (sub, there) ↦ elim (Bool-cases (passes sub.status to)) [
          | inr no_pass ↦
              rw
                (
                  change_refused laws_s id to v sub there no_pass,
                  change_refused laws_t id to w sub (there_w ∙ there) no_pass,
                )
                (refl, (n, omega arith, h))
          | inl pass ↦
              let new = record sub { status = to } in
              let (key, issued) = h.issued.subscriber id sub there in
              let (i, le, is) = issued in
              let canonical = passes-IsCanonical sub.status to pass in
              let at_v : (view_s v.store).subscribers sub.id ≡ some sub =
                ap (view_s v.store).subscribers key ∙ there in
              let at_w : (view_t w.store).subscribers sub.id ≡ some sub =
                ap (view_t w.store).subscribers key ∙ there_w ∙ there in
              let (done_v, effect_v) =
                laws_s.update_subscriber_lem new sub v.store at_v canonical in
              let (done_w, effect_w) =
                laws_t.update_subscriber_lem new sub w.store at_w canonical in
              rw
                (
                  change_passed laws_s id to v sub there pass done_v,
                  change_passed laws_t id to w sub (there_w ∙ there) pass done_w,
                )
                (
                  refl,
                  (
                    n,
                    omega arith,
                    record {
                      counter_v = h.counter_v;
                      counter_w = h.counter_w;
                      same = effect_v ∙ ap (put_subscriber new) h.same ∙ sym effect_w;
                      issued =
                          rw effect_v (
                            put_subscriber-IsIssued n i (view_s v.store) new (key ∙ is) le
                              h.issued);
                    },
                  ),
                )
        ]
      ]

  pub usage_added-Follows :
      (n : ℕ) (now : Time) (id kind : Str) (qty : ℤ) (ts : Time) (v : World S) (w : World T)
      → n + 1 < 2 ^ 63
      → IsAlike view_s view_t n v w
      → Follows view_s view_t n
          (through usage (add_usage store_s now id kind qty ts v))
          (through usage (add_usage store_t now id kind qty ts w))
  usage_added-Follows n now id kind qty ts v w room h =
      let there_w : (view_t w.store).subscribers id ≡ (view_s v.store).subscribers id =
        ap (λ (d : Db). d.subscribers id) (sym h.same) in
      elim (Option-cases ((view_s v.store).subscribers id)) [
        | inl none_there ↦
            rw
              (
                usage_missing laws_s n now id kind qty ts v none_there,
                usage_missing laws_t n now id kind qty ts w (there_w ∙ none_there),
              )
              (refl, (n, omega arith, h))
        | inr (sub, there) ↦ elim (Bool-cases (is_valid_kind kind)) [
          | inr bad ↦
              rw
                (
                  usage_refused laws_s n now id kind qty ts v sub there bad,
                  usage_refused laws_t n now id kind qty ts w sub (there_w ∙ there) bad,
                )
                (refl, (n, omega arith, h))
          | inl good ↦
              let new = new_record n now id kind qty ts in
              let issued_w : IsIssued n (view_t w.store) = subst (IsIssued n) h.same h.issued in
              let (done_v, effect_v) =
                laws_s.add_usage_lem new v.store
                  (fresh_usage n (view_s v.store) new refl h.issued room) in
              let (done_w, effect_w) =
                laws_t.add_usage_lem new w.store
                  (fresh_usage n (view_t w.store) new refl issued_w room) in
              rw
                (
                  usage_recorded laws_s n now id kind qty ts v sub there good h.counter_v room
                      done_v,
                  usage_recorded laws_t n now id kind qty ts w sub (there_w ∙ there) good
                      h.counter_w room done_w,
                )
                (
                  refl,
                  (
                    n + 1,
                    omega arith,
                    record {
                      counter_v = refl;
                      counter_w = refl;
                      same = effect_v ∙ ap (put_usage new) h.same ∙ sym effect_w;
                      issued = rw effect_v (
                          put_usage-IsIssued (n + 1) (view_s v.store) new refl
                            (IsIssued-up n (n + 1) (view_s v.store) (omega arith) h.issued));
                    },
                  ),
                )
        ]
      ]

  pub emptied-Follows :
      (n : ℕ) (v : World S) (w : World T)
      → IsAlike view_s view_t n v w
      → Follows view_s view_t n
          (through done (on_store store_s.reset v))
          (through done (on_store store_t.reset w))
  emptied-Follows n v w h =
      let (done_v, effect_v) = laws_s.reset_lem v.store in
      let (done_w, effect_w) = laws_t.reset_lem w.store in
      (
        ap done (done_v ∙ sym done_w),
        (
          n,
          omega arith,
          record {
            counter_v = h.counter_v;
            counter_w = h.counter_w;
            same = effect_v ∙ sym effect_w;
            issued = rw effect_v (empty-IsIssued n);
          },
        ),
      )
