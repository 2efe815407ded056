-- ===== src/Http/Invoicing/Gather.antt =====
-- internal/httpapi/invoice.go: what the loop over the kinds gathers.
use my_demo_app.Prelude.{◌≡◌, refl, sym, ap, ap₂, ◌∙◌, List, [], ◌∷◌, ◌++◌}
use my_demo_app.Http.Invoicing.{usage_kinds, collect, gather}
use my_demo_app.Text.{Str, lit}
use my_demo_app.Time.{Time}
use my_demo_app.Exec.{ok}
use my_demo_app.Subscriber.{Store, UsageRecord}
use my_demo_app.Store.Filter.{keep_if}
use my_demo_app.Billing.Order.{by_kind, is_kind}

append-nil : {A : Type 0} (xs : List A) → xs ++ [] ≡ xs
append-nil [] = refl
append-nil (x ∷ xs) = ap (λ ys. x ∷ ys) (append-nil xs)

append_assoc : {A : Type 0} (xs ys zs : List A) → (xs ++ ys) ++ zs ≡ xs ++ (ys ++ zs)
append_assoc [] ys zs = refl
append_assoc (x ∷ xs) ys zs = ap (λ l. x ∷ l) (append_assoc xs ys zs)

module _ {S : Type 0} (store : Store S) (quote : Str → Str) (id : Str) (start end : Time)
    (s : S) where
  step :
      (kind : Str) (kinds : List Str) (us later : List UsageRecord)
      → store.list_usage id start end s ≡ ok us
      → gather store quote id start end kinds s ≡ ok later
      → gather store quote id start end (kind ∷ kinds) s ≡ ok (keep_if (is_kind kind) us ++ later)
  unfolding gather
  step kind kinds us later h k = ap₂ (collect kind) h k

  -- Where one range read of the store gives a list, the loop gathers the list's records kind by kind.
  pub gather-by_kind :
      (us : List UsageRecord)
      → store.list_usage id start end s ≡ ok us
      → gather store quote id start end usage_kinds s ≡ ok (by_kind us)
  unfolding gather
  gather-by_kind us h =
      let v = keep_if (is_kind (lit "voice")) us in
      let b = keep_if (is_kind (lit "data")) us in
      let m = keep_if (is_kind (lit "sms")) us in
      step (lit "voice") (lit "data" ∷ lit "sms" ∷ []) us (b ++ (m ++ [])) h
        (step (lit "data") (lit "sms" ∷ []) us (m ++ []) h (step (lit "sms") [] us [] h refl))
      ∙ ap ok (rw (append-nil m) (sym (append_assoc v b m)))
