-- ===== src/Billing/Order.antt =====
-- Usage totals do not depend on the order of the records, split at a boundary without loss, and are
-- those of the records gathered kind by kind.
use mathlib.Core.List.{Permᴰ}
use my_demo_app.Prelude.{
  ◌≤◌, ◌≡◌, refl, sym, ap, ◌∙◌, inl, inr, Bool, List, [], ◌∷◌, ◌++◌, arith, if◌then◌else◌,
  Bool-cases,
}
use my_demo_app.Prelude.Int.{ℤ, ◌+ℤ◌, +ℤ_assoc, pos}
use my_demo_app.Word.{wrap64, wrap64-add_left, wrap64-add_right, add64}
use my_demo_app.Text.{Str, lit, str_eq, str_eq_iff}
use my_demo_app.Time.{Time, Location, within}
use my_demo_app.Subscriber.{Plan, UsageRecord}
use my_demo_app.Store.Filter.{keep_if}
use my_demo_app.Billing.{Totals, no_usage, aggregate, rate}
use my_demo_app.Billing.Usage.{
  +ℤ_zero, zero-+ℤ, sum_by, sum_by-perm, sum_by-add, positive, capped, voice_of, data_of, sms_of,
  totals, aggregate-totals,
}

totals-perm :
    (start end : Time) {us vs : List UsageRecord}
    → Permᴰ us vs
    → totals start end us ≡ totals start end vs
totals-perm start end p = rw (
  sum_by-perm (voice_of start end) p,
  sum_by-perm (data_of start end) p,
  sum_by-perm (sms_of start end) p,
)

-- The invoice does not depend on the order of the usage records.
pub rate-perm :
    (local : Location) (plan : Plan) (start end : Time) {us vs : List UsageRecord}
    → Permᴰ us vs
    → rate local plan us start end ≡ rate local plan vs start end
unfolding rate
rate-perm local plan start end {us} {vs} p = rw (
  aggregate-totals (within local start) (within local end) us,
  aggregate-totals (within local start) (within local end) vs,
  totals-perm (within local start) (within local end) p,
)

abbrev pub add_totals : Totals → Totals → Totals
add_totals s t = record {
  voice_min = add64 s.voice_min t.voice_min;
  data_mb = add64 s.data_mb t.data_mb;
  sms_count = add64 s.sms_count t.sms_count;
}

wrap64-add : (a b : ℤ) → wrap64 (a +ℤ b) ≡ add64 (wrap64 a) (wrap64 b)
unfolding add64
wrap64-add a b = sym (wrap64-add_left a b) ∙ sym (wrap64-add_right (wrap64 a) b)

module _ (a b c : Time) (early : a.instant ≤ b.instant) (late : b.instant ≤ c.instant) where
  voice_split : (u : UsageRecord) → voice_of a c u ≡ voice_of a b u +ℤ voice_of b c u
  voice_split u =
      ground (arith, +ℤ_zero (capped u.quantity), zero-+ℤ (capped u.quantity), +ℤ_zero (pos 0))

  data_split : (u : UsageRecord) → data_of a c u ≡ data_of a b u +ℤ data_of b c u
  data_split u =
      ground (arith, +ℤ_zero (positive u.quantity), zero-+ℤ (positive u.quantity), +ℤ_zero (pos 0))

  sms_split : (u : UsageRecord) → sms_of a c u ≡ sms_of a b u +ℤ sms_of b c u
  sms_split u =
      ground (arith, +ℤ_zero (positive u.quantity), zero-+ℤ (positive u.quantity), +ℤ_zero (pos 0))

  -- The totals of a period are the wrapped sums of the totals of two adjacent parts of it: a record
  -- at the boundary counts once.
  pub aggregate-split :
      (us : List UsageRecord)
      → aggregate a c us no_usage
        ≡ add_totals (aggregate a b us no_usage) (aggregate b c us no_usage)
  aggregate-split us =
      rw (aggregate-totals a c us, aggregate-totals a b us, aggregate-totals b c us)
        (λ i. record { voice_min = voice i; data_mb = bytes i; sms_count = sms i })
    where
      voice :
          wrap64 (sum_by (voice_of a c) us)
          ≡ add64 (wrap64 (sum_by (voice_of a b) us)) (wrap64 (sum_by (voice_of b c) us))
      voice =
          ap wrap64 (sum_by-add (voice_of a b) (voice_of b c) (voice_of a c) voice_split us)
          ∙ wrap64-add _ _

      bytes :
          wrap64 (sum_by (data_of a c) us)
          ≡ add64 (wrap64 (sum_by (data_of a b) us)) (wrap64 (sum_by (data_of b c) us))
      bytes =
          ap wrap64 (sum_by-add (data_of a b) (data_of b c) (data_of a c) data_split us)
          ∙ wrap64-add _ _

      sms :
          wrap64 (sum_by (sms_of a c) us)
          ≡ add64 (wrap64 (sum_by (sms_of a b) us)) (wrap64 (sum_by (sms_of b c) us))
      sms =
          ap wrap64 (sum_by-add (sms_of a b) (sms_of b c) (sms_of a c) sms_split us)
          ∙ wrap64-add _ _

abbrev pub is_kind : Str → UsageRecord → Bool
is_kind kind u = str_eq u.kind kind

-- The records of each of the three kinds, kind by kind.
abbrev pub by_kind : List UsageRecord → List UsageRecord
by_kind us =
    keep_if (is_kind (lit "voice")) us
    ++ keep_if (is_kind (lit "data")) us
    ++ keep_if (is_kind (lit "sms")) us

sum_by-append :
    {A : Type 0} (f : A → ℤ) (xs ys : List A) → sum_by f (xs ++ ys) ≡ sum_by f xs +ℤ sum_by f ys
sum_by-append f [] ys = sym (zero-+ℤ (sum_by f ys))
sum_by-append f (x ∷ xs) ys =
    rw (sum_by-append f xs ys) (sym (+ℤ_assoc (f x) (sum_by f xs) (sum_by f ys)))

sum_by-keep_if :
    {A : Type 0} (f : A → ℤ) (test : A → Bool) (xs : List A)
    → sum_by f (keep_if test xs) ≡ sum_by (λ x. if test x then f x else pos 0) xs
unfolding keep_if
sum_by-keep_if f test [] = refl
sum_by-keep_if f test (x ∷ xs) = elim (Bool-cases (test x)) [
  | inl kept ↦ rw kept (ap (λ n. f x +ℤ n) (sum_by-keep_if f test xs))
  | inr left ↦
      rw left
        (sum_by-keep_if f test xs ∙ sym (zero-+ℤ (sum_by (λ y. if test y then f y else pos 0) xs)))
]

-- A count that is 0 for all but the three kinds is the same kind by kind.
sum_by-by_kind :
    (f : UsageRecord → ℤ)
    → ((u : UsageRecord)
        → f u
          ≡ (if is_kind (lit "voice") u then f u else pos 0)
            +ℤ (if is_kind (lit "data") u then f u else pos 0)
            +ℤ (if is_kind (lit "sms") u then f u else pos 0))
    → (us : List UsageRecord) → sum_by f (by_kind us) ≡ sum_by f us
sum_by-by_kind f split us =
    let only = λ (kind : Str) (u : UsageRecord). if is_kind kind u then f u else pos 0 in
    let voices = keep_if (is_kind (lit "voice")) us in
    let bytes = keep_if (is_kind (lit "data")) us in
    let sms = keep_if (is_kind (lit "sms")) us in
    sum_by-append f (voices ++ bytes) sms
    ∙ ap (λ n. n +ℤ sum_by f sms) (sum_by-append f voices bytes)
    ∙ rw
        (
          sum_by-keep_if f (is_kind (lit "voice")) us,
          sum_by-keep_if f (is_kind (lit "data")) us,
          sum_by-keep_if f (is_kind (lit "sms")) us,
        )
        (sym (
          sum_by-add (λ u. only (lit "voice") u +ℤ only (lit "data") u) (only (lit "sms")) f split
            us
          ∙ ap (λ n. n +ℤ sum_by (only (lit "sms")) us)
              (sum_by-add (only (lit "voice")) (only (lit "data"))
                (λ u. only (lit "voice") u +ℤ only (lit "data") u) (λ u. refl) us)))

-- Gathering the records kind by kind changes no total.
pub aggregate-by_kind :
    (start end : Time) (us : List UsageRecord)
    → aggregate start end (by_kind us) no_usage ≡ aggregate start end us no_usage
aggregate-by_kind start end us =
    rw (aggregate-totals start end (by_kind us), aggregate-totals start end us)
      (rw (
        sum_by-by_kind (voice_of start end) voice us,
        sum_by-by_kind (data_of start end) bytes us,
        sum_by-by_kind (sms_of start end) sms us,
      ))
  where
    voice :
        (u : UsageRecord)
        → voice_of start end u
          ≡ (if is_kind (lit "voice") u then voice_of start end u else pos 0)
            +ℤ (if is_kind (lit "data") u then voice_of start end u else pos 0)
            +ℤ (if is_kind (lit "sms") u then voice_of start end u else pos 0)
    voice u =
        let x = voice_of start end u in
        ground (
          arith,
          +ℤ_zero x,
          +ℤ_zero (pos 0),
          zero-+ℤ x,
          str_eq_iff u.kind (lit "voice"),
          str_eq_iff u.kind (lit "data"),
          str_eq_iff u.kind (lit "sms"),
        )

    bytes :
        (u : UsageRecord)
        → data_of start end u
          ≡ (if is_kind (lit "voice") u then data_of start end u else pos 0)
            +ℤ (if is_kind (lit "data") u then data_of start end u else pos 0)
            +ℤ (if is_kind (lit "sms") u then data_of start end u else pos 0)
    bytes u =
        let x = data_of start end u in
        ground (
          arith,
          +ℤ_zero x,
          +ℤ_zero (pos 0),
          zero-+ℤ x,
          str_eq_iff u.kind (lit "voice"),
          str_eq_iff u.kind (lit "data"),
          str_eq_iff u.kind (lit "sms"),
        )

    sms :
        (u : UsageRecord)
        → sms_of start end u
          ≡ (if is_kind (lit "voice") u then sms_of start end u else pos 0)
            +ℤ (if is_kind (lit "data") u then sms_of start end u else pos 0)
            +ℤ (if is_kind (lit "sms") u then sms_of start end u else pos 0)
    sms u =
        let x = sms_of start end u in
        ground (
          arith,
          +ℤ_zero x,
          +ℤ_zero (pos 0),
          zero-+ℤ x,
          str_eq_iff u.kind (lit "voice"),
          str_eq_iff u.kind (lit "data"),
          str_eq_iff u.kind (lit "sms"),
        )
