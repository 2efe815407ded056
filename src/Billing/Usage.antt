-- ===== src/Billing/Usage.antt =====
-- The usage totals of a period: sums over its records, in any order, that add up over adjacent
-- periods.
use mathlib.Core.List.{Permᴰ}
use my_demo_app.Prelude.{
  ◌≡◌, refl, sym, ap, ap₂, ◌∙◌, Bool, ◌&&◌, List, [], ◌∷◌, arith, if◌then◌else◌,
}
use my_demo_app.Prelude.Int.{ℤ, ◌+ℤ◌, ltb_ℤ, +ℤ_comm, +ℤ_assoc, int_laws, pos}
use my_demo_app.Word.{wrap64, wrap64-add_left, add64}
use my_demo_app.Text.{str_eq_iff, Str, lit, str_eq}
use my_demo_app.Time.{Time}
use my_demo_app.Subscriber.{UsageRecord}
use my_demo_app.Billing.{
  Totals, no_usage, voice_limit, tally_voice, tally_data, tally_sms, in_period, tally, aggregate,
}

pub +ℤ_zero : (a : ℤ) → a +ℤ pos 0 ≡ a
unfolding ◌+ℤ◌
+ℤ_zero a = ground arith

pub zero-+ℤ : (a : ℤ) → pos 0 +ℤ a ≡ a
zero-+ℤ a = +ℤ_comm (pos 0) a ∙ +ℤ_zero a

-- The sum of an integer for each record.
abbrev pub sum_by : {A : Type 0} → (A → ℤ) → List A → ℤ
sum_by f [] = pos 0
sum_by f (x ∷ xs) = f x +ℤ sum_by f xs

pub sum_by-perm :
    {A : Type 0} (f : A → ℤ) {xs ys : List A} → Permᴰ xs ys → sum_by f xs ≡ sum_by f ys
sum_by-perm f Permᴰ.nil = refl
sum_by-perm f (Permᴰ.cons e p) = ap₂ (λ a b. f a +ℤ b) e (sum_by-perm f p)
sum_by-perm f (Permᴰ.swap {a} {b} {l = l} e h) =
    rw (← e, ← h)
      (sym (+ℤ_assoc (f a) (f b) (sum_by f l))
        ∙ rw (+ℤ_comm (f a) (f b)) (+ℤ_assoc (f b) (f a) (sum_by f l)))
sum_by-perm f (Permᴰ.trans p q) = sum_by-perm f p ∙ sum_by-perm f q

pub sum_by-add :
    {A : Type 0} (f g h : A → ℤ)
    → ((x : A) → h x ≡ f x +ℤ g x)
    → (xs : List A) → sum_by h xs ≡ sum_by f xs +ℤ sum_by g xs
sum_by-add f g h split [] = unfold ◌+ℤ◌ in refl
sum_by-add f g h split (x ∷ xs) = rw (split x, sum_by-add f g h split xs) (omega int_laws)

-- What a record counts for, by kind; a quantity that is not positive counts for nothing.
abbrev pub positive : ℤ → ℤ
positive q = if ltb_ℤ (pos 0) q then q else pos 0

abbrev pub capped : ℤ → ℤ
capped q = if ltb_ℤ q voice_limit then positive q else voice_limit

module _ (start end : Time) where
  abbrev pub in_kind : Str → UsageRecord → Bool
  in_kind kind u = in_period start end u.timestamp && str_eq u.kind kind

  abbrev pub voice_of : UsageRecord → ℤ
  voice_of u = if in_kind (lit "voice") u then capped u.quantity else pos 0

  abbrev pub data_of : UsageRecord → ℤ
  data_of u = if in_kind (lit "data") u then positive u.quantity else pos 0

  abbrev pub sms_of : UsageRecord → ℤ
  sms_of u = if in_kind (lit "sms") u then positive u.quantity else pos 0

  -- The totals of a list, wrapped once at the end.
  abbrev pub totals : List UsageRecord → Totals
  totals us = record {
    voice_min = wrap64 (sum_by voice_of us);
    data_mb = wrap64 (sum_by data_of us);
    sms_count = wrap64 (sum_by sms_of us);
  }

  tally_lem :
      (u : UsageRecord) (a b c : ℤ)
      → tally start end u
          (record { voice_min = wrap64 a; data_mb = wrap64 b; sms_count = wrap64 c })
        ≡ record {
          voice_min = wrap64 (a +ℤ voice_of u);
          data_mb = wrap64 (b +ℤ data_of u);
          sms_count = wrap64 (c +ℤ sms_of u);
        }
  unfolding tally tally_voice tally_data tally_sms add64
  tally_lem u a b c = ground (
    arith,
    +ℤ_zero a,
    +ℤ_zero b,
    +ℤ_zero c,
    wrap64-add_left a u.quantity,
    wrap64-add_left a voice_limit,
    wrap64-add_left b u.quantity,
    wrap64-add_left c u.quantity,
    str_eq_iff u.kind (lit "voice"),
    str_eq_iff u.kind (lit "data"),
    str_eq_iff u.kind (lit "sms"),
  )

  -- The loop computes the sums.
  aggregate_from :
      (us : List UsageRecord) (a b c : ℤ)
      → aggregate start end us
          (record { voice_min = wrap64 a; data_mb = wrap64 b; sms_count = wrap64 c })
        ≡ record {
          voice_min = wrap64 (a +ℤ sum_by voice_of us);
          data_mb = wrap64 (b +ℤ sum_by data_of us);
          sms_count = wrap64 (c +ℤ sum_by sms_of us);
        }
  unfolding aggregate
  aggregate_from [] a b c = rw (+ℤ_zero a, +ℤ_zero b, +ℤ_zero c)
  aggregate_from (u ∷ us) a b c =
      rw (tally_lem u a b c, aggregate_from us (a +ℤ voice_of u) (b +ℤ data_of u) (c +ℤ sms_of u))
        (λ i. record {
          voice_min = wrap64 (+ℤ_assoc a (voice_of u) (sum_by voice_of us) i);
          data_mb = wrap64 (+ℤ_assoc b (data_of u) (sum_by data_of us) i);
          sms_count = wrap64 (+ℤ_assoc c (sms_of u) (sum_by sms_of us) i);
        })

  -- The loop over the usage gives, per kind, the wrapped sum over the records of the period: a
  -- positive quantity counts (for voice up to the limit), any other counts 0.
  pub aggregate-totals : (us : List UsageRecord) → aggregate start end us no_usage ≡ totals us
  aggregate-totals us =
      let zero_wraps : wrap64 (pos 0) ≡ pos 0 = unfold wrap64 in refl in
      let start_totals : no_usage ≡ record {
        voice_min = wrap64 (pos 0);
        data_mb = wrap64 (pos 0);
        sms_count = wrap64 (pos 0);
      } =
        rw zero_wraps in
      ap (aggregate start end us) start_totals
      ∙ aggregate_from us (pos 0) (pos 0) (pos 0)
      ∙ rw (zero-+ℤ (sum_by voice_of us), zero-+ℤ (sum_by data_of us), zero-+ℤ (sum_by sms_of us))
