-- ===== src/Subscriber/Service/Issued.antt =====
-- Generated IDs are never reused while the counter does not wrap.
use mathlib.Core.Option.{none-ne-some, some-injective}
use mathlib.Core.List.{Memᴰ, List, [], ◌∷◌, ◌++◌}
use mathlib.Core.Logic.{◌⊎◌}
use my_demo_app.Prelude.{
  ℕ, ◌+◌, ◌^◌, ◌≤◌, ◌<◌, ◌≡◌, sym, ap, ◌∙◌, inl, inr, none, some, arith, Bool-cases, Option-cases,
}
use my_demo_app.Prelude.Int.{pos_part, pos}
use my_demo_app.Text.{Str, lit, str_eq, str_eq_iff}
use my_demo_app.Text.Decimal.{itoa, itoa-injective}
use my_demo_app.Subscriber.{Plan, Subscriber, UsageRecord}
use my_demo_app.Subscriber.Service.{id_text}
use my_demo_app.Store.Db.{empty_db, Db, put_plan, put_subscriber, put_usage, IsFreshUsage}

abbrev pub sub_id : ℕ → Str
sub_id n = id_text (lit "sub") (pos n)

abbrev pub plan_id : ℕ → Str
plan_id n = id_text (lit "plan") (pos n)

pub sub_id-injective : (m n : ℕ) → m < 2 ^ 63 → n < 2 ^ 63 → sub_id m ≡ sub_id n → m ≡ n
unfolding id_text
sub_id-injective m n hm hn e =
    let same : itoa (pos m) ≡ itoa (pos n) = cc in
    let path : pos m ≡ pos n = itoa-injective (pos m) (pos n) (omega arith) (omega arith) same in
    ap pos_part path

pub plan_id-injective : (m n : ℕ) → m < 2 ^ 63 → n < 2 ^ 63 → plan_id m ≡ plan_id n → m ≡ n
unfolding id_text
plan_id-injective m n hm hn e =
    let same : itoa (pos m) ≡ itoa (pos n) = cc in
    let path : pos m ≡ pos n = itoa-injective (pos m) (pos n) (omega arith) (omega arith) same in
    ap pos_part path

abbrev pub use_id : ℕ → Str
use_id n = id_text (lit "use") (pos n)

pub use_id-injective : (m n : ℕ) → m < 2 ^ 63 → n < 2 ^ 63 → use_id m ≡ use_id n → m ≡ n
unfolding id_text
use_id-injective m n hm hn e =
    let same : itoa (pos m) ≡ itoa (pos n) = cc in
    let path : pos m ≡ pos n = itoa-injective (pos m) (pos n) (omega arith) (omega arith) same in
    ap pos_part path

-- Every stored plan and subscriber carries its key as its ID, and it and every recorded event have an
-- ID that was generated when the counter stood no higher than `n`.
pub record IsIssued (n : ℕ) (d : Db) : Type 0 where
  pub plan :
      (k : Str) (p : Plan) → d.plans k ≡ some p → (p.id ≡ k) × ((i : ℕ) × (i ≤ n) × (k ≡ plan_id i))
  pub subscriber :
      (k : Str) (s : Subscriber)
      → d.subscribers k ≡ some s
      → (s.id ≡ k) × ((i : ℕ) × (i ≤ n) × (k ≡ sub_id i))
  pub usage :
      (k : Str) (r : UsageRecord) → Memᴰ r (d.usage k) → (i : ℕ) × (i ≤ n) × (r.id ≡ use_id i)

-- The next ID is not in use.
pub fresh_plan : (n : ℕ) (d : Db) → IsIssued n d → n + 1 < 2 ^ 63 → d.plans (plan_id (n + 1)) ≡ none
fresh_plan n d h room = elim (Option-cases (d.plans (plan_id (n + 1)))) [
  | inl free ↦ free
  | inr (p, used) ↦
      let (i, le, e) = (h.plan (plan_id (n + 1)) p used).1 in
      absurd (omega (arith, plan_id-injective (n + 1) i room (omega arith) e))
]

pub fresh_subscriber :
    (n : ℕ) (d : Db) → IsIssued n d → n + 1 < 2 ^ 63 → d.subscribers (sub_id (n + 1)) ≡ none
fresh_subscriber n d h room = elim (Option-cases (d.subscribers (sub_id (n + 1)))) [
  | inl free ↦ free
  | inr (s, used) ↦
      let (i, le, e) = (h.subscriber (sub_id (n + 1)) s used).1 in
      absurd (omega (arith, sub_id-injective (n + 1) i room (omega arith) e))
]

pub fresh_usage :
    (n : ℕ) (d : Db) (u : UsageRecord)
    → u.id ≡ use_id (n + 1)
    → IsIssued n d
    → n + 1 < 2 ^ 63
    → IsFreshUsage u d
fresh_usage n d u new h room k r there e =
    let (i, le, is) = h.usage k r there in
    omega (arith, use_id-injective (n + 1) i room (omega arith) (sym new ∙ sym e ∙ is))

-- What was issued before stays issued when the counter goes up.
pub IsIssued-up : (m n : ℕ) (d : Db) → m ≤ n → IsIssued m d → IsIssued n d
IsIssued-up m n d le h = record {
  plan = λ k p e. let (i, low, is) = (h.plan k p e).1 in ((h.plan k p e).0, (i, omega arith, is));
  subscriber = λ k s e.
      let (i, low, is) = (h.subscriber k s e).1 in ((h.subscriber k s e).0, (i, omega arith, is));
  usage = λ k r there. let (i, low, is) = h.usage k r there in (i, omega arith, is);
}

-- A plan stored under the ID that was just generated.
pub put_plan-IsIssued :
    (n : ℕ) (d : Db) (p : Plan) → p.id ≡ plan_id n → IsIssued n d → IsIssued n (put_plan p d)
put_plan-IsIssued n d p new h = record {
  plan = λ k q e. elim (Bool-cases (str_eq p.id k)) [
    | inl same ↦
        let at : p.id ≡ k = (str_eq_iff p.id k).0 same in
        let is : p ≡ q = some-injective _ _ (rw same at e) in
        (rw (← is) at, (n, omega arith, sym at ∙ new))
    | inr differs ↦ h.plan k q (rw differs at e)
  ];
  subscriber = h.subscriber;
  usage = h.usage;
}

pub put_subscriber-IsIssued :
    (n i : ℕ) (d : Db) (s : Subscriber)
    → s.id ≡ sub_id i
    → i ≤ n
    → IsIssued n d
    → IsIssued n (put_subscriber s d)
put_subscriber-IsIssued n i d s new le h = record {
  plan = h.plan;
  subscriber = λ k q e. elim (Bool-cases (str_eq s.id k)) [
    | inl same ↦
        let at : s.id ≡ k = (str_eq_iff s.id k).0 same in
        let is : s ≡ q = some-injective _ _ (rw same at e) in
        (rw (← is) at, (i, omega arith, sym at ∙ new))
    | inr differs ↦ h.subscriber k q (rw differs at e)
  ];
  usage = h.usage;
}

pub nowhere : {A : Type 0} {x : A} → ¬ Memᴰ x []
nowhere m = elim m [ ]

mem-append : {A : Type 0} {x y : A} (xs : List A) → Memᴰ x (xs ++ y ∷ []) → Memᴰ x xs ⊎ (x ≡ y)
mem-append [] (Memᴰ.head e) = inr e
mem-append [] (Memᴰ.tail m) = absurd (nowhere m)
mem-append (z ∷ xs) (Memᴰ.head e) = inl (Memᴰ.head e)
mem-append (z ∷ xs) (Memᴰ.tail m) = elim (mem-append xs m) [
  | inl old ↦ inl (Memᴰ.tail old)
  | inr new ↦ inr new
]

pub put_usage-IsIssued :
    (n : ℕ) (d : Db) (u : UsageRecord) → u.id ≡ use_id n → IsIssued n d → IsIssued n (put_usage u d)
put_usage-IsIssued n d u new h = record {
  plan = h.plan;
  subscriber = h.subscriber;
  usage = λ k r there. elim (Bool-cases (str_eq u.subscriber_id k)) [
    | inl same ↦ elim (mem-append (d.usage u.subscriber_id) (rw same at there)) [
      | inl old ↦ h.usage u.subscriber_id r old
      | inr is ↦ (n, omega arith, ap (λ (x : UsageRecord). x.id) is ∙ new)
    ]
    | inr differs ↦ h.usage k r (rw differs at there)
  ];
}

-- Nothing is stored in an empty database.
pub empty-IsIssued : (n : ℕ) → IsIssued n empty_db
empty-IsIssued n = record {
  plan = λ k p e. absurd (none-ne-some _ e);
  subscriber = λ k s e. absurd (none-ne-some _ e);
  usage = λ k r there. absurd (nowhere there);
}
