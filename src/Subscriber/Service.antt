-- ===== src/Subscriber/Service.antt =====
-- internal/subscriber/service.go: the use cases over a store.
pub mod Transitions
pub mod Issued
pub mod Change
pub mod Create
pub mod Plans
pub mod Usage
pub mod Pages
pub mod Interleaved
pub mod Agree
use my_demo_app.Prelude.{
  Bool, true, false, not, ◌||◌, Option, none, some, List, ◌++◌, ltb, if◌then◌else◌,
}
use my_demo_app.Prelude.Int.{ℤ, pos, ltb_ℤ}
use my_demo_app.Word.{add64, sub64}
use my_demo_app.Text.{Str, lit, str_eq, is_empty, byte_len}
use my_demo_app.Text.Trim.{trim_space}
use my_demo_app.Text.Decimal.{itoa}
use my_demo_app.Time.{Time, utc, within, is_zero}
use my_demo_app.Exec.{
  Result, Exec, pure, raise, ◌>>=◌, ◌>>◌, fail_if, plan_name_required, negative_price,
  msisdn_required, msisdn_length, plan_id_required, owner_required, unknown_status, unknown_kind,
  validation, invalid_status_transition, ok,
}
use my_demo_app.Subscriber.{
  Status, status_text, Plan, Subscriber, UsageRecord, Store, active, suspended, terminated, unknown,
}

-- The process: the store behind the service, and the counter that all services share.
pub record World (S : Type 0) : Type 0 where
  pub store : S
  pub id_counter : ℤ

pub record CreateSubscriberInput : Type 0 where
  pub msisdn : Str
  pub imsi : Str
  pub name : Str
  pub plan_id : Str
  pub owner_account_id : Str

-- `fmt.Sprintf("%s_%d", prefix, n)`
unfoldable pub id_text : Str → ℤ → Str
id_text pre n = pre ++ lit "_" ++ itoa n

unfoldable pub is_valid_kind : Str → Bool
is_valid_kind kind =
    str_eq kind (lit "voice") || (str_eq kind (lit "data") || str_eq kind (lit "sms"))

-- `allowedTransitions[from]`; `none` for a status that the map lacks.
unfoldable pub allowed_transitions : Status → Option (Status → Bool)
allowed_transitions active = some (elim [ suspended ↦ true | terminated ↦ true | _ ↦ false ])
allowed_transitions suspended = some (elim [ active ↦ true | terminated ↦ true | _ ↦ false ])
allowed_transitions terminated = some (elim [ active ↦ true | _ ↦ false ])
allowed_transitions (unknown s) = none

unfoldable pub is_known : Status → Bool
is_known (unknown s) = false
is_known _ = true

unfoldable pub default_limit : ℤ → ℤ
default_limit limit = if ltb_ℤ (pos 0) limit then limit else pos 50

module _ {S : Type 0} where
  unfoldable pub next_id : Str → Exec (World S) Str
  next_id pre w =
      let n = add64 w.id_counter (pos 1) in (ok (id_text pre n), record w { id_counter = n })

  -- A call of a store's method that changes it.
  abbrev pub on_store : {A : Type 0} → (S → Result A × S) → Exec (World S) A
  on_store f w = let (r, s) = f w.store in (r, record w { store = s })

  abbrev pub from_store : {A : Type 0} → (S → Result A) → Exec (World S) A
  from_store f w = (f w.store, w)

  unfoldable pub validate_msisdn : Str → Exec (World S) Unit
  validate_msisdn text = do
    let msisdn = trim_space text
    fail_if (is_empty msisdn) (validation msisdn_required)
    fail_if (ltb (byte_len msisdn) 5 || ltb 20 (byte_len msisdn)) (validation msisdn_length)

  abbrev or_invalid : {A : Type 0} → Option A → Exec (World S) A
  or_invalid none = raise invalid_status_transition
  or_invalid (some a) = pure a

module _ {S : Type 0} (store : Store S) where
  unfoldable pub create_plan : Plan → Exec (World S) Plan
  create_plan p = do
    fail_if (is_empty (trim_space p.name)) (validation plan_name_required)
    fail_if (ltb_ℤ p.monthly_price_cents (pos 0)) (validation negative_price)
    id ← next_id (lit "plan")
    let p' = record p { id = id }
    on_store (store.create_plan p')
    pure p'

  unfoldable pub get_plan : Str → Exec (World S) Plan
  get_plan id = from_store (store.get_plan id)

  unfoldable pub list_plans : ℤ → ℤ → Exec (World S) (List Plan)
  list_plans limit offset =
      from_store (store.list_plans (default_limit limit) (sub64 offset (pos 1)))

  -- `now` is what `time.Now()` returns.
  unfoldable pub create_subscriber : Time → CreateSubscriberInput → Exec (World S) Subscriber
  create_subscriber now input = do
    let msisdn = trim_space input.msisdn
    fail_if (is_empty msisdn) (validation msisdn_required)
    fail_if (ltb (byte_len msisdn) 5 || ltb 20 (byte_len msisdn)) (validation msisdn_length)
    validate_msisdn input.msisdn
    fail_if (is_empty (trim_space input.plan_id)) (validation plan_id_required)
    fail_if (is_empty (trim_space input.owner_account_id)) (validation owner_required)
    id ← next_id (lit "sub")
    let sub : Subscriber = record {
      id = id;
      msisdn = msisdn;
      imsi = trim_space input.imsi;
      name = trim_space input.name;
      plan_id = input.plan_id;
      owner_account_id = input.owner_account_id;
      status = active;
      created_at = within utc now;
    }
    on_store (store.create_subscriber sub)
    pure sub

  unfoldable pub get_subscriber : Str → Exec (World S) Subscriber
  get_subscriber id = from_store (store.get_subscriber id)

  unfoldable pub list_subscribers : Str → ℤ → ℤ → Exec (World S) (List Subscriber)
  list_subscribers search limit offset =
      from_store (store.list_subscribers search (default_limit limit) (sub64 offset (pos 1)))

  unfoldable pub change_status : Str → Status → Exec (World S) Subscriber
  change_status id to = do
    sub ← from_store (store.get_subscriber id)
    fail_if (not (is_known to)) (validation (unknown_status (status_text to)))
    allowed ← or_invalid (allowed_transitions sub.status)
    fail_if (not (allowed to)) invalid_status_transition
    let sub' = record sub { status = to }
    on_store (store.update_subscriber sub')
    pure sub'

  unfoldable pub add_usage : Time → Str → Str → ℤ → Time → Exec (World S) UsageRecord
  add_usage now subscriber_id kind qty ts = do
    from_store (store.get_subscriber subscriber_id)
    fail_if (not (is_valid_kind kind)) (validation (unknown_kind kind))
    let ts' = if is_zero ts then within utc now else ts
    id ← next_id (lit "use")
    let rec : UsageRecord = record {
      id = id;
      subscriber_id = subscriber_id;
      kind = kind;
      quantity = qty;
      timestamp = ts';
    }
    on_store (store.add_usage rec)
    pure rec
