-- ===== src/Subscriber.antt =====
-- internal/subscriber/subscriber.go: the domain model and the `Store` interface.
pub mod Service
use my_demo_app.Prelude.{
  ℕ, zero, suc, ◌+◌, ◌-◌, ◌*◌, ◌/◌, ◌%◌, ◌^◌, ◌≤◌, ◌<◌, ◌≡◌, refl, sym, ap, ap₂, ◌∙◌, ◌≡⟨◌⟩◌, ◌∎,
  ◌≢◌, ◌↔◌, ◌⊎◌, inl, inr, Bool, true, false, not, ◌&&◌, ◌||◌, Option, none, some, List, [], ◌∷◌,
  ◌++◌, map, arith, ltb, leb, ◌==◌, if◌then◌else◌, ltb→lt, lt→ltb, leb→le, ==_iff, tests,
  Bool-cases, Option-cases, length, get_elem?, set, length-append, length-set, get_elem?-set_self,
  get_elem?-set_ne, get_or, take, drop, replicate, take-append-drop, length-take, length-drop,
  length-replicate, length-map,
}
use my_demo_app.Prelude.Int.{ℤ}
use my_demo_app.Text.{Str, lit, str_eq}
use my_demo_app.Time.{Time}
use my_demo_app.Exec.{Result}

-- A status is a string; `unknown` holds every text but the three constants.
pub data Status : Type 0 where
  active suspended terminated : Status
  unknown : Str → Status

-- The conversion `subscriber.Status(s)`.
unfoldable pub status_of : Str → Status
status_of s =
    if str_eq s (lit "active")
    then active
    else if str_eq s (lit "suspended")
    then suspended
    else if str_eq s (lit "terminated")
    then terminated
    else unknown s

-- The conversion `string(status)`.
unfoldable pub status_text : Status → Str
status_text active = lit "active"
status_text suspended = lit "suspended"
status_text terminated = lit "terminated"
status_text (unknown s) = s

-- A status that is what its text stands for: `unknown` does not hold the text of a constant.
abbrev pub IsCanonical : Status → Type 0
IsCanonical s = status_of (status_text s) ≡ s

pub known-IsCanonical : IsCanonical active × IsCanonical suspended × IsCanonical terminated
unfolding status_of status_text str_eq
known-IsCanonical = (refl, refl, refl)

pub record Plan : Type 0 where
  pub id : Str
  pub name : Str
  pub monthly_price_cents : ℤ
  pub included_voice_minutes : ℤ
  pub included_data_mb : ℤ
  pub included_sms : ℤ
  pub overage_voice_cents : ℤ
  pub overage_data_cents_per_mb : ℤ
  pub overage_sms_cents : ℤ

pub record Subscriber : Type 0 where
  pub id : Str
  pub msisdn : Str
  pub imsi : Str
  pub name : Str
  pub plan_id : Str
  pub owner_account_id : Str
  pub status : Status
  pub created_at : Time

pub record UsageRecord : Type 0 where
  pub id : Str
  pub subscriber_id : Str
  pub kind : Str
  pub quantity : ℤ
  pub timestamp : Time

pub record InvoiceLine : Type 0 where
  pub description : Str
  pub amount_cents : ℤ

pub record Invoice : Type 0 where
  pub subscriber_id : Str
  pub period_start : Time
  pub period_end : Time
  pub lines : List InvoiceLine
  pub total_cents : ℤ

-- The `Store` interface over a state `S`. Reading leaves the state as it is.
pub record Store (S : Type 0) : Type 0 where
  pub create_plan : Plan → S → Result (Unit {0}) × S
  pub get_plan : Str → S → Result Plan
  pub list_plans : ℤ → ℤ → S → Result (List Plan)
  pub create_subscriber : Subscriber → S → Result (Unit {0}) × S
  pub get_subscriber : Str → S → Result Subscriber
  pub list_subscribers : Str → ℤ → ℤ → S → Result (List Subscriber)
  pub update_subscriber : Subscriber → S → Result (Unit {0}) × S
  pub add_usage : UsageRecord → S → Result (Unit {0}) × S
  pub list_usage : Str → Time → Time → S → Result (List UsageRecord)
  pub ping : S → Result (Unit {0})
  pub reset : S → Result (Unit {0}) × S
