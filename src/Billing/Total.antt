-- ===== src/Billing/Total.antt =====
-- The lines of an invoice and its total.
use mathlib.Core.List.{append_assoc, append-nil}
use my_demo_app.Prelude.{
  ◌≡◌, refl, sym, ap, ◌∙◌, inl, inr, List, [], ◌∷◌, ◌++◌, if◌then◌else◌, Bool-cases,
}
use my_demo_app.Prelude.Int.{ℤ, ltb_ℤ, pos}
use my_demo_app.Word.{add64, sub64, mul64}
use my_demo_app.Text.{Str, lit}
use my_demo_app.Text.Decimal.{itoa}
use my_demo_app.Time.{Time, Location, within, before}
use my_demo_app.Exec.{ok, err, failed}
use my_demo_app.Subscriber.{Plan, UsageRecord, InvoiceLine, Invoice}
use my_demo_app.Billing.{
  Totals, add_line, add_overage, base_cents, base_invoice, add_overages, rate,
}
use my_demo_app.Billing.Usage.{totals, aggregate-totals}

-- The amounts added up as `int64`s, from the first on.
abbrev add_lines : ℤ → List InvoiceLine → ℤ
add_lines n [] = n
add_lines n (l ∷ ls) = add_lines (add64 n l.amount_cents) ls

abbrev pub total_of : List InvoiceLine → ℤ
total_of [] = pos 0
total_of (l ∷ ls) = add_lines l.amount_cents ls

-- No line up to the allowance, and behind it one for the difference at the plan's rate.
abbrev pub overage_lines : Str → Str → ℤ → ℤ → ℤ → List InvoiceLine
overage_lines before_n behind_n used included rate_cents =
    if ltb_ℤ included used
    then record {
      description = before_n ++ itoa (sub64 used included) ++ behind_n;
      amount_cents = mul64 (sub64 used included) rate_cents;
    }
      ∷ []
    else []

-- The lines for usage beyond the allowances.
abbrev pub all_overages : Plan → Totals → List InvoiceLine
all_overages plan t =
    overage_lines (lit "Voice overage (") (lit " min)") t.voice_min plan.included_voice_minutes
      plan.overage_voice_cents
    ++ (overage_lines (lit "Data overage (") (lit " MB)") t.data_mb plan.included_data_mb
          plan.overage_data_cents_per_mb
        ++ overage_lines (lit "SMS overage (") (lit " msgs)") t.sms_count plan.included_sms
            plan.overage_sms_cents)

-- The lines of an invoice, from the plan and the sums of the usage.
abbrev pub invoice_lines : Location → Plan → List UsageRecord → Time → Time → List InvoiceLine
invoice_lines local plan usage start end =
    record {
      description = lit "Base plan (" ++ plan.name ++ lit ")";
      amount_cents = base_cents local plan start end;
    }
    ∷ all_overages plan (totals (within local start) (within local end) usage)

add_lines-append :
    (n : ℤ) (ls ks : List InvoiceLine) → add_lines n (ls ++ ks) ≡ add_lines (add_lines n ls) ks
add_lines-append n [] ks = refl
add_lines-append n (l ∷ ls) ks = add_lines-append (add64 n l.amount_cents) ls ks

-- An invoice with its lines and its total of them.
abbrev with_lines : Invoice → List InvoiceLine → Invoice
with_lines inv ls = record inv {
  lines = inv.lines ++ ls;
  total_cents = add_lines inv.total_cents ls;
}

with_lines-append :
    (inv : Invoice) (ls ks : List InvoiceLine)
    → with_lines (with_lines inv ls) ks ≡ with_lines inv (ls ++ ks)
with_lines-append inv ls ks = λ i. record inv {
  lines = append_assoc inv.lines ls ks i;
  total_cents = sym (add_lines-append inv.total_cents ls ks) i;
}

add_overage-lines :
    (before_n behind_n : Str) (used included rate_cents : ℤ) (inv : Invoice)
    → add_overage before_n behind_n used included rate_cents inv
      ≡ with_lines inv (overage_lines before_n behind_n used included rate_cents)
unfolding add_overage add_line
add_overage-lines before_n behind_n used included rate_cents inv =
    elim (Bool-cases (ltb_ℤ included used)) [
      | inl beyond ↦ rw beyond
      | inr fits ↦ rw fits (λ i. record inv { lines = sym (append-nil inv.lines) i })
    ]

add_overages-lines :
    (plan : Plan) (t : Totals) (inv : Invoice)
    → add_overages plan t inv ≡ with_lines inv (all_overages plan t)
unfolding add_overages
add_overages-lines plan t inv =
    let voice =
      overage_lines (lit "Voice overage (") (lit " min)") t.voice_min plan.included_voice_minutes
        plan.overage_voice_cents in
    let bytes =
      overage_lines (lit "Data overage (") (lit " MB)") t.data_mb plan.included_data_mb
        plan.overage_data_cents_per_mb in
    let sms =
      overage_lines (lit "SMS overage (") (lit " msgs)") t.sms_count plan.included_sms
        plan.overage_sms_cents in
    add_overage-lines _ _ _ _ _ _
    ∙ ap (λ x. with_lines x sms) (add_overage-lines _ _ _ _ _ _)
    ∙ ap (λ x. with_lines (with_lines x bytes) sms) (add_overage-lines _ _ _ _ _ inv)
    ∙ with_lines-append (with_lines inv voice) bytes sms
    ∙ with_lines-append inv voice (bytes ++ sms)

-- Rate refuses a period that ends before it starts; any other is billed by a base line and one line
-- per kind beyond its allowance, in the order voice, data, SMS, and the total is the wrapped sum of
-- the lines.
pub rate_lem :
    (local : Location) (plan : Plan) (usage : List UsageRecord) (start end : Time)
    → rate local plan usage start end ≡ (
        if before end start
        then err (failed (lit "billing: period end before period start"))
        else (let lines = invoice_lines local plan usage start end in
            ok (record {
              subscriber_id = [];
              period_start = start;
              period_end = end;
              lines = lines;
              total_cents = total_of lines;
            })))
unfolding rate base_invoice
rate_lem local plan usage start end =
    rw (aggregate-totals (within local start) (within local end) usage, add_overages-lines)
