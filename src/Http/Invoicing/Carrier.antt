-- ===== src/Http/Invoicing/Carrier.antt =====
-- internal/httpapi/carrier.go: when the simulated lookup fails.
use native.Mathlib.Nat.{mul-le-mul_left, mul_comm}
use my_demo_app.Prelude.{ℕ, ◌-◌, ◌*◌, ◌^◌, ◌≤◌, ◌<◌, ◌≡◌, ◌⊎◌, inl, inr, ◌++◌, arith, if◌then◌else◌}
use my_demo_app.Prelude.Int.{ℤ, ◌*ℤ◌, ◌≤ℤ◌, ltb_ℤ, pos, negsuc}
use my_demo_app.Text.{Str, lit}
use my_demo_app.Exec.{ok, err, failed}
use my_demo_app.Http.Invoicing.{CarrierClient, carrier_lookup}

below_all : (draw den k : ℕ) → 0 < den → draw < 2 ^ 53 → den ≤ k → draw * den < k * 2 ^ 53
below_all draw den k positive small h =
    let first : draw * den ≤ draw * k = mul-le-mul_left draw h in
    let second : k * draw ≤ k * (2 ^ 53 - 1) = mul-le-mul_left k (omega arith) in
    let same : draw * k ≡ k * draw = mul_comm draw k in omega arith

-- Whatever number is drawn, a failure rate of 0 or less never fails a carrier lookup and a rate of
-- 1 or more always does, with the MSISDN in the error.
pub carrier_lookup-certain :
    (c : CarrierClient) (draw : ℕ) (msisdn : Str)
    → 0 < c.den
    → draw < 2 ^ 53
    → (c.num ≤ℤ pos 0) ⊎ (pos c.den ≤ℤ c.num)
    → carrier_lookup c draw msisdn ≡ (
        if ltb_ℤ (pos 0) c.num
        then err (failed (lit "carrier: lookup failed for " ++ msisdn))
        else ok tt)
unfolding carrier_lookup ◌*ℤ◌
carrier_lookup-certain c draw msisdn positive small (inl h) = ground arith
carrier_lookup-certain c draw msisdn positive small (inr h) = go c.num h
  where
    go :
        (n : ℤ)
        → pos c.den ≤ℤ n
        → carrier_lookup (record { num = n; den = c.den }) draw msisdn ≡ (
            if ltb_ℤ (pos 0) n
            then err (failed (lit "carrier: lookup failed for " ++ msisdn))
            else ok tt)
    go (negsuc k) h' = absurd (omega arith)
    go (pos k) h' = ground (arith, below_all draw c.den k positive small (omega arith))
