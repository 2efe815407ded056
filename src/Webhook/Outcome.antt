-- ===== src/Webhook/Outcome.antt =====
-- internal/webhook/client.go: when `Notify` returns no error.
use my_demo_app.Prelude.{
  ℕ, ◌≤◌, ◌<◌, ◌≡◌, refl, sym, ◌∙◌, ◌⊎◌, inl, inr, List, leb, arith, Bool-cases, ap,
}
use my_demo_app.Text.Decimal.{itoa}
use my_demo_app.Prelude.{◌++◌}
use my_demo_app.Prelude.Int.{pos}
use my_demo_app.Text.{Str, lit}
use my_demo_app.Exec.{value, error, Error, ok, err, failed, Reply-cases}
use my_demo_app.Webhook.{Client, Network, post_of, notify}

-- The endpoint received the payload as JSON in a POST and answered with a status below 400.
pub record IsNotified (net : Network) (client : Client) (url : Str) (payload : List (Str × Str))
    : Type 0 where
  pub body : Str
  pub encoded : net.marshal payload ≡ value body
  pub built : net.new_request (lit "POST") url ≡ value tt
  pub status : ℕ
  pub received : net.send client (post_of url body) ≡ value status
  pub accepted : status < 400

value-injective : {A : Type 0} {a b : A} → value a ≡ value b → a ≡ b
value-injective {A} {a} {b} e = ap (λ r. elim r [ value x ↦ x | error t ↦ a ]) e

module _ (net : Network) (client : Client) (url : Str) (payload : List (Str × Str)) where
  -- Where the payload is encoded and the request built, the status alone decides.
  decided :
      (body : Str) (u : Unit {0}) (status : ℕ)
      → net.marshal payload ≡ value body
      → net.new_request (lit "POST") url ≡ value u
      → net.send client (post_of url body) ≡ value status
      → 400 ≤ status
      → ¬ IsNotified net client url payload
  decided body u status encoded built received high h =
      let same : h.body ≡ body = value-injective (sym h.encoded ∙ encoded) in
      let got : h.status ≡ status =
        value-injective
          (sym h.received ∙ ap (λ b. net.send client (post_of url b)) same ∙ received) in
      let low = h.accepted in omega (arith, got, low, high)

  pub notify-cases :
      (((notify net client url payload).result ≡ ok tt) × IsNotified net client url payload)
      ⊎ ((e : Error) × ((notify net client url payload).result ≡ err e)
          × ¬ IsNotified net client url payload)
  unfolding notify
  notify-cases = elim (Reply-cases (net.marshal payload)) [
    | inr (e, bad) ↦ inr (
      failed (lit "webhook: marshal payload: " ++ e),
      rw (bad, notify) refl,
      λ h. let good = h.encoded in cc,
    )
    | inl (body, encoded) ↦ elim (Reply-cases (net.new_request (lit "POST") url)) [
      | inr (e, bad) ↦ inr (
        failed (lit "webhook: build request: " ++ e),
        rw (encoded, bad, notify) refl,
        λ h. let good = h.built in cc,
      )
      | inl (u, built) ↦ elim (Reply-cases (net.send client (post_of url body))) [
        | inr (e, bad) ↦ inr (
          failed (lit "webhook: deliver: " ++ e),
          rw (encoded, built, bad, notify) refl,
          λ h.
              let same : h.body ≡ body = value-injective (sym h.encoded ∙ encoded) in
              let good = h.received in
              let there = ap (λ b. net.send client (post_of url b)) same in cc,
        )
        | inl (status, received) ↦ elim (Bool-cases (leb 400 status)) [
          | inl high ↦ inr (
            failed (lit "webhook: endpoint returned status " ++ itoa (pos status)),
            rw (encoded, built, received, high, notify) refl,
            decided body u status encoded built received (ground arith),
          )
          | inr low ↦ inl (
            rw (encoded, built, received, low, notify) refl,
            record {
              body = body;
              encoded = encoded;
              built = built;
              status = status;
              received = received;
              accepted = ground arith;
            },
          )
        ]
      ]
    ]
  ]
