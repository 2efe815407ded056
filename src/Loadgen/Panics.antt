-- ===== src/Loadgen/Panics.antt =====
-- cmd/loadgen/main.go: the words that the workers draw, and when a draw is in range.
use my_demo_app.Prelude.{
  ◌∙◌, if◌then◌else◌, ℕ, zero, suc, ◌<◌, ◌≡◌, refl, ap, inl, inr, Bool, false, Option, none, some,
  List, [], ◌∷◌, ◌++◌, arith, ltb, ◌==◌, Bool-cases, length, get_elem?,
}
use my_demo_app.Text.{Str}
use my_demo_app.Loadgen.{Config, Outside, Session}
use my_demo_app.Loadgen.Client.{perform, add_usage, read_traffic, scenario_traffic}
use my_demo_app.Prelude.{◌≤◌}
use my_demo_app.Loadgen.Client.{
  draw_below, draw, kinds, searches, hosts, with_kind, with_search, with_host, with_hook,
}
use my_demo_app.Loadgen.Run.{keep_pool, Shared, pick, on_pick, act}
use my_demo_app.Text.{lit}
use my_demo_app.Loadgen.Running.{IsSource}

pub get_elem?-some :
    {A : Type 0} (xs : List A) (i : ℕ) → i < length xs → (a : A) × (get_elem? xs i ≡ some a)
get_elem?-some [] i h = absurd (omega arith)
get_elem?-some (x ∷ xs) zero h = (x, refl)
get_elem?-some (x ∷ xs) (suc i) h = get_elem?-some xs i (omega arith)

module _ {N R : Type 0} (o : Outside N R) (cfg : Config) where
  -- A draw below the length of a list finds a word.
  draw_below_total :
      (n : ℕ) (words : List Str) (rnd : R)
      → IsSource o
      → 0 < n
      → n ≤ length words
      → (w : Str) × (rnd' : R) × (draw_below o cfg n words rnd ≡ some (w, rnd'))
  draw_below_total n words rnd source some_word few =
      let below = source n rnd some_word in
      let (w, at) = get_elem?-some words (o.intn n rnd).0 (omega arith) in
      (w, (o.intn n rnd).1, rw (draw_below, at) refl)

  pub draw_total :
      (word : Str) (words : List Str) (rnd : R)
      → IsSource o
      → (w : Str) × (rnd' : R) × (draw o cfg (word ∷ words) rnd ≡ some (w, rnd'))
  draw_total word words rnd source =
      draw_below_total (suc (length words)) (word ∷ words) rnd source (omega arith) (omega arith)

  -- With random numbers below their bounds no request of a worker panics.
  traffic_total :
      (id : Str) (rnd : R) (s : Session N)
      → IsSource o
      → ((p : R × Session N) × (add_usage o cfg id rnd s ≡ some p))
        × ((p : R × Session N) × (read_traffic o cfg id rnd s ≡ some p))
        × ((p : R × Session N) × (scenario_traffic o cfg rnd s ≡ some p))
  unfolding add_usage read_traffic scenario_traffic
  traffic_total id rnd s source =
      let (kind, rnd1, drawn) =
        draw_below_total 3 (kinds o cfg) rnd source (omega arith) (omega arith) in
      let (search, rnd2, found) =
        draw_below_total 3 (searches o cfg) rnd source (omega arith) (omega arith) in
      let (host, rnd3, named) =
        draw_below_total 3 (hosts o cfg) (o.intn 2 rnd).1 source (omega arith) (omega arith) in
      let s1 = (perform o cfg (lit "GET") (lit "/v1/subscribers/" ++ id) none false s).1 in
      let invoice = lit "/v1/subscribers/" ++ id ++ lit "/invoice" in
      let s2 = (perform o cfg (lit "GET") invoice none false s1).1 in
      let branch : Bool → Option (R × Session N) = λ b.
        if b
        then with_host o cfg (draw_below o cfg 3 (hosts o cfg) (o.intn 2 rnd).1) s
        else with_hook o cfg (o.intn 2 rnd).1 s in
      (
        (_, ap (λ drawn. with_kind o cfg id drawn s) drawn),
        (_, ap (λ drawn. with_search o cfg drawn s2) found),
        elim (Bool-cases ((o.intn 2 rnd).0 == 0)) [
          | inl ping ↦ (_, ap branch ping ∙ ap (λ drawn. with_host o cfg drawn s) named)
          | inr hook ↦ (_, ap branch hook)
        ],
      )

  pick_total :
      (ids : List Str) (rnd : R)
      → IsSource o
      → (w : Option Str) × (rnd' : R) × (pick o cfg ids rnd ≡ some (w, rnd'))
  unfolding pick
  pick_total [] rnd source = (none, rnd, refl)
  pick_total (id ∷ ids) rnd source =
      let (w, rnd', is) = draw_total id ids rnd source in (some w, rnd', rw (pick, is) refl)

  on_pick-some :
      (traffic : Str → R → Session N → Option (R × Session N)) (picked : Option Str) (rnd : R)
      (s : Shared N)
      → ((id : Str) → (p : R × Session N) × (traffic id rnd s.session ≡ some p))
      → (rnd' : R) × (s' : Shared N) × (on_pick o cfg traffic (some (picked, rnd)) s
          ≡ some (rnd', s'))
  on_pick-some traffic none rnd s served = (rnd, s, refl)
  on_pick-some traffic (some id) rnd s served =
      let (p, done) = served id in (_, _, ap (λ out. keep_pool o cfg out s) done)

  -- With a plan and random numbers below their bounds a worker can act on every tick.
  pub act_total :
      (plan : Str) (plan_ids : List Str) (rnd : R) (s : Shared N)
      → IsSource o
      → (rnd' : R) × (s' : Shared N) × (act o cfg (plan ∷ plan_ids) rnd s ≡ some (rnd', s'))
  unfolding act
  act_total plan plan_ids rnd s source =
      let (n, rnd1) = o.intn 100 rnd in
      elim (Bool-cases (ltb n 15)) [
        | inl a ↦
            let (w, rnd2, is) = draw_total plan plan_ids rnd1 source in rw (a, is) (_, _, refl)
        | inr a ↦ elim (Bool-cases (ltb n 55)) [
          | inl b ↦
              let (w, rnd2, is) = pick_total s.pool rnd1 source in
              rw (a, b, is)
                (on_pick-some (add_usage o cfg) w rnd2 s
                  (λ id. (traffic_total id rnd2 s.session source).0))
          | inr b ↦ elim (Bool-cases (ltb n 90)) [
            | inl c ↦
                let (w, rnd2, is) = pick_total s.pool rnd1 source in
                rw (a, b, c, is)
                  (on_pick-some (read_traffic o cfg) w rnd2 s
                    (λ id. (traffic_total id rnd2 s.session source).1))
            | inr c ↦
                let (p, done) = (traffic_total [] rnd1 s.session source).2 in
                rw (a, b, c, done) (_, _, refl)
          ]
        ]
      ]
