-- ===== src/Loadgen/Reached.antt =====
-- cmd/loadgen/main.go: the workers take their ticks from one channel, in any order.
use my_demo_app.Prelude.{
  ℕ, ◌+◌, ◌<◌, ◌≡◌, refl, ◌∙◌, some, List, ◌∷◌, length, get_elem?, set, length-set,
}
use my_demo_app.Text.{Str}
use my_demo_app.Loadgen.{Config, Outside}
use my_demo_app.Loadgen.Run.{Shared, act}
use my_demo_app.Loadgen.Running.{IsSource, IsSound, act-IsSound}
use my_demo_app.Loadgen.Panics.{get_elem?-some, act_total}

-- The workers' generators, and what they share.
pub record Load (N R : Type 0) : Type 0 where
  pub shared : Shared N
  pub rnds : List R

-- A state after `k` ticks: each goes to some worker, which acts.
pub data Reaches {N R : Type 0} (o : Outside N R) (cfg : Config) (plan_ids : List Str)
    (start : Load N R) : ℕ → Load N R → Type 0 where
  begun : Reaches o cfg plan_ids start 0 start
  ticked :
      (k i : ℕ) (l : Load N R) (rnd rnd' : R) (s : Shared N)
      → Reaches o cfg plan_ids start k l
      → get_elem? l.rnds i ≡ some rnd
      → act o cfg plan_ids rnd l.shared ≡ some (rnd', s)
      → Reaches o cfg plan_ids start (k + 1) (record { shared = s; rnds = set l.rnds i rnd' })

module _ {N R : Type 0} (o : Outside N R) (cfg : Config) where
  -- With a plan, and random numbers below their bounds, after any number of ticks in any order the
  -- workers are as many as before, the counters balance on 64 bits, no ID in the pool is empty, and
  -- every worker can act on the next tick without an index out of range.
  pub Reaches-IsSound :
      (plan : Str) (plan_ids : List Str) (start l : Load N R) (k : ℕ)
      → IsSource o
      → IsSound start.shared
      → Reaches o cfg (plan ∷ plan_ids) start k l
      → IsSound l.shared
        × (length l.rnds ≡ length start.rnds)
        × ((i : ℕ)
            → i < length start.rnds
            → (l' : Load N R) × Reaches o cfg (plan ∷ plan_ids) start (k + 1) l')
  Reaches-IsSound plan plan_ids start l k source h r =
      let sound = keeps l k r in
      let workers = same l k r in
      (
        sound,
        workers,
        λ i in_range.
            let (rnd, at) = get_elem?-some l.rnds i (rw workers in_range) in
            let (rnd', s, done) = act_total o cfg plan plan_ids rnd l.shared source in
            (_, ticked k i l rnd rnd' s r at done),
      )
    where
      keeps : (l : Load N R) (k : ℕ) → Reaches o cfg (plan ∷ plan_ids) start k l → IsSound l.shared
      keeps _ _ begun = h
      keeps _ _ (ticked k i l rnd rnd' s before at done) =
          act-IsSound o cfg (plan ∷ plan_ids) rnd l.shared rnd' s done (keeps l k before)

      same :
          (l : Load N R) (k : ℕ)
          → Reaches o cfg (plan ∷ plan_ids) start k l
          → length l.rnds ≡ length start.rnds
      same _ _ begun = refl
      same _ _ (ticked k i l rnd rnd' s before at done) = length-set l.rnds i rnd' ∙ same l k before
