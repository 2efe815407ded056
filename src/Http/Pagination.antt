-- ===== src/Http/Pagination.antt =====
-- internal/httpapi/httperror.go: what `parsePagination` gives, and the pages of `GET /v1/plans` and
-- `GET /v1/subscribers` over the in-memory store.
use my_demo_app.Prelude.{
  ℕ, ◌-◌, ◌^◌, ◌≤◌, ◌<◌, ◌≡◌, refl, ◌∙◌, Bool, false, not, Option, none, some, [], ◌∷◌, arith,
  if◌then◌else◌, take, drop,
}
use my_demo_app.Prelude.Int.{ℤ, ◌≤ℤ◌, ltb_ℤ, pos}
use my_demo_app.Http.{
  Request, get, write_json, default_page_limit, max_page_limit, accept, parse_pagination, Server,
  plans_json, subscribers_json,
}
use my_demo_app.Subscriber.Service.Pages.{sorted_plans, found_subscribers, list-page}
use my_demo_app.Word.{IsInt64}
use my_demo_app.Text.{Str, lit, is_empty}
use my_demo_app.Text.Decimal.{itoa, atoi, atoi-itoa}
use my_demo_app.Store.Memory.{MemoryStore, memory_store}
use my_demo_app.Http.Plans.{handle_list_plans}
use my_demo_app.Http.Subscribers.{handle_list_subscribers}

clamped :
    (o : Option ℤ) (given : Bool)
    → let n = (if given then accept (ltb_ℤ (pos 0)) o default_page_limit else default_page_limit) in
      let limit = (if ltb_ℤ max_page_limit n then max_page_limit else n) in
      (pos 1 ≤ℤ limit) × (limit ≤ℤ pos 200)
unfolding accept
clamped none given = ground arith
clamped (some n) given = ground arith

not_negative :
    (o : Option ℤ) (given : Bool)
    → pos 0 ≤ℤ (if given then accept (λ n. not (ltb_ℤ n (pos 0))) o (pos 0) else pos 0)
unfolding accept
not_negative none given = ground arith
not_negative (some n) given = ground arith

-- Whatever the query, the limit is from 1 to 200 and the offset is not negative.
parse_pagination-bounds :
    (r : Request)
    → let page = parse_pagination r in (pos 1 ≤ℤ page.0) × (page.0 ≤ℤ pos 200) × (pos 0 ≤ℤ page.1)
unfolding parse_pagination
parse_pagination-bounds r =
    let v = get (lit "limit") r.query in
    let u = get (lit "offset") r.query in
    let (least, most) = clamped (atoi v) (not (is_empty v)) in
    (least, most, not_negative (atoi u) (not (is_empty u)))

is_empty_of_atoi : (s : Str) (z : ℤ) → atoi s ≡ some z → is_empty s ≡ false
unfolding atoi is_empty
is_empty_of_atoi [] z e = cc
is_empty_of_atoi (c ∷ s) z e = refl

itoa-IsFilled : (z : ℤ) → IsInt64 z → is_empty (itoa z) ≡ false
itoa-IsFilled z h = is_empty_of_atoi (itoa z) z (atoi-itoa z h)

-- A query with the decimal texts of two int64 values gives them back as limit and offset, the limit
-- held to 200, 50 in place of a limit that is not positive and 0 in place of a negative offset.
pub parse_pagination-itoa :
    (r : Request) (n k : ℤ)
    → IsInt64 n
    → IsInt64 k
    → get (lit "limit") r.query ≡ itoa n
    → get (lit "offset") r.query ≡ itoa k
    → parse_pagination r ≡ (
      (if ltb_ℤ (pos 0) n then if ltb_ℤ (pos 200) n then pos 200 else n else pos 50),
      (if ltb_ℤ k (pos 0) then pos 0 else k),
    )
unfolding parse_pagination accept
parse_pagination-itoa r n k hn hk limit offset =
    rw (limit, offset, atoi-itoa n hn, atoi-itoa k hk, itoa-IsFilled n hn, itoa-IsFilled k hk)
      (ground arith)

-- With a limit from 1 to 200 and an offset below 2 ^ 63 in the query, the two list handlers over
-- the in-memory store reply 200 with up to that many items of the sorted list from the item before
-- number offset on (from the first for 0), and change nothing.
pub handle_list-page :
    (lower : ℕ → ℕ) (quote : Str → Str) (r : Request) (n k : ℕ) (sv : Server MemoryStore)
    → 0 < n
    → n ≤ 200
    → k < 2 ^ 63
    → get (lit "limit") r.query ≡ itoa (pos n)
    → get (lit "offset") r.query ≡ itoa (pos k)
    → let search = get (lit "search") r.query in
      let plans = take n (drop (k - 1) (sorted_plans sv.world.store)) in
      let subs = take n (drop (k - 1) (found_subscribers lower search sv.world.store)) in
      (handle_list_plans (memory_store lower) quote r sv ≡ (write_json 200 (plans_json plans), sv))
      × (handle_list_subscribers (memory_store lower) quote r sv
          ≡ (write_json 200 (subscribers_json subs), sv))
unfolding handle_list_plans handle_list_subscribers
handle_list-page lower quote r n k sv positive most small limit offset =
    let page : parse_pagination r ≡ (pos n, pos k) =
      parse_pagination-itoa r (pos n) (pos k) (record { below = omega arith; above = omega arith })
        (record { below = small; above = omega arith }) limit offset
      ∙ ground arith in
    let (plans, subs) = list-page lower (get (lit "search") r.query) n k sv.world positive small in
    (rw (page, plans) refl, rw (page, subs) refl)
