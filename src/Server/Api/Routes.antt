-- ===== src/Server/Api/Routes.antt =====
-- server/web.go, getRoutes: the answer does not depend on the order in which the map is read.
use mpfpv.Base.{ℕ, ◌≡◌, ◌≢◌, sym, arith, List, [], ◌∷◌, none, some, lookup, Distinct, All}
use mpfpv.Base.Sorting.{
  Rearranged, none_left, keep, swap, then_again, Apart, IsSorted, sort_by-canonical,
  sort_by-Rearranged, sort_by-IsSorted,
}
use mpfpv.Server.State.{Server, session_ips}
use mpfpv.Server.Invariant.Same.{Inv}
use mpfpv.Server.Api.{RouteInfo, route_infos, route_id, get_routes}

-- Every address leads to a client that owns it.
abbrev Owned : List (ℕ × ℕ) → List (ℕ × ℕ) → Type 0
Owned vips m = (c ip : ℕ) → lookup ip m ≡ some c → lookup c vips ≡ some ip

Owned-tail :
    (vips : List (ℕ × ℕ)) (ip c : ℕ) (m : List (ℕ × ℕ))
    → lookup ip m ≡ none
    → Owned vips ((ip, c) ∷ m)
    → Owned vips m
Owned-tail vips ip c m new h d a e = h d a (ground (arith, new, e))

-- The client of one address has no other.
one_address :
    (vips : List (ℕ × ℕ)) (ip c : ℕ) (m rest : List (ℕ × ℕ))
    → lookup ip m ≡ none
    → lookup c vips ≡ some ip
    → Distinct rest
    → Owned vips rest
    → ((a d : ℕ) → lookup a rest ≡ some d → lookup a m ≡ some d)
    → All (λ (y : RouteInfo). c ≢ y.client_id) (route_infos rest)
one_address vips ip c m [] new mine h o part = tt
one_address vips ip c m ((a, d) ∷ rest) new mine h o part = (
  λ same.
      let here : lookup a ((a, d) ∷ rest) ≡ some d = ground arith in
      let theirs = o d a here in let there = part a d here in ground (arith, new, mine),
  one_address vips ip c m rest new mine h.1 (Owned-tail vips a d rest h.0 o)
      (λ b f e. part b f (ground (arith, h.0, e))),
)

route_infos-Apart :
    (vips m : List (ℕ × ℕ)) → Distinct m → Owned vips m → Apart route_id (route_infos m)
route_infos-Apart vips [] h o = tt
route_infos-Apart vips ((ip, c) ∷ m) h o = (
  one_address vips ip c m m h.0 (o c ip (ground arith)) h.1 (Owned-tail vips ip c m h.0 o)
      (λ a d e. e),
  route_infos-Apart vips m h.1 (Owned-tail vips ip c m h.0 o),
)

route_infos-Rearranged :
    {m n : List (ℕ × ℕ)} → Rearranged m n → Rearranged (route_infos m) (route_infos n)
route_infos-Rearranged none_left = none_left
route_infos-Rearranged (keep (ip, c) d) = keep _ (route_infos-Rearranged d)
route_infos-Rearranged (swap (ip, c) (ip', c') m) = swap _ _ (route_infos m)
route_infos-Rearranged (then_again d d') =
    then_again (route_infos-Rearranged d) (route_infos-Rearranged d')

-- On a server whose addresses are in order and whose route table lists no address twice, the list of routes
-- is sorted by client, has one entry for each route, and is the same in whatever order the table is read.
pub get_routes_lem :
    (s : Server) (m : List (ℕ × ℕ))
    → Inv s
    → Distinct s.route_table
    → Rearranged s.route_table m
    → IsSorted route_id (get_routes s)
      × Rearranged (get_routes s) (route_infos s.route_table)
      × (get_routes (record s { route_table = m }) ≡ get_routes s)
unfolding get_routes
get_routes_lem s m v distinct read = (
  sort_by-IsSorted route_id (route_infos s.route_table),
  sort_by-Rearranged route_id (route_infos s.route_table),
  sym (
      sort_by-canonical route_id (route_infos-Rearranged read) (
        route_infos-Apart (session_ips s.sessions) s.route_table distinct
          (λ c ip h. (v.addressing.owned c ip h).0))),
)
