-- ===== src/Requests/Tests.antt =====
-- The client address and the page on concrete requests.
use py_app_runner.Prelude.{
  String, ◌≡◌, refl, inr, true, none, some, List, [], ◌∷◌, map, arith, str_eq, if◌then◌else◌, any,
}
use py_app_runner.Prelude.Int.{pos, negsuc}
use py_app_runner.Requests.ClientIp.{
  IpAddress, reversed, unmapped, parse, is_trusted, str_or_none, on_hop, walk, behind_proxy,
  from_peer, resolve_client_ip,
}
use py_app_runner.Requests.Pagination.{
  number, missing, infinite, parse_pagination, page_of, IsPage, number_or, clamp_limit,
  parse_pagination_bounds,
}
use py_app_runner.Requests.Forged.{ends_at, resolve_client_ip-forged}

-- Addresses that are texts, and networks of one address each.
abbrev texts : IpAddress String String
texts = record {
  ip_address = λ raw. if str_eq raw "?" then none else some raw;
  ipv4_mapped = λ address. none;
  to_str = λ address. address;
  contains = λ network address. str_eq network address;
}

abbrev proxies : List String
proxies = "proxy" ∷ "edge" ∷ []

behind_two_proxies :
    resolve_client_ip texts proxies (some "proxy") ("forged" ∷ "client" ∷ "edge" ∷ []) none
    ≡ some "client"
unfolding resolve_client_ip from_peer behind_proxy walk on_hop str_or_none is_trusted parse unmapped
    reversed
behind_two_proxies = refl

client_ends :
    any
      (ends_at texts proxies)
      (map (λ hop. parse texts proxies (some hop)) ("edge" ∷ "client" ∷ []))
    ≡ true
unfolding ends_at parse unmapped is_trusted
client_ends = refl

resolve_client_ip-forged_example :
    resolve_client_ip texts proxies (some "proxy") ("forged" ∷ "client" ∷ "edge" ∷ []) none
    ≡ resolve_client_ip texts proxies (some "proxy") ("client" ∷ "edge" ∷ []) (some "forged")
unfolding ends_at parse unmapped is_trusted reversed
resolve_client_ip-forged_example =
    resolve_client_ip-forged texts proxies (some "proxy") ("forged" ∷ []) []
      ("client" ∷ "edge" ∷ []) none (some "forged") (inr refl)

-- what a stranger forwards does not count
from_a_stranger :
    resolve_client_ip texts proxies (some "stranger") ("forged" ∷ []) (some "forged")
    ≡ some "stranger"
unfolding resolve_client_ip from_peer is_trusted parse unmapped
from_a_stranger = refl

over_the_limit :
    (parse_pagination 50 (some (number (pos 500), number (negsuc 3))) ≡ some (100, 0))
    × (parse_pagination 50 (some (infinite, missing)) ≡ none)
unfolding parse_pagination page_of number_or clamp_limit
over_the_limit = (refl, refl)

parse_pagination_bounds_example :
    IsPage
      (some (number (pos 500), missing))
      (parse_pagination 50 (some (number (pos 500), missing)))
    × (parse_pagination 50 (some (number (pos 20), number (pos 40))) ≡ some (20, 40))
parse_pagination_bounds_example =
    parse_pagination_bounds 50 (some (number (pos 500), missing)) 20 40 (omega arith) (omega arith)
      (omega arith) (omega arith)
