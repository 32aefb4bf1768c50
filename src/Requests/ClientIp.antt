-- ===== src/Requests/ClientIp.antt =====
-- `resolve_client_ip` of client_ip.py. The library `ipaddress` is a parameter.
use py_app_runner.Prelude.{
  String, Bool, Option, none, some, List, [], ◌∷◌, ◌++◌, str_eq, if◌then◌else◌, any,
}

-- What the code uses of `ipaddress`: `ip_address` of a stripped text, `ipv4_mapped`, `str` and `in`.
pub record IpAddress (Address Network : Type 0) : Type 0 where
  pub ip_address : String → Option Address
  pub ipv4_mapped : Address → Option Address
  pub to_str : Address → String
  pub contains : Network → Address → Bool

-- reversed(...)
unfoldable pub reversed : {A : Type 0} → List A → List A
reversed [] = []
reversed (x ∷ xs) = reversed xs ++ x ∷ []

module _ {Address Network : Type 0} (ip : IpAddress Address Network) (trusted : List Network) where
  unfoldable pub unmapped : Option Address → Option Address
  unmapped none = none
  unmapped (some address) = elim (ip.ipv4_mapped address) [
    | none ↦ some address
    | some v4 ↦ some v4
  ]

  unfoldable pub parse : Option String → Option Address
  parse none = none
  parse (some raw) = if str_eq raw "" then none else unmapped (ip.ip_address raw)

  unfoldable pub is_trusted : Address → Bool
  is_trusted address = any (λ network. ip.contains network address) trusted

  unfoldable pub str_or_none : Option Address → Option String
  str_or_none none = none
  str_or_none (some address) = some (ip.to_str address)

  -- what a hop decides, with the walk over the hops left of it
  unfoldable pub on_hop : Option Address → (Option Address → Option String) → Option String
  on_hop none next = none
  on_hop (some address) next =
      if is_trusted address then next (some address) else some (ip.to_str address)

  -- the loop over the hops from the right, with the last trusted one
  unfoldable pub walk : List String → Option Address → Option String
  walk [] last = str_or_none last
  walk (hop ∷ hops) last = on_hop (parse (some hop)) (walk hops)

  unfoldable pub behind_proxy : Address → List String → Option String → Option String
  behind_proxy peer (hop ∷ hops) real_ip = walk (reversed (hop ∷ hops)) none
  behind_proxy peer [] none = some (ip.to_str peer)
  behind_proxy peer [] (some raw) =
      if str_eq raw "" then some (ip.to_str peer) else str_or_none (parse (some raw))

  unfoldable pub from_peer : Option Address → List String → Option String → Option String
  from_peer none hops real_ip = none
  from_peer (some peer) hops real_ip =
      if is_trusted peer then behind_proxy peer hops real_ip else some (ip.to_str peer)

  -- `hops` are the parts of X-Forwarded-For between its commas, and none of them where the header is
  -- absent or empty.
  unfoldable pub resolve_client_ip : Option String → List String → Option String → Option String
  resolve_client_ip peer hops real_ip = from_peer (parse peer) hops real_ip
