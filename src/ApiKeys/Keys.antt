-- ===== src/ApiKeys/Keys.antt =====
-- `split_key`, `ip_allowed` and `expired` of api_keys/keys.py.
use py_app_runner.Prelude.{
  ℕ, String, Bool, false, not, ◌||◌, Option, none, some, List, [], str_eq, leb, if◌then◌else◌, any,
}
use py_app_runner.Crypto.Values.{Text, eq_list}
use py_app_runner.Requests.ClientIp.{IpAddress}
use py_app_runner.ApiKeys.Abilities.{partition}

unfoldable pub key_parts : Text × Bool × Text → Option (Text × Text)
key_parts (prefix, found, secret) =
    if not found || eq_list prefix [] || eq_list secret [] then none else some (prefix, secret)

-- at the first "."
unfoldable pub split_key : Text → Option (Text × Text)
unfolding partition key_parts
split_key key = key_parts (partition 46 key)

module _ {Address Network : Type 0} (library : IpAddress Address Network)
    (ip_network : String → Option Network) where
  -- a network that cannot be read matches nothing
  unfoldable pub in_network : Address → String → Bool
  in_network address network = elim (ip_network network) [
    | none ↦ false
    | some read ↦ library.contains read address
  ]

  unfoldable pub in_any : Option Address → List String → Bool
  unfolding in_network
  in_any none networks = false
  in_any (some address) networks =
      any (in_network (elim (library.ipv4_mapped address) [ none ↦ address | some v4 ↦ v4 ]))
        networks

  unfoldable pub ip_allowed : Option String → List String → Bool
  unfolding in_any
  ip_allowed none networks = false
  ip_allowed (some ip) networks =
      if str_eq ip "" then false else in_any (library.ip_address ip) networks

-- the moments in UTC
unfoldable pub expired : Option ℕ → ℕ → Bool
expired none now = false
expired (some expires_at) now = leb expires_at now
