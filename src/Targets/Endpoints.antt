-- ===== src/Targets/Endpoints.antt =====
-- `SocketAddr`, `BTreeSet<SocketAddr>` and the endpoints that a grant can name
-- (crates/werewolfd/src/target_policy.rs).
use werewolfproxy.Shared.{
  ℕ, Bool, true, false, not, ◌&&◌, ◌||◌, List, [], ◌∷◌, ◌++◌, leb, ◌==◌, if◌then◌else◌,
}
use werewolfproxy.Shared.Bytes.{Bytes, bytes_eq, bytes_lt}

-- `SocketAddr`: the bytes of the address and the port, and for IPv6 the flow label and the scope.
pub data SocketAddr : Type 0 where
  v4 : Bytes → ℕ → SocketAddr
  v6 : Bytes → ℕ → ℕ → ℕ → SocketAddr

-- what the derived order of `SocketAddr` compares, one after another
unfoldable pub order_key : SocketAddr → Bytes
order_key (SocketAddr.v4 ip port) = 4 ∷ ip ++ port ∷ []
order_key (SocketAddr.v6 ip port flow scope) = 6 ∷ ip ++ port ∷ flow ∷ scope ∷ []

unfoldable pub addr_eq : SocketAddr → SocketAddr → Bool
unfolding order_key
addr_eq a b = bytes_eq (order_key a) (order_key b)

unfoldable pub addr_lt : SocketAddr → SocketAddr → Bool
unfolding order_key
addr_lt a b = bytes_lt (order_key a) (order_key b)

-- `BTreeSet<SocketAddr>`: in order
abbrev pub Endpoints : Type 0
Endpoints = List SocketAddr

-- `BTreeSet::contains`
unfoldable pub member : SocketAddr → Endpoints → Bool
member e [] = false
member e (x ∷ xs) = addr_eq e x || member e xs

-- `BTreeSet::insert`
unfoldable pub insert_endpoint : SocketAddr → Endpoints → Endpoints
insert_endpoint e [] = e ∷ []
insert_endpoint e (x ∷ xs) =
    let rest = insert_endpoint e xs in
    if addr_lt x e then x ∷ rest else if addr_eq e x then x ∷ xs else e ∷ x ∷ xs

-- `BTreeSet::remove`
unfoldable pub remove_endpoint : SocketAddr → Endpoints → Endpoints
remove_endpoint e [] = []
remove_endpoint e (x ∷ xs) =
    let rest = remove_endpoint e xs in if addr_eq e x then rest else x ∷ rest

-- `into_iter().collect::<BTreeSet<_>>()`
unfoldable pub collect : List SocketAddr → Endpoints
collect [] = []
collect (e ∷ es) = insert_endpoint e (collect es)

-- `BTreeSet::is_subset`
unfoldable pub is_subset : Endpoints → Endpoints → Bool
is_subset [] allowed = true
is_subset (e ∷ es) allowed = member e allowed && is_subset es allowed

-- `Ipv6Addr::is_unicast_link_local`: the prefix fe80::/10
unfoldable pub is_unicast_link_local : Bytes → Bool
is_unicast_link_local (a ∷ b ∷ rest) = (a == 0xfe) && (leb 0x80 b && leb b 0xbf)
is_unicast_link_local (a ∷ []) = false
is_unicast_link_local [] = false

abbrev pub port_of : SocketAddr → ℕ
port_of (SocketAddr.v4 ip port) = port
port_of (SocketAddr.v6 ip port flow scope) = port

abbrev pub unscoped : SocketAddr → Bool
unscoped (SocketAddr.v4 ip port) = true
unscoped (SocketAddr.v6 ip port flow scope) = (scope == 0) && not (is_unicast_link_local ip)

-- `supported_endpoint`
unfoldable pub supported_endpoint : SocketAddr → Bool
supported_endpoint e = not (port_of e == 0) && unscoped e

-- `endpoints.iter().any(|e| !supported_endpoint(e))`
unfoldable pub any_unsupported : Endpoints → Bool
unfolding supported_endpoint
any_unsupported [] = false
any_unsupported (e ∷ es) = not (supported_endpoint e) || any_unsupported es
