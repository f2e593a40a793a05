-- ===== src/Tests/Targets.antt =====
-- Runs of the target policy (crates/werewolfd/src/target_policy.rs), with a parser that reads no
-- address and a resolver that knows one name.
use werewolfproxy.Shared.{
  ℕ, ◌≡◌, refl, not, ◌&&◌, ◌||◌, Option, none, some, List, [], ◌∷◌, All, false,
}
use werewolfproxy.Shared.Ascii.{ascii}
use werewolfproxy.Shared.Bytes.{bytes_eq, bytes_lt}
use werewolfproxy.Shared.Results.{ok, err}
use werewolfproxy.Naming.Text.{is_whitespace}
use werewolfproxy.Handshake.Codes.{Str, strip_prefix, chars, code_point}
use werewolfproxy.Targets.Endpoints.{
  SocketAddr, order_key, addr_eq, addr_lt, member, insert_endpoint, remove_endpoint, collect,
  is_subset, supported_endpoint, any_unsupported,
}
use werewolfproxy.Targets.Policy.{
  TargetPolicy, PolicyError, set_grants, fingerprint_bytes, valid_fingerprint, allow_exact,
  remove_exact, has_byte, rsplit_once, u16_digits, parse_u16, any_whitespace, is_host, permits,
  in_grants, is_empty, resolve, endpoints_named, authorize_with_resolver, no_grants,
}
use werewolfproxy.Targets.Grants.{granted, granted-allow_exact, granted-remove_exact}
use werewolfproxy.Targets.Authorize.{IsAllowed, authorize_sound, authorize_complete}

abbrev peer_text : Str
peer_text = ascii "wwp1:01-23-45-67-89-AB-CD-EF"

abbrev loopback : SocketAddr
loopback = SocketAddr.v4 (127 ∷ 0 ∷ 0 ∷ 1 ∷ []) 80

abbrev private : SocketAddr
private = SocketAddr.v4 (10 ∷ 0 ∷ 0 ∷ 1 ∷ []) 80

abbrev no_address : Str → Option SocketAddr
no_address text = none

abbrev resolver : Str → ℕ → Option (List SocketAddr)
resolver host port = some (loopback ∷ [])

abbrev one_grant : TargetPolicy
one_grant = TargetPolicy.grants (set_grants peer_text (some (loopback ∷ [])) no_grants)

abbrev two_grants : TargetPolicy
two_grants = TargetPolicy.grants (
    set_grants peer_text (some (private ∷ loopback ∷ []))
      (set_grants peer_text (some (loopback ∷ [])) no_grants))

allow_run : allow_exact one_grant peer_text private ≡ ok two_grants
unfolding allow_exact valid_fingerprint strip_prefix fingerprint_bytes supported_endpoint set_grants
    bytes_eq insert_endpoint addr_lt addr_eq order_key bytes_lt
allow_run = refl

granted-allow_exact_example :
    granted two_grants peer_text private
    ≡ (bytes_eq peer_text peer_text && addr_eq private private)
      || granted one_grant peer_text private
granted-allow_exact_example =
    granted-allow_exact one_grant two_grants peer_text private allow_run peer_text private

abbrev left_grants : TargetPolicy
left_grants =
    TargetPolicy.grants
      (set_grants peer_text none (set_grants peer_text (some (loopback ∷ [])) no_grants))

remove_run : remove_exact one_grant peer_text loopback ≡ ok left_grants
unfolding remove_exact valid_fingerprint strip_prefix fingerprint_bytes supported_endpoint
    set_grants bytes_eq remove_endpoint member addr_eq order_key
remove_run = refl

granted-remove_exact_example :
    granted left_grants peer_text loopback
    ≡ not (bytes_eq peer_text peer_text && addr_eq loopback loopback)
      && granted one_grant peer_text loopback
granted-remove_exact_example =
    granted-remove_exact one_grant left_grants peer_text loopback remove_run peer_text loopback

abbrev web : Str
web = ascii "web:80"

named_run : endpoints_named no_address resolver web ≡ ok (loopback ∷ [])
unfolding endpoints_named resolve rsplit_once parse_u16 u16_digits is_host has_byte any_whitespace
    chars code_point is_whitespace
named_run = refl

authorize_run :
    authorize_with_resolver no_address resolver one_grant peer_text web ≡ ok (loopback ∷ [])
unfolding authorize_with_resolver endpoints_named resolve rsplit_once parse_u16 u16_digits is_host
    has_byte any_whitespace chars code_point is_whitespace collect insert_endpoint any_unsupported
    supported_endpoint permits in_grants is_subset member addr_eq order_key bytes_eq set_grants
authorize_run = refl

authorize_sound_example :
    (found : List SocketAddr) × (endpoints_named no_address resolver web ≡ ok found)
    × ((e : SocketAddr) → member e (loopback ∷ []) ≡ member e found)
    × (is_empty (loopback ∷ []) ≡ false)
    × All (IsAllowed one_grant peer_text) (loopback ∷ [])
authorize_sound_example =
    authorize_sound no_address resolver one_grant peer_text web (loopback ∷ []) authorize_run

loopback-IsAllowed : All (IsAllowed one_grant peer_text) (loopback ∷ [])
unfolding member addr_eq order_key bytes_eq set_grants supported_endpoint
loopback-IsAllowed = ((refl, refl), tt)

no_scope : has_byte b'%' web ≡ false
unfolding has_byte
no_scope = refl

authorize_complete_example :
    authorize_with_resolver no_address resolver one_grant peer_text web
    ≡ ok (collect (loopback ∷ []))
authorize_complete_example =
    authorize_complete no_address resolver one_grant peer_text web loopback [] no_scope named_run
      loopback-IsAllowed

-- a name that resolves to another address besides the granted one is refused
rebound :
    authorize_with_resolver no_address
      (λ host port. some (private ∷ loopback ∷ []))
      one_grant
      peer_text
      web
    ≡ err PolicyError.denied
unfolding authorize_with_resolver endpoints_named resolve rsplit_once parse_u16 u16_digits is_host
    has_byte any_whitespace chars code_point is_whitespace collect insert_endpoint addr_lt bytes_lt
    any_unsupported supported_endpoint permits in_grants is_subset member addr_eq order_key bytes_eq
    set_grants
rebound = refl
