-- ===== src/Targets/Policy.antt =====
-- The target policy (crates/werewolfd/src/target_policy.rs): its documents as read from JSON, its
-- grants, and the authorization of a target. The text form of an address and the resolver of names
-- are parameters.
use werewolfproxy.Shared.{
  ℕ, ◌+◌, ◌-◌, ◌*◌, ◌%◌, Bool, true, false, not, ◌&&◌, ◌||◌, Option, none, some, List, [], ◌∷◌,
  length, leb, ltb, ◌==◌, if◌then◌else◌,
}
use werewolfproxy.Shared.Ascii.{ascii}
use werewolfproxy.Shared.Bytes.{Bytes, bytes_eq}
use werewolfproxy.Shared.Results.{Result, ok, err, ◌>>=◌, ◌>>◌, ensure}
use werewolfproxy.Naming.Text.{is_whitespace}
use werewolfproxy.Handshake.Codes.{Str, strip_prefix, fingerprint_prefix, chars, str_is_empty}
use werewolfproxy.Targets.Endpoints.{
  SocketAddr, Endpoints, member, insert_endpoint, remove_endpoint, collect, is_subset,
  supported_endpoint, any_unsupported,
}

-- `HashMap<String, BTreeSet<SocketAddr>>`
abbrev pub GrantMap : Type 0
GrantMap = Str → Option Endpoints

-- `TargetPolicy`
pub data TargetPolicy : Type 0 where
  deny legacy_allow : TargetPolicy
  grants : GrantMap → TargetPolicy
  unusable : TargetPolicy

-- `invalid_document()`, and the message of a target that is not authorized
pub data PolicyError : Type 0 where
  invalid_document denied : PolicyError

-- `HashMap::insert`, and `remove` for `none`
unfoldable pub set_grants : Str → Option Endpoints → GrantMap → GrantMap
set_grants fp value map = λ k. if bytes_eq k fp then value else map k

-- the bytes of the suffix, the next one being byte `i`, in the closure of `valid_fingerprint`
unfoldable pub fingerprint_bytes : ℕ → Bytes → Bool
fingerprint_bytes i [] = true
fingerprint_bytes i (b ∷ bs) =
    let rest = fingerprint_bytes (i + 1) bs in
    (if i % 3 == 2 then b == b'-' else (leb b'0' b && leb b b'9') || (leb b'A' b && leb b b'F'))
    && rest

-- `valid_fingerprint`
unfoldable pub valid_fingerprint : Str → Bool
unfolding fingerprint_bytes strip_prefix
valid_fingerprint fp = elim (strip_prefix fingerprint_prefix fp) [
  | none ↦ false
  | some suffix ↦ (length suffix == 23) && fingerprint_bytes 0 suffix
]

-- `PeerGrant` with its `TargetGrant`s, each as the endpoint that `SocketAddr::new` makes of it
pub record PeerGrant : Type 0 where
  pub fingerprint : Str
  pub targets : List SocketAddr

-- `PolicyFile`, its peers without a repeated fingerprint, none when the field is missing
pub record PolicyFile : Type 0 where
  mode : Str
  pub peers : Option (List PeerGrant)

-- the loop of `policy_from_file` over the targets of a peer
unfoldable pub peer_endpoints : List SocketAddr → Endpoints → Option Endpoints
unfolding supported_endpoint member insert_endpoint
peer_endpoints [] endpoints = some endpoints
peer_endpoints (e ∷ es) endpoints =
    let rest = peer_endpoints es (insert_endpoint e endpoints) in
    if not (supported_endpoint e) || member e endpoints then none else rest

-- the loop of `policy_from_file` over the peers
unfoldable pub peer_grants : List PeerGrant → GrantMap → TargetPolicy
unfolding peer_endpoints set_grants
peer_grants [] map = TargetPolicy.grants map
peer_grants (p ∷ ps) map = elim (peer_endpoints p.targets []) [
  | none ↦ TargetPolicy.unusable
  | some endpoints ↦ peer_grants ps (set_grants p.fingerprint (some endpoints) map)
]

abbrev pub no_grants : GrantMap
no_grants = λ fp. none

-- `policy_from_file`
unfoldable pub policy_from_file : PolicyFile → TargetPolicy
unfolding peer_grants
policy_from_file file = elim file.peers [
  | none ↦
      if bytes_eq file.mode (ascii "legacy-allow")
      then TargetPolicy.legacy_allow
      else TargetPolicy.unusable
  | some peers ↦
      if bytes_eq file.mode (ascii "deny-by-default")
      then peer_grants peers no_grants
      else TargetPolicy.unusable
]

abbrev pub endpoints_of : Option Endpoints → Endpoints
endpoints_of none = []
endpoints_of (some es) = es

-- the grants that `allow_exact` starts from
abbrev pub grants_to_extend : TargetPolicy → Result PolicyError GrantMap
grants_to_extend TargetPolicy.deny = ok no_grants
grants_to_extend TargetPolicy.legacy_allow = err invalid_document
grants_to_extend (TargetPolicy.grants map) = ok map
grants_to_extend TargetPolicy.unusable = err invalid_document

-- `allow_exact`
unfoldable pub allow_exact : TargetPolicy → Str → SocketAddr → Result PolicyError TargetPolicy
unfolding valid_fingerprint supported_endpoint set_grants insert_endpoint
allow_exact policy fp endpoint = do
  ensure (valid_fingerprint fp && supported_endpoint endpoint) invalid_document
  map ← grants_to_extend policy
  ok (
      TargetPolicy.grants
        (set_grants fp (some (insert_endpoint endpoint (endpoints_of (map fp)))) map))

-- the grants that `remove_exact` starts from
abbrev pub grants_to_reduce : TargetPolicy → Result PolicyError GrantMap
grants_to_reduce TargetPolicy.deny = err invalid_document
grants_to_reduce TargetPolicy.legacy_allow = err invalid_document
grants_to_reduce (TargetPolicy.grants map) = ok map
grants_to_reduce TargetPolicy.unusable = err invalid_document

abbrev pub found_grants : Option Endpoints → Result PolicyError Endpoints
found_grants none = err invalid_document
found_grants (some es) = ok es

-- an entry of the map, without an empty one
abbrev pub nonempty : Endpoints → Option Endpoints
nonempty [] = none
nonempty (e ∷ es) = some (e ∷ es)

-- `remove_exact`
unfoldable pub remove_exact : TargetPolicy → Str → SocketAddr → Result PolicyError TargetPolicy
unfolding valid_fingerprint supported_endpoint set_grants remove_endpoint member
remove_exact policy fp endpoint = do
  ensure (valid_fingerprint fp && supported_endpoint endpoint) invalid_document
  map ← grants_to_reduce policy
  targets ← found_grants (map fp)
  ensure (member endpoint targets) invalid_document
  ok (TargetPolicy.grants (set_grants fp (nonempty (remove_endpoint endpoint targets)) map))

-- `str::contains` of a byte
unfoldable pub has_byte : ℕ → Str → Bool
has_byte b [] = false
has_byte b (c ∷ cs) = (c == b) || has_byte b cs

-- `rsplit_once(':')`
unfoldable pub rsplit_once : ℕ → Str → Option (Str × Str)
rsplit_once b [] = none
rsplit_once b (c ∷ cs) = elim (rsplit_once b cs) [
  | some parts ↦ some (c ∷ parts.0, parts.1)
  | none ↦ if c == b then some ([], cs) else none
]

-- the digits of a `u16`, behind a value
unfoldable pub u16_digits : ℕ → Bytes → Option ℕ
u16_digits n [] = some n
u16_digits n (d ∷ ds) =
    let rest = u16_digits (n * 10 + (d - b'0')) ds in
    if (leb b'0' d && leb d b'9') && ltb (n * 10 + (d - b'0')) 65536 then rest else none

abbrev without_plus : Bytes → Bytes
without_plus [] = []
without_plus (c ∷ cs) = if c == b'+' then cs else c ∷ cs

-- `str::parse::<u16>`
unfoldable pub parse_u16 : Str → Option ℕ
unfolding u16_digits
parse_u16 text = if str_is_empty (without_plus text) then none else u16_digits 0 (without_plus text)

unfoldable pub any_whitespace : List ℕ → Bool
any_whitespace [] = false
any_whitespace (c ∷ cs) = is_whitespace c || any_whitespace cs

abbrev pub or_denied {ℓ} : {A : Type ℓ} → Option A → Result PolicyError A
or_denied none = err denied
or_denied (some a) = ok a

-- the guard of a host name and its port
unfoldable pub is_host : Str → ℕ → Bool
unfolding has_byte any_whitespace
is_host host port = not (
    str_is_empty host
    || ((has_byte b':' host || (has_byte b'[' host || has_byte b']' host))
        || (any_whitespace (chars host) || port == 0)))

abbrev pub is_closed : TargetPolicy → Bool
is_closed TargetPolicy.deny = true
is_closed TargetPolicy.legacy_allow = false
is_closed (TargetPolicy.grants map) = false
is_closed TargetPolicy.unusable = true

-- `is_some_and(|allowed| endpoints.is_subset(allowed))`
unfoldable pub in_grants : Option Endpoints → Endpoints → Bool
unfolding is_subset
in_grants none es = false
in_grants (some allowed) es = is_subset es allowed

-- whether a policy lets a peer reach all of these endpoints
unfoldable pub permits : TargetPolicy → Str → Endpoints → Bool
unfolding in_grants
permits TargetPolicy.deny peer es = false
permits TargetPolicy.legacy_allow peer es = true
permits (TargetPolicy.grants map) peer es = in_grants (map peer) es
permits TargetPolicy.unusable peer es = false

abbrev pub is_empty : Endpoints → Bool
is_empty [] = true
is_empty (e ∷ es) = false

module _ (parse_addr : Str → Option SocketAddr)
    (resolver : Str → ℕ → Option (List SocketAddr)) where
  -- the endpoints that a host name with its port stands for
  unfoldable pub resolve : Str → Result PolicyError (List SocketAddr)
  unfolding rsplit_once parse_u16 is_host
  resolve target = do
    parts ← or_denied (rsplit_once b':' target)
    port ← or_denied (parse_u16 parts.1)
    ensure (is_host parts.0 port) denied
    or_denied (resolver parts.0 port)

  -- the endpoints that a target stands for
  unfoldable pub endpoints_named : Str → Result PolicyError (List SocketAddr)
  unfolding resolve
  endpoints_named target = elim (parse_addr target) [
    | some endpoint ↦ ok (endpoint ∷ [])
    | none ↦ resolve target
  ]

  -- `authorize_with_resolver`
  unfoldable pub authorize_with_resolver : TargetPolicy → Str → Str → Result PolicyError Endpoints
  unfolding endpoints_named has_byte collect any_unsupported permits
  authorize_with_resolver policy peer target = do
    ensure (not (is_closed policy || has_byte b'%' target)) denied
    found ← endpoints_named target
    ensure (not (is_empty (collect found) || any_unsupported (collect found))) denied
    ensure (permits policy peer (collect found)) denied
    ok (collect found)
