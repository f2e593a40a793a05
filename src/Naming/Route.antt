-- ===== src/Naming/Route.antt =====
-- crates/werewolf-core/src/route.rs: routes, each through exactly one relay.
use werewolfproxy.Shared.{
  ℕ, ◌≤◌, ◌≡◌, ◌↔◌, refl, Bool, true, false, not, ◌||◌, Option, none, some, List, [], ◌∷◌, ◌++◌,
  length, leb, ltb, All, arith, leb→le, le→leb,
}
use werewolfproxy.Shared.Bytes.{bytes_eq}
use werewolfproxy.Shared.Results.{Result, ok, ◌>>◌, ensure}
use werewolfproxy.Naming.Text.{Text, byte_len, any_control, is_trimmed, text_is_empty}

abbrev pub max_routes : ℕ
max_routes = 256

abbrev pub max_name_len : ℕ
max_name_len = 128

pub data RouteHop : Type 0 where
  quic tcp : RouteHop

-- `RouteHop::as_str`
unfoldable pub as_str : RouteHop → Text
as_str quic = b'q' ∷ b'u' ∷ b'i' ∷ b'c' ∷ []
as_str tcp = b't' ∷ b'c' ∷ b'p' ∷ []

parse_tcp : Bool → Option RouteHop
parse_tcp true = some tcp
parse_tcp false = none

parse_hop : Bool → Bool → Option RouteHop
parse_hop true is_tcp = some quic
parse_hop false is_tcp = parse_tcp is_tcp

-- `RouteHop::parse`
unfoldable pub parse : Text → Option RouteHop
unfolding parse_hop parse_tcp as_str
parse text = parse_hop (bytes_eq text (as_str quic)) (bytes_eq text (as_str tcp))

pub record Route : Type 0 where
  pub peer : Text
  pub via : Text
  pub hop : RouteHop

pub data RouteError : Type 0 where
  name self_relay chained duplicate too_many : RouteError

-- the condition under which `check_name` accepts
unfoldable pub valid_name : Text → Bool
valid_name s =
    not
      (text_is_empty s || (ltb max_name_len (byte_len s) || (not (is_trimmed s) || any_control s)))

-- `check_name`
unfoldable pub check_name : Text → Result RouteError (Unit {0})
check_name s = ensure (valid_name s) name

-- `Route::check`
unfoldable pub check : Route → Result RouteError (Unit {0})
unfolding check_name
check r = do check_name r.peer; check_name r.via; ensure (not (bytes_eq r.peer r.via)) self_relay

-- `routes.iter().any(|r| r.peer == peer)`
unfoldable pub has_route : Text → List Route → Bool
has_route peer [] = false
has_route peer (r ∷ rs) = bytes_eq r.peer peer || has_route peer rs

-- the loop of `validate_routes`, `seen` being `routes[..index]`
unfoldable pub check_each : List Route → List Route → Result RouteError (Unit {0})
check_each seen [] = ok tt
check_each seen (r ∷ rs) = do
  check r
  ensure (not (has_route r.peer seen)) duplicate
  check_each (seen ++ r ∷ []) rs

-- `routes.iter().any(|route| routes.iter().any(|other| other.peer == route.via))`
unfoldable pub any_chained : List Route → List Route → Bool
any_chained routes [] = false
any_chained routes (r ∷ rs) = has_route r.via routes || any_chained routes rs

-- `validate_routes`
unfoldable pub validate_routes : List Route → Result RouteError (Unit {0})
validate_routes routes = do
  ensure (leb (length routes) max_routes) too_many
  check_each [] routes
  ensure (not (any_chained routes routes)) chained

-- A route whose names are valid and different.
pub record IsRoute (r : Route) : Type 0 where
  peer_valid : valid_name r.peer ≡ true
  via_valid : valid_name r.via ≡ true
  not_self : bytes_eq r.peer r.via ≡ false

-- No two routes have the same peer, nor a peer of `seen`.
abbrev pub OnePerPeer : List Route → List Route → Type 0
OnePerPeer seen [] = Unit
OnePerPeer seen (r ∷ rs) = (has_route r.peer seen ≡ false) × OnePerPeer (seen ++ r ∷ []) rs

-- No relay of these routes is itself reached through a route.
abbrev pub Unrouted : List Route → List Route → Type 0
Unrouted routes rs = All (λ (r : Route). has_route r.via routes ≡ false) rs

check-IsRoute : (r : Route) → check r ≡ ok tt → IsRoute r
unfolding check
check-IsRoute r h = record {
  peer_valid = ground arith;
  via_valid = ground arith;
  not_self = ground arith;
}

IsRoute-check : (r : Route) → IsRoute r → check r ≡ ok tt
unfolding check
IsRoute-check r v = rw (v.peer_valid, v.via_valid, v.not_self) refl

check_each_sound :
    (seen rs : List Route) → check_each seen rs ≡ ok tt → All IsRoute rs × OnePerPeer seen rs
check_each_sound seen [] h = (tt, tt)
check_each_sound seen (r ∷ rs) h =
    let (c, new_peer, rest) = parts r rs h in
    let (all, one) = check_each_sound (seen ++ r ∷ []) rs rest in
    ((check-IsRoute r c, all), (new_peer, one))
  where
    parts :
        (q : Route) (qs : List Route)
        → check_each seen (q ∷ qs) ≡ ok tt
        → (check q ≡ ok tt)
          × (has_route q.peer seen ≡ false)
          × (check_each (seen ++ q ∷ []) qs ≡ ok tt)
    parts q qs p = unfold check_each in ground arith

check_each_complete :
    (seen rs : List Route) → All IsRoute rs → OnePerPeer seen rs → check_each seen rs ≡ ok tt
unfolding check_each
check_each_complete seen [] a o = refl
check_each_complete seen (r ∷ rs) a o =
    rw (IsRoute-check r a.0, o.0, check_each_complete (seen ++ r ∷ []) rs a.1 o.1) refl

Unrouted-sound : (routes rs : List Route) → any_chained routes rs ≡ false → Unrouted routes rs
unfolding any_chained
Unrouted-sound routes [] h = tt
Unrouted-sound routes (r ∷ rs) h = (ground arith, Unrouted-sound routes rs (ground arith))

Unrouted-complete : (routes rs : List Route) → Unrouted routes rs → any_chained routes rs ≡ false
unfolding any_chained
Unrouted-complete routes [] h = refl
Unrouted-complete routes (r ∷ rs) h = ground (arith, Unrouted-complete routes rs)

-- What a node's route list promises.
pub record AreRoutes (routes : List Route) : Type 0 where
  few : length routes ≤ 256
  each : All IsRoute routes
  one_per_peer : OnePerPeer [] routes
  one_relay : Unrouted routes routes

-- `validate_routes` accepts exactly the lists of at most 256 routes with valid, different names, one
-- route for a peer, and no relay that is itself reached through a route.
pub validate_routes_iff :
    (routes : List Route) → (validate_routes routes ≡ ok tt) ↔ AreRoutes routes
validate_routes_iff routes = (sound, complete)
  where
    sound : validate_routes routes ≡ ok tt → AreRoutes routes
    sound h = assemble (parts h)
      where
        parts :
            validate_routes routes ≡ ok tt
            → (leb (length routes) max_routes ≡ true)
              × (check_each [] routes ≡ ok tt)
              × (any_chained routes routes ≡ false)
        parts p = unfold validate_routes in ground arith

        assemble :
            (leb (length routes) max_routes ≡ true)
              × (check_each [] routes ≡ ok tt)
              × (any_chained routes routes ≡ false)
            → AreRoutes routes
        assemble (l, e, c) =
            let (all, one) = check_each_sound [] routes e in
            record {
              few = leb→le _ _ l;
              each = all;
              one_per_peer = one;
              one_relay = Unrouted-sound routes routes c;
            }

    complete : AreRoutes routes → validate_routes routes ≡ ok tt
    complete v =
        unfold validate_routes in
        rw
          (
            le→leb _ _ v.few,
            check_each_complete [] routes v.each v.one_per_peer,
            Unrouted-complete routes routes v.one_relay,
          )
          refl
