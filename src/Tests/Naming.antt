-- ===== src/Tests/Naming.antt =====
-- Runs of crates/werewolf-core/src/route.rs, service.rs and published.rs.
use werewolfproxy.Shared.{some, ◌≡◌, ◌↔◌, refl, [], ◌∷◌}
use werewolfproxy.Shared.Results.{ok, err}
use werewolfproxy.Naming.Service.{
  ServiceDefinition, ServiceKind, ServiceError, validate_services, check_services, check_service,
  validate_providers, check_fallbacks, valid_provider, providers,
}
use werewolfproxy.Naming.ServiceCheck.{AreServices, validate_services_iff}
use werewolfproxy.Naming.Different.{any_repeated}
use werewolfproxy.Shared.Sorted.{contains}
use werewolfproxy.Naming.Published.{
  Sockets, PublishedService, PublishedError, ArePublished, validate_published,
  validate_published_iff, check_published, check_target,
}
use werewolfproxy.Naming.Published
use werewolfproxy.Shared.{length}
use werewolfproxy.Naming.Text.{Text, byte_len, any_control, trim}
use werewolfproxy.Shared.Bytes.{bytes_eq}
use werewolfproxy.Naming.Route.{
  check, check_each, any_chained, has_route, valid_name, valid_name, check, check_each, Route,
  RouteHop, RouteError, AreRoutes, validate_routes, validate_routes_iff,
}

abbrev web : Route
web = record {
  peer = b'w' ∷ b'e' ∷ b'b' ∷ [];
  via = b'm' ∷ b'o' ∷ b'o' ∷ b'n' ∷ [];
  hop = RouteHop.tcp;
}

-- a route whose peer is the relay of the first
abbrev moon : Route
moon = record {
  peer = b'm' ∷ b'o' ∷ b'o' ∷ b'n' ∷ [];
  via = b's' ∷ b'u' ∷ b'n' ∷ [];
  hop = RouteHop.quic;
}

one_route : validate_routes (web ∷ []) ≡ ok tt
unfolding validate_routes check_each check valid_name byte_len bytes_eq trim any_control has_route
    any_chained
one_route = refl

chained_routes : validate_routes (web ∷ moon ∷ []) ≡ err RouteError.chained
unfolding validate_routes check_each check valid_name byte_len bytes_eq trim any_control has_route
    any_chained
chained_routes = refl

duplicate_routes : validate_routes (web ∷ web ∷ []) ≡ err RouteError.duplicate
unfolding validate_routes check_each check valid_name byte_len bytes_eq trim any_control has_route
duplicate_routes = refl

validate_routes_iff_example : (validate_routes (web ∷ []) ≡ ok tt) ↔ AreRoutes (web ∷ [])
validate_routes_iff_example = validate_routes_iff (web ∷ [])

-- the service `wolf` of the peer `a`, with a fallback
abbrev shell : ServiceDefinition
shell = record {
  name = b'w' ∷ b'o' ∷ b'l' ∷ b'f' ∷ [];
  peer = b'a' ∷ [];
  target = b'2' ∷ b'2' ∷ [];
  kind = ServiceKind.ssh;
  fallbacks = record { peer = b'b' ∷ []; target = b'2' ∷ b'3' ∷ [] } ∷ [];
}

one_service : validate_services (shell ∷ []) ≡ ok tt
unfolding validate_services check_services check_service validate_providers check_fallbacks
    valid_provider trim bytes_eq byte_len any_repeated providers contains
one_service = refl

duplicate_services : validate_services (shell ∷ shell ∷ []) ≡ err ServiceError.duplicate_name
unfolding validate_services check_services check_service validate_providers check_fallbacks
    valid_provider trim bytes_eq byte_len any_repeated providers contains
duplicate_services = refl

repeated_provider :
    validate_services (record shell { peer = b'b' ∷ [] } ∷ []) ≡ err ServiceError.provider_twice
unfolding validate_services check_services check_service validate_providers check_fallbacks
    valid_provider trim bytes_eq byte_len any_repeated providers contains
repeated_provider = refl

validate_services_iff_example : (validate_services (shell ∷ []) ≡ ok tt) ↔ AreServices (shell ∷ [])
validate_services_iff_example = validate_services_iff (shell ∷ [])

-- a toy of addresses: the text itself, whose length is the port
abbrev toy_sockets : Sockets Text
toy_sockets = record {
  parse_addr = λ text. some text;
  port = λ addr. length addr;
  is_unspecified = λ addr. bytes_eq addr (b'0' ∷ []);
  to_string = λ addr. addr;
}

abbrev offer : PublishedService
offer = record { name = b'w' ∷ []; kind = ServiceKind.tcp; target = b'1' ∷ b'2' ∷ [] }

one_offer : validate_published toy_sockets (offer ∷ []) ≡ ok tt
unfolding validate_published check_published Published.check valid_name byte_len bytes_eq trim
    any_control contains
one_offer = refl

unspecified_offer :
    validate_published toy_sockets (record offer { target = b'0' ∷ [] } ∷ [])
    ≡ err PublishedError.target
unfolding validate_published check_published Published.check valid_name byte_len bytes_eq trim
    any_control
unspecified_offer = refl

validate_published_iff_example :
    (validate_published toy_sockets (offer ∷ []) ≡ ok tt) ↔ ArePublished toy_sockets (offer ∷ [])
validate_published_iff_example = validate_published_iff toy_sockets (offer ∷ [])
