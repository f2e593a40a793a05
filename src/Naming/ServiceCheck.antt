-- ===== src/Naming/ServiceCheck.antt =====
-- What `validate_services` (crates/werewolf-core/src/service.rs) accepts.
use werewolfproxy.Shared.{
  ℕ, ◌+◌, ◌≤◌, ◌≡◌, ◌↔◌, refl, false, List, [], ◌∷◌, length, map, All, arith, le→leb,
}
use werewolfproxy.Shared.Results.{ok}
use werewolfproxy.Naming.Different.{any_repeated, AllDifferent, any_repeated-AllDifferent}
use werewolfproxy.Naming.Service.{
  ServiceDefinition, IsField, IsProvider, IsService, check_fallbacks, provider_peers,
  validate_providers, check_service, check_services, validate_services, check_fallbacks_sound,
  check_fallbacks_complete, max_providers,
}

validate_providers_sound :
    (s : ServiceDefinition)
    → validate_providers s ≡ ok tt
    → (length s.fallbacks ≤ 3) × All IsProvider s.fallbacks × AllDifferent (provider_peers s)
validate_providers_sound s h =
    let (few, each, different) = tests s h in
    (
      few,
      check_fallbacks_sound s.fallbacks each,
      (any_repeated-AllDifferent (provider_peers s)).0 different,
    )
  where
    tests :
        (q : ServiceDefinition)
        → validate_providers q ≡ ok tt
        → (length q.fallbacks ≤ 3)
          × (check_fallbacks q.fallbacks ≡ ok tt)
          × (any_repeated [] (provider_peers q) ≡ false)
    tests q p = unfold validate_providers in ground arith

validate_providers_complete : (s : ServiceDefinition) → IsService s → validate_providers s ≡ ok tt
unfolding validate_providers
validate_providers_complete s v =
    rw
      (
        le→leb (length s.fallbacks + 1) max_providers (omega (arith, v.few)),
        check_fallbacks_complete s.fallbacks v.fallbacks,
        (any_repeated-AllDifferent (provider_peers s)).1 v.different,
      )
      refl

check_service-IsService : (s : ServiceDefinition) → check_service s ≡ ok tt → IsService s
check_service-IsService s h =
    let (providers_valid, name, peer, target) = tests s h in
    let (few, each, different) = validate_providers_sound s providers_valid in
    record {
      name = name;
      peer = peer;
      target = target;
      few = few;
      fallbacks = each;
      different = different;
    }
  where
    tests :
        (q : ServiceDefinition)
        → check_service q ≡ ok tt
        → (validate_providers q ≡ ok tt)
          × IsField 128 q.name
          × IsField 128 q.peer
          × IsField 512 q.target
    tests q p =
        unfold check_service in
        (
          ground arith,
          record { visible = ground arith; trimmed = ground arith; short = ground arith },
          record { visible = ground arith; trimmed = ground arith; short = ground arith },
          record { visible = ground arith; trimmed = ground arith; short = ground arith },
        )

IsService-check_service : (s : ServiceDefinition) → IsService s → check_service s ≡ ok tt
unfolding check_service
IsService-check_service s v =
    rw
      (
        validate_providers_complete s v,
        v.name.visible,
        v.peer.visible,
        v.target.visible,
        v.name.trimmed,
        v.peer.trimmed,
        v.target.trimmed,
        le→leb _ _ v.name.short,
        le→leb _ _ v.peer.short,
        le→leb _ _ v.target.short,
      )
      refl

check_services_sound : (ss : List ServiceDefinition) → check_services ss ≡ ok tt → All IsService ss
unfolding check_services
check_services_sound [] h = tt
check_services_sound (s ∷ ss) h =
    (check_service-IsService s (ground arith), check_services_sound ss (ground arith))

check_services_complete :
    (ss : List ServiceDefinition) → All IsService ss → check_services ss ≡ ok tt
unfolding check_services
check_services_complete [] h = refl
check_services_complete (s ∷ ss) h =
    rw (IsService-check_service s h.0, check_services_complete ss h.1) refl

abbrev names : List ServiceDefinition → List (List ℕ)
names services = map (λ (s : ServiceDefinition). s.name) services

-- What a node's service list promises.
pub record AreServices (services : List ServiceDefinition) : Type 0 where
  each : All IsService services
  one_per_name : AllDifferent (names services)

-- `validate_services` accepts exactly the lists whose services have different names, each with a
-- name, a first provider and at most three fallbacks of trimmed, visible fields within the limits of
-- 128 and 512 bytes, no peer standing twice among the providers of one service.
pub validate_services_iff :
    (services : List ServiceDefinition)
    → (validate_services services ≡ ok tt) ↔ AreServices services
validate_services_iff services = (sound, complete)
  where
    sound : validate_services services ≡ ok tt → AreServices services
    sound h =
        let (each, different) = tests h in
        record {
          each = check_services_sound services each;
          one_per_name = (any_repeated-AllDifferent (names services)).0 different;
        }
      where
        tests :
            validate_services services ≡ ok tt
            → (check_services services ≡ ok tt) × (any_repeated [] (names services) ≡ false)
        tests p = unfold validate_services in ground arith

    complete : AreServices services → validate_services services ≡ ok tt
    complete v =
        unfold validate_services in
        rw
          (
            check_services_complete services v.each,
            (any_repeated-AllDifferent (names services)).1 v.one_per_name,
          )
          refl
