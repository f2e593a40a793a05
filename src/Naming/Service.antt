-- ===== src/Naming/Service.antt =====
-- crates/werewolf-core/src/service.rs: services, each with up to four providers in order. An
-- `InvalidData` error stands as a constructor for its message.
use werewolfproxy.Shared.{
  ℕ, ◌+◌, ◌≤◌, ◌≡◌, refl, Bool, true, false, not, ◌||◌, List, [], ◌∷◌, length, map, leb, All, arith,
  le→leb,
}
use werewolfproxy.Shared.Results.{Result, ok, ◌>>◌, ensure}
use werewolfproxy.Naming.Text.{Text, byte_len, trim, is_trimmed, text_is_empty}
use werewolfproxy.Naming.Different.{any_repeated, AllDifferent}

pub data ServiceKind : Type 0 where
  tcp http https ssh : ServiceKind

abbrev pub max_providers : ℕ
max_providers = 4

pub record ServiceProvider : Type 0 where
  pub peer : Text
  pub target : Text

pub record ServiceDefinition : Type 0 where
  pub name : Text
  pub peer : Text
  pub target : Text
  pub kind : ServiceKind
  pub fallbacks : List ServiceProvider

pub data ServiceError : Type 0 where
  too_many_providers bad_provider provider_twice : ServiceError
  empty_field not_canonical too_long duplicate_name : ServiceError

-- `ServiceDefinition::providers`
unfoldable pub providers : ServiceDefinition → List (Text × Text)
providers s = (s.peer, s.target) ∷ map (λ (p : ServiceProvider). (p.peer, p.target)) s.fallbacks

-- `.trim().is_empty()`
abbrev pub is_blank : Text → Bool
is_blank s = text_is_empty (trim s)

-- the test of a fallback
unfoldable pub valid_provider : ServiceProvider → Bool
valid_provider p = not (
    is_blank p.peer
    || (is_blank p.target
        || (not (is_trimmed p.peer)
            || (not (is_trimmed p.target)
                || (not (leb (byte_len p.peer) 128) || not (leb (byte_len p.target) 512))))))

-- the loop over the fallbacks
unfoldable pub check_fallbacks : List ServiceProvider → Result ServiceError (Unit {0})
check_fallbacks [] = ok tt
check_fallbacks (p ∷ ps) = do ensure (valid_provider p) bad_provider; check_fallbacks ps

-- `service.providers().map(|(peer, _)| peer)`
abbrev pub provider_peers : ServiceDefinition → List Text
provider_peers s = map (λ (p : Text × Text). p.0) (providers s)

unfoldable pub validate_providers : ServiceDefinition → Result ServiceError (Unit {0})
validate_providers s = do
  ensure (leb (length s.fallbacks + 1) max_providers) too_many_providers
  check_fallbacks s.fallbacks
  ensure (not (any_repeated [] (provider_peers s))) provider_twice

-- the body of the first loop of `validate_services`
unfoldable pub check_service : ServiceDefinition → Result ServiceError (Unit {0})
check_service s = do
  validate_providers s
  ensure (not (is_blank s.name || (is_blank s.peer || is_blank s.target))) empty_field
  ensure (not (not (is_trimmed s.name) || (not (is_trimmed s.peer) || not (is_trimmed s.target))))
      not_canonical
  ensure
      (not (
        not (leb (byte_len s.name) 128)
        || (not (leb (byte_len s.peer) 128) || not (leb (byte_len s.target) 512))))
      too_long

unfoldable pub check_services : List ServiceDefinition → Result ServiceError (Unit {0})
check_services [] = ok tt
check_services (s ∷ ss) = do check_service s; check_services ss

-- `validate_services`; the second loop compares the names.
unfoldable pub validate_services : List ServiceDefinition → Result ServiceError (Unit {0})
validate_services services = do
  check_services services
  ensure (not (any_repeated [] (map (λ (s : ServiceDefinition). s.name) services))) duplicate_name

-- A text with a visible character, no white space at its ends, and at most `n` bytes.
pub record IsField (n : ℕ) (s : Text) : Type 0 where
  pub visible : is_blank s ≡ false
  pub trimmed : is_trimmed s ≡ true
  pub short : byte_len s ≤ n

pub record IsProvider (p : ServiceProvider) : Type 0 where
  pub peer : IsField 128 p.peer
  pub target : IsField 512 p.target

pub record IsService (s : ServiceDefinition) : Type 0 where
  pub name : IsField 128 s.name
  pub peer : IsField 128 s.peer
  pub target : IsField 512 s.target
  pub few : length s.fallbacks ≤ 3
  pub fallbacks : All IsProvider s.fallbacks
  pub different : AllDifferent (provider_peers s)

valid_provider-IsProvider : (p : ServiceProvider) → valid_provider p ≡ true → IsProvider p
unfolding valid_provider
valid_provider-IsProvider p h = record {
  peer = record { visible = ground arith; trimmed = ground arith; short = ground arith };
  target = record { visible = ground arith; trimmed = ground arith; short = ground arith };
}

IsProvider-valid_provider : (p : ServiceProvider) → IsProvider p → valid_provider p ≡ true
unfolding valid_provider
IsProvider-valid_provider p v =
    rw
      (
        v.peer.visible,
        v.target.visible,
        v.peer.trimmed,
        v.target.trimmed,
        le→leb _ _ v.peer.short,
        le→leb _ _ v.target.short,
      )
      refl

pub check_fallbacks_sound :
    (ps : List ServiceProvider) → check_fallbacks ps ≡ ok tt → All IsProvider ps
unfolding check_fallbacks
check_fallbacks_sound [] h = tt
check_fallbacks_sound (p ∷ ps) h =
    (valid_provider-IsProvider p (ground arith), check_fallbacks_sound ps (ground arith))

pub check_fallbacks_complete :
    (ps : List ServiceProvider) → All IsProvider ps → check_fallbacks ps ≡ ok tt
unfolding check_fallbacks
check_fallbacks_complete [] h = refl
check_fallbacks_complete (p ∷ ps) h =
    rw (IsProvider-valid_provider p h.0, check_fallbacks_complete ps h.1) refl
