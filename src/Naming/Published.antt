-- ===== src/Naming/Published.antt =====
-- crates/werewolf-core/src/published.rs: the services that a node publishes, and what
-- `validate_published` accepts. The standard library's `SocketAddr` is a parameter.
use werewolfproxy.Shared.{
  ℕ, ◌≤◌, ◌≡◌, ◌↔◌, refl, Bool, true, false, not, ◌||◌, Option, none, some, List, [], ◌∷◌, ◌++◌,
  length, map, leb, ◌==◌, All, arith, leb→le, le→leb,
}
use werewolfproxy.Shared.Bytes.{bytes_eq}
use werewolfproxy.Shared.Sorted.{contains}
use werewolfproxy.Shared.Results.{Result, ok, ◌>>◌, ensure}
use werewolfproxy.Naming.Text.{Text}
use werewolfproxy.Naming.Route.{valid_name}
use werewolfproxy.Naming.Service.{ServiceKind}
use werewolfproxy.Naming.Different.{
  NoneIn, NoneIn-append_split, NoneIn-append, NoneIn-empty, AllDifferent,
}

-- `str::parse::<SocketAddr>`, `port`, `ip().is_unspecified()` and `to_string`
pub record Sockets (S : Type 0) : Type 0 where
  pub parse_addr : Text → Option S
  pub port : S → ℕ
  pub is_unspecified : S → Bool
  pub to_string : S → Text

abbrev pub max_published : ℕ
max_published = 32

pub record PublishedService : Type 0 where
  pub name : Text
  pub kind : ServiceKind
  pub target : Text

pub data PublishedError : Type 0 where
  name target duplicate too_many malformed : PublishedError

module _ {S : Type 0} (std : Sockets S) where
  open std use {parse_addr, port, is_unspecified, to_string}

  abbrev canonical : Text → Option S → Bool
  canonical text none = false
  canonical text (some addr) =
      not (port addr == 0 || (is_unspecified addr || not (bytes_eq (to_string addr) text)))

  -- `check_target`
  unfoldable pub check_target : Text → Result PublishedError (Unit {0})
  check_target text = ensure (canonical text (parse_addr text)) PublishedError.target

  -- `PublishedService::check`; `check_name` has the tests of a route's names.
  unfoldable pub check : PublishedService → Result PublishedError (Unit {0})
  unfolding check_target
  check s = do ensure (valid_name s.name) PublishedError.name; check_target s.target

  -- the loop of `validate_published`, `seen` being the names of `services[..index]`
  unfoldable pub check_published :
      List Text → List PublishedService → Result PublishedError (Unit {0})
  check_published seen [] = ok tt
  check_published seen (s ∷ ss) = do
    check s
    ensure (not (contains seen s.name)) PublishedError.duplicate
    check_published (seen ++ s.name ∷ []) ss

  -- `validate_published`
  unfoldable pub validate_published : List PublishedService → Result PublishedError (Unit {0})
  validate_published services = do
    ensure (leb (length services) max_published) PublishedError.too_many
    check_published [] services

  -- A target is the one spelling of a specified address with a port.
  pub record IsTarget (text : Text) : Type 0 where
    pub addr : S
    pub parsed : parse_addr text ≡ some addr
    pub port_open : (port addr == 0) ≡ false
    pub specified : is_unspecified addr ≡ false
    pub spelled : bytes_eq (to_string addr) text ≡ true

  abbrev pub IsPublished : PublishedService → Type 0
  IsPublished s = (valid_name s.name ≡ true) × IsTarget s.target

  abbrev names : List PublishedService → List Text
  names services = map (λ (s : PublishedService). s.name) services

  canonical-IsTarget :
      (text : Text) (o : Option S) → parse_addr text ≡ o → canonical text o ≡ true → IsTarget text
  canonical-IsTarget text none e h = cc
  canonical-IsTarget text (some addr) e h = record {
    addr = addr;
    parsed = e;
    port_open = ground arith;
    specified = ground arith;
    spelled = ground arith;
  }

  check-IsPublished : (s : PublishedService) → check s ≡ ok tt → IsPublished s
  check-IsPublished s h =
      let (a, b) = tests s h in (a, canonical-IsTarget s.target (parse_addr s.target) refl b)
    where
      tests :
          (q : PublishedService)
          → check q ≡ ok tt
          → (valid_name q.name ≡ true) × (canonical q.target (parse_addr q.target) ≡ true)
      tests q p = unfold check check_target in ground arith

  IsPublished-check : (s : PublishedService) → IsPublished s → check s ≡ ok tt
  unfolding check
  IsPublished-check s v = rw (v.0, v.1.parsed, v.1.port_open, v.1.specified, v.1.spelled) refl

  check_published_sound :
      (seen : List Text) (ss : List PublishedService)
      → check_published seen ss ≡ ok tt
      → All IsPublished ss × NoneIn seen (names ss) × AllDifferent (names ss)
  check_published_sound seen [] h = (tt, tt, tt)
  check_published_sound seen (s ∷ ss) h =
      let (c, new_name, rest) = tests s ss h in
      let (each, none_seen, different) = check_published_sound (seen ++ s.name ∷ []) ss rest in
      let (a, b) = NoneIn-append_split seen s.name (names ss) none_seen in
      ((check-IsPublished s c, each), (new_name, a), (b, different))
    where
      tests :
          (q : PublishedService) (qs : List PublishedService)
          → check_published seen (q ∷ qs) ≡ ok tt
          → (check q ≡ ok tt)
            × (contains seen q.name ≡ false)
            × (check_published (seen ++ q.name ∷ []) qs ≡ ok tt)
      tests q qs p = unfold check_published in ground arith

  check_published_complete :
      (seen : List Text) (ss : List PublishedService)
      → All IsPublished ss
      → NoneIn seen (names ss)
      → AllDifferent (names ss)
      → check_published seen ss ≡ ok tt
  unfolding check_published
  check_published_complete seen [] a b c = refl
  check_published_complete seen (s ∷ ss) a b c =
      rw
        (
          IsPublished-check s a.0,
          b.0,
          check_published_complete (seen ++ s.name ∷ []) ss a.1
              (NoneIn-append seen s.name (names ss) b.1 c.0) c.1,
        )
        refl

  -- What a node's published list promises.
  pub record ArePublished (services : List PublishedService) : Type 0 where
    few : length services ≤ 32
    each : All IsPublished services
    one_per_name : AllDifferent (names services)

  -- `validate_published` accepts exactly the lists of at most 32 services that have different, valid
  -- names, and targets that are the standard spelling of a specified address with a port other
  -- than 0.
  pub validate_published_iff :
      (services : List PublishedService)
      → (validate_published services ≡ ok tt) ↔ ArePublished services
  validate_published_iff services = (sound, complete)
    where
      sound : validate_published services ≡ ok tt → ArePublished services
      sound h =
          let (few, rest) = tests h in
          let (each, none_seen, different) = check_published_sound [] services rest in
          record { few = leb→le _ _ few; each = each; one_per_name = different }
        where
          tests :
              validate_published services ≡ ok tt
              → (leb (length services) max_published ≡ true) × (check_published [] services ≡ ok tt)
          tests p = unfold validate_published in ground arith

      complete : ArePublished services → validate_published services ≡ ok tt
      complete v =
          unfold validate_published in
          rw
            (
              le→leb _ _ v.few,
              check_published_complete [] services v.each (NoneIn-empty (names services))
                  v.one_per_name,
            )
            refl
