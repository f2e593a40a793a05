-- ===== src/Targets/Authorize.antt =====
-- What `authorize_with_resolver` lets through (crates/werewolfd/src/target_policy.rs).
use werewolfproxy.Shared.{
  ℕ, ◌≡◌, refl, sym, ap, ◌∙◌, Bool, true, false, not, ◌||◌, Option, none, some, List, [], ◌∷◌, All,
  subst, arith, &&-true, Bool-cases, inl, inr,
}
use werewolfproxy.Shared.Results.{ok, >>=-eq-ok, ensure-bind-eq-ok, ok-injective}
use werewolfproxy.Handshake.Codes.{Str}
use werewolfproxy.Targets.Endpoints.{
  SocketAddr, Endpoints, addr_eq, member, insert_endpoint, collect, addr_lt, is_subset,
  supported_endpoint, any_unsupported,
}
use werewolfproxy.Targets.Policy.{
  TargetPolicy, permits, in_grants, endpoints_of, is_empty, is_closed, has_byte, endpoints_named,
  authorize_with_resolver,
}
use werewolfproxy.Targets.Grants.{granted, member-insert_endpoint}

-- An endpoint that a policy grants to a peer and that a grant can name.
abbrev pub IsAllowed : TargetPolicy → Str → SocketAddr → Type 0
IsAllowed policy peer e = (granted policy peer e ≡ true) × (supported_endpoint e ≡ true)

or_false : (a b : Bool) → a || b ≡ false → (a ≡ false) × (b ≡ false)
or_false true b h = cc
or_false false b h = (refl, h)

not-false : (b : Bool) → not b ≡ false → b ≡ true
not-false true h = refl
not-false false h = cc

not-true : (b : Bool) → not b ≡ true → b ≡ false
not-true true h = cc
not-true false h = refl

member-collect : (es : List SocketAddr) (x : SocketAddr) → member x (collect es) ≡ member x es
unfolding collect member
member-collect [] x = refl
member-collect (e ∷ es) x =
    member-insert_endpoint e (collect es) x
    ∙ ap (λ (b : Bool). addr_eq x e || b) (member-collect es x)

is_subset-All :
    (es allowed : Endpoints)
    → is_subset es allowed ≡ true
    → All (λ (e : SocketAddr). member e allowed ≡ true) es
unfolding is_subset
is_subset-All [] allowed h = tt
is_subset-All (e ∷ es) allowed h =
    let (first, rest) = &&-true (member e allowed) (is_subset es allowed) h in
    (first, is_subset-All es allowed rest)

All-true :
    (es : Endpoints) (test : SocketAddr → Bool)
    → ((e : SocketAddr) → test e ≡ true)
    → All (λ (e : SocketAddr). test e ≡ true) es
All-true [] test h = tt
All-true (e ∷ es) test h = (h e, All-true es test h)

in_grants-All :
    (o : Option Endpoints) (es : Endpoints)
    → in_grants o es ≡ true
    → All (λ (e : SocketAddr). member e (endpoints_of o) ≡ true) es
unfolding in_grants
in_grants-All none es h = cc
in_grants-All (some allowed) es h = is_subset-All es allowed h

supported-All :
    (es : Endpoints)
    → any_unsupported es ≡ false
    → All (λ (e : SocketAddr). supported_endpoint e ≡ true) es
unfolding any_unsupported
supported-All [] h = tt
supported-All (e ∷ es) h =
    let (first, rest) = or_false (not (supported_endpoint e)) (any_unsupported es) h in
    (not-false (supported_endpoint e) first, supported-All es rest)

All-and :
    (P Q : SocketAddr → Type 0) (es : Endpoints)
    → All P es
    → All Q es
    → All (λ (e : SocketAddr). P e × Q e) es
All-and P Q [] p q = tt
All-and P Q (e ∷ es) (p, ps) (q, qs) = ((p, q), All-and P Q es ps qs)

permits-All :
    (policy : TargetPolicy) (peer : Str) (es : Endpoints)
    → permits policy peer es ≡ true
    → All (λ (e : SocketAddr). granted policy peer e ≡ true) es
unfolding permits
permits-All TargetPolicy.deny peer es h = cc
permits-All TargetPolicy.legacy_allow peer es h = All-true es _ (λ e. refl)
permits-All (TargetPolicy.grants map) peer es h = in_grants-All (map peer) es h
permits-All TargetPolicy.unusable peer es h = cc

-- What `authorize_with_resolver` returns is not empty, consists of exactly the endpoints that the
-- target stands for, and each of them is one that the policy grants to the peer and that a grant
-- can name. So no name that resolves to an endpoint besides the granted ones is let through.
pub authorize_sound :
    (parse_addr : Str → Option SocketAddr) (resolver : Str → ℕ → Option (List SocketAddr))
    (policy : TargetPolicy) (peer target : Str) (es : Endpoints)
    → authorize_with_resolver parse_addr resolver policy peer target ≡ ok es
    → (found : List SocketAddr) × (endpoints_named parse_addr resolver target ≡ ok found)
      × ((e : SocketAddr) → member e es ≡ member e found)
      × (is_empty es ≡ false)
      × All (IsAllowed policy peer) es
unfolding authorize_with_resolver
authorize_sound parse_addr resolver policy peer target es h =
    let (_, h1) = ensure-bind-eq-ok _ _ _ h in
    let (found, named, h2) = >>=-eq-ok (endpoints_named parse_addr resolver target) _ h1 in
    let (checked, h3) =
      ensure-bind-eq-ok (not (is_empty (collect found) || any_unsupported (collect found))) _ _
        h2 in
    let (allowed, h4) = ensure-bind-eq-ok (permits policy peer (collect found)) _ _ h3 in
    let (some_, supported) =
      or_false (is_empty (collect found)) (any_unsupported (collect found)) (not-true _ checked) in
    let same = ok-injective h4 in
    (
      found,
      named,
      λ e. ap (member e) (sym same) ∙ member-collect found e,
      ap is_empty (sym same) ∙ some_,
      subst (All (IsAllowed policy peer)) same (
          All-and _ _ (collect found) (permits-All policy peer (collect found) allowed)
            (supported-All (collect found) supported)),
    )

All-insert_endpoint :
    (P : SocketAddr → Type 0) (e : SocketAddr) (xs : Endpoints)
    → P e
    → All P xs
    → All P (insert_endpoint e xs)
unfolding insert_endpoint
All-insert_endpoint P e [] p ps = (p, tt)
All-insert_endpoint P e (x ∷ xs) p (q, qs) = elim (Bool-cases (addr_lt x e)) [
  | inl h ↦ rw h (q, All-insert_endpoint P e xs p qs)
  | inr h ↦
      rw h (elim (Bool-cases (addr_eq e x)) [ inl k ↦ rw k (q, qs) | inr k ↦ rw k (p, (q, qs)) ])
]

All-collect : (P : SocketAddr → Type 0) (es : List SocketAddr) → All P es → All P (collect es)
unfolding collect
All-collect P [] ps = tt
All-collect P (e ∷ es) (p, ps) = All-insert_endpoint P e (collect es) p (All-collect P es ps)

is_empty-insert_endpoint :
    (e : SocketAddr) (xs : Endpoints) → is_empty (insert_endpoint e xs) ≡ false
unfolding insert_endpoint
is_empty-insert_endpoint e [] = refl
is_empty-insert_endpoint e (x ∷ xs) = ground arith

any_unsupported-All :
    (policy : TargetPolicy) (peer : Str) (es : Endpoints)
    → All (IsAllowed policy peer) es
    → any_unsupported es ≡ false
unfolding any_unsupported
any_unsupported-All policy peer [] a = refl
any_unsupported-All policy peer (e ∷ es) ((g, s), more) =
    rw (s, any_unsupported-All policy peer es more) refl

is_subset_complete :
    (es allowed : Endpoints)
    → All (λ (e : SocketAddr). member e allowed ≡ true) es
    → is_subset es allowed ≡ true
unfolding is_subset
is_subset_complete [] allowed a = refl
is_subset_complete (e ∷ es) allowed (g, more) = rw (g, is_subset_complete es allowed more) refl

in_grants_complete :
    (o : Option Endpoints) (es : Endpoints)
    → is_empty es ≡ false
    → All (λ (e : SocketAddr). member e (endpoints_of o) ≡ true) es
    → in_grants o es ≡ true
in_grants_complete none [] n a = cc
in_grants_complete none (e ∷ es) n (g, more) = unfold member in ground (arith, g)
in_grants_complete (some allowed) es n a = unfold in_grants in is_subset_complete es allowed a

permits_complete :
    (policy : TargetPolicy) (peer : Str) (es : Endpoints)
    → is_empty es ≡ false
    → All (λ (e : SocketAddr). granted policy peer e ≡ true) es
    → permits policy peer es ≡ true
unfolding permits
permits_complete TargetPolicy.deny peer [] n a = cc
permits_complete TargetPolicy.deny peer (e ∷ es) n (g, more) = cc
permits_complete TargetPolicy.legacy_allow peer es n a = refl
permits_complete (TargetPolicy.grants map) peer es n a = in_grants_complete (map peer) es n a
permits_complete TargetPolicy.unusable peer [] n a = cc
permits_complete TargetPolicy.unusable peer (e ∷ es) n (g, more) = cc

granted-opened :
    (policy : TargetPolicy) (peer : Str) (e : SocketAddr)
    → granted policy peer e ≡ true
    → is_closed policy ≡ false
granted-opened TargetPolicy.deny peer e h = cc
granted-opened TargetPolicy.legacy_allow peer e h = refl
granted-opened (TargetPolicy.grants map) peer e h = refl
granted-opened TargetPolicy.unusable peer e h = cc

All-granted :
    (policy : TargetPolicy) (peer : Str) (es : Endpoints)
    → All (IsAllowed policy peer) es
    → All (λ (e : SocketAddr). granted policy peer e ≡ true) es
All-granted policy peer [] a = tt
All-granted policy peer (e ∷ es) ((g, s), more) = (g, All-granted policy peer es more)

-- A target is let through whenever it has no scope, the policy is not closed, and the target stands
-- for at least one endpoint and for allowed ones only; the result is the set of these.
pub authorize_complete :
    (parse_addr : Str → Option SocketAddr) (resolver : Str → ℕ → Option (List SocketAddr))
    (policy : TargetPolicy) (peer target : Str) (first : SocketAddr) (more : List SocketAddr)
    → has_byte b'%' target ≡ false
    → endpoints_named parse_addr resolver target ≡ ok (first ∷ more)
    → All (IsAllowed policy peer) (first ∷ more)
    → authorize_with_resolver parse_addr resolver policy peer target ≡ ok (collect (first ∷ more))
unfolding authorize_with_resolver collect
authorize_complete parse_addr resolver policy peer target first more scope named allowed =
    let all = All-collect _ (first ∷ more) allowed in
    let some_ = is_empty-insert_endpoint first (collect more) in
    rw
      (
        granted-opened policy peer first allowed.0.0,
        scope,
        named,
        some_,
        any_unsupported-All policy peer _ all,
        permits_complete policy peer _ some_ (All-granted policy peer _ all),
      )
      refl
