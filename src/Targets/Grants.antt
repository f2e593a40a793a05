-- ===== src/Targets/Grants.antt =====
-- What allowing and removing a grant changes (crates/werewolfd/src/target_policy.rs).
use werewolfproxy.Shared.{
  ◌≡◌, refl, sym, ap, ◌∙◌, Bool, true, false, not, ◌&&◌, ◌||◌, Option, none, some, [], ◌∷◌,
  if◌then◌else◌, arith, Bool-cases, inl, inr,
}
use werewolfproxy.Shared.Bytes.{Bytes, bytes_eq, bytes_eq_sound, bytes_eq_refl}
use werewolfproxy.Shared.Results.{ok, >>=-eq-ok, ensure-bind-eq-ok, ok-injective}
use werewolfproxy.Handshake.Codes.{Str}
use werewolfproxy.Targets.Endpoints.{
  SocketAddr, Endpoints, order_key, addr_eq, member, insert_endpoint, remove_endpoint,
}
use werewolfproxy.Targets.Policy.{
  TargetPolicy, GrantMap, set_grants, grants_to_extend, grants_to_reduce, found_grants,
  endpoints_of, nonempty, allow_exact, remove_exact,
}

-- Whether a policy lets a peer reach an endpoint.
abbrev pub granted : TargetPolicy → Str → SocketAddr → Bool
granted TargetPolicy.deny peer e = false
granted TargetPolicy.legacy_allow peer e = true
granted (TargetPolicy.grants map) peer e = member e (endpoints_of (map peer))
granted TargetPolicy.unusable peer e = false

-- equal endpoints are equal to the same ones
addr_eq-same : (a b x : SocketAddr) → addr_eq a b ≡ true → addr_eq x a ≡ addr_eq x b
unfolding addr_eq
addr_eq-same a b x h = ap (λ (k : Bytes). bytes_eq (order_key x) k) (bytes_eq_sound _ _ h)

same_addr_eq : (a b x : SocketAddr) → addr_eq a b ≡ true → addr_eq a x ≡ addr_eq b x
unfolding addr_eq
same_addr_eq a b x h = ap (λ (k : Bytes). bytes_eq k (order_key x)) (bytes_eq_sound _ _ h)

addr_eq_refl : (a : SocketAddr) → addr_eq a a ≡ true
unfolding addr_eq
addr_eq_refl a = bytes_eq_refl (order_key a)

pub member-insert_endpoint :
    (e : SocketAddr) (xs : Endpoints) (x : SocketAddr)
    → member x (insert_endpoint e xs) ≡ addr_eq x e || member x xs
unfolding member insert_endpoint
member-insert_endpoint e [] x = refl
member-insert_endpoint e (y ∷ ys) x =
    ground (arith, member-insert_endpoint e ys x, addr_eq-same e y x)

member-remove_endpoint :
    (e : SocketAddr) (xs : Endpoints) (x : SocketAddr)
    → member x (remove_endpoint e xs) ≡ not (addr_eq x e) && member x xs
unfolding member remove_endpoint
member-remove_endpoint e [] x = ground arith
member-remove_endpoint e (y ∷ ys) x =
    ground (arith, member-remove_endpoint e ys x, addr_eq-same e y x, same_addr_eq x e y)

endpoints_of-nonempty : (es : Endpoints) → endpoints_of (nonempty es) ≡ es
endpoints_of-nonempty [] = refl
endpoints_of-nonempty (e ∷ es) = refl

granted-set_grants :
    (fp : Str) (value : Option Endpoints) (map : GrantMap) (peer : Str) (e : SocketAddr)
    → granted (TargetPolicy.grants (set_grants fp value map)) peer e ≡ (
        if bytes_eq peer fp
        then member e (endpoints_of value)
        else member e (endpoints_of (map peer)))
unfolding set_grants
granted-set_grants fp value map peer e = elim (Bool-cases (bytes_eq peer fp)) [
  | inl h ↦ rw h refl
  | inr h ↦ rw h refl
]

granted-grants_to_extend :
    (policy : TargetPolicy) (map : GrantMap)
    → grants_to_extend policy ≡ ok map
    → (peer : Str) (e : SocketAddr) → granted policy peer e ≡ member e (endpoints_of (map peer))
unfolding member
granted-grants_to_extend TargetPolicy.deny map h peer e =
    ap (λ (m : GrantMap). member e (endpoints_of (m peer))) (ok-injective h)
granted-grants_to_extend TargetPolicy.legacy_allow map h peer e = cc
granted-grants_to_extend (TargetPolicy.grants m) map h peer e =
    ap (λ (x : GrantMap). member e (endpoints_of (x peer))) (ok-injective h)
granted-grants_to_extend TargetPolicy.unusable map h peer e = cc

granted-grants_to_reduce :
    (policy : TargetPolicy) (map : GrantMap)
    → grants_to_reduce policy ≡ ok map
    → (peer : Str) (e : SocketAddr) → granted policy peer e ≡ member e (endpoints_of (map peer))
granted-grants_to_reduce TargetPolicy.deny map h peer e = cc
granted-grants_to_reduce TargetPolicy.legacy_allow map h peer e = cc
granted-grants_to_reduce (TargetPolicy.grants m) map h peer e =
    ap (λ (x : GrantMap). member e (endpoints_of (x peer))) (ok-injective h)
granted-grants_to_reduce TargetPolicy.unusable map h peer e = cc

-- the entry of the changed peer, and those of the others
select :
    (test changed kept more : Bool)
    → (test ≡ true → changed ≡ more || kept)
    → (if test then changed else kept) ≡ (test && more) || kept
select true changed kept more h = h refl
select false changed kept more h = refl

select_less :
    (test changed kept less : Bool)
    → (test ≡ true → changed ≡ not less && kept)
    → (if test then changed else kept) ≡ not (test && less) && kept
select_less true changed kept less h = h refl
select_less false changed kept less h = refl

found_grants-eq-ok :
    (o : Option Endpoints) (es : Endpoints) → found_grants o ≡ ok es → es ≡ endpoints_of o
found_grants-eq-ok none es h = cc
found_grants-eq-ok (some x) es h = sym (ok-injective h)

-- Allowing an endpoint adds exactly that grant: the policy that `allow_exact` returns grants what
-- the one before granted and this endpoint to this peer, and nothing else.
pub granted-allow_exact :
    (policy next : TargetPolicy) (fp : Str) (endpoint : SocketAddr)
    → allow_exact policy fp endpoint ≡ ok next
    → (peer : Str) (e : SocketAddr)
    → granted next peer e ≡ (bytes_eq peer fp && addr_eq e endpoint) || granted policy peer e
unfolding allow_exact
granted-allow_exact policy next fp endpoint h peer e =
    let (_, h1) = ensure-bind-eq-ok _ _ _ h in
    let (map, e1, h2) = >>=-eq-ok (grants_to_extend policy) _ h1 in
    ap (λ (x : TargetPolicy). granted x peer e) (sym (ok-injective h2))
    ∙ granted-set_grants fp _ map peer e
    ∙ select (bytes_eq peer fp) _ (member e (endpoints_of (map peer))) (addr_eq e endpoint) (λ same.
      member-insert_endpoint endpoint (endpoints_of (map fp)) e
      ∙ ap (λ (k : Str). addr_eq e endpoint || member e (endpoints_of (map k)))
          (sym (bytes_eq_sound peer fp same)))
    ∙ ap (λ (b : Bool). (bytes_eq peer fp && addr_eq e endpoint) || b)
        (sym (granted-grants_to_extend policy map e1 peer e))

-- Removing an endpoint removes exactly that grant: the policy that `remove_exact` returns grants
-- what the one before granted, less this endpoint of this peer.
pub granted-remove_exact :
    (policy next : TargetPolicy) (fp : Str) (endpoint : SocketAddr)
    → remove_exact policy fp endpoint ≡ ok next
    → (peer : Str) (e : SocketAddr)
    → granted next peer e ≡ not (bytes_eq peer fp && addr_eq e endpoint) && granted policy peer e
unfolding remove_exact
granted-remove_exact policy next fp endpoint h peer e =
    let (_, h1) = ensure-bind-eq-ok _ _ _ h in
    let (map, e1, h2) = >>=-eq-ok (grants_to_reduce policy) _ h1 in
    let (targets, e2, h3) = >>=-eq-ok (found_grants (map fp)) _ h2 in
    let (_, h4) = ensure-bind-eq-ok (member endpoint targets) _ _ h3 in
    ap (λ (x : TargetPolicy). granted x peer e) (sym (ok-injective h4))
    ∙ granted-set_grants fp _ map peer e
    ∙ select_less (bytes_eq peer fp) _ (member e (endpoints_of (map peer))) (addr_eq e endpoint)
        (λ same.
          ap (member e) (endpoints_of-nonempty (remove_endpoint endpoint targets))
          ∙ member-remove_endpoint endpoint targets e
          ∙ ap (λ (es : Endpoints). not (addr_eq e endpoint) && member e es)
              (found_grants-eq-ok (map fp) targets e2)
          ∙ ap (λ (k : Str). not (addr_eq e endpoint) && member e (endpoints_of (map k)))
              (sym (bytes_eq_sound peer fp same)))
    ∙ ap (λ (b : Bool). not (bytes_eq peer fp && addr_eq e endpoint) && b)
        (sym (granted-grants_to_reduce policy map e1 peer e))
