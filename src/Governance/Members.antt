-- ===== src/Governance/Members.antt =====
-- Who is a member: `Head::admits` (crates/werewolf-core/src/governance.rs) and `excludes`
-- (crates/werewolfd/src/governance.rs) on the heads that a node can come to.
use werewolfproxy.Shared.{
  ℕ, ◌≡◌, ◌≢◌, refl, sym, ◌∙◌, true, false, not, ◌&&◌, ◌||◌, Option, none, some, arith,
}
use werewolfproxy.Shared.Bytes.{Bytes}
use werewolfproxy.Shared.Sorted.{contains, is_found-binary_search}
use werewolfproxy.Governance.Types.{Crypto, Key, Head}
use werewolfproxy.Governance.Chain.{admits, is_some}
use werewolfproxy.Governance.HeadCheck.{PeerRecord, excludes}
use werewolfproxy.Governance.WellFormed.{IsWellFormed}
use werewolfproxy.Governance.History.{Reaches, Reaches-IsLater, Reaches-IsWellFormed}

is_some_of_ne : (o : Option ℕ) → o ≢ none → is_some o ≡ true
is_some_of_ne none h = absurd (h refl)
is_some_of_ne (some n) h = refl

-- On a well-formed head the binary searches of `admits` decide membership of the roster.
admits-contains :
    (head : Head) (k : Key)
    → IsWellFormed head
    → admits head k ≡ (
        not (is_some head.activated_at)
        || (contains head.roster k && not (contains head.revoked k)))
unfolding admits
admits-contains head k w = ground (
  arith,
  is_found-binary_search head.roster k w.roster_sorted,
  is_found-binary_search head.revoked k w.revoked_sorted,
)

-- Revocation is permanent: from a well-formed head on which the network is active and a key is
-- revoked, a node comes to no head that admits that key.
pub revoked_never_admitted :
    (crypto : Crypto) (a b : Head) (k : Key)
    → IsWellFormed a
    → a.activated_at ≢ none
    → contains a.revoked k ≡ true
    → Reaches crypto a b
    → admits b k ≡ false
revoked_never_admitted crypto a b k w active revoked r =
    let later = Reaches-IsLater crypto a b r in
    let still = later.revoked k revoked in
    let on = is_some_of_ne b.activated_at (λ e. active (sym (later.activated active) ∙ e)) in
    ground (arith, admits-contains b k (Reaches-IsWellFormed crypto a b w r))

-- On an active, well-formed head a Pack member whose key decodes is excluded exactly when its key
-- is not admitted.
excludes-admits :
    (public_key : Bytes → Option Key) (head : Head) (peer : PeerRecord) (b64 : Bytes) (k : Key)
    → IsWellFormed head
    → head.activated_at ≢ none
    → peer.public_key_b64 ≡ some b64
    → public_key b64 ≡ some k
    → excludes public_key head peer ≡ not (admits head k)
unfolding excludes
excludes-admits public_key head peer b64 k w active has decodes =
    rw (has, decodes)
      (ground (
        arith,
        is_some_of_ne head.activated_at active,
        admits-contains head k w,
        is_found-binary_search head.roster k w.roster_sorted,
        is_found-binary_search head.revoked k w.revoked_sorted,
      ))
