-- ===== src/Governance/HeadCheck.antt =====
-- The structural check that the daemon makes of a head before it writes one and after it reads one
-- (crates/werewolfd/src/governance.rs: `check`), and what the node derives from a head
-- (`excludes`, `unadmitted`). A public key in base64 is decoded by the parameter `public_key`.
use werewolfproxy.Shared.{
  ℕ, ◌+◌, ◌%◌, ◌^◌, Bool, true, false, not, ◌&&◌, ◌||◌, Option, none, some, List, [], ◌∷◌, length,
  ltb, leb, ◌==◌,
}
use werewolfproxy.Shared.Bytes.{Bytes, bytes_eq}
use werewolfproxy.Shared.Sorted.{binary_search, is_found, increasing}
use werewolfproxy.Governance.Types.{Key, Hash, Head, threshold_required, key_count, max_roster}
use werewolfproxy.Governance.Rules.{distinct_from}
use werewolfproxy.Governance.Chain.{last?, is_some, admits}

-- `.first().is_some_and(|(set_at, _)| *set_at == 0)`
unfoldable pub first_at_zero : List (ℕ × List Key) → Bool
first_at_zero [] = false
first_at_zero (e ∷ es) = e.0 == 0

-- `.windows(2).all(|pair| pair[0].0 < pair[1].0)`
unfoldable pub epochs_increase : List (ℕ × List Key) → Bool
epochs_increase [] = true
epochs_increase (e ∷ []) = true
epochs_increase (e ∷ f ∷ es) = ltb e.0 f.0 && epochs_increase (f ∷ es)

abbrev pub epoch_within : ℕ → Option (ℕ × List Key) → Bool
epoch_within sequence none = false
epoch_within sequence (some e) = leb e.0 sequence

-- ten keys, no two alike
abbrev pub full_epoch : ℕ × List Key → Bool
full_epoch e = length e.1 == key_count && distinct_from [] e.1

unfoldable pub all_full : List (ℕ × List Key) → Bool
all_full [] = true
all_full (e ∷ es) = full_epoch e && all_full es

-- `roster.iter().all(|key| revoked.binary_search(key).is_err())`
unfoldable pub none_revoked : List Key → List Key → Bool
none_revoked revoked [] = true
none_revoked revoked (k ∷ ks) = not (is_found (binary_search revoked k)) && none_revoked revoked ks

abbrev pub none_or_le : ℕ → Option ℕ → Bool
none_or_le n none = true
none_or_le n (some at) = leb at n

abbrev pub none_or_eq : ℕ → Option ℕ → Bool
none_or_eq n none = true
none_or_eq n (some at) = at == n

-- `head.applied.last() == Some(&head.hash)`
abbrev pub is_last : Option Hash → Hash → Bool
is_last none h = false
is_last (some l) h = bytes_eq l h

-- `check`; a length is taken `as u64`, and the sequence is incremented by `wrapping_add`.
unfoldable pub check : Head → Bool
check head =
    (head.threshold == threshold_required)
    && ((length head.applied % 2 ^ 64 == (head.sequence + 1) % 2 ^ 64)
        && (is_last (last? head.applied) head.hash
            && (first_at_zero head.key_epochs
                && (epochs_increase head.key_epochs
                    && (epoch_within head.sequence (last? head.key_epochs)
                        && (all_full head.key_epochs
                            && (increasing head.revoked
                                && (leb (length head.roster) max_roster
                                    && (increasing head.roster
                                        && (none_revoked head.revoked head.roster
                                            && (none_or_le head.sequence head.activated_at
                                                && none_or_eq head.sequence head.dead_at)))))))))))

-- A Pack member's record (crates/werewolf-core/src/pack.rs).
pub data TrustLevel : Type 0 where
  stranger known packmate alpha : TrustLevel

pub record PeerRecord : Type 0 where
  pub name : Bytes
  pub fingerprint : Bytes
  pub address : Bytes
  pub trust : TrustLevel
  pub public_key_b64 : Option Bytes

module _ (public_key : Bytes → Option Key) where
  abbrev decoded : Option Bytes → Option Key
  decoded none = none
  decoded (some b64) = public_key b64

  abbrev excludes_key : Head → Option Key → Bool
  excludes_key head none = is_some head.activated_at
  excludes_key head (some key) =
      is_found (binary_search head.revoked key)
      || (is_some head.activated_at && not (is_found (binary_search head.roster key)))

  -- `excludes`: whether the head keeps this Pack member out.
  unfoldable pub excludes : Head → PeerRecord → Bool
  excludes head peer = excludes_key head (decoded peer.public_key_b64)

-- `unadmitted`, of the node's head and of its own key if it has a Pelt.
unfoldable pub unadmitted : Option Head → Option Key → Bool
unadmitted none own = false
unadmitted (some head) none = is_some head.activated_at
unadmitted (some head) (some own) = not (admits head own)
