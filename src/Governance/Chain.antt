-- ===== src/Governance/Chain.antt =====
-- `apply` and the reading functions of `Head` (crates/werewolf-core/src/governance.rs).
use werewolfproxy.Shared.{
  ℕ, ◌+◌, ◌%◌, ◌^◌, Bool, true, false, not, ◌&&◌, ◌||◌, Option, none, some, List, [], ◌∷◌, ◌++◌,
  get_elem?, insert_at, ltb, leb, ◌==◌, if◌then◌else◌,
}
use werewolfproxy.Shared.Bytes.{bytes_eq}
use werewolfproxy.Shared.Sorted.{binary_search, is_found, insert_key, remove_key, found, missing}
use werewolfproxy.Shared.Results.{Result, ok, err, ◌>>=◌, ◌>>◌, ensure}
use werewolfproxy.Governance.Types.{
  Crypto, Key, Hash, Head, Body, Core, Statement, Outcome, Failure, GovError, refused, panicked,
}
use werewolfproxy.Governance.Encoding.{hash}
use werewolfproxy.Governance.Rules.{
  index_or_panic, check_genesis, rotated, check_admission, check_revocation, check_signatures,
}

abbrev pub is_some {ℓ} : {A : Type ℓ} → Option A → Bool
is_some none = false
is_some (some a) = true

-- `Head::admits`
unfoldable pub admits : Head → Key → Bool
admits head own =
    not (is_some head.activated_at)
    || (is_found (binary_search head.roster own) && not (is_found (binary_search head.revoked own)))

-- `slice.last()`
unfoldable pub last? {ℓ} : {A : Type ℓ} → List A → Option A
last? [] = none
last? (x ∷ []) = some x
last? (x ∷ y ∷ ys) = last? (y ∷ ys)

-- the keys of an epoch, or the panic of `expect`
abbrev pub epoch_keys : Option (ℕ × List Key) → Result Failure (List Key)
epoch_keys none = err panicked
epoch_keys (some e) = ok e.1

-- `Head::keys`
unfoldable pub keys : Head → Result Failure (List Key)
keys head = epoch_keys (last? head.key_epochs)

-- `.iter().rev().find(|(set_at, _)| *set_at < sequence)`
unfoldable pub last_before : ℕ → List (ℕ × List Key) → Option (ℕ × List Key)
last_before sequence [] = none
last_before sequence (e ∷ es) = elim (last_before sequence es) [
  | some later ↦ some later
  | none ↦ if ltb e.0 sequence then some e else none
]

-- `Head::keys_before`
unfoldable pub keys_before : Head → ℕ → Result Failure (List Key)
keys_before head sequence = epoch_keys (last_before sequence head.key_epochs)

-- `core.previous != [0; 32]`
abbrev pub zero_hash : Hash
zero_hash =
    0 ∷ 0 ∷ 0 ∷ 0 ∷ 0 ∷ 0 ∷ 0 ∷ 0 ∷ 0 ∷ 0 ∷ 0 ∷ 0 ∷ 0 ∷ 0 ∷ 0 ∷ 0 ∷ 0 ∷ 0 ∷ 0 ∷ 0 ∷ 0 ∷ 0 ∷ 0 ∷ 0
    ∷ 0 ∷ 0 ∷ 0 ∷ 0 ∷ 0 ∷ 0 ∷ 0 ∷ 0 ∷ []

-- `expect_genesis == Some(&hash)`
abbrev pub is_expected : Option Hash → Hash → Bool
is_expected none h = false
is_expected (some e) h = bytes_eq e h

-- `matches!(body, Body::Death)`
abbrev pub is_death : Body → Bool
is_death Body.death = true
is_death (Body.genesis t ks) = false
is_death (Body.rotation es) = false
is_death (Body.revocation ks) = false
is_death (Body.admission ks) = false
is_death Body.activation = false

-- `head.sequence + 1` on `u64`, which wraps in a release build
abbrev pub next_sequence : ℕ → ℕ
next_sequence n = (n + 1) % 2 ^ 64

-- the loop over a revocation's keys
unfoldable pub revoke_keys : Head → List Key → Head
revoke_keys next [] = next
revoke_keys next (k ∷ ks) =
    revoke_keys
      (record next { revoked = insert_key k next.revoked; roster = remove_key k next.roster }) ks

-- the loop over an admission's keys; `expect_err` panics on a key that is on the roster
unfoldable pub admit_keys : Head → List Key → Result Failure Head
admit_keys next [] = ok next
admit_keys next (k ∷ ks) = elim (binary_search next.roster k) [
  | found i ↦ err panicked
  | missing at ↦ admit_keys (record next { roster = insert_at at k next.roster }) ks
]

module _ (crypto : Crypto) where
  -- The `None` arm: the first statement must be the pinned genesis.
  unfoldable pub apply_genesis : ℕ → List Key → Statement → Option Hash → Result Failure Outcome
  apply_genesis threshold ks statement expect_genesis = do
    let core = statement.core
    ensure (core.sequence == 0 && bytes_eq core.previous zero_hash) (refused GovError.out_of_order)
    ensure (is_expected expect_genesis (hash crypto core)) (refused GovError.genesis_mismatch)
    check_genesis crypto threshold ks
    check_signatures crypto statement ks threshold
    ok (
        Outcome.applied (record {
          network_id = core.network_id;
          sequence = 0;
          hash = hash crypto core;
          threshold = threshold;
          key_epochs = (0, ks) ∷ [];
          revoked = [];
          applied = hash crypto core ∷ [];
          forked = false;
          roster = [];
          activated_at = none;
          dead_at = none;
        }))

  unfoldable pub apply_first : Body → Statement → Option Hash → Result Failure Outcome
  unfolding apply_genesis
  apply_first (Body.genesis threshold ks) statement expect_genesis =
      apply_genesis threshold ks statement expect_genesis
  apply_first (Body.rotation es) statement expect_genesis = err (refused GovError.no_genesis)
  apply_first (Body.revocation ks) statement expect_genesis = err (refused GovError.no_genesis)
  apply_first (Body.admission ks) statement expect_genesis = err (refused GovError.no_genesis)
  apply_first Body.activation statement expect_genesis = err (refused GovError.no_genesis)
  apply_first Body.death statement expect_genesis = err (refused GovError.no_genesis)

  -- A dead head: an applied statement is still recognised, anything else is refused.
  unfoldable pub on_dead : Head → Core → Result Failure Outcome
  on_dead head core =
      if leb core.sequence head.sequence
      then (do
        recorded ← index_or_panic (get_elem? head.applied core.sequence)
        if bytes_eq recorded (hash crypto core) && bytes_eq core.network_id head.network_id
            then ok Outcome.already_applied
            else err (refused GovError.terminal))
      else err (refused GovError.terminal)

  -- A statement at a sequence that is already taken: a repetition, or evidence of a fork.
  unfoldable pub on_recorded : Head → Statement → Result Failure Outcome
  on_recorded head statement = do
    let core = statement.core
    recorded ← index_or_panic (get_elem? head.applied core.sequence)
    if bytes_eq recorded (hash crypto core) then ok Outcome.already_applied else do
      ensure (not (core.sequence == 0)) (refused GovError.genesis_mismatch)
      ks ← keys_before head core.sequence
      check_signatures crypto statement ks head.threshold
      ok (Outcome.fork (record head { forked = true }))

  -- The `match &core.body` on a copy of the head.
  unfoldable pub body_effect : Head → ℕ → Body → Result Failure Head
  body_effect head sequence (Body.genesis t ks) = err (refused GovError.out_of_order)
  body_effect head sequence (Body.rotation es) = do
    current ← keys head
    ks ← rotated crypto current es
    ok (record head { key_epochs = head.key_epochs ++ (sequence, ks) ∷ [] })
  body_effect head sequence (Body.revocation ks) = do
    check_revocation crypto ks
    ok (revoke_keys head ks)
  body_effect head sequence (Body.admission ks) = do
    check_admission crypto head ks
    admit_keys head ks
  body_effect head sequence Body.activation = do
    ensure (not (is_some head.activated_at)) (refused GovError.body_rule)
    ok (record head { activated_at = some sequence })
  body_effect head sequence Body.death = ok (record head { dead_at = some sequence })

  -- A statement that chains to the head.
  unfoldable pub extend : Head → Statement → Result Failure Outcome
  extend head statement = do
    let core = statement.core
    ks ← keys head
    check_signatures crypto statement ks head.threshold
    next ← body_effect head core.sequence core.body
    ok (
        Outcome.applied (record next {
          sequence = core.sequence;
          hash = hash crypto core;
          applied = next.applied ++ hash crypto core ∷ [];
        }))

  -- `apply` on an existing head
  unfoldable pub apply_next : Head → Statement → Result Failure Outcome
  apply_next head statement =
      let core = statement.core in
      if is_some head.dead_at
      then on_dead head core
      else if head.forked
          && not (
              is_death core.body
              && (core.sequence == next_sequence head.sequence && bytes_eq core.previous head.hash))
      then err (refused GovError.forked)
      else if not (bytes_eq core.network_id head.network_id)
      then err (refused GovError.wrong_network)
      else if leb core.sequence head.sequence
      then on_recorded head statement
      else if not (core.sequence == next_sequence head.sequence)
      then err (refused GovError.out_of_order)
      else if not (bytes_eq core.previous head.hash)
      then err (refused GovError.previous_mismatch)
      else extend head statement

  -- `apply`
  unfoldable pub apply : Option Head → Statement → Option Hash → Result Failure Outcome
  unfolding apply_first apply_next
  apply none statement expect_genesis = apply_first statement.core.body statement expect_genesis
  apply (some head) statement expect_genesis = apply_next head statement
