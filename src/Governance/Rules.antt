-- ===== src/Governance/Rules.antt =====
-- What crates/werewolf-core/src/governance.rs demands of a statement's keys and signatures:
-- `strong_key`, `check_genesis`, `rotated`, `check_admission`, `check_revocation`,
-- `check_signatures`. `?` and `return Err` are binds; an index out of range panics.
use werewolfproxy.Shared.{
  ℕ, ◌+◌, Bool, true, false, not, ◌&&◌, ◌||◌, Option, none, some, List, [], ◌∷◌, ◌++◌, length,
  get_elem?, set, ltb, leb, ◌==◌,
}
use werewolfproxy.Shared.Bytes.{Bytes, bytes_eq}
use werewolfproxy.Shared.Sorted.{contains, binary_search, is_found, increasing}
use werewolfproxy.Shared.Results.{Result, ok, err, ◌>>=◌, ◌>>◌, ensure}
use werewolfproxy.Governance.Types.{
  Crypto, Key, Head, Statement, Failure, GovError, refused, panicked, key_count, threshold_required,
  max_revoked_per_statement, max_admitted_per_statement, max_roster,
}
use werewolfproxy.Governance.Encoding.{signing_input}

-- `slice.is_empty()`
abbrev pub is_empty {ℓ} : {A : Type ℓ} → List A → Bool
is_empty [] = true
is_empty (x ∷ xs) = false

-- `xs[i]`
abbrev pub index_or_panic {ℓ} : {A : Type ℓ} → Option A → Result Failure A
index_or_panic none = err panicked
index_or_panic (some a) = ok a

-- `!last.is_some_and(|last| last >= index)`
abbrev pub above : Option ℕ → ℕ → Bool
above none i = true
above (some last) i = ltb last i

-- `keys.iter().enumerate().all(|(i, k)| !keys[..i].contains(k))`, `seen` being `keys[..i]`.
unfoldable pub distinct_from : List Key → List Key → Bool
distinct_from seen [] = true
distinct_from seen (k ∷ ks) = not (contains seen k) && distinct_from (seen ++ k ∷ []) ks

module _ (crypto : Crypto) where
  open crypto use {is_point, is_weak, verify_strict}

  unfoldable pub strong_key : Key → Result Failure (Unit {0})
  strong_key k = do
    ensure (is_point k) (refused GovError.body_rule)
    ensure (not (is_weak k)) (refused GovError.body_rule)

  -- the loop of `check_genesis`
  unfoldable pub genesis_keys : List Key → List Key → Result Failure (Unit {0})
  genesis_keys seen [] = ok tt
  genesis_keys seen (k ∷ ks) = do
    strong_key k
    ensure (not (contains seen k)) (refused GovError.body_rule)
    genesis_keys (seen ++ k ∷ []) ks

  unfoldable pub check_genesis : ℕ → List Key → Result Failure (Unit {0})
  check_genesis threshold keys = do
    ensure (threshold == threshold_required && length keys == key_count)
        (refused GovError.body_rule)
    genesis_keys [] keys

  -- the first loop of `rotated`
  unfoldable pub rotate_entries : Option ℕ → List Key → List (ℕ × Key) → Result Failure (List Key)
  rotate_entries last keys [] = ok keys
  rotate_entries last keys ((i, k) ∷ es) = do
    ensure (above last i && ltb i key_count) (refused GovError.body_rule)
    strong_key k
    old ← index_or_panic (get_elem? keys i)
    rotate_entries (some i) (set keys i k) es

  -- the last loop of `rotated`: no entry brings back the key that it replaces
  unfoldable pub all_replaced : List Key → List (ℕ × Key) → Result Failure (Unit {0})
  all_replaced current [] = ok tt
  all_replaced current ((i, k) ∷ es) = do
    old ← index_or_panic (get_elem? current i)
    ensure (not (bytes_eq old k)) (refused GovError.body_rule)
    all_replaced current es

  unfoldable pub rotated : List Key → List (ℕ × Key) → Result Failure (List Key)
  rotated current entries = do
    ensure (not (is_empty entries) && leb (length entries) key_count) (refused GovError.body_rule)
    keys ← rotate_entries none current entries
    ensure (distinct_from [] keys) (refused GovError.body_rule)
    all_replaced current entries
    ok keys

  -- the loop of `check_admission`
  unfoldable pub admissible_keys : Head → List Key → Result Failure (Unit {0})
  admissible_keys head [] = ok tt
  admissible_keys head (k ∷ ks) = do
    strong_key k
    ensure (not (is_found (binary_search head.revoked k) || is_found (binary_search head.roster k)))
        (refused GovError.body_rule)
    admissible_keys head ks

  unfoldable pub check_admission : Head → List Key → Result Failure (Unit {0})
  check_admission head keys = do
    ensure (not (is_empty keys) && leb (length keys) max_admitted_per_statement)
        (refused GovError.body_rule)
    ensure (increasing keys) (refused GovError.body_rule)
    admissible_keys head keys
    ensure (leb (length head.roster + length keys) max_roster) (refused GovError.body_rule)

  -- the loop of `check_revocation`
  unfoldable pub valid_points : List Key → Result Failure (Unit {0})
  valid_points [] = ok tt
  valid_points (k ∷ ks) = do ensure (is_point k) (refused GovError.body_rule); valid_points ks

  unfoldable pub check_revocation : List Key → Result Failure (Unit {0})
  check_revocation keys = do
    ensure (not (is_empty keys) && leb (length keys) max_revoked_per_statement)
        (refused GovError.body_rule)
    ensure (increasing keys) (refused GovError.body_rule)
    valid_points keys

  -- `strong_key(..).map_err(|_| GovError::Signatures)` and `verify_strict`
  abbrev pub valid_signature : Bytes → Key → Bytes → Bool
  valid_signature input k sig = (is_point k && not (is_weak k)) && verify_strict k input sig

  -- the loop of `check_signatures`
  unfoldable pub verify_entries :
      Bytes → List Key → Option ℕ → List (ℕ × Bytes) → Result Failure (Unit {0})
  verify_entries input keys last [] = ok tt
  verify_entries input keys last ((i, sig) ∷ sigs) = do
    ensure (above last i && ltb i (length keys)) (refused GovError.signatures)
    k ← index_or_panic (get_elem? keys i)
    ensure (valid_signature input k sig) (refused GovError.signatures)
    verify_entries input keys (some i) sigs

  unfoldable pub check_signatures : Statement → List Key → ℕ → Result Failure (Unit {0})
  check_signatures statement keys threshold = do
    ensure
        (leb threshold (length statement.signatures)
          && leb (length statement.signatures) (length keys))
        (refused GovError.signatures)
    verify_entries (signing_input statement.core) keys none statement.signatures
