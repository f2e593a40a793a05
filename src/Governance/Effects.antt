-- ===== src/Governance/Effects.antt =====
-- What each statement body does to a head (`body_effect`), in closed form.
use werewolfproxy.Shared.{
  ℕ, ◌+◌, ◌≤◌, ◌≡◌, refl, sym, ◌∙◌, ap, true, false, not, ◌&&◌, Option, none, some, List, [], ◌∷◌,
  ◌++◌, length, set, insert_at, leb, arith, length-set, leb→le,
}
use werewolfproxy.Shared.Bytes.{bytes_eq_sound}
use werewolfproxy.Shared.Sorted.{
  Search, binary_search, is_found, increasing, contains, insert_key, remove_key, found, missing,
}
use werewolfproxy.Shared.SortedSets.{insert_all, remove_all}
use werewolfproxy.Shared.Results.{
  Result, ok, err, >>=-eq-ok, ensure-eq-ok, ensure-bind-eq-ok, ok-injective,
}
use werewolfproxy.Governance.Types.{Crypto, Key, Head, Body, Failure, panicked, max_roster}
use werewolfproxy.Governance.Rules.{
  rotate_entries, rotated, distinct_from, check_admission, admissible_keys, check_revocation,
  is_empty,
}
use werewolfproxy.Governance.Chain.{keys, revoke_keys, admit_keys, body_effect, is_some}

revoke_keys_lem :
    (head : Head) (ks : List Key)
    → revoke_keys head ks
      ≡ record head { revoked = insert_all ks head.revoked; roster = remove_all ks head.roster }
unfolding revoke_keys insert_all remove_all
revoke_keys_lem head [] = refl
revoke_keys_lem head (k ∷ ks) =
    revoke_keys_lem
      (record head { revoked = insert_key k head.revoked; roster = remove_key k head.roster }) ks

-- If the loop over an admission's keys ends, all of them are on the roster.
admit_keys-eq-ok :
    (head next : Head) (ks : List Key)
    → admit_keys head ks ≡ ok next
    → next ≡ record head { roster = insert_all ks head.roster }
unfolding admit_keys insert_all
admit_keys-eq-ok head next [] h = cc
admit_keys-eq-ok head next (k ∷ ks) h =
    step (binary_search head.roster k) refl
      (λ (roster : List Key). admit_keys-eq-ok (record head { roster = roster }) next ks) h
  where
    step :
        (found_at : Search)
        → binary_search head.roster k ≡ found_at
        → ((roster : List Key)
            → admit_keys (record head { roster = roster }) ks ≡ ok next
            → next ≡ record head { roster = insert_all ks roster })
        → (let r : Result Failure Head = elim found_at [
          | found i ↦ err panicked
          | missing at ↦ admit_keys (record head { roster = insert_at at k head.roster }) ks
        ] in
            r)
          ≡ ok next
        → next ≡ record head { roster = insert_all ks (insert_key k head.roster) }
    step (found i) e ih p = cc
    step (missing at) e ih p = unfold insert_key in rw e (ih (insert_at at k head.roster) p)

module _ (crypto : Crypto) where
  rotate_entries-length :
      (last : Option ℕ) (ks ks' : List Key) (es : List (ℕ × Key))
      → rotate_entries crypto last ks es ≡ ok ks'
      → length ks' ≡ length ks
  unfolding rotate_entries
  rotate_entries-length last ks ks' [] h = ap length (ok-injective (sym h))
  rotate_entries-length last ks ks' ((i, k) ∷ es) h =
      ground (arith, rotate_entries-length (some i) (set ks i k) ks' es, length-set ks i k)

  -- A rotation yields as many keys as before, no two alike.
  rotated-eq-ok :
      (current ks : List Key) (es : List (ℕ × Key))
      → rotated crypto current es ≡ ok ks
      → (length ks ≡ length current) × (distinct_from [] ks ≡ true)
  unfolding rotated
  rotated-eq-ok current ks es h = ground (arith, rotate_entries-length none current ks es)

  admissible_keys-eq-ok :
      (head : Head) (ks : List Key) (u : Unit {0}) (j : Key)
      → admissible_keys crypto head ks ≡ ok u
      → contains ks j ≡ true
      → (is_found (binary_search head.revoked j) ≡ false)
        × (is_found (binary_search head.roster j) ≡ false)
  unfolding admissible_keys contains
  admissible_keys-eq-ok head [] u j h c = cc
  admissible_keys-eq-ok head (k ∷ ks) u j h c =
      ground (arith, bytes_eq_sound k j, admissible_keys-eq-ok head ks u j)

  -- An accepted admission names keys that are neither revoked nor on the roster, and fits.
  pub check_admission-eq-ok :
      (head : Head) (ks : List Key) (u : Unit {0})
      → check_admission crypto head ks ≡ ok u
      → (length head.roster + length ks ≤ max_roster)
        × (increasing ks ≡ true)
        × ((j : Key)
            → contains ks j ≡ true
            → (is_found (binary_search head.revoked j) ≡ false)
              × (is_found (binary_search head.roster j) ≡ false))
  unfolding check_admission
  check_admission-eq-ok head ks u h =
      let (some_keys, h1) = ensure-bind-eq-ok (not (is_empty ks) && leb (length ks) 64) _ _ h in
      let (inc, h2) = ensure-bind-eq-ok (increasing ks) _ _ h1 in
      let (u3, e3, h3) = >>=-eq-ok (admissible_keys crypto head ks) _ h2 in
      (
        leb→le (length head.roster + length ks) max_roster
            (ensure-eq-ok (leb (length head.roster + length ks) max_roster) _ h3),
        inc,
        λ j. admissible_keys-eq-ok head ks u3 j e3,
      )

  -- The closed form of an accepted body. The statement's own sequence is `n`.
  abbrev pub Effect : Head → ℕ → Body → Head → Type 0
  Effect head n (Body.genesis t ks) next = ⊥
  Effect head n (Body.rotation es) next =
      (ks : List Key) × (next ≡ record head { key_epochs = head.key_epochs ++ (n, ks) ∷ [] })
      × (current : List Key) × (keys head ≡ ok current)
      × (length ks ≡ length current)
      × (distinct_from [] ks ≡ true)
  Effect head n (Body.revocation ks) next =
      next
      ≡ record head { revoked = insert_all ks head.revoked; roster = remove_all ks head.roster }
  Effect head n (Body.admission ks) next =
      (next ≡ record head { roster = insert_all ks head.roster })
      × (length head.roster + length ks ≤ max_roster)
      × (increasing ks ≡ true)
      × ((j : Key)
          → contains ks j ≡ true
          → (is_found (binary_search head.revoked j) ≡ false)
            × (is_found (binary_search head.roster j) ≡ false))
  Effect head n Body.activation next =
      (head.activated_at ≡ none) × (next ≡ record head { activated_at = some n })
  Effect head n Body.death next = next ≡ record head { dead_at = some n }

  is_some-none : (o : Option ℕ) → not (is_some o) ≡ true → o ≡ none
  is_some-none none h = refl
  is_some-none (some a) h = cc

  pub body_effect-eq-ok :
      (head next : Head) (n : ℕ) (b : Body)
      → body_effect crypto head n b ≡ ok next
      → Effect head n b next
  unfolding body_effect
  body_effect-eq-ok head next n (Body.genesis t ks) h = cc
  body_effect-eq-ok head next n (Body.rotation es) h =
      let (current, e1, h1) = >>=-eq-ok (keys head) _ h in
      let (ks, e2, h2) = >>=-eq-ok (rotated crypto current es) _ h1 in
      let (len, dist) = rotated-eq-ok current ks es e2 in
      (ks, sym (ok-injective h2), current, e1, len, dist)
  body_effect-eq-ok head next n (Body.revocation ks) h =
      let (u, e1, h1) = >>=-eq-ok (check_revocation crypto ks) _ h in
      sym (ok-injective h1) ∙ revoke_keys_lem head ks
  body_effect-eq-ok head next n (Body.admission ks) h =
      let (u, e1, h1) = >>=-eq-ok (check_admission crypto head ks) _ h in
      let (fits, inc, free) = check_admission-eq-ok head ks u e1 in
      (admit_keys-eq-ok head next ks h1, fits, inc, free)
  body_effect-eq-ok head next n Body.activation h =
      let (e1, h1) = ensure-bind-eq-ok (not (is_some head.activated_at)) _ _ h in
      (is_some-none head.activated_at e1, sym (ok-injective h1))
  body_effect-eq-ok head next n Body.death h = sym (ok-injective h)
