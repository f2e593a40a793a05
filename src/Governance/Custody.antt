-- ===== src/Governance/Custody.antt =====
-- What a key check establishes (crates/werewolf-core/src/governance/check.rs).
use werewolfproxy.Shared.{
  ℕ, suc, ◌≤◌, ◌<◌, ◌≡◌, ◌↔◌, refl, sym, ap, ◌∙◌, subst, Bool, true, false, not, ◌||◌, List, [],
  ◌∷◌, ◌++◌, length, All, ltb, ◌==◌, Bool-cases, inl, inr, arith, &&-true, ltb→lt,
}
use werewolfproxy.Shared.Bytes.{Bytes, bytes_eq, bytes_eq_sound}
use werewolfproxy.Shared.Results.{ok, >>=-eq-ok, ensure-bind-eq-ok, ok-injective}
use werewolfproxy.Governance.Types.{Crypto, Head, Key}
use werewolfproxy.Governance.KeyCheck.{
  Challenge, Answer, Verdict, challenge_fields, has_index, key_at, insert_index, sort_indices,
  strict_unhex, verify_answer, verify_answers, verify_check, verdict_of, input,
}

abbrev pub Below : ℕ → List ℕ → Type 0
Below i [] = Unit {0}
Below i (j ∷ js) = i < j

-- The indices go up, so no two are the same.
abbrev pub Up : List ℕ → Type 0
Up [] = Unit {0}
Up (i ∷ is) = Below i is × Up is

abbrev Different : List ℕ → Type 0
Different [] = Unit {0}
Different (i ∷ is) = (has_index i is ≡ false) × Different is

-- None of the indices was seen before.
abbrev New : List ℕ → List ℕ → Type 0
New seen is = All (λ (i : ℕ). has_index i seen ≡ false) is

has_index-append :
    (i : ℕ) (is js : List ℕ) → has_index i (is ++ js) ≡ has_index i is || has_index i js
unfolding has_index
has_index-append i [] js = refl
has_index-append i (j ∷ is) js = ground (arith, has_index-append i is js)

or_false : (a b : Bool) → a || b ≡ false → (a ≡ false) × (b ≡ false)
or_false true b h = cc
or_false false b h = (refl, h)

not-true : (b : Bool) → not b ≡ true → b ≡ false
not-true true h = cc
not-true false h = refl

insert_smaller :
    (i j : ℕ) (js : List ℕ) → ltb j i ≡ true → insert_index i (j ∷ js) ≡ j ∷ insert_index i js
unfolding insert_index
insert_smaller i j js h = rw (insert_index, h) refl

insert_larger : (i j : ℕ) (js : List ℕ) → ltb j i ≡ false → insert_index i (j ∷ js) ≡ i ∷ j ∷ js
unfolding insert_index
insert_larger i j js h = rw (insert_index, h) refl

All-insert_index :
    (P : ℕ → Type 0) (i : ℕ) (is : List ℕ) → P i → All P is → All P (insert_index i is)
unfolding insert_index
All-insert_index P i [] p ps = (p, tt)
All-insert_index P i (j ∷ js) p (q, qs) = elim (Bool-cases (ltb j i)) [
  | inl h ↦ subst (All P) (sym (insert_smaller i j js h)) (q, All-insert_index P i js p qs)
  | inr h ↦ subst (All P) (sym (insert_larger i j js h)) (p, (q, qs))
]

length-insert_index : (i : ℕ) (is : List ℕ) → length (insert_index i is) ≡ suc (length is)
unfolding insert_index
length-insert_index i [] = refl
length-insert_index i (j ∷ js) = ground (arith, length-insert_index i js)

Below-insert_index : (k i : ℕ) (is : List ℕ) → k < i → Below k is → Below k (insert_index i is)
unfolding insert_index
Below-insert_index k i [] h b = h
Below-insert_index k i (j ∷ js) h b = elim (Bool-cases (ltb j i)) [
  | inl e ↦ subst (Below k) (sym (insert_smaller i j js e)) b
  | inr e ↦ subst (Below k) (sym (insert_larger i j js e)) h
]

Up-insert_index : (i : ℕ) (is : List ℕ) → has_index i is ≡ false → Up is → Up (insert_index i is)
unfolding has_index insert_index
Up-insert_index i [] h u = (tt, tt)
Up-insert_index i (j ∷ js) h (b, u) = elim (Bool-cases (ltb j i)) [
  | inl e ↦ subst Up (sym (insert_smaller i j js e)) (
    Below-insert_index j i js (ltb→lt j i e) b,
    Up-insert_index i js (or_false (i == j) (has_index i js) h).1 u,
  )
  | inr e ↦
      subst Up (sym (insert_larger i j js e))
        (less i j e (or_false (i == j) (has_index i js) h).0, (b, u))
]
  where
    less : (a b : ℕ) → ltb b a ≡ false → (a == b) ≡ false → a < b
    less a b e f = ground arith

has_index-insert_index :
    (k i : ℕ) (is : List ℕ) → has_index k (insert_index i is) ≡ (k == i) || has_index k is
unfolding has_index insert_index
has_index-insert_index k i [] = refl
has_index-insert_index k i (j ∷ js) = ground (arith, has_index-insert_index k i js)

has_index-sort_indices : (k : ℕ) (is : List ℕ) → has_index k (sort_indices is) ≡ has_index k is
unfolding sort_indices has_index
has_index-sort_indices k [] = refl
has_index-sort_indices k (i ∷ is) =
    has_index-insert_index k i (sort_indices is)
    ∙ ap (λ (b : Bool). (k == i) || b) (has_index-sort_indices k is)

sort_indices-Up : (is : List ℕ) → Different is → Up (sort_indices is)
unfolding sort_indices
sort_indices-Up [] d = tt
sort_indices-Up (i ∷ is) (new, d) =
    Up-insert_index i (sort_indices is) (has_index-sort_indices i is ∙ new) (sort_indices-Up is d)

All-sort_indices : (P : ℕ → Type 0) (is : List ℕ) → All P is → All P (sort_indices is)
unfolding sort_indices
All-sort_indices P [] ps = tt
All-sort_indices P (i ∷ is) (p, ps) =
    All-insert_index P i (sort_indices is) p (All-sort_indices P is ps)

length-sort_indices : (is : List ℕ) → length (sort_indices is) ≡ length is
unfolding sort_indices
length-sort_indices [] = refl
length-sort_indices (i ∷ is) =
    length-insert_index i (sort_indices is) ∙ ap suc (length-sort_indices is)

verdict_iff : (n : ℕ) → (verdict_of n ≡ Verdict.at_least_7_usable) ↔ (7 ≤ n)
verdict_iff n = (λ e. ground (arith, e), λ h. ground (arith, h))

seen_last : (seen : List ℕ) (i : ℕ) → has_index i (seen ++ i ∷ []) ≡ true
unfolding has_index
seen_last seen i = ground (arith, has_index-append i seen (i ∷ []))

seen_new :
    (seen : List ℕ) (i : ℕ) (rest : List ℕ)
    → has_index i seen ≡ false
    → ((k : ℕ) → has_index k (seen ++ i ∷ []) ≡ true → has_index k rest ≡ false)
    → (k : ℕ) → has_index k seen ≡ true
    → has_index k (i ∷ rest) ≡ false
seen_new seen i rest new fresh k h =
    unfold has_index in ground (arith, has_index-append k seen (i ∷ []), fresh k)

module _ (crypto : Crypto) where
  open crypto use {verify_strict}

  -- The key in force at this index has signed the message.
  abbrev pub Signed : Head → Bytes → ℕ → Type 0
  Signed head message i =
      (i < 10)
      × (key : Key) × (signature : Bytes) × (key_at head i ≡ ok key)
      × (verify_strict key message signature ≡ true)

  verify_answer-eq-ok :
      (c : Challenge) (head : Head) (message : Bytes) (seen : List ℕ) (a : Answer) (i : ℕ)
      → verify_answer crypto c head message seen a ≡ ok i
      → Signed head message i × (has_index i seen ≡ false)
  unfolding verify_answer
  verify_answer-eq-ok c head message seen a i h =
      let (_, h1) = ensure-bind-eq-ok _ _ _ h in
      let (test, h2) = ensure-bind-eq-ok _ _ _ h1 in
      let (small, new) = &&-true (ltb a.index 10) (not (has_index a.index seen)) test in
      let (key, found, h3) = >>=-eq-ok (key_at head a.index) _ h2 in
      let (_, h4) = ensure-bind-eq-ok _ _ _ h3 in
      let (signature, _, h5) = >>=-eq-ok (strict_unhex 64 a.signature) _ h4 in
      let (valid, h6) = ensure-bind-eq-ok (verify_strict key message signature) _ _ h5 in
      subst (λ (x : ℕ). Signed head message x × (has_index x seen ≡ false)) (ok-injective h6)
        ((ltb→lt a.index 10 small, key, signature, found, valid), not-true _ new)

  -- the indices that the loop adds
  abbrev Verified : Head → Bytes → List ℕ → List Answer → List ℕ → Type 0
  Verified head message seen answers is =
      All (Signed head message) is
      × Different is
      × ((k : ℕ) → has_index k seen ≡ true → has_index k is ≡ false)
      × (length is ≡ length answers)

  verify_answers-Verified :
      (c : Challenge) (head : Head) (message : Bytes) (seen : List ℕ) (answers : List Answer)
      (is : List ℕ)
      → verify_answers crypto c head message seen answers ≡ ok is
      → Verified head message seen answers is
  unfolding verify_answers
  verify_answers-Verified c head message seen [] is h =
      subst (Verified head message seen []) (ok-injective h)
        (tt, tt, (λ k e. unfold has_index in refl), refl)
  verify_answers-Verified c head message seen (a ∷ as_) is h =
      let (i, e, h1) = >>=-eq-ok (verify_answer crypto c head message seen a) _ h in
      let (rest, f, h2) =
        >>=-eq-ok (verify_answers crypto c head message (seen ++ i ∷ []) as_) _ h1 in
      let (signed, new) = verify_answer-eq-ok c head message seen a i e in
      let (all, different, fresh, len) =
        verify_answers-Verified c head message (seen ++ i ∷ []) as_ rest f in
      subst (Verified head message seen (a ∷ as_)) (ok-injective h2) (
        (signed, all),
        (fresh i (seen_last seen i), different),
        seen_new seen i rest new fresh,
        ap suc len,
      )

  -- What a key check that succeeds returns: indices that go up, one for each answer, each of a key
  -- in force that has signed the challenge for this network; and the verdict is "at least 7 usable"
  -- exactly when there are at least 7 of them.
  pub verify_check_sound :
      (c : Challenge) (head : Head) (answers : List Answer) (indices : List ℕ) (verdict : Verdict)
      → verify_check crypto c head answers ≡ ok (indices, verdict)
      → (challenge : Bytes) × (challenge_fields c ≡ ok (head.network_id, challenge))
        × Up indices
        × (length indices ≡ length answers)
        × All (Signed head (input head.network_id challenge)) indices
        × ((verdict ≡ Verdict.at_least_7_usable) ↔ (7 ≤ length indices))
  unfolding verify_check
  verify_check_sound c head answers indices verdict h =
      let (read, e, h1) = >>=-eq-ok (challenge_fields c) _ h in
      let (same, h2) = ensure-bind-eq-ok (bytes_eq read.0 head.network_id) _ _ h1 in
      let (is, f, h3) =
        >>=-eq-ok (verify_answers crypto c head (input read.0 read.1) [] answers) _ h2 in
      let network = bytes_eq_sound read.0 head.network_id same in
      let (all, different, _, len) =
        verify_answers-Verified c head (input read.0 read.1) [] answers is f in
      let results = ok-injective h3 in
      let signed = subst (λ (n : Bytes). All (Signed head (input n read.1)) is) network all in
      (
        read.1,
        e ∙ ap (λ (n : Bytes). ok (n, read.1)) network,
        subst (λ (x : List ℕ × Verdict). Up x.0) results (sort_indices-Up is different),
        ap (λ (x : List ℕ × Verdict). length x.0) (sym results) ∙ length-sort_indices is ∙ len,
        subst (λ (x : List ℕ × Verdict). All (Signed head (input head.network_id read.1)) x.0)
            results (All-sort_indices _ is signed),
        subst (λ (x : List ℕ × Verdict). (x.1 ≡ Verdict.at_least_7_usable) ↔ (7 ≤ length x.0))
            results (verdict_iff (length (sort_indices is))),
      )
