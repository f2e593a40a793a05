-- ===== src/Fangs/Termination.antt =====
-- What the termination of Fangs leaves behind (crates/werewolfd/src/fang_registry.rs).
use werewolfproxy.Shared.{
  ◌≡◌, refl, ap, ◌∙◌, Bool, true, false, ◌||◌, Option, none, List, [], ◌∷◌, length, if◌then◌else◌,
  arith, Bool-cases, inl, inr,
}
use werewolfproxy.Shared.Bytes.{bytes_eq, bytes_eq_refl}
use werewolfproxy.Handshake.Codes.{Str}
use werewolfproxy.Fangs.Tasks.{World}
use werewolfproxy.Fangs.Registry.{
  FangRegistry, FangRecord, Started, MapOf, put_at, has_id, also_uses_peer, uses_peer, ids_of_users,
  ids_using_peer, retain_others, without_id, release_ids, terminate_ids, terminate_peer,
}

-- What a map holds after the entries of these identifiers are gone.
abbrev pub Forgotten : {A : Type 0} → List Str → MapOf A → MapOf A → Type 0
Forgotten ids before after = (id : Str) → after id ≡ (if has_id id ids then none else before id)

put_at-none :
    {A : Type 0} (id : Str) (ids : List Str) (before after : MapOf A)
    → Forgotten ids (put_at id none before) after
    → Forgotten (id ∷ ids) before after
unfolding put_at has_id
put_at-none id ids before after f k = ground (arith, f k)

release_ids-Forgotten :
    (ids : List Str) (r : FangRegistry) (w : World)
    → Forgotten ids r.tasks (release_ids ids r w).0.tasks
      × Forgotten ids r.started (release_ids ids r w).0.started
      × Forgotten ids r.cancellations (release_ids ids r w).0.cancellations
      × ((release_ids ids r w).0.fangs ≡ r.fangs)
unfolding release_ids has_id without_id
release_ids-Forgotten [] r w = ((λ k. refl), (λ k. refl), (λ k. refl), refl)
release_ids-Forgotten (id ∷ ids) r w =
    let (t, s, c, f) = release_ids-Forgotten ids (without_id id r) _ in
    (
      put_at-none id ids r.tasks _ t,
      put_at-none id ids r.started _ s,
      put_at-none id ids r.cancellations _ c,
      f,
    )

users-cons :
    (started : MapOf Started) (peer id : Str) (f : FangRecord) (fs : List FangRecord)
    → has_id id (ids_of_users started peer fs) ≡ true
    → has_id id (ids_of_users started peer (f ∷ fs)) ≡ true
unfolding ids_of_users has_id
users-cons started peer id f fs h = ground arith

users_head :
    (started : MapOf Started) (peer : Str) (f : FangRecord) (fs : List FangRecord)
    → uses_peer started peer f ≡ true
    → has_id f.id (ids_of_users started peer (f ∷ fs)) ≡ true
unfolding ids_of_users has_id
users_head started peer f fs h = rw h (ground (arith, bytes_eq_refl f.id))

users_skip :
    (started : MapOf Started) (peer : Str) (f : FangRecord) (fs : List FangRecord)
    → uses_peer started peer f ≡ false
    → ids_of_users started peer (f ∷ fs) ≡ ids_of_users started peer fs
unfolding ids_of_users
users_skip started peer f fs h = rw (ids_of_users, h) refl

retain_drop :
    (ids : List Str) (f : FangRecord) (fs : List FangRecord)
    → has_id f.id ids ≡ true
    → retain_others ids (f ∷ fs) ≡ retain_others ids fs
unfolding retain_others
retain_drop ids f fs h = rw (retain_others, h) refl

retain_keep :
    (ids : List Str) (f : FangRecord) (fs : List FangRecord)
    → has_id f.id ids ≡ false
    → retain_others ids (f ∷ fs) ≡ f ∷ retain_others ids fs
unfolding retain_others
retain_keep ids f fs h = rw (retain_others, h) refl

-- no record that stays uses the peer, when all that use it have one of the identifiers
retain_others-unused :
    (started started' : MapOf Started) (peer : Str) (ids : List Str) (fs : List FangRecord)
    → ((f : FangRecord)
        → has_id f.id ids ≡ false
        → uses_peer started' peer f ≡ uses_peer started peer f)
    → ((id : Str) → has_id id (ids_of_users started peer fs) ≡ true → has_id id ids ≡ true)
    → ids_of_users started' peer (retain_others ids fs) ≡ []
unfolding retain_others ids_of_users
retain_others-unused started started' peer ids [] same within = refl
retain_others-unused started started' peer ids (f ∷ fs) same within = step (
    retain_others-unused started started' peer ids fs same
      (λ id h. within id (users-cons started peer id f fs h)))
  where
    unused : has_id f.id ids ≡ false → uses_peer started peer f ≡ false
    unused h = elim (Bool-cases (uses_peer started peer f)) [
      | inl u ↦ ground (arith, h, within f.id (users_head started peer f fs u))
      | inr u ↦ u
    ]

    step :
        ids_of_users started' peer (retain_others ids fs) ≡ []
        → ids_of_users started' peer (retain_others ids (f ∷ fs)) ≡ []
    step rest = elim (Bool-cases (has_id f.id ids)) [
      | inl h ↦ ap (ids_of_users started' peer) (retain_drop ids f fs h) ∙ rest
      | inr h ↦
          ap (ids_of_users started' peer) (retain_keep ids f fs h)
          ∙ users_skip started' peer f (retain_others ids fs) (same f h ∙ unused h)
          ∙ rest
    ]

uses_peer-kept :
    (started started' : MapOf Started) (peer : Str) (ids : List Str)
    → Forgotten ids started started'
    → (f : FangRecord) → has_id f.id ids ≡ false
    → uses_peer started' peer f ≡ uses_peer started peer f
unfolding uses_peer
uses_peer-kept started started' peer ids forgotten f h =
    ap (λ (s : Option Started). bytes_eq f.peer peer || also_uses_peer peer s)
      (forgotten f.id ∙ ap (λ (b : Bool). if b then none else started f.id) h)

-- After the termination of a peer no Fang uses that peer; the registry has forgotten the task, the
-- start and the tracker of each Fang that did, and those of every other Fang are as they were; the
-- records that stay are those with another identifier, in their order; and the number returned is
-- that of the Fangs that used the peer.
pub terminate_peer_lem :
    (peer : Str) (r : FangRegistry) (w : World)
    → let after = terminate_peer peer r w in
      let ids = ids_using_peer r peer in
      (ids_using_peer after.0 peer ≡ [])
      × Forgotten ids r.tasks after.0.tasks
      × Forgotten ids r.started after.0.started
      × Forgotten ids r.cancellations after.0.cancellations
      × (after.0.fangs ≡ retain_others ids r.fangs)
      × (after.2 ≡ length ids)
unfolding terminate_peer terminate_ids ids_using_peer
terminate_peer_lem peer r w =
    let ids = ids_of_users r.started peer r.fangs in
    let (t, s, c, f) = release_ids-Forgotten ids r w in
    (
      ap
            (λ (fs : List FangRecord).
              ids_of_users (release_ids ids r w).0.started peer (retain_others ids fs))
            f
          ∙ retain_others-unused r.started _ peer ids r.fangs
              (uses_peer-kept r.started _ peer ids s) (λ id h. h),
      t,
      s,
      c,
      ap (retain_others ids) f,
      refl,
    )
