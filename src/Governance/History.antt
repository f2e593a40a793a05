-- ===== src/Governance/History.antt =====
-- What holds over any number of statements that a node applies one after the other
-- (`apply` of crates/werewolf-core/src/governance.rs): the heads that a node can come to.
use werewolfproxy.Shared.{
  ℕ, ◌≡◌, ◌≢◌, refl, sym, ◌∙◌, ap, subst, ◌⊎◌, inl, inr, Bool, true, Option, none, some, List, [],
  ◌∷◌, ◌++◌, arith,
}
use mathlib.Core.List.{append_assoc, append-nil}
use werewolfproxy.Shared.Sorted.{contains}
use werewolfproxy.Shared.SortedSets.{contains-insert_all}
use werewolfproxy.Shared.Results.{ok}
use werewolfproxy.Governance.Types.{Crypto, Key, Hash, Head, Body, Statement, Outcome}
use werewolfproxy.Governance.Encoding.{hash}
use werewolfproxy.Governance.Chain.{apply, is_death}
use werewolfproxy.Governance.WellFormed.{IsWellFormed}
use werewolfproxy.Governance.Effects.{Effect}
use werewolfproxy.Governance.Steps.{Extension, Conflict, apply_next-Extension, apply_next-Conflict}
use werewolfproxy.Governance.Preservation.{Extension-IsWellFormed, Conflict-IsWellFormed}

module _ (crypto : Crypto) where
  -- The heads that a node can come to by applying statements, each of which it persists.
  pub data Reaches (start : Head) : Head → Type 0 where
    here : Reaches start start
    step_applied :
        {a b : Head} (s : Statement) (expect : Option Hash)
        → Reaches start a
        → apply crypto (some a) s expect ≡ ok (Outcome.applied b)
        → Reaches start b
    step_fork :
        {a b : Head} (s : Statement) (expect : Option Hash)
        → Reaches start a
        → apply crypto (some a) s expect ≡ ok (Outcome.fork b)
        → Reaches start b

  pub applied-Extension :
      (a b : Head) (s : Statement) (expect : Option Hash)
      → apply crypto (some a) s expect ≡ ok (Outcome.applied b)
      → Extension crypto a s b
  unfolding apply
  applied-Extension a b s expect h = apply_next-Extension crypto a b s h

  fork-Conflict :
      (a b : Head) (s : Statement) (expect : Option Hash)
      → apply crypto (some a) s expect ≡ ok (Outcome.fork b)
      → Conflict crypto a s b
  unfolding apply
  fork-Conflict a b s expect h = apply_next-Conflict crypto a b s h

  -- What a body leaves alone.
  pub record Keeps (a b : Head) : Type 0 where
    pub network : b.network_id ≡ a.network_id
    pub applied : b.applied ≡ a.applied
    pub forked : b.forked ≡ a.forked
    pub revoked : (k : Key) → contains a.revoked k ≡ true → contains b.revoked k ≡ true
    pub activated : a.activated_at ≢ none → b.activated_at ≡ a.activated_at

  pub Effect-Keeps : (a b : Head) (n : ℕ) (body : Body) → Effect crypto a n body b → Keeps a b
  Effect-Keeps a b n (Body.genesis t ks) e = absurd e
  Effect-Keeps a b n (Body.rotation es) (ks, eq, c, ce, len, d) = subst (Keeps a) (sym eq) (record {
    network = refl;
    applied = refl;
    forked = refl;
    revoked = λ k h. h;
    activated = λ _. refl;
  })
  Effect-Keeps a b n (Body.revocation ks) eq = subst (Keeps a) (sym eq) (record {
    network = refl;
    applied = refl;
    forked = refl;
    revoked = λ k h. ground (arith, contains-insert_all ks a.revoked k);
    activated = λ _. refl;
  })
  Effect-Keeps a b n (Body.admission ks) (eq, fits, inc, free) = subst (Keeps a) (sym eq) (record {
    network = refl;
    applied = refl;
    forked = refl;
    revoked = λ k h. h;
    activated = λ _. refl;
  })
  Effect-Keeps a b n Body.activation (inactive, eq) = subst (Keeps a) (sym eq) (record {
    network = refl;
    applied = refl;
    forked = refl;
    revoked = λ k h. h;
    activated = λ active. absurd (active inactive);
  })
  Effect-Keeps a b n Body.death eq = subst (Keeps a) (sym eq) (record {
    network = refl;
    applied = refl;
    forked = refl;
    revoked = λ k h. h;
    activated = λ _. refl;
  })

  -- One head is a later state of the same history than another.
  pub record IsLater (a b : Head) : Type 0 where
    pub network : b.network_id ≡ a.network_id
    pub added : List Hash
    pub applied : b.applied ≡ a.applied ++ added
    pub revoked : (k : Key) → contains a.revoked k ≡ true → contains b.revoked k ≡ true
    pub forked : a.forked ≡ true → b.forked ≡ true
    pub activated : a.activated_at ≢ none → b.activated_at ≡ a.activated_at

  IsLater-refl : (a : Head) → IsLater a a
  IsLater-refl a = record {
    network = refl;
    added = [];
    applied = sym (append-nil a.applied);
    revoked = λ k h. h;
    forked = λ h. h;
    activated = λ h. refl;
  }

  IsLater-trans : (a b c : Head) → IsLater a b → IsLater b c → IsLater a c
  IsLater-trans a b c p q = record {
    network = q.network ∙ p.network;
    added = p.added ++ q.added;
    applied =
        q.applied
        ∙ ap (λ (l : List Hash). l ++ q.added) p.applied
        ∙ append_assoc a.applied p.added q.added;
    revoked = λ k h. q.revoked k (p.revoked k h);
    forked = λ h. q.forked (p.forked h);
    activated = λ h. q.activated (λ e. h (sym (p.activated h) ∙ e)) ∙ p.activated h;
  }

  Extension-IsLater : (a b : Head) (s : Statement) → Extension crypto a s b → IsLater a b
  Extension-IsLater a b s e =
      let k = Effect-Keeps a e.changed s.core.sequence s.core.body e.effect in
      subst (IsLater a) (sym e.next_eq) (record {
        network = k.network;
        added = hash crypto s.core ∷ [];
        applied = ap (λ (l : List Hash). l ++ hash crypto s.core ∷ []) k.applied;
        revoked = k.revoked;
        forked = λ h. k.forked ∙ h;
        activated = k.activated;
      })

  Conflict-IsLater : (a b : Head) (s : Statement) → Conflict crypto a s b → IsLater a b
  Conflict-IsLater a b s c = subst (IsLater a) (sym c.fenced_eq) (record {
    network = refl;
    added = [];
    applied = sym (append-nil a.applied);
    revoked = λ k h. h;
    forked = λ h. refl;
    activated = λ h. refl;
  })

-- Whatever statements a node applies, its history only grows: the recorded hashes are kept and
-- appended to, the network stays, a revoked key stays revoked, a fence stays, and an activation
-- stays as it is.
pub Reaches-IsLater : (crypto : Crypto) (a b : Head) → Reaches crypto a b → IsLater crypto a b
Reaches-IsLater crypto a b here = IsLater-refl crypto a
Reaches-IsLater crypto a b (step_applied {a = m} s expect r h) =
    IsLater-trans crypto a m b (Reaches-IsLater crypto a m r)
      (Extension-IsLater crypto m b s (applied-Extension crypto m b s expect h))
Reaches-IsLater crypto a b (step_fork {a = m} s expect r h) =
    IsLater-trans crypto a m b (Reaches-IsLater crypto a m r)
      (Conflict-IsLater crypto m b s (fork-Conflict crypto m b s expect h))

pub Reaches-IsWellFormed :
    (crypto : Crypto) (a b : Head) → IsWellFormed a → Reaches crypto a b → IsWellFormed b
Reaches-IsWellFormed crypto a b w here = w
Reaches-IsWellFormed crypto a b w (step_applied {a = m} s expect r h) =
    Extension-IsWellFormed crypto m b s (Reaches-IsWellFormed crypto a m w r)
      (applied-Extension crypto m b s expect h)
Reaches-IsWellFormed crypto a b w (step_fork {a = m} s expect r h) =
    Conflict-IsWellFormed crypto m b s (Reaches-IsWellFormed crypto a m w r)
      (fork-Conflict crypto m b s expect h)

-- Nothing follows death: a node whose head records a death comes to no other head.
pub death_is_final : (crypto : Crypto) (a b : Head) → a.dead_at ≢ none → Reaches crypto a b → b ≡ a
death_is_final crypto a b dead here = refl
death_is_final crypto a b dead (step_applied {a = m} s expect r h) =
    let same = death_is_final crypto a m dead r in
    absurd (
      dead
        (ap (λ (x : Head). x.dead_at) (sym same) ∙ (applied-Extension crypto m b s expect h).alive))
death_is_final crypto a b dead (step_fork {a = m} s expect r h) =
    let same = death_is_final crypto a m dead r in
    absurd
      (dead (ap (λ (x : Head). x.dead_at) (sym same) ∙ (fork-Conflict crypto m b s expect h).alive))

pub death-Effect :
    (crypto : Crypto) (a b : Head) (n : ℕ) (body : Body)
    → is_death body ≡ true
    → Effect crypto a n body b
    → b.dead_at ≡ some n
death-Effect crypto a b n Body.death d e = ap (λ (x : Head). x.dead_at) e
death-Effect crypto a b n (Body.genesis t ks) d e = cc
death-Effect crypto a b n (Body.rotation es) d e = cc
death-Effect crypto a b n (Body.revocation ks) d e = cc
death-Effect crypto a b n (Body.admission ks) d e = cc
death-Effect crypto a b n Body.activation d e = cc

fenced_again : (a b : Head) → a.forked ≡ true → b ≡ record a { forked = true } → b ≡ a
fenced_again a b f e = e ∙ ap (λ (x : Bool). record a { forked = x }) (sym f)

-- A fenced node can only die: whatever it comes to is the head that it forked at, or records a
-- death.
pub fenced_until_death :
    (crypto : Crypto) (a b : Head)
    → a.forked ≡ true
    → Reaches crypto a b
    → (b ≡ a) ⊎ ((n : ℕ) × (b.dead_at ≡ some n))
fenced_until_death crypto a b f here = inl refl
fenced_until_death crypto a b f (step_applied {a = m} s expect r h) =
    let e = applied-Extension crypto m b s expect h in
    let fenced = (Reaches-IsLater crypto a m r).forked f in
    inr (
      s.core.sequence,
      ap (λ (x : Head). x.dead_at) e.next_eq
          ∙ death-Effect crypto m e.changed s.core.sequence s.core.body (e.fence fenced) e.effect,
    )
fenced_until_death crypto a b f (step_fork {a = m} s expect r h) =
    let c = fork-Conflict crypto m b s expect h in
    let fenced = (Reaches-IsLater crypto a m r).forked f in
    let same = fenced_again m b fenced c.fenced_eq in
    subst (λ (x : Head). (x ≡ a) ⊎ ((n : ℕ) × (x.dead_at ≡ some n))) (sym same)
      (fenced_until_death crypto a m f r)
