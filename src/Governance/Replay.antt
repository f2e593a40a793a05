-- ===== src/Governance/Replay.antt =====
-- A statement that was applied is recognised when it is presented again
-- (`apply` of crates/werewolf-core/src/governance.rs).
use werewolfproxy.Shared.{
  ◌≤◌, ◌≡◌, sym, ◌∙◌, ap, subst, false, Option, some, get_elem?, arith, get_elem?-append_end,
  Bool-cases, inl, inr,
}
use werewolfproxy.Shared.Bytes.{bytes_eq_refl}
use werewolfproxy.Shared.Results.{ok}
use werewolfproxy.Governance.Types.{Crypto, Hash, Head, Statement, Outcome}
use werewolfproxy.Governance.Encoding.{hash}
use werewolfproxy.Governance.Chain.{apply, apply_next, on_dead, on_recorded, is_some}
use werewolfproxy.Governance.WellFormed.{IsWellFormed}
use werewolfproxy.Governance.Steps.{Extension}
use werewolfproxy.Governance.History.{Effect-Keeps, applied-Extension, death-Effect}

module _ (crypto : Crypto) (head : Head) (s : Statement) where
  -- a head that has recorded `s` at its sequence
  record Recorded (next : Head) : Type 0 where
    at : get_elem? next.applied s.core.sequence ≡ some (hash crypto s.core)
    within : s.core.sequence ≤ next.sequence
    network : s.core.network_id ≡ next.network_id
    dead_or_free : is_some next.dead_at ≡ false → next.forked ≡ false

  Recorded-replay :
      (next : Head) → Recorded next → apply_next crypto next s ≡ ok Outcome.already_applied
  unfolding apply_next on_dead on_recorded
  Recorded-replay next r = ground (
    arith,
    r.at,
    bytes_eq_refl (hash crypto s.core),
    bytes_eq_refl next.network_id,
    r.network,
    r.within,
    r.dead_or_free,
  )

  Extension-Recorded :
      (next : Head) → IsWellFormed head → Extension crypto head s next → Recorded next
  Extension-Recorded next w e =
      let k = Effect-Keeps crypto head e.changed s.core.sequence s.core.body e.effect in
      let free : is_some e.changed.dead_at ≡ false → e.changed.forked ≡ false = λ alive.
        elim (Bool-cases head.forked) [
          | inl f ↦
              let died =
                death-Effect crypto head e.changed s.core.sequence s.core.body (e.fence f)
                  e.effect in
              cc (alive, ap is_some died)
          | inr f ↦ k.forked ∙ f
        ] in
      subst Recorded (sym e.next_eq) (record {
        at = rw k.applied (
            get_elem?-append_end head.applied (hash crypto s.core) s.core.sequence
              (omega (arith, w.applied_len, e.sequence_eq)));
        within = omega arith;
        network = e.network ∙ sym k.network;
        dead_or_free = free;
      })

-- Applying a statement once more changes nothing: on the head that it made of a well-formed one, it
-- is recognised as already applied, a death included.
pub apply-apply :
    (crypto : Crypto) (head next : Head) (s : Statement) (expect again : Option Hash)
    → IsWellFormed head
    → apply crypto (some head) s expect ≡ ok (Outcome.applied next)
    → apply crypto (some next) s again ≡ ok Outcome.already_applied
unfolding apply
apply-apply crypto head next s expect again w h = Recorded-replay crypto head s next (
    Extension-Recorded crypto head s next w
      (unfold apply in applied-Extension crypto head next s expect h))
