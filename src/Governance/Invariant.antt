-- ===== src/Governance/Invariant.antt =====
-- `apply` (crates/werewolf-core/src/governance.rs) against `check`
-- (crates/werewolfd/src/governance.rs).
use werewolfproxy.Shared.{◌≡◌, ◌⊎◌, inl, inr, true, Option, none, some}
use werewolfproxy.Shared.Results.{Result, ok}
use werewolfproxy.Governance.Types.{Crypto, Hash, Head, Statement, Outcome, Failure}
use werewolfproxy.Governance.Chain.{apply}
use werewolfproxy.Governance.HeadCheck.{check}
use werewolfproxy.Governance.WellFormed.{FitsMemory, IsWellFormed, check_iff, IsWellFormed→check}
use werewolfproxy.Governance.Steps.{apply_next-Extension, apply_next-Conflict}
use werewolfproxy.Governance.Preservation.{Extension-IsWellFormed, Conflict-IsWellFormed}
use werewolfproxy.Governance.Genesis.{
  apply_first-Founding, apply_first-not_fork, Founding-IsWellFormed,
}

-- A node's head, if it has one, passes the daemon's check.
abbrev pub IsChecked : Option Head → Type 0
IsChecked none = Unit
IsChecked (some head) = FitsMemory head × (check head ≡ true)

-- The two outcomes that hand back a head to persist.
abbrev pub Returns : Result Failure Outcome → Head → Type 0
Returns r next = (r ≡ ok (Outcome.applied next)) ⊎ (r ≡ ok (Outcome.fork next))

apply-IsWellFormed :
    (crypto : Crypto) (held : Option Head) (s : Statement) (expect : Option Hash) (next : Head)
    → IsChecked held
    → Returns (apply crypto held s expect) next
    → IsWellFormed next
unfolding apply
apply-IsWellFormed crypto none s expect next ok_head (inl h) =
    Founding-IsWellFormed crypto s expect next (apply_first-Founding crypto s expect next h)
apply-IsWellFormed crypto none s expect next ok_head (inr h) =
    absurd (apply_first-not_fork crypto s.core.body s expect next h)
apply-IsWellFormed crypto (some head) s expect next ok_head (inl h) =
    Extension-IsWellFormed crypto head next s ((check_iff head ok_head.0).0 ok_head.1)
      (apply_next-Extension crypto head next s h)
apply-IsWellFormed crypto (some head) s expect next ok_head (inr h) =
    Conflict-IsWellFormed crypto head next s ((check_iff head ok_head.0).0 ok_head.1)
      (apply_next-Conflict crypto head next s h)

-- Every head that `apply` hands back to be persisted, from no head or from one that passes the
-- daemon's check and fits in memory, passes that check.
pub apply-check :
    (crypto : Crypto) (held : Option Head) (s : Statement) (expect : Option Hash) (next : Head)
    → IsChecked held
    → Returns (apply crypto held s expect) next
    → check next ≡ true
apply-check crypto held s expect next ok_head h =
    IsWellFormed→check next (apply-IsWellFormed crypto held s expect next ok_head h)
