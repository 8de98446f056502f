-- ===== src/Agent/Registry.antt =====
-- packages/agent/src/registry.ts: the grants, the revoked agents, the meters and the hour's windows.
pub mod Steps
pub mod Window
use thaddeus.Prelude.{
  ℕ, ◌+◌, ◌*◌, Bool, true, false, ◌&&◌, not, Option, none, some, List, [], ◌∷◌, ◌++◌, Str, ◌==◌,
  if◌then◌else◌, ltb, nat_eq, member, keep,
}
use thaddeus.Prelude.Dict.{Dict, get, put, has}
use thaddeus.Identity.{Crypto}
use thaddeus.Agent.{Delegation, verify_delegation}

pub record Usage : Type 0 where
  pub changes : ℕ
  pub spend : ℕ

pub record Landing : Type 0 where
  pub at : ℕ
  pub changes : ℕ

pub record AgentRegistry : Type 0 where
  pub grants : Dict Delegation
  pub quarantine : List Str
  pub meter : Dict Usage
  pub window : Dict (List Landing)

abbrev pub new_registry : AgentRegistry
new_registry = record { grants = []; quarantine = []; meter = []; window = [] }

abbrev pub hour_ms : ℕ
hour_ms = 3600000

-- `#prune`: what is younger than an hour.
unfoldable pub prune : ℕ → List Landing → List Landing
prune now entries = keep (λ e. ltb now (e.at + hour_ms)) entries

unfoldable pub total : List Landing → ℕ
total [] = 0
total (e ∷ es) = e.changes + total es

unfoldable pub revoke : AgentRegistry → Str → AgentRegistry
revoke g agent =
    if member agent g.quarantine then g else record g { quarantine = g.quarantine ++ agent ∷ [] }

unfoldable pub is_revoked : AgentRegistry → Str → Bool
is_revoked g agent = member agent g.quarantine

unfoldable pub delegation_for : AgentRegistry → Str → Option Delegation
delegation_for g agent = get g.grants agent

unfoldable pub operator_of : AgentRegistry → Str → Option Str
operator_of g agent = elim (get g.grants agent) [ none ↦ none | some d ↦ some d.operator ]

unfoldable pub usage : AgentRegistry → Str → Usage
usage g agent = elim (get g.meter agent) [ none ↦ record { changes = 0; spend = 0 } | some u ↦ u ]

-- `#accumulate`; `none` is the TypeError on an agent without a grant.
unfoldable pub accumulate : AgentRegistry → Str → ℕ → ℕ → Option AgentRegistry
unfolding usage
accumulate g agent changes spend =
    if has g.grants agent
    then some (record g {
      meter = put g.meter agent (record {
        changes = (usage g agent).changes + changes;
        spend = (usage g agent).spend + spend;
      });
    })
    else none

abbrev pub entries_of : AgentRegistry → Str → List Landing
entries_of g agent = elim (get g.window agent) [ none ↦ [] | some es ↦ es ]

-- The window's part of `record`.
unfoldable pub push_landing : AgentRegistry → ℕ → Str → ℕ → AgentRegistry
unfolding prune
push_landing g now agent changes =
    if ltb 0 changes
    then record g {
      window =
          put g.window agent
            (prune now (entries_of g agent ++ record { at = now; changes = changes } ∷ []));
    }
    else g

-- `record`
unfoldable pub record_landing : AgentRegistry → ℕ → Str → ℕ → ℕ → Option AgentRegistry
unfolding accumulate push_landing
record_landing g now agent changes spend = elim (accumulate g agent changes spend) [
  | none ↦ none
  | some g' ↦ some (push_landing g' now agent changes)
]

unfoldable pub replay_meter : AgentRegistry → Str → ℕ → ℕ → Option AgentRegistry
unfolding accumulate
replay_meter g agent changes spend = accumulate g agent changes spend

-- `recentChanges`: the count, and the registry with the agent's window pruned.
unfoldable pub recent_changes : AgentRegistry → ℕ → Str → ℕ × AgentRegistry
unfolding prune total
recent_changes g now agent = elim (get g.window agent) [
  | none ↦ (0, g)
  | some entries ↦
      (total (prune now entries), record g { window = put g.window agent (prune now entries) })
]

module _ (c : Crypto) where
  -- `none` is the TypeError on a delegation that does not verify.
  unfoldable pub register : AgentRegistry → Delegation → Option AgentRegistry
  register g d =
      if verify_delegation c d then some (record g { grants = put g.grants d.agent d }) else none
