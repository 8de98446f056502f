-- ===== src/Agent/Policy.antt =====
-- packages/agent/src/policy.ts: the landing policy that enforces the delegations. Counting an agent's
-- last hour prunes its window, so the policy gives the registry back.
pub mod Enforced
use thaddeus.Prelude.{
  ℕ, ◌+◌, Bool, true, false, ◌&&◌, not, Option, none, some, List, [], ◌∷◌, ◌++◌, Str, text, ◌==◌,
  if◌then◌else◌, ltb, leb, any, map,
}
use thaddeus.Prelude.Dict.{Dict, get, put}
use thaddeus.Paths.{match_glob}
use thaddeus.Log.Op.{Op}
use thaddeus.Platform.{LandProposal, LandDecision}
use thaddeus.Agent.{Delegation}
use thaddeus.Agent.Registry.{AgentRegistry, is_revoked, delegation_for, usage, recent_changes}

-- `exempt?.(author) === true`
abbrev pub is_exempt : Option (Str → Bool) → Str → Bool
is_exempt none author = false
is_exempt (some f) author = f author

-- One turn of the first loop: the reason to refuse, if there is one.
unfoldable pub scope_reason : AgentRegistry → Option (Str → Bool) → Op → Option Str
scope_reason g exempt op =
    if is_exempt exempt op.author
    then none
    else if is_revoked g op.author
    then some (text "agent " ++ op.author ++ text " is revoked")
    else elim (delegation_for g op.author) [
      | none ↦ some (text "no delegation for agent " ++ op.author)
      | some d ↦
          if any (λ glob. match_glob glob op.path) d.paths
          then none
          else some (op.path ++ text " is outside " ++ op.author ++ text "'s delegated scope")
    ]

unfoldable pub check_scopes : AgentRegistry → Option (Str → Bool) → List Op → Option Str
unfolding scope_reason
check_scopes g exempt [] = none
check_scopes g exempt (op ∷ ops) = elim (scope_reason g exempt op) [
  | some reason ↦ some reason
  | none ↦ check_scopes g exempt ops
]

abbrev pub count_of : Dict ℕ → Str → ℕ
count_of m agent = elim (get m agent) [ none ↦ 0 | some n ↦ n ]

-- The loop that fills `countByAgent`.
unfoldable pub count_by_agent : Option (Str → Bool) → Dict ℕ → List Op → Dict ℕ
count_by_agent exempt m [] = m
count_by_agent exempt m (op ∷ ops) =
    count_by_agent exempt
      (if is_exempt exempt op.author then m else put m op.author (count_of m op.author + 1)) ops

spend_reason : AgentRegistry → Delegation → Str → Option Str
spend_reason g d agent =
    if leb d.max_spend (usage g agent).spend
    then some (text "agent " ++ agent ++ text " is over its spend budget")
    else none

-- The tests of an hourly cap and, after them, of the spend.
unfoldable pub rate_reason : AgentRegistry → ℕ → Delegation → Str → ℕ → Option Str × AgentRegistry
unfolding spend_reason
rate_reason g now d agent count = elim d.max_changes_per_hour [
  | none ↦ (spend_reason g d agent, g)
  | some rate ↦
      let (recent, g') = recent_changes g now agent in
      if ltb rate (recent + count)
      then (some (text "agent " ++ agent ++ text " is over its hourly rate window"), g')
      else (spend_reason g' d agent, g')
]

-- One turn of the last loop.
unfoldable pub budget_reason : AgentRegistry → ℕ → Str → ℕ → Option Str × AgentRegistry
unfolding rate_reason
budget_reason g now agent count = elim (delegation_for g agent) [
  | none ↦ (none, g)
  | some d ↦
      if ltb d.max_changes ((usage g agent).changes + count)
      then (some (text "agent " ++ agent ++ text " is over its change budget"), g)
      else rate_reason g now d agent count
]

unfoldable pub check_budgets : AgentRegistry → ℕ → Dict ℕ → Option Str × AgentRegistry
check_budgets g now [] = (none, g)
check_budgets g now ((agent, count) ∷ counts) =
    let (reason, g') = budget_reason g now agent count in
    elim reason [ some why ↦ (some why, g') | none ↦ check_budgets g' now counts ]

abbrev pub decision : Option Str → LandDecision
decision none = record { allow = true; reason = none }
decision (some why) = record { allow = false; reason = some why }

unfoldable pub delegation_policy :
    AgentRegistry → ℕ → Option (Str → Bool) → LandProposal → LandDecision × AgentRegistry
unfolding check_scopes check_budgets count_by_agent
delegation_policy g now exempt p = elim (check_scopes g exempt p.incoming_ops) [
  | some why ↦ (decision (some why), g)
  | none ↦
      let (reason, g') = check_budgets g now (count_by_agent exempt [] p.incoming_ops) in
      (decision reason, g')
]
