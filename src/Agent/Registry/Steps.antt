-- ===== src/Agent/Registry/Steps.antt =====
-- What holds of every registry that the operations of packages/agent/src/registry.ts lead to.
use thaddeus.Prelude.{ℕ, ◌+◌, ◌≤◌, ◌≡◌, true, some, [], ◌∷◌, Str, member-append, arith}
use thaddeus.Prelude.Dict.{get, get-put}
use thaddeus.Identity.{Crypto}
use thaddeus.Agent.{Delegation, verify_delegation}
use thaddeus.Agent.Registry.{
  AgentRegistry, new_registry, revoke, is_revoked, delegation_for, usage, accumulate, push_landing,
  record_landing, replay_meter, recent_changes, register,
}

module _ (c : Crypto) where
  -- One call of the registry that returns.
  pub data Step (g g' : AgentRegistry) : Type 0 where
    registers : (d : Delegation) → register c g d ≡ some g' → Step g g'
    revokes : (agent : Str) → g' ≡ revoke g agent → Step g g'
    records :
        (now changes spend : ℕ) (agent : Str)
        → record_landing g now agent changes spend ≡ some g'
        → Step g g'
    replays :
        (changes spend : ℕ) (agent : Str) → replay_meter g agent changes spend ≡ some g' → Step g g'
    counts : (now : ℕ) (agent : Str) → g' ≡ (recent_changes g now agent).1 → Step g g'

  pub data Steps (g : AgentRegistry) : AgentRegistry → Type 0 where
    here : Steps g g
    then_step : {h k : AgentRegistry} → Steps g h → Step h k → Steps g k

  -- Every grant is a delegation that verifies, and stands under its own agent.
  abbrev pub IsVerified : AgentRegistry → Type 0
  IsVerified g =
      (agent : Str) (d : Delegation)
      → delegation_for g agent ≡ some d
      → (verify_delegation c d ≡ true) × (d.agent ≡ agent)

  Step-IsVerified : (g g' : AgentRegistry) → Step g g' → IsVerified g → IsVerified g'
  unfolding delegation_for register revoke record_landing replay_meter accumulate push_landing
      recent_changes
  Step-IsVerified g g' (registers d e) v agent x h =
      ground (arith, v agent x, get-put g.grants d.agent agent d)
  Step-IsVerified g g' (revokes a e) v agent x h = ground (arith, v agent x)
  Step-IsVerified g g' (records now n s a e) v agent x h = ground (arith, v agent x)
  Step-IsVerified g g' (replays n s a e) v agent x h = ground (arith, v agent x)
  Step-IsVerified g g' (counts now a e) v agent x h = ground (arith, v agent x)

  Steps-from : (g h : AgentRegistry) → Steps g h → IsVerified g → IsVerified h
  Steps-from g h here v = v
  Steps-from g h (then_step {h = m} s t) v = Step-IsVerified m h t (Steps-from g m s v)

  -- Whatever calls led to a registry, each of its grants is a delegation that verifies and names the
  -- agent that it is looked up by.
  pub Steps-IsVerified : (g : AgentRegistry) → Steps new_registry g → IsVerified g
  Steps-IsVerified g run =
      Steps-from new_registry g run λ agent d h. absurd (unfold delegation_for get in ground arith)

  Step-is_revoked :
      (g g' : AgentRegistry) (agent : Str)
      → Step g g'
      → is_revoked g agent ≡ true
      → is_revoked g' agent ≡ true
  unfolding is_revoked register revoke record_landing replay_meter accumulate push_landing
      recent_changes
  Step-is_revoked g g' agent (registers d e) h = ground arith
  Step-is_revoked g g' agent (revokes a e) h =
      ground (arith, member-append agent g.quarantine (a ∷ []))
  Step-is_revoked g g' agent (records now n s a e) h = ground arith
  Step-is_revoked g g' agent (replays n s a e) h = ground arith
  Step-is_revoked g g' agent (counts now a e) h = ground arith

  -- Revocation is terminal: whatever calls follow, registering the agent again among them, an agent
  -- that is revoked stays revoked.
  pub Steps-is_revoked :
      (g h : AgentRegistry) (agent : Str)
      → Steps g h
      → is_revoked g agent ≡ true
      → is_revoked h agent ≡ true
  Steps-is_revoked g h agent here r = r
  Steps-is_revoked g h agent (then_step {h = m} s t) r =
      Step-is_revoked m h agent t (Steps-is_revoked g m agent s r)

  Step-usage :
      (g g' : AgentRegistry) (agent : Str)
      → Step g g'
      → ((usage g agent).changes ≤ (usage g' agent).changes)
        × ((usage g agent).spend ≤ (usage g' agent).spend)
  unfolding usage register revoke record_landing replay_meter accumulate push_landing recent_changes
  Step-usage g g' agent (registers d e) = ground arith
  Step-usage g g' agent (revokes a e) = ground arith
  Step-usage g g' agent (records now n s a e) = ground (
    arith,
    get-put g.meter a agent
        (record { changes = (usage g a).changes + n; spend = (usage g a).spend + s }),
  )
  Step-usage g g' agent (replays n s a e) = ground (
    arith,
    get-put g.meter a agent
        (record { changes = (usage g a).changes + n; spend = (usage g a).spend + s }),
  )
  Step-usage g g' agent (counts now a e) = ground arith

  -- The budget is a lifetime cap: no call, registering the agent again among them, lowers a meter.
  pub Steps-usage :
      (g h : AgentRegistry) (agent : Str)
      → Steps g h
      → ((usage g agent).changes ≤ (usage h agent).changes)
        × ((usage g agent).spend ≤ (usage h agent).spend)
  Steps-usage g h agent here = (omega arith, omega arith)
  Steps-usage g h agent (then_step {h = m} s t) =
      let before = Steps-usage g m agent s in
      let now = Step-usage m h agent t in
      (omega (arith, before.0, now.0), omega (arith, before.1, now.1))
