-- ===== src/Agent/Policy/Enforced.antt =====
-- What a landing that the delegation policy allows keeps to.
use mathlib.Core.List.{Memᴰ}
use mathlib.Core.List.Memᴰ.{head, tail, not-nil}
use thaddeus.Prelude.{
  ℕ, ◌+◌, ◌≤◌, ◌<◌, ◌≡◌, refl, sym, ap, ◌∙◌, subst, Bool, true, false, ◌&&◌, not, Option, none,
  some, List, [], ◌∷◌, Str, ◌==◌, if◌then◌else◌, length, any, keep, arith, Option-cases, Bool-cases,
  inl, inr, ◌⊎◌,
}
use thaddeus.Prelude.Dict.Keys.{get-Memᴰ}
use thaddeus.Prelude.Dict.{Dict, get, put, get-put}
use thaddeus.Paths.{match_glob}
use thaddeus.Log.Op.{Op}
use thaddeus.Platform.{LandProposal}
use thaddeus.Agent.{Delegation}
use thaddeus.Agent.Registry.{
  AgentRegistry, is_revoked, delegation_for, usage, recent_changes, prune, total, entries_of,
}
use thaddeus.Agent.Registry.Window.{recent-total, total-prune}
use thaddeus.Agent.Policy.{
  is_exempt, scope_reason, check_scopes, count_of, count_by_agent, spend_reason, rate_reason,
  budget_reason, check_budgets, delegation_policy,
}

-- The operations of a proposal that count against an agent.
abbrev pub counted : Option (Str → Bool) → Str → List Op → List Op
counted exempt agent ops = keep (λ op. not (is_exempt exempt op.author) && (op.author == agent)) ops

-- An agent may have an operation land.
pub record IsPermitted (g : AgentRegistry) (op : Op) (d : Delegation) : Type 0 where
  pub granted : delegation_for g op.author ≡ some d
  pub not_revoked : is_revoked g op.author ≡ false
  pub in_scope : any (λ glob. match_glob glob op.path) d.paths ≡ true

-- An agent's operations fit what it was granted and what it has used.
pub record IsWithin (g : AgentRegistry) (now : ℕ) (agent : Str) (d : Delegation) (n : ℕ)
    : Type 0 where
  pub changes : (usage g agent).changes + n ≤ d.max_changes
  pub rate : (k : ℕ) → d.max_changes_per_hour ≡ some k → (recent_changes g now agent).0 + n ≤ k
  pub spend : (usage g agent).spend < d.max_spend

scope_reason-IsPermitted :
    (g : AgentRegistry) (exempt : Option (Str → Bool)) (op : Op)
    → scope_reason g exempt op ≡ none
    → is_exempt exempt op.author ≡ false
    → (d : Delegation) × IsPermitted g op d
unfolding scope_reason
scope_reason-IsPermitted g exempt op e n = elim (Option-cases (delegation_for g op.author)) [
  | inl q ↦ absurd (ground arith)
  | inr (d, q) ↦ (d, record { granted = q; not_revoked = ground arith; in_scope = ground arith })
]

check_scopes-none :
    (g : AgentRegistry) (exempt : Option (Str → Bool)) (ops : List Op) (op : Op)
    → check_scopes g exempt ops ≡ none
    → Memᴰ op ops
    → scope_reason g exempt op ≡ none
unfolding check_scopes
check_scopes-none g exempt [] op e i = absurd (not-nil i)
check_scopes-none g exempt (x ∷ xs) op e (head q) = ap (scope_reason g exempt) q ∙ ground arith
check_scopes-none g exempt (x ∷ xs) op e (tail i) =
    check_scopes-none g exempt xs op (ground arith) i

count-counted :
    (exempt : Option (Str → Bool)) (ops : List Op) (m : Dict ℕ) (agent : Str)
    → count_of (count_by_agent exempt m ops) agent
      ≡ count_of m agent + length (counted exempt agent ops)
unfolding count_by_agent
count-counted exempt [] m agent = omega arith
count-counted exempt (op ∷ ops) m agent = elim (Bool-cases (is_exempt exempt op.author)) [
  | inl y ↦ ground (arith, count-counted exempt ops m agent)
  | inr n ↦ ground (
    arith,
    count-counted exempt ops (put m op.author (count_of m op.author + 1)) agent,
    get-put m op.author agent (count_of m op.author + 1),
  )
]

-- Counting an agent's last hour changes no count.
entries-recent :
    (g : AgentRegistry) (now : ℕ) (a b : Str)
    → entries_of (recent_changes g now a).1 b
      ≡ (if a == b then prune now (entries_of g b) else entries_of g b)
unfolding recent_changes prune
entries-recent g now a b = elim (Option-cases (get g.window a)) [
  | inl e ↦ ground arith
  | inr (es, e) ↦ ground (arith, get-put g.window a b (prune now es))
]

recent_again :
    (g : AgentRegistry) (now : ℕ) (a b : Str)
    → (recent_changes (recent_changes g now a).1 now b).0 ≡ (recent_changes g now b).0
recent_again g now a b = ground (
  arith,
  recent-total (recent_changes g now a).1 now b,
  recent-total g now b,
  ap (λ es. total (prune now es)) (entries-recent g now a b),
  total-prune now now (entries_of g b) (omega arith),
)

-- The registries agree on all that the policy reads.
record IsSame (g g' : AgentRegistry) (now : ℕ) : Type 0 where
  grants : (b : Str) → delegation_for g' b ≡ delegation_for g b
  meters : (b : Str) → usage g' b ≡ usage g b
  recents : (b : Str) → (recent_changes g' now b).0 ≡ (recent_changes g now b).0

IsSame-refl : (g : AgentRegistry) (now : ℕ) → IsSame g g now
IsSame-refl g now = record { grants = λ b. refl; meters = λ b. refl; recents = λ b. refl }

recent-IsSame : (g : AgentRegistry) (now : ℕ) (a : Str) → IsSame g (recent_changes g now a).1 now
recent-IsSame g now a = record {
  grants = λ b. unfold recent_changes delegation_for in ground arith;
  meters = λ b. unfold recent_changes usage in ground arith;
  recents = λ b. recent_again g now a b;
}

budget_reason-IsSame :
    (g : AgentRegistry) (now : ℕ) (a : Str) (n : ℕ) → IsSame g (budget_reason g now a n).1 now
unfolding budget_reason rate_reason
budget_reason-IsSame g now a n = elim (same_or_counted) [
  | inl e ↦ subst (λ h. IsSame g h now) (sym e) (IsSame-refl g now)
  | inr e ↦ subst (λ h. IsSame g h now) (sym e) (recent-IsSame g now a)
]
  where
    same_or_counted :
        ((budget_reason g now a n).1 ≡ g)
        ⊎ ((budget_reason g now a n).1 ≡ (recent_changes g now a).1)
    same_or_counted = ground arith

budget_reason-IsWithin :
    (g : AgentRegistry) (now : ℕ) (a : Str) (n : ℕ) (d : Delegation)
    → (budget_reason g now a n).0 ≡ none
    → delegation_for g a ≡ some d
    → IsWithin g now a d n
unfolding budget_reason rate_reason spend_reason
budget_reason-IsWithin g now a n d e q =
    let meters = (recent-IsSame g now a).meters a in
    record { changes = ground arith; rate = λ k r. ground arith; spend = ground (arith, meters) }

check_budgets-IsWithin :
    (g : AgentRegistry) (now : ℕ) (m : Dict ℕ) (a : Str) (n : ℕ) (d : Delegation)
    → (check_budgets g now m).0 ≡ none
    → Memᴰ (a, n) m
    → delegation_for g a ≡ some d
    → IsWithin g now a d n
check_budgets-IsWithin g now [] a n d e i q = absurd (not-nil i)
check_budgets-IsWithin g now ((b, k) ∷ m) a n d e (head same) q =
    budget_reason-IsWithin g now a n d (passes (ap (λ x. x.0) same) (ap (λ x. x.1) same)) q
  where
    passes : a ≡ b → n ≡ k → (budget_reason g now a n).0 ≡ none
    passes p r = unfold check_budgets in ground arith
check_budgets-IsWithin g now ((b, k) ∷ m) a n d e (tail i) q =
    let same = budget_reason-IsSame g now b k in
    let rest : (check_budgets (budget_reason g now b k).1 now m).0 ≡ none =
      unfold check_budgets in ground arith in
    let within =
      check_budgets-IsWithin (budget_reason g now b k).1 now m a n d rest i (same.grants a ∙ q) in
    record {
      changes = subst (λ u. u.changes + n ≤ d.max_changes) (same.meters a) within.changes;
      rate = λ c r. subst (λ s. s + n ≤ c) (same.recents a) (within.rate c r);
      spend = subst (λ u. u.spend < d.max_spend) (same.meters a) within.spend;
    }

-- An operation that counts is counted.
counted-positive :
    (exempt : Option (Str → Bool)) (ops : List Op) (op : Op)
    → Memᴰ op ops
    → is_exempt exempt op.author ≡ false
    → 0 < length (counted exempt op.author ops)
counted-positive exempt [] op i n = absurd (not-nil i)
counted-positive exempt (x ∷ xs) op (head e) n = ground (arith, ap (λ o. o.author) e)
counted-positive exempt (x ∷ xs) op (tail i) n = ground (arith, counted-positive exempt xs op i n)

count-entry :
    (exempt : Option (Str → Bool)) (ops : List Op) (op : Op)
    → Memᴰ op ops
    → is_exempt exempt op.author ≡ false
    → get (count_by_agent exempt [] ops) op.author ≡ some (length (counted exempt op.author ops))
unfolding get
count-entry exempt ops op i n =
    ground (arith, count-counted exempt ops [] op.author, counted-positive exempt ops op i n)

decided :
    (g : AgentRegistry) (now : ℕ) (exempt : Option (Str → Bool)) (p : LandProposal)
    → (delegation_policy g now exempt p).0.allow ≡ true
    → (check_scopes g exempt p.incoming_ops ≡ none)
      × ((check_budgets g now (count_by_agent exempt [] p.incoming_ops)).0 ≡ none)
unfolding delegation_policy
decided g now exempt p e = elim (Option-cases (check_scopes g exempt p.incoming_ops)) [
  | inr (why, q) ↦ absurd (ground arith)
  | inl q ↦ elim (Option-cases (check_budgets g now (count_by_agent exempt [] p.incoming_ops)).0) [
    | inl r ↦ (q, r)
    | inr (why, r) ↦ absurd (ground arith)
  ]
]

-- A landing that the policy allows keeps to the delegations: each incoming operation whose author is
-- not exempt is by an agent that is not revoked and has a grant with a glob that matches the path; and
-- the agent's operations in the landing, with what it has landed before, fit its lifetime cap, its
-- hourly cap if it has one, and its spend is below its cap.
pub delegation_policy-allows :
    (g : AgentRegistry) (now : ℕ) (exempt : Option (Str → Bool)) (p : LandProposal) (op : Op)
    → (delegation_policy g now exempt p).0.allow ≡ true
    → Memᴰ op p.incoming_ops
    → is_exempt exempt op.author ≡ false
    → (d : Delegation) × IsPermitted g op d
      × IsWithin g now op.author d (length (counted exempt op.author p.incoming_ops))
delegation_policy-allows g now exempt p op e i n =
    let (scopes, budgets) = decided g now exempt p e in
    let (d, permitted) =
      scope_reason-IsPermitted g exempt op (check_scopes-none g exempt p.incoming_ops op scopes i)
        n in
    let entry = get-Memᴰ _ _ _ (count-entry exempt p.incoming_ops op i n) in
    (
      d,
      permitted,
      check_budgets-IsWithin g now (count_by_agent exempt [] p.incoming_ops) op.author _ d budgets
          entry permitted.granted,
    )
