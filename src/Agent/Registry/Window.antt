-- ===== src/Agent/Registry/Window.antt =====
-- The trailing hour of packages/agent/src/registry.ts: pruning loses nothing that still counts.
use thaddeus.Prelude.{
  ℕ, ◌+◌, ◌≤◌, ◌≡◌, refl, sym, ap, ◌∙◌, none, some, List, [], ◌∷◌, ◌++◌, Str, ◌==◌, if◌then◌else◌,
  ltb, arith, Option-cases, inl, inr,
}
use thaddeus.Prelude.Dict.{get, get-put}
use thaddeus.Agent.Registry.{
  AgentRegistry, Landing, hour_ms, prune, total, accumulate, entries_of, push_landing,
  record_landing, recent_changes,
}

pub total-prune :
    (now later : ℕ) (es : List Landing)
    → now ≤ later
    → total (prune later (prune now es)) ≡ total (prune later es)
unfolding prune total
total-prune now later [] h = refl
total-prune now later (e ∷ es) h = ground (arith, total-prune now later es h)

total-prune_append :
    (t : ℕ) (es fs : List Landing)
    → total (prune t (es ++ fs)) ≡ total (prune t es) + total (prune t fs)
unfolding prune total
total-prune_append t [] fs = omega arith
total-prune_append t (e ∷ es) fs = ground (arith, total-prune_append t es fs)

pub recent-total :
    (g : AgentRegistry) (t : ℕ) (agent : Str)
    → (recent_changes g t agent).0 ≡ total (prune t (entries_of g agent))
unfolding recent_changes prune total
recent-total g t agent = elim (Option-cases (get g.window agent)) [
  | inl e ↦ ground arith
  | inr (es, e) ↦ ground arith
]

-- The window of an agent after a landing of another agent, or of its own.
entries-push :
    (g : AgentRegistry) (now n : ℕ) (a agent : Str)
    → entries_of (push_landing g now a n) agent ≡ (
        if ltb 0 n
        then (if a == agent
            then prune now (entries_of g a ++ record { at = now; changes = n } ∷ [])
            else entries_of g agent)
        else entries_of g agent)
unfolding push_landing
entries-push g now n a agent = ground (
  arith,
  get-put g.window a agent (prune now (entries_of g a ++ record { at = now; changes = n } ∷ [])),
)

entries-accumulate :
    (g g' : AgentRegistry) (a : Str) (n s : ℕ) → accumulate g a n s ≡ some g' → g'.window ≡ g.window
unfolding accumulate
entries-accumulate g g' a n s e = ground arith

one_landing :
    (t now n : ℕ)
    → total (prune t (record { at = now; changes = n } ∷ []))
      ≡ (if ltb t (now + hour_ms) then n else 0)
unfolding total prune
one_landing t now n = ground arith

recent-push :
    (g : AgentRegistry) (now t n : ℕ) (a : Str)
    → now ≤ t
    → (recent_changes (push_landing g now a n) t a).0
      ≡ (recent_changes g t a).0 + (if ltb t (now + hour_ms) then n else 0)
recent-push g now t n a h = ground (
  arith,
  recent-total (push_landing g now a n) t a,
  recent-total g t a,
  ap (λ es. total (prune t es)) (entries-push g now n a a),
  total-prune now t (entries_of g a ++ record { at = now; changes = n } ∷ []) h,
  total-prune_append t (entries_of g a) (record { at = now; changes = n } ∷ []),
  one_landing t now n,
)

-- A landing counts for exactly an hour: at any time from then on, `recentChanges` is what it would be
-- without the landing, and its changes more as long as less than an hour has passed.
pub recent_changes-record_landing :
    (g g' : AgentRegistry) (now t n s : ℕ) (agent : Str)
    → record_landing g now agent n s ≡ some g'
    → now ≤ t
    → (recent_changes g' t agent).0
      ≡ (recent_changes g t agent).0 + (if ltb t (now + hour_ms) then n else 0)
unfolding record_landing
recent_changes-record_landing g g' now t n s agent e h =
    elim (Option-cases (accumulate g agent n s)) [
      | inl q ↦ absurd (ground arith)
      | inr (m, q) ↦
          let same : g' ≡ push_landing m now agent n = ground arith in
          let shut : (recent_changes m t agent).0 ≡ (recent_changes g t agent).0 =
            recent-total m t agent
            ∙ ap
                (λ w. total (
                  prune t (elim (get {V = List Landing} w agent) as (λ _. List Landing) [
                    | none ↦ []
                    | some es ↦ es
                  ])))
                (entries-accumulate g m agent n s q)
            ∙ sym (recent-total g t agent) in
          ap (λ g. (recent_changes g t agent).0) same
          ∙ recent-push m now t n agent h
          ∙ ap (λ k. k + (if ltb t (now + hour_ms) then n else 0)) shut
    ]
