-- ===== src/Walk.antt =====
-- The ancestor walk that packages/log and packages/platform write out four times: a stack of ids, a
-- set of the ids seen, and a round that pops an id, skips it if it was seen, and pushes its parents.
-- `next` gives the parents of an id; `none` stands for the throw or the rejection on an id that the
-- operation map lacks. The stack's top is the list's head, so `push(...ps)` reverses `ps`, and `seen`
-- is the set with the newest id first.
pub mod Ends
pub mod Reach
use thaddeus.Prelude.{
  ℕ, zero, suc, ◌+◌, Bool, true, false, Option, none, some, List, [], ◌∷◌, ◌++◌, reverse, Str, ◌==◌,
  length, member, if◌then◌else◌, ◌≡◌, Bool-cases, Option-cases, inl, inr, arith,
}
use thaddeus.Prelude.Dict.{Dict}

pub data Outcome : Type 0 where
  done : List Str → Outcome
  missing : Str → Outcome
  out_of_fuel : Outcome

unfoldable pub walk : (Str → Option (List Str)) → ℕ → List Str → List Str → Outcome
walk next fuel [] seen = done seen
walk next zero (id ∷ stack) seen = out_of_fuel
walk next (suc fuel) (id ∷ stack) seen = elim (member id seen) [
  | true ↦ walk next fuel stack seen
  | false ↦ elim (next id) [
    | none ↦ missing id
    | some parents ↦ walk next fuel (reverse parents ++ stack) (id ∷ seen)
  ]
]

-- What one round does.
pub data Round (next : Str → Option (List Str)) (fuel : ℕ) (id : Str) (stack seen : List Str)
    : Type 0 where
  skips :
      member id seen ≡ true
      → walk next (suc fuel) (id ∷ stack) seen ≡ walk next fuel stack seen
      → Round next fuel id stack seen
  stops :
      next id ≡ none
      → walk next (suc fuel) (id ∷ stack) seen ≡ missing id
      → Round next fuel id stack seen
  visits :
      (ps : List Str)
      → member id seen ≡ false
      → next id ≡ some ps
      → walk next (suc fuel) (id ∷ stack) seen ≡ walk next fuel (reverse ps ++ stack) (id ∷ seen)
      → Round next fuel id stack seen

pub round :
    (next : Str → Option (List Str)) (fuel : ℕ) (id : Str) (stack seen : List Str)
    → Round next fuel id stack seen
unfolding walk
round next fuel id stack seen = elim (Bool-cases (member id seen)) [
  | inl m ↦ skips m (ground arith)
  | inr m ↦ elim (Option-cases (next id)) [
    | inl n ↦ stops n (ground arith)
    | inr (ps, n) ↦ visits ps m n (ground arith)
  ]
]

-- The pushes that are still to come, over the entries of the operation map.
unfoldable pub budget : Dict (List Str) → List Str → ℕ
budget [] seen = 0
budget ((id, parents) ∷ graph) seen =
    (if member id seen then 0 else length parents) + budget graph seen

-- Rounds that are enough: one for each head, and one for each parent of each operation.
unfoldable pub rounds : Dict (List Str) → List Str → ℕ
rounds graph heads = length heads + budget graph []

-- `const stack = [...heads]; while (stack.length > 0) ...`
unfoldable pub walk_from : Dict (List Str) → (Str → Option (List Str)) → List Str → Outcome
walk_from graph next heads = walk next (rounds graph heads) (reverse heads) []
