-- ===== src/Walk/Ends.antt =====
-- The walk ends: an id's parents are pushed only when the id is first seen.
use mathlib.Core.Path.{ap}
use thaddeus.Prelude.{
  ℕ, zero, suc, ◌+◌, ◌≤◌, ◌≡◌, ◌≢◌, ◌⊎◌, inl, inr, false, Option, some, List, [], ◌∷◌, ◌++◌,
  reverse, Str, length, length-append, length-reverse, member, arith,
}
use thaddeus.Prelude.Dict.{Dict, get}
use thaddeus.Walk.{out_of_fuel, walk, budget, rounds, walk_from, round, skips, stops, visits}

budget_mono :
    (graph : Dict (List Str)) (id : Str) (seen : List Str)
    → budget graph (id ∷ seen) ≤ budget graph seen
unfolding budget member
budget_mono [] id seen = omega arith
budget_mono ((j, ps) ∷ graph) id seen = ground (arith, budget_mono graph id seen)

-- Seeing an id uses up its parents.
budget_spent :
    (graph : Dict (List Str)) (id : Str) (ps seen : List Str)
    → get graph id ≡ some ps
    → member id seen ≡ false
    → length ps + budget graph (id ∷ seen) ≤ budget graph seen
unfolding budget member get
budget_spent [] id ps seen h m = cc
budget_spent ((j, qs) ∷ graph) id ps seen h m =
    ground (arith, budget_mono graph id seen, budget_spent graph id ps seen)

-- What `next` returns stands in the operation map, or is the empty list of an id outside it.
abbrev pub Covers : Dict (List Str) → (Str → Option (List Str)) → Type 0
Covers graph next =
    (id : Str) (ps : List Str) → next id ≡ some ps → (ps ≡ []) ⊎ (get graph id ≡ some ps)

module _ (graph : Dict (List Str)) (next : Str → Option (List Str))
    (covers : Covers graph next) where
  spent :
      (id : Str) (ps seen : List Str)
      → next id ≡ some ps
      → member id seen ≡ false
      → length ps + budget graph (id ∷ seen) ≤ budget graph seen
  spent id ps seen h m = elim (covers id ps h) [
    | inl e ↦ omega (arith, budget_mono graph id seen, ap length e)
    | inr e ↦ budget_spent graph id ps seen e m
  ]

  walk_ends :
      (fuel : ℕ) (stack seen : List Str)
      → length stack + budget graph seen ≤ fuel
      → walk next fuel stack seen ≢ out_of_fuel
  unfolding walk
  walk_ends fuel [] seen h = cc
  walk_ends zero (id ∷ stack) seen h = absurd (omega arith)
  walk_ends (suc fuel) (id ∷ stack) seen h = elim (round next fuel id stack seen) [
    | skips m e ↦ rw e (walk_ends fuel stack seen (omega arith))
    | stops n e ↦ rw e (λ p. cc)
    | visits ps m n e ↦ rw e (
        walk_ends fuel (reverse ps ++ stack) (id ∷ seen) (
          omega (arith, spent id ps seen n m, length-append (reverse ps) stack, length-reverse ps)))
  ]

  pub walk_from_ends : (heads : List Str) → walk_from graph next heads ≢ out_of_fuel
  unfolding walk_from rounds
  walk_from_ends heads =
      walk_ends (rounds graph heads) (reverse heads) [] (omega (arith, length-reverse heads))
