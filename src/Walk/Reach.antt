-- ===== src/Walk/Reach.antt =====
-- The walk visits exactly the ids that lead from the heads through parents.
use thaddeus.Prelude.{
  ℕ, zero, suc, ◌≡◌, ◌≢◌, ◌⊎◌, inl, inr, ◌↔◌, true, Option, none, some, List, [], ◌∷◌, ◌++◌,
  reverse, Str, member, member-reverse, member-cons_cases, member-append_cases, member-here,
  member-there, member-append, arith, ◌∙◌, sym, subst,
}
use thaddeus.Prelude.Dict.{Dict}
use thaddeus.Walk.{done, missing, walk, walk_from, round, skips, stops, visits}

module _ (next : Str → Option (List Str)) where
  -- An id is a head, or a parent of one that was reached.
  pub data Reach (heads : List Str) : Str → Type 0 where
    head : {id : Str} → member id heads ≡ true → Reach heads id
    parent :
        {id p : Str} (ps : List Str)
        → Reach heads id
        → next id ≡ some ps
        → member p ps ≡ true
        → Reach heads p

  -- All of `xs` is reached.
  abbrev AllReach : List Str → List Str → Type 0
  AllReach heads xs = (id : Str) → member id xs ≡ true → Reach heads id

  AllReach-cons :
      (heads : List Str) (id : Str) (xs : List Str)
      → Reach heads id
      → AllReach heads xs
      → AllReach heads (id ∷ xs)
  AllReach-cons heads id xs r h j m = elim (member-cons_cases j id xs m) [
    | inl e ↦ subst (Reach heads) e r
    | inr k ↦ h j k
  ]

  AllReach-push :
      (heads : List Str) (id : Str) (ps stack : List Str)
      → Reach heads id
      → next id ≡ some ps
      → AllReach heads stack
      → AllReach heads (reverse ps ++ stack)
  AllReach-push heads id ps stack r e h j m = elim (member-append_cases j (reverse ps) stack m) [
    | inl k ↦ parent ps r e (sym (member-reverse j ps) ∙ k)
    | inr k ↦ h j k
  ]

  AllReach-tail :
      (heads : List Str) (id : Str) (xs : List Str) → AllReach heads (id ∷ xs) → AllReach heads xs
  AllReach-tail heads id xs h j m = h j (member-there j id xs m)

  walk_sound :
      (heads : List Str) (fuel : ℕ) (stack seen out : List Str)
      → AllReach heads stack
      → AllReach heads seen
      → walk next fuel stack seen ≡ done out
      → AllReach heads out
  unfolding walk
  walk_sound heads fuel [] seen out s t e = subst (AllReach heads) (cc) t
  walk_sound heads zero (id ∷ stack) seen out s t e = cc
  walk_sound heads (suc fuel) (id ∷ stack) seen out s t e = elim (round next fuel id stack seen) [
    | skips m k ↦
        walk_sound heads fuel stack seen out (AllReach-tail heads id stack s) t (sym k ∙ e)
    | stops n k ↦ cc
    | visits ps m n k ↦
        let here = s id (member-here id stack) in
        walk_sound heads fuel (reverse ps ++ stack) (id ∷ seen) out
          (AllReach-push heads id ps stack here n (AllReach-tail heads id stack s))
          (AllReach-cons heads id seen here t) (sym k ∙ e)
  ]

  walk_missing :
      (heads : List Str) (fuel : ℕ) (stack seen : List Str) (out : Str)
      → AllReach heads stack
      → walk next fuel stack seen ≡ missing out
      → Reach heads out × (next out ≡ none)
  unfolding walk
  walk_missing heads fuel [] seen out s e = cc
  walk_missing heads zero (id ∷ stack) seen out s e = cc
  walk_missing heads (suc fuel) (id ∷ stack) seen out s e = elim (round next fuel id stack seen) [
    | skips m k ↦
        walk_missing heads fuel stack seen out (AllReach-tail heads id stack s) (sym k ∙ e)
    | stops n k ↦ subst (λ x. Reach heads x × (next x ≡ none)) (cc) (s id (member-here id stack), n)
    | visits ps m n k ↦
        walk_missing heads fuel (reverse ps ++ stack) (id ∷ seen) out
          (AllReach-push heads id ps stack (s id (member-here id stack)) n
            (AllReach-tail heads id stack s))
          (sym k ∙ e)
  ]

  -- Every parent of a seen id waits on the stack or was seen, and every seen id is known.
  abbrev Closed : List Str → List Str → Type 0
  Closed stack seen =
      (id : Str)
      → member id seen ≡ true
      → (ps : List Str) × (next id ≡ some ps)
        × ((p : Str) → member p ps ≡ true → (member p stack ≡ true) ⊎ (member p seen ≡ true))

  -- What is on the stack or seen.
  abbrev Pending : List Str → List Str → Str → Type 0
  Pending stack seen id = (member id stack ≡ true) ⊎ (member id seen ≡ true)

  skip-Pending :
      (id : Str) (stack seen : List Str)
      → member id seen ≡ true
      → (p : Str) → Pending (id ∷ stack) seen p
      → Pending stack seen p
  skip-Pending id stack seen m p (inr k) = inr k
  skip-Pending id stack seen m p (inl k) = elim (member-cons_cases p id stack k) [
    | inl e ↦ inr (subst (λ x. member x seen ≡ true) e m)
    | inr j ↦ inl j
  ]

  visit-Pending :
      (id : Str) (ps stack seen : List Str) (p : Str)
      → Pending (id ∷ stack) seen p
      → Pending (reverse ps ++ stack) (id ∷ seen) p
  visit-Pending id ps stack seen p (inr k) = inr (member-there p id seen k)
  visit-Pending id ps stack seen p (inl k) = elim (member-cons_cases p id stack k) [
    | inl e ↦ inr (subst (λ x. member x (id ∷ seen) ≡ true) e (member-here id seen))
    | inr j ↦ inl (ground (arith, member-append p (reverse ps) stack))
  ]

  Closed-skip :
      (id : Str) (stack seen : List Str)
      → member id seen ≡ true
      → Closed (id ∷ stack) seen
      → Closed stack seen
  Closed-skip id stack seen m h j k =
      let (ps, n, all) = h j k in (ps, n, λ p q. skip-Pending id stack seen m p (all p q))

  Closed-visit :
      (id : Str) (ps stack seen : List Str)
      → next id ≡ some ps
      → Closed (id ∷ stack) seen
      → Closed (reverse ps ++ stack) (id ∷ seen)
  Closed-visit id ps stack seen n h j k = elim (member-cons_cases j id seen k) [
    | inl e ↦ (
      ps,
      subst (λ x. next x ≡ some ps) e n,
      λ p q. inl (ground (arith, member-append p (reverse ps) stack, member-reverse p ps)),
    )
    | inr m ↦ let (qs, o, all) = h j m in (qs, o, λ p q. visit-Pending id ps stack seen p (all p q))
  ]

  walk-Closed :
      (fuel : ℕ) (stack seen out : List Str)
      → Closed stack seen
      → walk next fuel stack seen ≡ done out
      → Closed [] out × ((p : Str) → Pending stack seen p → member p out ≡ true)
  unfolding walk member
  walk-Closed fuel [] seen out h e =
      subst (λ xs. Closed [] xs × ((p : Str) → Pending [] seen p → member p xs ≡ true)) (cc)
        (h, λ p k. elim k [ inl a ↦ cc | inr b ↦ b ])
  walk-Closed zero (id ∷ stack) seen out h e = cc
  walk-Closed (suc fuel) (id ∷ stack) seen out h e = elim (round next fuel id stack seen) [
    | skips m k ↦
        let (c, all) =
          walk-Closed fuel stack seen out (Closed-skip id stack seen m h) (sym k ∙ e) in
        (c, λ p q. all p (skip-Pending id stack seen m p q))
    | stops n k ↦ cc
    | visits ps m n k ↦
        let (c, all) =
          walk-Closed fuel (reverse ps ++ stack) (id ∷ seen) out (Closed-visit id ps stack seen n h)
            (sym k ∙ e) in
        (c, λ p q. all p (visit-Pending id ps stack seen p q))
  ]

  Closed-Reach :
      (heads out : List Str)
      → Closed [] out
      → ((p : Str) → member p heads ≡ true → member p out ≡ true)
      → {id : Str} → Reach heads id
      → member id out ≡ true
  unfolding member
  Closed-Reach heads out c all (head {id} m) = all id m
  Closed-Reach heads out c all (parent {id} {p} ps r n m) =
      let (qs, o, known) = c id (Closed-Reach heads out c all r) in
      elim (known p (subst (λ xs. member p xs ≡ true) (cc) m)) [ inl a ↦ cc | inr b ↦ b ]

  module _ (graph : Dict (List Str)) (heads : List Str) where
    pub walk_from-done :
        (out : List Str)
        → walk_from graph next heads ≡ done out
        → (id : Str) → (member id out ≡ true) ↔ Reach heads id
    unfolding walk_from member
    walk_from-done out e id =
        let (c, all) = walk-Closed _ (reverse heads) [] out (λ j k. cc) e in
        (
          walk_sound heads _ (reverse heads) [] out (λ j m. head (sym (member-reverse j heads) ∙ m))
              (λ j k. cc) e id,
          Closed-Reach heads out c (λ p m. all p (inl (member-reverse p heads ∙ m))),
        )

    -- Every id that is reached is known.
    pub walk_from-known :
        (out : List Str)
        → walk_from graph next heads ≡ done out
        → (id : Str) → Reach heads id
        → next id ≢ none
    unfolding walk_from member
    walk_from-known out e id r n =
        let (c, all) = walk-Closed _ (reverse heads) [] out (λ j k. cc) e in
        let (ps, o, _) = c id ((walk_from-done out e id).1 r) in cc

    pub walk_from-missing :
        (id : Str) → walk_from graph next heads ≡ missing id → Reach heads id × (next id ≡ none)
    unfolding walk_from
    walk_from-missing id e =
        walk_missing heads _ (reverse heads) [] id (λ j m. head (sym (member-reverse j heads) ∙ m))
          e

-- More starting points lead to more.
pub Reach-more :
    {next : Str → Option (List Str)} {a b : List Str} {id : Str}
    → ((z : Str) → member z a ≡ true → member z b ≡ true)
    → Reach next a id
    → Reach next b id
Reach-more sub (head m) = head (sub _ m)
Reach-more sub (parent ps r e m) = parent ps (Reach-more sub r) e m
