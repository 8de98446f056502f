-- ===== src/Log/Head/Pins.antt =====
-- The pinned prefix of `verifyHeadChain` (packages/log/src/head.ts).
use thaddeus.Prelude.{
  ℕ, zero, suc, ◌+◌, ◌≤◌, ◌≡◌, refl, subst, ◌↔◌, Option, none, some, List, [], ◌∷◌, ◌==◌, get_elem?,
  length, arith, ◌<◌, dec_le,
}
use thaddeus.Identity.{Crypto}
use thaddeus.Log.Head.{
  HeadRecord, HeadVerification, valid, invalid, invalid_at, require, >>=-eq-pass, verify_head,
  check_pins, check_prefix, rollback, fork,
}
use thaddeus.Log.Head.Chain.{at_index-valid}

-- The pinned record verifies and stands at its place in the chain, by its id.
abbrev pub PinnedAt : Crypto → List HeadRecord → ℕ → HeadRecord → Type 0
PinnedAt c chain j p =
    (verify_head c p ≡ valid) × (r : HeadRecord) × (get_elem? chain j ≡ some r) × (r.id ≡ p.id)

-- So does every pinned record.
abbrev pub Extends : Crypto → List HeadRecord → Option (List HeadRecord) → Type 0
Extends c chain none = Unit {0}
Extends c chain (some pins) =
    (i : ℕ) (p : HeadRecord) → get_elem? pins i ≡ some p → PinnedAt c chain i p

get_elem?-lt :
    (xs : List HeadRecord) (i : ℕ) (x : HeadRecord) → get_elem? xs i ≡ some x → i < length xs
get_elem?-lt [] i x e = cc
get_elem?-lt (y ∷ xs) zero x e = omega arith
get_elem?-lt (y ∷ xs) (suc i) x e = omega (arith, get_elem?-lt xs i x e)

lt-get_elem? :
    (xs : List HeadRecord) (i : ℕ) → i < length xs → (x : HeadRecord) × (get_elem? xs i ≡ some x)
lt-get_elem? [] i h = elim h [ ]
lt-get_elem? (y ∷ xs) zero h = (y, refl)
lt-get_elem? (y ∷ xs) (suc i) h = lt-get_elem? xs i (omega arith)

module _ (c : Crypto) (chain : List HeadRecord) where
  -- What the loop over the pins has to show from place `k` on.
  abbrev Pinned : ℕ → List HeadRecord → Type 0
  Pinned k pins = (i : ℕ) (p : HeadRecord) → get_elem? pins i ≡ some p → PinnedAt c chain (k + i) p

  check_pin : ℕ → HeadRecord → HeadVerification
  check_pin k p = elim (get_elem? chain k) [
    | none ↦ invalid rollback
    | some remote ↦ require (remote.id == p.id) (invalid_at fork k)
  ]

  check_pin-same :
      (k : ℕ) (p : HeadRecord)
      → check_pin k p ≡ valid
      → (r : HeadRecord) × (get_elem? chain k ≡ some r) × (r.id ≡ p.id)
  unfolding check_pin
  check_pin-same k p e = ground arith

  same-check_pin :
      (k : ℕ) (p r : HeadRecord) → get_elem? chain k ≡ some r → r.id ≡ p.id → check_pin k p ≡ valid
  unfolding check_pin
  same-check_pin k p r g e = ground arith

  Pinned-cons :
      (k : ℕ) (q : HeadRecord) (pins : List HeadRecord)
      → PinnedAt c chain k q
      → Pinned (suc k) pins
      → Pinned k (q ∷ pins)
  Pinned-cons k q pins here more zero p g =
      subst (λ j. PinnedAt c chain j p) (omega arith) (subst (PinnedAt c chain k) (cc) here)
  Pinned-cons k q pins here more (suc i) p g =
      subst (λ j. PinnedAt c chain j p) (omega arith) (more i p g)

  check_pins-Pinned :
      (k : ℕ) (pins : List HeadRecord) → check_pins c chain k pins ≡ valid → Pinned k pins
  unfolding check_pins check_pin
  check_pins-Pinned k [] e = λ i p g. cc
  check_pins-Pinned k (q ∷ pins) e =
      let (u, v, rest) = >>=-eq-pass _ _ e in
      let (t, s, more) = >>=-eq-pass _ _ rest in
      let (r, g, same) = check_pin-same k q s in
      Pinned-cons k q pins (at_index-valid k (verify_head c q) v, r, g, same)
        (check_pins-Pinned (suc k) pins more)

  at_start : (k : ℕ) (p : HeadRecord) → PinnedAt c chain (k + 0) p → PinnedAt c chain k p
  at_start k p = subst (λ j. PinnedAt c chain j p) (omega arith)

  Pinned-check_pins :
      (k : ℕ) (pins : List HeadRecord) → Pinned k pins → check_pins c chain k pins ≡ valid
  unfolding check_pins check_pin
  Pinned-check_pins k [] h = refl
  Pinned-check_pins k (p ∷ pins) h =
      let (v, r, g, e) = at_start k p (h 0 p refl) in
      let here = same-check_pin k p r g e in
      let rest =
        Pinned-check_pins (suc k) pins
          (λ i q x. subst (λ j. PinnedAt c chain j q) (omega arith) (h (suc i) q x)) in
      ground (arith, v, here, rest)

  Extends-length :
      (pins : List HeadRecord) → Extends c chain (some pins) → length pins ≤ length chain
  Extends-length pins h = elim (dec_le (length pins) (length chain)) [
    | yes fits ↦ fits
    | no over ↦
        let (p, g) = lt-get_elem? pins (length chain) (omega arith) in
        let (v, r, at, e) = h (length chain) p g in
        absurd (omega (arith, get_elem?-lt chain (length chain) r at))
  ]

  loop_passed :
      (pins : List HeadRecord)
      → check_prefix c chain (some pins) ≡ valid
      → check_pins c chain 0 pins ≡ valid
  unfolding check_prefix
  loop_passed pins e = ground arith

  pub check_prefix_exact :
      (pins : Option (List HeadRecord)) → (check_prefix c chain pins ≡ valid) ↔ Extends c chain pins
  unfolding check_prefix
  check_prefix_exact none = (λ e. tt, λ h. refl)
  check_prefix_exact (some pins) = (
    λ e i p g.
        subst (λ j. PinnedAt c chain j p) {x = 0 + i} {y = i} (omega arith)
          (check_pins-Pinned 0 pins (loop_passed pins e) i p g),
    λ h. ground (
      arith,
      Extends-length pins h,
      Pinned-check_pins 0 pins (λ i p g. subst (λ j. PinnedAt c chain j p) (omega arith) (h i p g)),
    ),
  )
