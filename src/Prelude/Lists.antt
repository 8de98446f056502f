-- ===== src/Prelude/Lists.antt =====
-- Lists measured and indexed by native numbers, under the library's names.
use Prim.Native.Nat.{ℕ, zero, suc, ◌+◌}
use mathlib.Core.Path.{◌≡◌, subst, sym, refl}
use mathlib.Core.Logic.{◌⊎◌, inl, inr}
use mathlib.Core.Bool.{Bool, true, false, ◌&&◌, ◌||◌}
use mathlib.Core.List.{List, [], ◌∷◌, ◌++◌, reverse, reverse-cons}
use mathlib.Core.List.{Memᴰ}
use mathlib.Core.List.Memᴰ.{head, tail, not-nil}
use mathlib.Core.Option.{Option, none, some}
use native.Mathlib.Omega.{arith}
use thaddeus.Prelude.Tests.{if◌then◌else◌, Bool-cases}

module _ {ℓ} {A : Type ℓ} where
  abbrev pub length : List A → ℕ
  length [] = 0
  length (x ∷ xs) = suc (length xs)

  abbrev pub get_elem? : List A → ℕ → Option A
  get_elem? [] i = none
  get_elem? (x ∷ xs) zero = some x
  get_elem? (x ∷ xs) (suc i) = get_elem? xs i

  -- `xs.at(-1)`
  abbrev pub get_last? : List A → Option A
  get_last? [] = none
  get_last? (x ∷ []) = some x
  get_last? (x ∷ y ∷ xs) = get_last? (y ∷ xs)

  -- `xs.slice(n)`
  abbrev pub drop : ℕ → List A → List A
  drop zero xs = xs
  drop (suc n) [] = []
  drop (suc n) (x ∷ xs) = drop n xs

  abbrev pub take : ℕ → List A → List A
  take zero xs = []
  take (suc n) [] = []
  take (suc n) (x ∷ xs) = x ∷ take n xs

  -- `xs.some(p)` and `xs.every(p)`
  abbrev pub any : (A → Bool) → List A → Bool
  any p [] = false
  any p (x ∷ xs) = p x || any p xs

  abbrev pub all : (A → Bool) → List A → Bool
  all p [] = true
  all p (x ∷ xs) = p x && all p xs

  -- `xs.find(p)`
  abbrev pub find : (A → Bool) → List A → Option A
  find p [] = none
  find p (x ∷ xs) = if p x then some x else find p xs

  -- `xs.filter(p)`
  abbrev pub keep : (A → Bool) → List A → List A
  keep p [] = []
  keep p (x ∷ xs) = let rest = keep p xs in if p x then x ∷ rest else rest

  pub length-append : (xs ys : List A) → length (xs ++ ys) ≡ length xs + length ys
  length-append [] ys = omega arith
  length-append (x ∷ xs) ys = omega (arith, length-append xs ys)

module _ {ℓ} {A : Type ℓ} where
  pub length-reverse : (xs : List A) → length (reverse xs) ≡ length xs
  length-reverse [] = omega arith
  length-reverse (x ∷ xs) =
      rw reverse-cons (omega (arith, length-append (reverse xs) (x ∷ []), length-reverse xs))

  pub Memᴰ-append : (x : A) (xs ys : List A) → Memᴰ x (xs ++ ys) → Memᴰ x xs ⊎ Memᴰ x ys
  Memᴰ-append x [] ys h = inr h
  Memᴰ-append x (y ∷ xs) ys (head e) = inl (head e)
  Memᴰ-append x (y ∷ xs) ys (tail h) = elim (Memᴰ-append x xs ys h) [
    | inl i ↦ inl (tail i)
    | inr i ↦ inr i
  ]

  -- `filter` keeps the elements that pass.
  pub Memᴰ-keep :
      (p : A → Bool) (x : A) (xs : List A) → Memᴰ x (keep p xs) → Memᴰ x xs × (p x ≡ true)
  Memᴰ-keep p x [] h = absurd (not-nil h)
  Memᴰ-keep p x (y ∷ ys) h = elim (Bool-cases (p y)) [
    | inl k ↦ elim (subst (Memᴰ x) (kept k) h) [
      | head e ↦ (head e, subst (λ z. p z ≡ true) (sym e) k)
      | tail i ↦ let (j, q) = Memᴰ-keep p x ys i in (tail j, q)
    ]
    | inr k ↦ let (j, q) = Memᴰ-keep p x ys (subst (Memᴰ x) (dropped k) h) in (tail j, q)
  ]
    where
      kept : p y ≡ true → keep p (y ∷ ys) ≡ y ∷ keep p ys
      kept k = cc

      dropped : p y ≡ false → keep p (y ∷ ys) ≡ keep p ys
      dropped k = cc

  pub keep-Memᴰ : (p : A → Bool) (x : A) (xs : List A) → Memᴰ x xs → p x ≡ true → Memᴰ x (keep p xs)
  keep-Memᴰ p x [] h q = absurd (not-nil h)
  keep-Memᴰ p x (y ∷ ys) (head e) q = subst (Memᴰ x) (sym kept) (head e)
    where
      kept : keep p (y ∷ ys) ≡ y ∷ keep p ys
      kept = cc
  keep-Memᴰ p x (y ∷ ys) (tail h) q = elim (Bool-cases (p y)) [
    | inl k ↦ subst (Memᴰ x) (sym (kept k)) (tail (keep-Memᴰ p x ys h q))
    | inr k ↦ subst (Memᴰ x) (sym (dropped k)) (keep-Memᴰ p x ys h q)
  ]
    where
      kept : p y ≡ true → keep p (y ∷ ys) ≡ y ∷ keep p ys
      kept k = cc

      dropped : p y ≡ false → keep p (y ∷ ys) ≡ keep p ys
      dropped k = cc

  -- `some` is false exactly when no element passes.
  pub any-false : (p : A → Bool) (x : A) (xs : List A) → any p xs ≡ false → Memᴰ x xs → p x ≡ false
  any-false p x [] a h = absurd (not-nil h)
  any-false p x (y ∷ ys) a (head e) = subst (λ z. p z ≡ false) (sym e) (ground arith)
  any-false p x (y ∷ ys) a (tail h) = any-false p x ys (ground arith) h

  pub any-true : (p : A → Bool) (xs : List A) → any p xs ≡ true → (x : A) × Memᴰ x xs × (p x ≡ true)
  any-true p [] a = absurd (ground arith)
  any-true p (y ∷ ys) a = elim (Bool-cases (p y)) [
    | inl k ↦ (y, head refl, k)
    | inr k ↦ let (x, i, q) = any-true p ys (ground arith) in (x, tail i, q)
  ]

  pub Memᴰ-any : (p : A → Bool) (x : A) (xs : List A) → Memᴰ x xs → p x ≡ true → any p xs ≡ true
  Memᴰ-any p x [] h q = absurd (not-nil h)
  Memᴰ-any p x (y ∷ ys) (head e) q = cc
  Memᴰ-any p x (y ∷ ys) (tail h) q = ground (arith, Memᴰ-any p x ys h q)

  -- `every` is true exactly when all elements pass.
  pub all-Memᴰ : (p : A → Bool) (x : A) (xs : List A) → all p xs ≡ true → Memᴰ x xs → p x ≡ true
  all-Memᴰ p x [] a h = absurd (not-nil h)
  all-Memᴰ p x (y ∷ ys) a (head e) = subst (λ z. p z ≡ true) (sym e) (ground arith)
  all-Memᴰ p x (y ∷ ys) a (tail h) = all-Memᴰ p x ys (ground arith) h

  pub Memᴰ-all : (p : A → Bool) (xs : List A) → ((x : A) → Memᴰ x xs → p x ≡ true) → all p xs ≡ true
  Memᴰ-all p [] h = refl
  Memᴰ-all p (y ∷ ys) h = ground (arith, h y (head refl), Memᴰ-all p ys (λ x i. h x (tail i)))

  pub keep-empty :
      (p : A → Bool) (xs : List A) → length (keep p xs) ≡ 0 → (x : A) → Memᴰ x xs → p x ≡ false
  keep-empty p xs e x i = elim (Bool-cases (p x)) [
    | inr k ↦ k
    | inl k ↦ absurd (nonempty (keep p xs) (keep-Memᴰ p x xs i k) e)
  ]
    where
      nonempty : (ys : List A) → Memᴰ x ys → ¬ (length ys ≡ 0)
      nonempty [] j q = not-nil j
      nonempty (y ∷ ys) j q = omega arith
