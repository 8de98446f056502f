-- ===== src/Prelude/Sorting.antt =====
-- `Array.prototype.sort` on texts, and `Set` used on lists of texts.
pub mod Laws
use Prim.Native.Nat.{ℕ}
use mathlib.Core.Path.{◌≡◌, refl, ap, ◌∙◌}
use mathlib.Core.Logic.{◌⊎◌, inl, inr}
use mathlib.Core.Bool.{Bool, true, false, ◌||◌}
use mathlib.Core.Logic.{∥∥₁_elim}
use mathlib.Core.HLevel.{hedberg}
use mathlib.Core.List.{List, [], ◌∷◌, ◌++◌, reverse, reverse-cons, Perm, Permᴰ, Memᴰ}
use mathlib.Core.List.Memᴰ.{head, tail, not-nil}
use mathlib.Core.Path.{sym, subst}
use native.Mathlib.Omega.{arith}
use native.Mathlib.Decide.{ℕ_discrete}
use thaddeus.Prelude.Tests.{if◌then◌else◌}
use thaddeus.Prelude.Texts.{Str, ◌==◌, lt_str, lt_str_irrefl, lt_str_trans, lt_str_total}

-- `set.has(x)` for a set kept as a list.
unfoldable pub member : Str → List Str → Bool
member x [] = false
member x (y ∷ ys) = (y == x) || member x ys

-- `[...new Set(xs)]`: the first of each, in order. `seen` holds what came before.
unfoldable pub unique_from : List Str → List Str → List Str
unique_from seen [] = []
unique_from seen (x ∷ xs) =
    let rest = unique_from (x ∷ seen) xs in
    let skip = unique_from seen xs in if member x seen then skip else x ∷ rest

unfoldable pub unique : List Str → List Str
unfolding unique_from member
unique xs = unique_from [] xs

unfoldable pub insert : Str → List Str → List Str
insert x [] = x ∷ []
insert x (y ∷ ys) = if lt_str y x then y ∷ insert x ys else x ∷ y ∷ ys

unfoldable pub sort : List Str → List Str
unfolding insert lt_str
sort [] = []
sort (x ∷ xs) = insert x (sort xs)

pub member-insert : (z x : Str) (ys : List Str) → member z (insert x ys) ≡ (x == z) || member z ys
unfolding member insert
member-insert z x [] = refl
member-insert z x (y ∷ ys) = ground (arith, member-insert z x ys)

pub member-sort : (z : Str) (xs : List Str) → member z (sort xs) ≡ member z xs
unfolding member sort
member-sort z [] = refl
member-sort z (x ∷ xs) = ground (arith, member-insert z x (sort xs), member-sort z xs)

pub member-append : (z : Str) (xs ys : List Str) → member z (xs ++ ys) ≡ member z xs || member z ys
unfolding member
member-append z [] ys = refl
member-append z (x ∷ xs) ys = ground (arith, member-append z xs ys)

pub member-reverse : (z : Str) (xs : List Str) → member z (reverse xs) ≡ member z xs
unfolding member
member-reverse z [] = refl
member-reverse z (x ∷ xs) =
    rw reverse-cons (ground (arith, member-append z (reverse xs) (x ∷ []), member-reverse z xs))

pub member-here : (x : Str) (ys : List Str) → member x (x ∷ ys) ≡ true
unfolding member
member-here x ys = ground arith

pub member-there : (z x : Str) (ys : List Str) → member z ys ≡ true → member z (x ∷ ys) ≡ true
unfolding member
member-there z x ys h = ground arith

pub member-cons_cases :
    (z x : Str) (ys : List Str) → member z (x ∷ ys) ≡ true → (x ≡ z) ⊎ (member z ys ≡ true)
unfolding member
member-cons_cases z x ys h = ground arith

pub Memᴰ-member : (x : Str) (xs : List Str) → Memᴰ x xs → member x xs ≡ true
Memᴰ-member x [] i = absurd (not-nil i)
Memᴰ-member x (y ∷ ys) (head e) = subst (λ z. member x (z ∷ ys) ≡ true) e (member-here x ys)
Memᴰ-member x (y ∷ ys) (tail i) = member-there x y ys (Memᴰ-member x ys i)

pub member-Memᴰ : (x : Str) (xs : List Str) → member x xs ≡ true → Memᴰ x xs
member-Memᴰ x [] h = absurd (unfold member in ground arith)
member-Memᴰ x (y ∷ ys) h = elim (member-cons_cases x y ys h) [
  | inl e ↦ head (sym e)
  | inr m ↦ tail (member-Memᴰ x ys m)
]

pub member-append_cases :
    (z : Str) (xs ys : List Str)
    → member z (xs ++ ys) ≡ true
    → (member z xs ≡ true) ⊎ (member z ys ≡ true)
member-append_cases z xs ys h = ground (arith, member-append z xs ys)

-- Strictly increasing lists: what `assertCanonical` calls sorted and unique.
abbrev pub Above : Str → List Str → Type 0
Above x [] = Unit {0}
Above x (y ∷ ys) = (lt_str x y ≡ true) × Above y ys

abbrev pub IsSorted : List Str → Type 0
IsSorted [] = Unit {0}
IsSorted (x ∷ xs) = Above x xs

pub member-unique_from :
    (z : Str) (seen xs : List Str)
    → member z seen || member z (unique_from seen xs) ≡ member z seen || member z xs
unfolding member unique_from
member-unique_from z seen [] = refl
member-unique_from z seen (x ∷ xs) =
    ground (arith, member-unique_from z (x ∷ seen) xs, member-unique_from z seen xs)

pub member-unique : (z : Str) (xs : List Str) → member z (unique xs) ≡ member z xs
unfolding unique member
member-unique z xs = member-unique_from z [] xs

-- No text twice.
abbrev pub IsUnique : List Str → Type 0
IsUnique [] = Unit {0}
IsUnique (x ∷ xs) = (member x xs ≡ false) × IsUnique xs
