-- ===== src/Prelude/Sorting/Laws.antt =====
-- Sorting forgets the order of its input, and a sorted list is determined by its members.
use mathlib.Core.Path.{◌≡◌, refl, ◌∙◌}
use mathlib.Core.Bool.{true, false}
use mathlib.Core.List.{List, [], ◌∷◌, ◌++◌, Permᴰ}
use mathlib.Core.List.Permᴰ.{nil, cons, swap, trans}
use native.Mathlib.Omega.{arith}
use thaddeus.Prelude.Texts.{Str, lt_str, lt_str_irrefl, lt_str_trans, lt_str_total}
use thaddeus.Prelude.Sorting.{
  member, unique_from, unique, insert, sort, member-sort, member-unique, member-append, Above,
  IsSorted, IsUnique,
}

insert_comm : (x y : Str) (zs : List Str) → insert x (insert y zs) ≡ insert y (insert x zs)
unfolding insert
insert_comm x y [] = ground (arith, lt_str_total x y, lt_str_trans x y x, lt_str_irrefl x)
insert_comm x y (z ∷ zs) = ground (
  arith,
  insert_comm x y zs,
  lt_str_total x y,
  lt_str_trans x y x,
  lt_str_irrefl x,
  lt_str_trans x y z,
  lt_str_trans y x z,
  lt_str_trans z x y,
  lt_str_trans z y x,
)

pub sort-permᴰ : {xs ys : List Str} → Permᴰ xs ys → sort xs ≡ sort ys
unfolding sort
sort-permᴰ nil = refl
sort-permᴰ (cons {a} {b} {l₁} {l₂} e p) = cc (e, sort-permᴰ p)
sort-permᴰ (swap {a} {b} {a'} {b'} {l} e f) = cc (e, f, insert_comm a b (sort l))
sort-permᴰ (trans p q) = sort-permᴰ p ∙ sort-permᴰ q

insert-Above :
    (w x : Str) (ys : List Str)
    → lt_str w x ≡ true
    → Above w ys
    → member x ys ≡ false
    → Above w (insert x ys)
unfolding insert member
insert-Above w x [] h a m = (h, tt)
insert-Above w x (y ∷ ys) h a m = ground (arith, insert-Above y x ys, lt_str_total x y)

insert-IsSorted :
    (x : Str) (ys : List Str) → IsSorted ys → member x ys ≡ false → IsSorted (insert x ys)
unfolding insert member
insert-IsSorted x [] s m = tt
insert-IsSorted x (y ∷ ys) s m = ground (arith, insert-Above y x ys, lt_str_total x y)

pub sort-IsSorted : (xs : List Str) → IsUnique xs → IsSorted (sort xs)
unfolding sort
sort-IsSorted [] u = tt
sort-IsSorted (x ∷ xs) u =
    insert-IsSorted x (sort xs) (sort-IsSorted xs u.1) (member-sort x xs ∙ u.0)

unique_from-fresh :
    (z : Str) (seen xs : List Str) → member z seen ≡ true → member z (unique_from seen xs) ≡ false
unfolding member unique_from
unique_from-fresh z seen [] h = refl
unique_from-fresh z seen (x ∷ xs) h =
    ground (arith, unique_from-fresh z (x ∷ seen) xs, unique_from-fresh z seen xs)

unique_from-IsUnique : (seen xs : List Str) → IsUnique (unique_from seen xs)
unfolding unique_from member
unique_from-IsUnique seen [] = tt
unique_from-IsUnique seen (x ∷ xs) = ground (
  arith,
  unique_from-IsUnique seen xs,
  unique_from-IsUnique (x ∷ seen) xs,
  unique_from-fresh x (x ∷ seen) xs,
)

pub unique-IsUnique : (xs : List Str) → IsUnique (unique xs)
unfolding unique
unique-IsUnique xs = unique_from-IsUnique [] xs

pub Above-lt : (x z : Str) (ys : List Str) → Above x ys → member z ys ≡ true → lt_str x z ≡ true
unfolding member
Above-lt x z [] a m = cc
Above-lt x z (y ∷ ys) a m = ground (arith, Above-lt y z ys, lt_str_trans x y z)

pub Above-not_member : (x : Str) (ys : List Str) → Above x ys → member x ys ≡ false
Above-not_member x ys a = ground (arith, Above-lt x x ys, lt_str_irrefl x)

Above-IsSorted : (x : Str) (ys : List Str) → Above x ys → IsSorted ys
Above-IsSorted x [] a = tt
Above-IsSorted x (y ∷ ys) a = a.1

heads_eq :
    (x y : Str) (xs ys : List Str)
    → Above x xs
    → Above y ys
    → ((z : Str) → member z (x ∷ xs) ≡ member z (y ∷ ys))
    → x ≡ y
unfolding member
heads_eq x y xs ys s t h =
    ground
      (arith, h x, h y, Above-lt x y xs s, Above-lt y x ys t, lt_str_trans x y x, lt_str_irrefl x)

tails_eq :
    (x y : Str) (xs ys : List Str)
    → x ≡ y
    → Above x xs
    → Above y ys
    → ((z : Str) → member z (x ∷ xs) ≡ member z (y ∷ ys))
    → (z : Str) → member z xs ≡ member z ys
unfolding member
tails_eq x y xs ys e s t h z = ground (arith, h z, Above-not_member x xs s, Above-not_member y ys t)

-- Sorted lists with the same members are equal.
pub IsSorted-ext :
    (xs ys : List Str)
    → IsSorted xs
    → IsSorted ys
    → ((z : Str) → member z xs ≡ member z ys)
    → xs ≡ ys
IsSorted-ext [] [] s t h = refl
IsSorted-ext [] (y ∷ ys) s t h = unfold member in ground (arith, h y)
IsSorted-ext (x ∷ xs) [] s t h = unfold member in ground (arith, h x)
IsSorted-ext (x ∷ xs) (y ∷ ys) s t h =
    let e = heads_eq x y xs ys s t h in
    let r =
      IsSorted-ext xs ys (Above-IsSorted x xs s) (Above-IsSorted y ys t)
        (tails_eq x y xs ys e s t h) in
    cc

-- `[...new Set([...a, ...b])].sort()` does not depend on which list comes first.
pub sort-unique-append_comm : (a b : List Str) → sort (unique (a ++ b)) ≡ sort (unique (b ++ a))
sort-unique-append_comm a b =
    IsSorted-ext _ _ (sort-IsSorted _ (unique-IsUnique (a ++ b)))
      (sort-IsSorted _ (unique-IsUnique (b ++ a)))
      λ z. ground (
        arith,
        member-sort z (unique (a ++ b)),
        member-sort z (unique (b ++ a)),
        member-unique z (a ++ b),
        member-unique z (b ++ a),
        member-append z a b,
        member-append z b a,
      )
