-- ===== src/Log/OpLog/Order.antt =====
-- `ops()` of packages/log/src/oplog.ts depends on the set of operations alone.
use thaddeus.Prelude.{
  ◌≡◌, ◌≢◌, refl, ◌∙◌, subst, true, false, ◌||◌, none, some, List, [], ◌∷◌, Str, ◌==◌,
  if◌then◌else◌, lt_str_irrefl, lt_str_trans, lt_str_total, member, arith,
}
use thaddeus.Prelude.Sorting.{IsUnique}
use thaddeus.Prelude.Dict.{Dict, get, keys, values}
use thaddeus.Log.Op.{Op}
use thaddeus.Log.Head.Snapshot.Exact.{ids, lookup_op}
use thaddeus.Log.OpLog.{OpLog, lt_op, insert_op, sort_ops, ordered}

pub lt_op_trans : (x y z : Op) → lt_op x y ≡ true → lt_op y z ≡ true → lt_op x z ≡ true
unfolding lt_op
lt_op_trans x y z h k = ground (arith, lt_str_trans x.id y.id z.id)

lt_op_asym : (x y : Op) → lt_op x y ≡ true → lt_op y x ≡ false
unfolding lt_op
lt_op_asym x y h = ground (arith, lt_str_trans x.id y.id x.id, lt_str_irrefl x.id)

lt_op_total : (x y : Op) → x.id ≢ y.id → lt_op x y ≡ false → lt_op y x ≡ true
unfolding lt_op
lt_op_total x y n h = ground (arith, lt_str_total x.id y.id)

abbrev pub OpAbove : Op → List Op → Type 0
OpAbove x [] = Unit {0}
OpAbove x (y ∷ ys) = (lt_op x y ≡ true) × OpAbove y ys

-- In increasing order of lamport and id, each id once.
abbrev pub IsOrdered : List Op → Type 0
IsOrdered [] = Unit {0}
IsOrdered (x ∷ xs) = OpAbove x xs

insert-OpAbove :
    (w x : Op) (ys : List Op)
    → lt_op w x ≡ true
    → OpAbove w ys
    → member x.id (ids ys) ≡ false
    → OpAbove w (insert_op x ys)
unfolding insert_op member
insert-OpAbove w x [] h a m = (h, tt)
insert-OpAbove w x (y ∷ ys) h a m = ground (arith, insert-OpAbove y x ys, lt_op_total y x)

insert-IsOrdered :
    (x : Op) (ys : List Op)
    → IsOrdered ys
    → member x.id (ids ys) ≡ false
    → IsOrdered (insert_op x ys)
unfolding insert_op member
insert-IsOrdered x [] s m = tt
insert-IsOrdered x (y ∷ ys) s m = ground (arith, insert-OpAbove y x ys, lt_op_total y x)

member-insert_op :
    (z : Str) (x : Op) (ys : List Op)
    → member z (ids (insert_op x ys)) ≡ (x.id == z) || member z (ids ys)
unfolding insert_op member
member-insert_op z x [] = refl
member-insert_op z x (y ∷ ys) = ground (arith, member-insert_op z x ys)

pub member-sort_ops : (z : Str) (xs : List Op) → member z (ids (sort_ops xs)) ≡ member z (ids xs)
unfolding sort_ops member
member-sort_ops z [] = refl
member-sort_ops z (x ∷ xs) =
    ground (arith, member-insert_op z x (sort_ops xs), member-sort_ops z xs)

insert-IsUnique :
    (x : Op) (ys : List Op)
    → IsUnique (ids ys)
    → member x.id (ids ys) ≡ false
    → IsUnique (ids (insert_op x ys))
unfolding insert_op member
insert-IsUnique x [] u m = (refl, tt)
insert-IsUnique x (y ∷ ys) u m = ground (arith, insert-IsUnique x ys, member-insert_op y.id x ys)

pub sort_ops-IsUnique : (xs : List Op) → IsUnique (ids xs) → IsUnique (ids (sort_ops xs))
unfolding sort_ops
sort_ops-IsUnique [] u = tt
sort_ops-IsUnique (x ∷ xs) u =
    insert-IsUnique x (sort_ops xs) (sort_ops-IsUnique xs u.1) (member-sort_ops x.id xs ∙ u.0)

pub sort_ops-IsOrdered : (xs : List Op) → IsUnique (ids xs) → IsOrdered (sort_ops xs)
unfolding sort_ops
sort_ops-IsOrdered [] u = tt
sort_ops-IsOrdered (x ∷ xs) u =
    insert-IsOrdered x (sort_ops xs) (sort_ops-IsOrdered xs u.1) (member-sort_ops x.id xs ∙ u.0)

lookup_op-insert :
    (id : Str) (x : Op) (ys : List Op)
    → member x.id (ids ys) ≡ false
    → lookup_op (insert_op x ys) id ≡ (if x.id == id then some x else lookup_op ys id)
unfolding insert_op member
lookup_op-insert id x [] m = refl
lookup_op-insert id x (y ∷ ys) m = ground (arith, lookup_op-insert id x ys)

pub lookup_op-sort_ops :
    (id : Str) (xs : List Op) → IsUnique (ids xs) → lookup_op (sort_ops xs) id ≡ lookup_op xs id
unfolding sort_ops
lookup_op-sort_ops id [] u = refl
lookup_op-sort_ops id (x ∷ xs) u = ground (
  arith,
  lookup_op-insert id x (sort_ops xs),
  member-sort_ops x.id xs,
  lookup_op-sort_ops id xs u.1,
)

OpAbove-lt :
    (x w : Op) (id : Str) (ys : List Op)
    → OpAbove x ys
    → lookup_op ys id ≡ some w
    → lt_op x w ≡ true
OpAbove-lt x w id [] a h = cc
OpAbove-lt x w id (y ∷ ys) a h = ground (arith, OpAbove-lt y w id ys, lt_op_trans x y w)

OpAbove-IsOrdered : (x : Op) (ys : List Op) → OpAbove x ys → IsOrdered ys
OpAbove-IsOrdered x [] a = tt
OpAbove-IsOrdered x (y ∷ ys) a = a.1

first_eq :
    (x y : Op) (xs ys : List Op)
    → OpAbove x xs
    → OpAbove y ys
    → ((id : Str) → lookup_op (x ∷ xs) id ≡ lookup_op (y ∷ ys) id)
    → x ≡ y
first_eq x y xs ys s t h =
    ground (arith, h x.id, h y.id, OpAbove-lt x y y.id xs, OpAbove-lt y x x.id ys, lt_op_asym x y)

pub lookup_op-absent :
    (id : Str) (xs : List Op) → member id (ids xs) ≡ false → lookup_op xs id ≡ none
unfolding member
lookup_op-absent id [] m = refl
lookup_op-absent id (x ∷ xs) m = ground (arith, lookup_op-absent id xs)

-- An ordered list is determined by what it holds at each id.
pub IsOrdered-ext :
    (xs ys : List Op)
    → IsUnique (ids xs)
    → IsUnique (ids ys)
    → IsOrdered xs
    → IsOrdered ys
    → ((id : Str) → lookup_op xs id ≡ lookup_op ys id)
    → xs ≡ ys
IsOrdered-ext [] [] u v s t h = refl
IsOrdered-ext [] (y ∷ ys) u v s t h = ground (arith, h y.id)
IsOrdered-ext (x ∷ xs) [] u v s t h = ground (arith, h x.id)
IsOrdered-ext (x ∷ xs) (y ∷ ys) u v s t h =
    let e = first_eq x y xs ys s t h in
    let rest = λ (id : Str). tail_eq e id (h id) in
    let r =
      IsOrdered-ext xs ys u.1 v.1 (OpAbove-IsOrdered x xs s) (OpAbove-IsOrdered y ys t) rest in
    cc
  where
    tail_eq :
        x ≡ y
        → (id : Str) → lookup_op (x ∷ xs) id ≡ lookup_op (y ∷ ys) id
        → lookup_op xs id ≡ lookup_op ys id
    tail_eq e id k = ground (arith, lookup_op-absent x.id xs u.0, lookup_op-absent y.id ys v.0)

-- Each operation stands under its own id, and each id once.
pub record IsKeyed (m : Dict Op) : Type 0 where
  pub keyed : keys m ≡ ids (values m)
  pub distinct : IsUnique (keys m)

pub lookup_op-values :
    (m : Dict Op) (id : Str) → keys m ≡ ids (values m) → lookup_op (values m) id ≡ get m id
unfolding keys values get
lookup_op-values [] id k = refl
lookup_op-values ((j, op) ∷ m) id k =
    let head : j ≡ op.id = cc in let rest = lookup_op-values m id (cc) in ground arith

-- Two logs that hold the same operations list them in the same order, whatever order they came in,
-- if each operation of either stands under its own id, and each id once.
pub ordered-ext :
    (a b : OpLog)
    → IsKeyed a.ops
    → IsKeyed b.ops
    → ((id : Str) → get a.ops id ≡ get b.ops id)
    → ordered a ≡ ordered b
unfolding ordered
ordered-ext a b k l h =
    let u = subst IsUnique k.keyed k.distinct in
    let v = subst IsUnique l.keyed l.distinct in
    IsOrdered-ext _ _ (sort_ops-IsUnique (values a.ops) u) (sort_ops-IsUnique (values b.ops) v)
      (sort_ops-IsOrdered (values a.ops) u) (sort_ops-IsOrdered (values b.ops) v)
      λ id. cc (
        lookup_op-sort_ops id (values a.ops) u,
        lookup_op-sort_ops id (values b.ops) v,
        lookup_op-values a.ops id k.keyed,
        lookup_op-values b.ops id l.keyed,
        h id,
      )
