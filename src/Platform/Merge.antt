-- ===== src/Platform/Merge.antt =====
-- The merged heads and the incoming operations of packages/platform/src/platform.ts.
use mathlib.Core.List.{Memᴰ}
use thaddeus.Prelude.{
  ◌≡◌, refl, ◌∙◌, subst, fun_ext, ◌↔◌, ◌⊎◌, inl, inr, Bool, true, false, ◌&&◌, ◌||◌, not, Option,
  none, some, List, [], ◌∷◌, ◌++◌, Str, member, arith, Bool-cases, Memᴰ-keep, keep-Memᴰ,
}
use thaddeus.Prelude.Sorting.{IsUnique, IsSorted, member-sort, member-unique, member-append}
use thaddeus.Prelude.Sorting.Laws.{sort-unique-append_comm, sort-IsSorted, unique-IsUnique}
use thaddeus.Prelude.Dict.{Dict, get, put, values, get-put}
use thaddeus.Walk.Reach.{Reach, head, parent, Reach-more}
use thaddeus.Log.Op.{Op}
use thaddeus.Log.Head.Snapshot.{parents_of}
use thaddeus.Log.Head.Snapshot.Exact.{ids, lookup_op}
use thaddeus.Log.OpLog.{OpLog, ordered, ancestor_closure, parents_or_none}
use thaddeus.Log.OpLog.Order.{
  IsKeyed, lookup_op-absent, sort_ops-IsUnique, lookup_op-sort_ops, lookup_op-values,
}
use thaddeus.Log.OpLog.Closure.{ancestor_closure_exact}
use thaddeus.Platform.{merge_heads, by_id, closure, incoming, log_of}

-- It does not matter which side a landing merges into which.
pub merge_heads_comm : (a b : List Str) → merge_heads a b ≡ merge_heads b a
unfolding merge_heads
merge_heads_comm a b = sort-unique-append_comm a b

pub member-merge_heads :
    (z : Str) (a b : List Str) → member z (merge_heads a b) ≡ member z a || member z b
unfolding merge_heads
member-merge_heads z a b = member-sort z _ ∙ member-unique z (a ++ b) ∙ member-append z a b

-- The merged heads are sorted, each once: what a signed head asks of its heads.
pub merge_heads-IsSorted : (a b : List Str) → IsSorted (merge_heads a b)
unfolding merge_heads
merge_heads-IsSorted a b = sort-IsSorted _ (unique-IsUnique (a ++ b))

module _ (next : Str → Option (List Str)) where
  Reach-split :
      {a b : List Str} {id : Str}
      → Reach next (merge_heads a b) id
      → Reach next a id ⊎ Reach next b id
  Reach-split {a} {b} {id} (head m) = elim (Bool-cases (member id a)) [
    | inl k ↦ inl (head k)
    | inr k ↦ inr (head (ground (arith, member-merge_heads id a b)))
  ]
  Reach-split (parent ps r e m) = elim (Reach-split r) [
    | inl q ↦ inl (parent ps q e m)
    | inr q ↦ inr (parent ps q e m)
  ]

  -- The merged heads lead to exactly what the two sides lead to: a landing drops no operation and
  -- brings nothing else.
  pub merge_heads-Reach :
      (a b : List Str) (id : Str)
      → Reach next (merge_heads a b) id ↔ (Reach next a id ⊎ Reach next b id)
  merge_heads-Reach a b id = (Reach-split, join)
    where
      join : Reach next a id ⊎ Reach next b id → Reach next (merge_heads a b) id
      join (inl r) = Reach-more (λ z m. ground (arith, member-merge_heads z a b)) r
      join (inr r) = Reach-more (λ z m. ground (arith, member-merge_heads z a b)) r

get-by_id :
    (m : Dict Op) (ops : List Op) (id : Str)
    → IsUnique (ids ops)
    → get (by_id m ops) id
      ≡ elim (lookup_op ops id) as (λ _. Option Op) [ none ↦ get m id | some op ↦ some op ]
unfolding by_id
get-by_id m [] id u = refl
get-by_id m (op ∷ ops) id u = ground (
  arith,
  get-by_id (put m op.id op) ops id u.1,
  get-put m op.id id op,
  lookup_op-absent op.id ops u.0,
)

-- The id map that a landing builds gives what the log gives.
get-by_id-ordered :
    (l : OpLog) (id : Str) → IsKeyed l.ops → get (by_id [] (ordered l)) id ≡ get l.ops id
unfolding ordered get
get-by_id-ordered l id k =
    let u = subst IsUnique k.keyed k.distinct in
    let e = get-by_id [] (ordered l) id (sort_ops-IsUnique (values l.ops) u) in
    let f = lookup_op-sort_ops id (values l.ops) u ∙ lookup_op-values l.ops id k.keyed in
    e ∙ ground (arith, f)

parents-by_id :
    (l : OpLog)
    → IsKeyed l.ops
    → parents_or_none (log_of (by_id [] (ordered l))) ≡ parents_or_none l
unfolding parents_or_none parents_of
parents-by_id l k = fun_ext λ id. ground (arith, get-by_id-ordered l id k)

closure_exact :
    (l : OpLog) (hs : List Str) (id : Str)
    → IsKeyed l.ops
    → (member id (closure (by_id [] (ordered l)) hs) ≡ true) ↔ Reach (parents_or_none l) hs id
closure_exact l hs id k =
    subst (λ next. (member id (closure (by_id [] (ordered l)) hs) ≡ true) ↔ Reach next hs id)
      (parents-by_id l k)
      (unfold closure ancestor_closure in
        ancestor_closure_exact (log_of (by_id [] (ordered l))) hs id)

-- The incoming operations of a landing are those of the log that the source's heads lead to and the
-- target's heads do not, if each operation of the log stands under its own id, and each id once.
pub incoming_exact :
    (l : OpLog) (from_heads into_heads : List Str) (op : Op)
    → IsKeyed l.ops
    → Memᴰ op (incoming l from_heads into_heads) ↔ (
        Memᴰ op (ordered l)
        × Reach (parents_or_none l) from_heads op.id
        × ¬ Reach (parents_or_none l) into_heads op.id)
unfolding incoming
incoming_exact l from_heads into_heads op k =
    let (in_from, from_in) = closure_exact l from_heads op.id k in
    let (in_into, into_in) = closure_exact l into_heads op.id k in
    (
      λ i.
          let (there, q) = Memᴰ-keep _ op (ordered l) i in
          (there, in_from (ground arith), λ r. absurd (clash (into_in r) q)),
      λ (there, r, n).
          keep-Memᴰ _ op (ordered l) there (both (from_in r) (fresh λ m. n (in_into m))),
    )
  where
    reached : Bool
    reached = member op.id (closure (by_id [] (ordered l)) from_heads)

    present : Bool
    present = member op.id (closure (by_id [] (ordered l)) into_heads)

    clash : present ≡ true → reached && not present ≡ true → ⊥
    clash p q = ground arith

    fresh : ¬ (present ≡ true) → present ≡ false
    fresh n = elim (Bool-cases present) [ inl y ↦ absurd (n y) | inr f ↦ f ]

    both : reached ≡ true → present ≡ false → reached && not present ≡ true
    both p q = cc
