-- ===== src/Log/OpLog/Tree/Converges.antt =====
-- Peers that hold the same operations read the same tree (packages/log/src/oplog.ts, `append` and
-- `materialize`).
use mathlib.Core.List.{Permᴰ}
use mathlib.Core.List.Permᴰ.{nil, cons, swap, trans}
use thaddeus.Prelude.{
  ◌≡◌, refl, sym, ap, subst, fun_ext, ◌∙◌, inl, inr, Bool, true, false, ◌&&◌, Option, none, some,
  List, [], ◌∷◌, Str, ◌==◌, if◌then◌else◌, member, keep, arith, Option-cases,
}
use thaddeus.Prelude.Sorting.{IsUnique}
use thaddeus.Prelude.Dict.{get, get-put}
use thaddeus.Walk.Reach.{Reach, Reach-more}
use thaddeus.Log.Op.{Op, Env}
use thaddeus.Log.Head.Snapshot.{parents_of}
use thaddeus.Log.Head.Snapshot.Exact.{ids, lookup_op}
use thaddeus.Log.OpLog.{
  OpLog, StoreApi, heads, view_heads, ordered, ancestor_closure, parents_or_none,
}
use thaddeus.Log.OpLog.Write.{append, placeable}
use thaddeus.Log.OpLog.Order.{IsKeyed, ordered-ext}
use thaddeus.Log.OpLog.Keyed.{append-IsKeyed}
use thaddeus.Log.OpLog.Closure.{ancestor_closure_exact}
use thaddeus.Log.OpLog.Frontier.{member-frontier}
use thaddeus.Log.OpLog.Tree.{visible, materialize}

Bool-ext : (p q : Bool) → (p ≡ true → q ≡ true) → (q ≡ true → p ≡ true) → p ≡ q
Bool-ext true q f g = sym (f refl)
Bool-ext false true f g = g refl
Bool-ext false false f g = refl

keep-ext : (p q : Op → Bool) (xs : List Op) → ((op : Op) → p op ≡ q op) → keep p xs ≡ keep q xs
keep-ext p q [] h = refl
keep-ext p q (x ∷ xs) h = ground (arith, h x, keep-ext p q xs h)

-- The logs hold the same operations and embargoes.
pub record SameOps (a b : OpLog) : Type 0 where
  pub keyed_left : IsKeyed a.ops
  pub keyed_right : IsKeyed b.ops
  pub ops : (id : Str) → get a.ops id ≡ get b.ops id
  pub embargo : (id : Str) → get a.embargo id ≡ get b.embargo id

module _ {a b : OpLog} (same : SameOps a b) where
  same_parents : parents_or_none a ≡ parents_or_none b
  unfolding parents_or_none parents_of
  same_parents = fun_ext (λ id. ground (arith, same.ops id))

  same_order : ordered a ≡ ordered b
  same_order = ordered-ext a b same.keyed_left same.keyed_right same.ops

  -- The same heads, of a view or of the whole log.
  same_heads :
      (view : Option Str) (z : Str)
      → ((v : Str) → view_heads a v ≡ view_heads b v)
      → member z (heads a view) ≡ member z (heads b view)
  unfolding heads
  same_heads none z h =
      let left = member-frontier a z same.keyed_left in
      let right = member-frontier b z same.keyed_right in cc (left, right, same_order)
  same_heads (some view) z h = ap (member z) (h view)

  same_closure :
      (hs ks : List Str) (id : Str)
      → ((z : Str) → member z hs ≡ member z ks)
      → member id (ancestor_closure a hs) ≡ member id (ancestor_closure b ks)
  same_closure hs ks id e =
      let left = ancestor_closure_exact a hs id in
      let right = ancestor_closure_exact b ks id in
      Bool-ext _ _
        (λ m. right.1 (
          subst (λ next. Reach next ks id) same_parents
            (Reach-more (λ z k. sym (e z) ∙ k) (left.0 m))))
        (λ m. left.1 (
          subst (λ next. Reach next hs id) (sym same_parents)
            (Reach-more (λ z k. e z ∙ k) (right.0 m))))

  module _ {W : Type 0} (api : StoreApi W) where
    same_placeable :
        (w : W) (viewer : Option Str) (op : Op)
        → placeable api a w viewer op ≡ placeable api b w viewer op
    unfolding placeable
    same_placeable w viewer op = rw (same.embargo op.id, placeable)

    same_visible :
        (w : W) (view viewer : Option Str)
        → ((v : Str) → view_heads a v ≡ view_heads b v)
        → visible api a w view viewer ≡ visible api b w view viewer
    unfolding visible
    same_visible w view viewer h =
        ap
          (keep
            (λ op. member op.id (ancestor_closure a (heads a view)) && placeable api a w viewer op))
          same_order
        ∙ keep-ext _ _ (ordered b) λ op.
          let reached =
            same_closure (heads a view) (heads b view) op.id (λ z. same_heads view z h) in
          cc (reached, same_placeable w viewer op)

    -- Two logs that hold the same operations and embargoes, and whose views have the same heads, give
    -- the same tree, of the whole log and of every view.
    pub materialize_same :
        (w : W) (view viewer : Option Str)
        → ((v : Str) → view_heads a v ≡ view_heads b v)
        → materialize api a w view viewer ≡ materialize api b w view viewer
    unfolding materialize
    materialize_same w view viewer h = cc (same_visible w view viewer h)

-- A peer's operations, appended one after another; `none` as soon as one of them throws.
module _ (e : Env) where
  unfoldable pub append_all : OpLog → List Op → Option OpLog
  append_all l [] = some l
  append_all l (op ∷ ops) = elim (append e l op) [ none ↦ none | some l' ↦ append_all l' ops ]

  -- `a ?? b`
  abbrev first_of_two : Option Op → Option Op → Option Op
  first_of_two none b = b
  first_of_two (some a) b = some a

  append-get :
      (l l' : OpLog) (op : Op) (id : Str)
      → append e l op ≡ some l'
      → get l'.ops id ≡ first_of_two (get l.ops id) (if op.id == id then some op else none)
  unfolding append
  append-get l l' op id q = ground (arith, get-put l.ops op.id id op)

  append-rest :
      (l l' : OpLog) (op : Op)
      → append e l op ≡ some l'
      → (l'.views ≡ l.views) × (l'.embargo ≡ l.embargo)
  unfolding append
  append-rest l l' op q = ground arith

  -- What a log is after a batch was appended.
  record IsAppended (l : OpLog) (ops : List Op) (l' : OpLog) : Type 0 where
    views : l'.views ≡ l.views
    embargo : l'.embargo ≡ l.embargo
    keyed : IsKeyed l.ops → IsKeyed l'.ops
    found : (id : Str) → get l'.ops id ≡ first_of_two (get l.ops id) (lookup_op ops id)

  append_all-IsAppended :
      (l l' : OpLog) (ops : List Op) → append_all l ops ≡ some l' → IsAppended l ops l'
  unfolding append_all
  append_all-IsAppended l l' [] q = record {
    views = ground arith;
    embargo = ground arith;
    keyed = λ k. subst (λ (x : OpLog). IsKeyed x.ops) {x = l} {y = l'} (cc) k;
    found = λ id. ground arith;
  }
  append_all-IsAppended l l' (op ∷ ops) q = elim (Option-cases (append e l op)) [
    | inl throws ↦ absurd (ground arith)
    | inr (m, one) ↦
        let ih = append_all-IsAppended m l' ops (ground arith) in
        let kept = append-rest l m op one in
        record {
          views = ih.views ∙ kept.0;
          embargo = ih.embargo ∙ kept.1;
          keyed = λ k. ih.keyed (append-IsKeyed e l m op one k);
          found = λ id. ground (arith, ih.found id, append-get l m op id one);
        }
  ]

  member-ids-permᴰ :
      (z : Str) {xs ys : List Op} → Permᴰ xs ys → member z (ids xs) ≡ member z (ids ys)
  unfolding member
  member-ids-permᴰ z nil = refl
  member-ids-permᴰ z (cons {a} {b} p d) = ground (arith, p, member-ids-permᴰ z d)
  member-ids-permᴰ z (swap p q) = ground (arith, p, q)
  member-ids-permᴰ z (trans d d') = member-ids-permᴰ z d ∙ member-ids-permᴰ z d'

  IsUnique-permᴰ : {xs ys : List Op} → Permᴰ xs ys → IsUnique (ids xs) → IsUnique (ids ys)
  unfolding member
  IsUnique-permᴰ nil u = tt
  IsUnique-permᴰ (cons {a} {b} p d) u =
      ground (arith, p, member-ids-permᴰ b.id d, IsUnique-permᴰ d u.1)
  IsUnique-permᴰ (swap p q) u = ground (arith, p, q)
  IsUnique-permᴰ (trans d d') u = IsUnique-permᴰ d' (IsUnique-permᴰ d u)

  lookup_op-permᴰ :
      (id : Str) {xs ys : List Op}
      → Permᴰ xs ys
      → IsUnique (ids xs)
      → lookup_op xs id ≡ lookup_op ys id
  unfolding member
  lookup_op-permᴰ id nil u = refl
  lookup_op-permᴰ id (cons p d) u = ground (arith, p, lookup_op-permᴰ id d u.1)
  lookup_op-permᴰ id (swap p q) u = ground (arith, p, q)
  lookup_op-permᴰ id (trans d d') u =
      lookup_op-permᴰ id d u ∙ lookup_op-permᴰ id d' (IsUnique-permᴰ d u)

  -- Two peers that start from one log, whose operations stand under their ids, and append the same
  -- operations, with distinct ids, in any two orders without a throw, read the same tree of the whole
  -- log and of every view, under every viewer.
  pub materialize_converges :
      {W : Type 0} (api : StoreApi W) (w : W) (l a b : OpLog) (xs ys : List Op)
      (view viewer : Option Str)
      → IsKeyed l.ops
      → IsUnique (ids xs)
      → Permᴰ xs ys
      → append_all l xs ≡ some a
      → append_all l ys ≡ some b
      → materialize api a w view viewer ≡ materialize api b w view viewer
  unfolding view_heads
  materialize_converges api w l a b xs ys view viewer k u d p q =
      let left = append_all-IsAppended l a xs p in
      let right = append_all-IsAppended l b ys q in
      materialize_same {a = a} {b = b}
        (record {
          keyed_left = left.keyed k;
          keyed_right = right.keyed k;
          ops = λ id. ground (arith, left.found id, right.found id, lookup_op-permᴰ id d u);
          embargo = λ id. ground (arith, left.embargo, right.embargo);
        })
        api w view viewer (λ v. ground (arith, left.views, right.views))
