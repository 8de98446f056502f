-- ===== src/Log/OpLog/Conflicts/Sound.antt =====
-- What `conflicts` of packages/log/src/oplog.ts reports are conflicts.
use mathlib.Core.List.{Memᴰ}
use mathlib.Core.List.Memᴰ.{head, tail, not-nil}
use thaddeus.Prelude.{
  ◌≤◌, ◌<◌, ◌≡◌, ◌≢◌, refl, sym, ap, ◌∙◌, subst, ◌⊎◌, inl, inr, true, false, ◌&&◌, not, Option,
  some, List, [], ◌∷◌, Str, ◌==◌, ltb, lt_str, length, get_last?, arith, Bool-cases, Option-cases,
  Memᴰ-keep, any-false, any-true,
}
use thaddeus.Prelude.Dict.{Dict}
use thaddeus.Log.Op.{Op}
use thaddeus.Log.Head.Snapshot.Exact.{ids}
use thaddeus.Log.OpLog.{OpLog, is_ancestor, lt_op}
use thaddeus.Log.OpLog.Order.{IsKeyed}
use thaddeus.Log.OpLog.Conflicts.Groups.{
  AllFrom, group-AllFrom, Ascends, keep-Ascends, last-Ascends, in_view-Ascends, Rising,
  group-Rising,
}
use thaddeus.Log.OpLog.Conflicts.{
  Conflict, group, concurrent, contested, undescended, conflict_at, cons_some, collect, in_view,
  conflicts,
}

-- The ids of a conflict stand for operations of the view on its path.
pub record IsConflict (l : OpLog) (view : Option Str) (c : Conflict) : Type 0 where
  pub rivals : List Op
  pub same_ids : c.ops ≡ ids rivals
  pub several : 2 ≤ length c.ops
  pub on_path : (op : Op) → Memᴰ op rivals → (op.path ≡ c.path) × Memᴰ op (in_view l view)
  pub unrelated :
      (a b : Op) → Memᴰ a rivals → Memᴰ b rivals → a.id ≢ b.id → is_ancestor l a.id b.id ≡ false
  pub has_rival :
      (a : Op)
      → Memᴰ a rivals
      → (b : Op) × (b.path ≡ c.path) × Memᴰ b (in_view l view) × (concurrent l a b ≡ true)
  pub winner_last :
      (w : Op) × Memᴰ w rivals
      × (c.winner ≡ w.id)
      × ((b : Op)
          → Memᴰ b rivals
          → b.id ≢ w.id
          → (b.lamport < w.lamport) ⊎ ((b.lamport ≡ w.lamport) × (lt_str b.id w.id ≡ true)))

undescended-unrelated :
    (l : OpLog) (kept : List Op) (a b : Op)
    → Memᴰ a (undescended l kept)
    → Memᴰ b (undescended l kept)
    → a.id ≢ b.id
    → is_ancestor l a.id b.id ≡ false
unfolding undescended
undescended-unrelated l kept a b i j n =
    let (_, alone) = Memᴰ-keep _ a kept i in
    let (b_kept, _) = Memᴰ-keep _ b kept j in
    let none_above =
      any-false (λ b. not (a.id == b.id) && is_ancestor l a.id b.id) b kept (ground arith) b_kept in
    ground arith

contested-rival :
    (l : OpLog) (ops : List Op) (a : Op)
    → Memᴰ a (undescended l (contested l ops))
    → Memᴰ a ops × ((b : Op) × Memᴰ b ops × (concurrent l a b ≡ true))
unfolding undescended contested
contested-rival l ops a i =
    let (j, _) = Memᴰ-keep _ a (contested l ops) i in
    let (k, q) = Memᴰ-keep _ a ops j in (k, any-true (concurrent l a) ops q)

length-ids : (xs : List Op) → length (ids xs) ≡ length xs
length-ids [] = refl
length-ids (x ∷ xs) = cc (length-ids xs)

-- What one turn of the loop reports.
conflict_at-shape :
    (path : Str) (rivals : List Op) (c : Conflict)
    → conflict_at path rivals ≡ some c
    → (c.path ≡ path)
      × (c.ops ≡ ids rivals)
      × (2 ≤ length rivals)
      × ((w : Op) × (get_last? rivals ≡ some w) × (c.winner ≡ w.id))
unfolding conflict_at
conflict_at-shape path rivals c h = elim (Option-cases (get_last? rivals)) [
  | inl e ↦ absurd (ground arith)
  | inr (w, e) ↦ (ground arith, ground arith, ground arith, (w, e, ground arith))
]

lt_op-after :
    (b w : Op)
    → lt_op b w ≡ true
    → (b.lamport < w.lamport) ⊎ ((b.lamport ≡ w.lamport) × (lt_str b.id w.id ≡ true))
unfolding lt_op
lt_op-after b w h = elim (Bool-cases (ltb b.lamport w.lamport)) [
  | inl earlier ↦ inl (ground arith)
  | inr same ↦ inr (ground arith, ground arith)
]

rivals-Ascends :
    (l : OpLog) (ops : List Op) → Ascends ops → Ascends (undescended l (contested l ops))
unfolding undescended contested
rivals-Ascends l ops up = keep-Ascends _ _ (keep-Ascends _ ops up)

conflict_at-IsConflict :
    (l : OpLog) (view : Option Str) (path : Str) (ops : List Op) (c : Conflict)
    → ((op : Op) → Memᴰ op ops → (op.path ≡ path) × Memᴰ op (in_view l view))
    → Ascends ops
    → conflict_at path (undescended l (contested l ops)) ≡ some c
    → IsConflict l view c
conflict_at-IsConflict l view path ops c from up h =
    let rivals = undescended l (contested l ops) in
    let (p, i, n, (w, last, named)) = conflict_at-shape path rivals c h in
    let (there, above) = last-Ascends rivals w (rivals-Ascends l ops up) last in
    record {
      rivals = rivals;
      same_ids = i;
      several = subst (λ k. 2 ≤ k) (sym (ap length i ∙ length-ids rivals)) n;
      on_path = λ op j.
          let (k, _) = contested-rival l ops op j in let (q, m) = from op k in (q ∙ sym p, m);
      unrelated = λ a b j k. undescended-unrelated l (contested l ops) a b j k;
      has_rival = λ a j.
          let (_, (b, k, q)) = contested-rival l ops a j in
          let (r, m) = from b k in (b, r ∙ sym p, m, q);
      winner_last = (w, there, named, λ b j k. lt_op-after b w (above b j k));
    }

collect-IsConflict :
    (l : OpLog) (view : Option Str) (m : Dict (List Op)) (c : Conflict)
    → AllFrom (in_view l view) m
    → Rising [] m
    → Memᴰ c (collect l m)
    → IsConflict l view c
unfolding collect cons_some
collect-IsConflict l view [] c from rising i = absurd (not-nil i)
collect-IsConflict l view ((path, ops) ∷ m) c from rising i =
    let later = λ (t : Memᴰ c (collect l m)).
      collect-IsConflict l view m c (λ p os j. from p os (tail j)) (λ p os j. rising p os (tail j))
        t in
    elim (Option-cases (conflict_at path (undescended l (contested l ops)))) [
      | inl e ↦ later (subst (Memᴰ c) (ap (λ o. cons_some o (collect l m)) e) i)
      | inr (d, e) ↦ elim (subst (Memᴰ c) (ap (λ o. cons_some o (collect l m)) e) i) [
        | head q ↦
            conflict_at-IsConflict l view path ops c (λ op j. from path ops (head refl) op j)
              (rising path ops (head refl)).0 (e ∙ ap some (sym q))
        | tail t ↦ later t
      ]
    ]

-- Each conflict that is reported names at least two operations of the view on its path. Each of them
-- has a concurrent operation of the view on that path, and none is an ancestor of another. The winner
-- is one of them, and every other has a smaller lamport, or the same and a smaller id. Each operation
-- of the log stands under its own id, and each id once.
pub conflicts-IsConflict :
    (l : OpLog) (view : Option Str) (c : Conflict)
    → IsKeyed l.ops
    → Memᴰ c (conflicts l view)
    → IsConflict l view c
unfolding conflicts
conflicts-IsConflict l view c keyed i =
    collect-IsConflict l view (group [] (in_view l view)) c
      (group-AllFrom (in_view l view) (in_view l view) [] (λ op j. j)
        λ path ops j. absurd (not-nil j))
      (group-Rising (in_view l view) [] (in_view-Ascends l view keyed)
        λ path ops j. absurd (not-nil j))
      i
