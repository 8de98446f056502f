-- ===== src/Log/OpLog/Closure.antt =====
-- The ancestor walks of packages/log/src/oplog.ts: what they visit, and that they end.
use thaddeus.Prelude.{
  ◌≡◌, ◌≢◌, ◌↔◌, inl, inr, ◌⊎◌, true, none, some, List, Str, member, member-reverse, reverse, arith,
  Option-cases,
}
use thaddeus.Prelude.Dict.{get}
use thaddeus.Walk.{done, walk_from}
use thaddeus.Walk.Ends.{Covers, walk_from_ends}
use thaddeus.Walk.Reach.{Reach, walk_from-done, walk_from-missing}
use thaddeus.Log.Head.Snapshot.{op_graph, parents_of}
use thaddeus.Log.Head.Snapshot.Exact.{op_graph-Covers, Outcome-cases}
use thaddeus.Log.OpLog.{OpLog, parents_or_none, ancestor_closure, reachable}

parents_or_none-Covers : (l : OpLog) → Covers (op_graph l.ops) (parents_or_none l)
unfolding parents_or_none
parents_or_none-Covers l id ps h = elim (Option-cases (parents_of l.ops id)) [
  | inl unknown ↦ inl (ground arith)
  | inr (qs, known) ↦ op_graph-Covers l.ops id ps (ground arith)
]

parents_or_none-known : (l : OpLog) (id : Str) → parents_or_none l id ≢ none
unfolding parents_or_none
parents_or_none-known l id h = ground arith

closure_done :
    (l : OpLog) (hs : List Str)
    → (seen : List Str) × (walk_from (op_graph l.ops) (parents_or_none l) hs ≡ done seen)
      × (ancestor_closure l hs ≡ seen)
unfolding ancestor_closure
closure_done l hs = elim (Outcome-cases (walk_from (op_graph l.ops) (parents_or_none l) hs)) [
  | inl o ↦ absurd (walk_from_ends _ _ (parents_or_none-Covers l) hs o)
  | inr (inl (id, o)) ↦ absurd (
      parents_or_none-known l id (walk_from-missing (parents_or_none l) (op_graph l.ops) hs id o).1)
  | inr (inr (seen, o)) ↦ (seen, o, rw o)
]

-- The ancestor closure of a set of heads holds exactly the ids that the heads lead to.
pub ancestor_closure_exact :
    (l : OpLog) (hs : List Str) (id : Str)
    → (member id (ancestor_closure l hs) ≡ true) ↔ Reach (parents_or_none l) hs id
ancestor_closure_exact l hs id =
    let (seen, o, e) = closure_done l hs in
    rw e (walk_from-done (parents_or_none l) (op_graph l.ops) hs seen o id)

-- `reachable` yields exactly the ids that the heads lead to, or throws because one of them is not in
-- the log.
pub reachable_exact :
    (l : OpLog) (hs : List Str)
    → ((out : List Str) × (reachable l hs ≡ some out)
        × ((id : Str) → (member id out ≡ true) ↔ Reach (parents_of l.ops) hs id))
      ⊎ ((reachable l hs ≡ none)
          × (id : Str) × Reach (parents_of l.ops) hs id
          × (get l.ops id ≡ none))
unfolding reachable
reachable_exact l hs = elim (Outcome-cases (walk_from (op_graph l.ops) (parents_of l.ops) hs)) [
  | inl o ↦ absurd (walk_from_ends _ _ (op_graph-Covers l.ops) hs o)
  | inr (inl (id, o)) ↦
      let (reached, unknown) = walk_from-missing (parents_of l.ops) (op_graph l.ops) hs id o in
      inr (rw o, id, reached, unfold parents_of in ground arith)
  | inr (inr (seen, o)) ↦
      let same = λ (id : Str). walk_from-done (parents_of l.ops) (op_graph l.ops) hs seen o id in
      inl (reverse seen, rw o, λ id. rw member-reverse (same id))
]
