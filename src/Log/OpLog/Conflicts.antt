-- ===== src/Log/OpLog/Conflicts.antt =====
-- `conflicts` of packages/log/src/oplog.ts: the paths that concurrent operations of a view touch.
pub mod Groups
pub mod Sound
use thaddeus.Prelude.{
  ℕ, Bool, true, false, ◌&&◌, not, Option, none, some, List, [], ◌∷◌, ◌++◌, Str, ◌==◌, member,
  if◌then◌else◌, ltb, length, any, keep, get_last?,
}
use thaddeus.Prelude.Dict.{Dict, get, put}
use thaddeus.Log.Op.{Op}
use thaddeus.Log.Head.Snapshot.Exact.{ids}
use thaddeus.Log.OpLog.{OpLog, heads, ordered, ancestor_closure, is_ancestor}

pub record Conflict : Type 0 where
  pub path : Str
  pub ops : List Str
  pub winner : Str

-- `byPath.get(path) ?? []`
unfoldable pub at_path : Dict (List Op) → Str → List Op
at_path m path = elim (get m path) [ none ↦ [] | some ops ↦ ops ]

-- The loop that fills `byPath`.
unfoldable pub group : Dict (List Op) → List Op → Dict (List Op)
unfolding at_path
group m [] = m
group m (op ∷ ops) = group (put m op.path (at_path m op.path ++ op ∷ [])) ops

-- Different operations, neither an ancestor of the other.
unfoldable pub concurrent : OpLog → Op → Op → Bool
concurrent l a b =
    not (a.id == b.id) && not (is_ancestor l a.id b.id) && not (is_ancestor l b.id a.id)

-- The first filter: what has a concurrent operation on its path.
unfoldable pub contested : OpLog → List Op → List Op
unfolding concurrent
contested l ops = keep (λ a. any (concurrent l a) ops) ops

-- The second filter: what no other one of them descends from.
unfoldable pub undescended : OpLog → List Op → List Op
undescended l kept =
    keep (λ a. not (any (λ b. not (a.id == b.id) && is_ancestor l a.id b.id) kept)) kept

-- The body of the loop over `byPath`.
unfoldable pub conflict_at : Str → List Op → Option Conflict
conflict_at path rivals =
    if ltb 1 (length rivals)
    then elim (get_last? rivals) [
      | none ↦ none
      | some winner ↦ some (record { path = path; ops = ids rivals; winner = winner.id })
    ]
    else none

cons_some : Option Conflict → List Conflict → List Conflict
cons_some none cs = cs
cons_some (some c) cs = c ∷ cs

unfoldable pub collect : OpLog → Dict (List Op) → List Conflict
unfolding contested undescended conflict_at cons_some
collect l [] = []
collect l ((path, ops) ∷ m) =
    cons_some (conflict_at path (undescended l (contested l ops))) (collect l m)

-- The operations of a view in the order of `ops()`.
unfoldable pub in_view : OpLog → Option Str → List Op
in_view l view = keep (λ op. member op.id (ancestor_closure l (heads l view))) (ordered l)

unfoldable pub conflicts : OpLog → Option Str → List Conflict
unfolding group collect in_view
conflicts l view = collect l (group [] (in_view l view))
