-- ===== src/Log/Head/Snapshot.antt =====
-- `verifyHeadSnapshot` of packages/log/src/head.ts, and what its verdict means.
pub mod Exact
use thaddeus.Prelude.{
  ℕ, zero, suc, Bool, true, false, not, Option, none, some, List, [], ◌∷◌, Str, ◌==◌, member,
  if◌then◌else◌, find, all, ◌≡◌, map,
}
use thaddeus.Prelude.Dict.{Dict, get, put, has}
use thaddeus.Walk.{Outcome, done, missing, out_of_fuel, walk_from}
use thaddeus.Log.Op.{Op, Env, verify_op}
use thaddeus.Log.Head.{
  HeadRecord, HeadVerification, Checked, pass, reject, valid, invalid, require, ◌>>=◌, ◌>>◌,
  invalid_operation, duplicate_operation, missing_operation, extra_operation, verify_head,
}

-- The parents of each operation of a map.
unfoldable pub op_graph : Dict Op → Dict (List Str)
op_graph [] = []
op_graph ((id, op) ∷ ops) = (id, op.parents) ∷ op_graph ops

unfoldable pub parents_of : Dict Op → Str → Option (List Str)
parents_of by_id id = elim (get by_id id) [ none ↦ none | some op ↦ some op.parents ]

-- The first operation that the walk did not reach.
unfoldable pub check_extra : List Str → List Op → HeadVerification
check_extra reachable operations = elim (find (λ op. not (member op.id reachable)) operations) [
  | none ↦ valid
  | some op ↦ reject (record { code = extra_operation; index = none; id = some op.id })
]

-- What follows the walk. It does not run out of rounds (`Walk.Ends`), so the last case is never met.
unfoldable pub check_reached : List Op → Outcome → HeadVerification
unfolding check_extra
check_reached operations (done reachable) = check_extra reachable operations
check_reached operations (missing id) =
    reject (record { code = missing_operation; index = none; id = some id })
check_reached operations out_of_fuel = invalid missing_operation

module _ (e : Env) where
  -- The loop over `operations.entries()` that fills `byId`.
  unfoldable pub index_operations : ℕ → Dict Op → List Op → Checked (Dict Op)
  index_operations index by_id [] = pass by_id
  index_operations index by_id (op ∷ ops) = do
    require (verify_op e op)
        (reject (record { code = invalid_operation; index = some index; id = some op.id }))
    require (not (has by_id op.id))
        (reject (record { code = duplicate_operation; index = some index; id = some op.id }))
    index_operations (suc index) (put by_id op.id op) ops

  unfoldable pub verify_head_snapshot : HeadRecord → List Op → HeadVerification
  unfolding check_reached
  verify_head_snapshot head operations = do
    verify_head e.crypto head
    by_id ← index_operations 0 [] operations
    check_reached operations (walk_from (op_graph by_id) (parents_of by_id) head.heads)
