-- ===== src/Log/OpLog/Tree.antt =====
-- `materialize` of packages/log/src/oplog.ts: the tree of a view, last writer wins.
pub mod LastWriter
pub mod Converges
use thaddeus.Prelude.{
  Bool, true, false, ◌&&◌, Option, none, some, List, [], ◌∷◌, Str, ◌==◌, member, keep,
}
use thaddeus.Prelude.Dict.{Dict, get, put, remove}
use thaddeus.Log.Op.{Ref, Op}
use thaddeus.Log.OpLog.{OpLog, StoreApi, heads, ordered, ancestor_closure}
use thaddeus.Log.OpLog.Write.{placeable}

pub record Entry : Type 0 where
  pub ref : Ref
  pub op : Op

-- One turn of the loop: a tombstone deletes its path, any other operation sets it.
unfoldable pub apply_op : Dict Entry → Op → Dict Entry
apply_op tree op = elim op.payload [
  | none ↦ remove tree op.path
  | some ref ↦ put tree op.path (record { ref = ref; op = op })
]

unfoldable pub apply_ops : Dict Entry → List Op → Dict Entry
unfolding apply_op
apply_ops tree [] = tree
apply_ops tree (op ∷ ops) = apply_ops (apply_op tree op) ops

module _ {W : Type 0} (api : StoreApi W) where
  -- The operations that are applied: reachable from the view's heads and placeable, in order.
  unfoldable pub visible : OpLog → W → Option Str → Option Str → List Op
  visible l w view viewer =
      let reached = ancestor_closure l (heads l view) in
      keep (λ op. member op.id reached && placeable api l w viewer op) (ordered l)

  unfoldable pub materialize : OpLog → W → Option Str → Option Str → Dict Entry
  unfolding apply_ops
  materialize l w view viewer = apply_ops [] (visible l w view viewer)
