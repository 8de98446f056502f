-- ===== src/Log/OpLog/Tree/LastWriter.antt =====
-- What a path holds in the tree of a view.
use thaddeus.Prelude.{
  ◌≡◌, refl, Option, none, some, List, [], ◌∷◌, Str, ◌==◌, if◌then◌else◌, arith, Option-cases, inl,
  inr,
}
use thaddeus.Prelude.Dict.{Dict, get, get-put, get-remove}
use thaddeus.Log.Op.{Op}
use thaddeus.Log.OpLog.{OpLog, StoreApi}
use thaddeus.Log.OpLog.Tree.{Entry, apply_op, apply_ops, visible, materialize}

-- The last operation of a list that is on a path.
abbrev pub last_on : Str → List Op → Option Op
last_on path [] = none
last_on path (op ∷ ops) =
    let later = last_on path ops in
    elim later [ none ↦ (if op.path == path then some op else none) | some x ↦ some x ]

-- What an operation leaves at its path.
abbrev pub left_by : Op → Option Entry
left_by op = elim op.payload [ none ↦ none | some ref ↦ some (record { ref = ref; op = op }) ]

apply_op-get :
    (tree : Dict Entry) (op : Op) (path : Str)
    → get (apply_op tree op) path ≡ (if op.path == path then left_by op else get tree path)
unfolding apply_op
apply_op-get tree op path = elim (Option-cases op.payload) [
  | inl gone ↦ ground (arith, get-remove tree op.path path)
  | inr (r, here) ↦ ground (arith, get-put tree op.path path (record { ref = r; op = op }))
]

apply_ops-get :
    (tree : Dict Entry) (ops : List Op) (path : Str)
    → get (apply_ops tree ops) path
      ≡ (elim (last_on path ops) [ none ↦ get tree path | some op ↦ left_by op ])
unfolding apply_ops
apply_ops-get tree [] path = refl
apply_ops-get tree (op ∷ ops) path =
    ground (arith, apply_ops-get (apply_op tree op) ops path, apply_op-get tree op path)

module _ {W : Type 0} (api : StoreApi W) where
  -- The tree of a view holds at a path what the last visible operation on that path wrote there, and
  -- nothing if there is none or if it is a tombstone.
  pub materialize-last_on :
      (l : OpLog) (w : W) (view viewer : Option Str) (path : Str)
      → get (materialize api l w view viewer) path
        ≡ (elim (last_on path (visible api l w view viewer)) [ none ↦ none | some op ↦ left_by op ])
  unfolding materialize get
  materialize-last_on l w view viewer path = apply_ops-get [] (visible api l w view viewer) path
