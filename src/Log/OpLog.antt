-- ===== src/Log/OpLog.antt =====
-- packages/log/src/oplog.ts: the operation log in memory, as it is without a backend. The store of
-- packages/store is an interface. A method that may throw gives back the log and the store as they
-- are then, and `none` for what it would have returned. The wall clock is the argument `at`.
pub mod Write
pub mod Order
pub mod Keyed
pub mod Closure
pub mod Tree
pub mod Conflicts
pub mod Frontier
pub mod Sealed
pub mod After
use thaddeus.Prelude.{
  ℕ, suc, ◌+◌, Bool, true, false, ◌&&◌, ◌||◌, not, Option, none, some, List, [], ◌∷◌, ◌++◌, map,
  reverse, Str, text, ◌==◌, lt_str, member, if◌then◌else◌, leb, ltb, length, any, keep, get_last?,
  sort,
}
use thaddeus.Prelude.Dict.{Dict, get, put, remove, has, keys, values}
use thaddeus.Json.{
  Json, Fields, null, num, str, arr, obj, end, field, strs, stringify, bytes_to_hex,
}
use thaddeus.Identity.{Identity}
use thaddeus.Walk.{Outcome, done, missing, out_of_fuel, walk_from}
use thaddeus.Log.Op.{Ref, Op, OpFields, Env, sign_op, verify_op}
use thaddeus.Log.Head.Snapshot.{op_graph, parents_of}

pub record Embargo : Type 0 where
  pub meta_ref : Ref
  pub token : Str
  pub revealed : Bool

pub record OpLog : Type 0 where
  pub ops : Dict Op
  pub views : Dict (List Str)
  pub embargo : Dict Embargo

abbrev pub empty : OpLog
empty = record { ops = []; views = []; embargo = [] }

-- What the log uses of `Store`: `none` is a throw, and `caps` gives the grantees.
pub record StoreApi (W : Type 0) : Type 0 where
  pub put : W → Str → Identity → Option (Ref × W)
  pub schedule_reveal : W → Ref → Str → Identity → Option W
  pub caps : W → Str → List Str
  pub reveal : W → Ref → Option Str → Option (Bool × W)

-- `heads(view)`: a view that is not known has no heads.
unfoldable pub view_heads : OpLog → Str → List Str
view_heads l view = elim (get l.views view) [ none ↦ [] | some hs ↦ hs ]

pub all_parents : List Op → List Str
all_parents [] = []
all_parents (op ∷ ops) = op.parents ++ all_parents ops

-- `heads()`: the operations that are no known operation's parent.
unfoldable pub frontier : OpLog → List Str
unfolding all_parents
frontier l = keep (λ id. not (member id (all_parents (values l.ops)))) (keys l.ops)

unfoldable pub heads : OpLog → Option Str → List Str
heads l none = frontier l
heads l (some view) = view_heads l view

-- The order of `ops()`: by lamport, then by id.
unfoldable pub lt_op : Op → Op → Bool
lt_op x y = ltb x.lamport y.lamport || not (ltb y.lamport x.lamport) && lt_str x.id y.id

unfoldable pub insert_op : Op → List Op → List Op
insert_op x [] = x ∷ []
insert_op x (y ∷ ys) = if lt_op y x then y ∷ insert_op x ys else x ∷ y ∷ ys

unfoldable pub sort_ops : List Op → List Op
sort_ops [] = []
sort_ops (x ∷ xs) = insert_op x (sort_ops xs)

-- `ops()`
unfoldable pub ordered : OpLog → List Op
ordered l = sort_ops (values l.ops)

max : ℕ → ℕ → ℕ
max a b = if ltb a b then b else a

-- Math.max over the parents; an unknown parent counts as 0.
unfoldable pub max_lamport : OpLog → List Str → ℕ
unfolding max
max_lamport l [] = 0
max_lamport l (id ∷ ids) =
    max (elim (get l.ops id) [ none ↦ 0 | some op ↦ op.lamport ]) (max_lamport l ids)

-- `#nextLamport`
unfoldable pub next_lamport : OpLog → List Str → ℕ
next_lamport l [] = 0
next_lamport l (id ∷ ids) = 1 + max_lamport l (id ∷ ids)

-- `#commit`
unfoldable pub commit : OpLog → Str → Op → OpLog
commit l view op = record l { ops = put l.ops op.id op; views = put l.views view (op.id ∷ []) }

-- `view`, `repoint`, `fork`, `dropView`
unfoldable pub set_view : OpLog → Str → List Str → OpLog
set_view l name hs = record l { views = put l.views name hs }

unfoldable pub fork : OpLog → Str → Str → OpLog
unfolding set_view view_heads
fork l name from = set_view l name (view_heads l from)

unfoldable pub drop_view : OpLog → Str → OpLog
drop_view l name = record l { views = remove l.views name }

unfoldable pub view_names : OpLog → List Str
view_names l = sort (keys l.views)

-- The parents of an id; an unknown id has none.
unfoldable pub parents_or_none : OpLog → Str → Option (List Str)
parents_or_none l id = elim (parents_of l.ops id) [ none ↦ some [] | some ps ↦ some ps ]

unfoldable pub closure_of : Outcome → List Str
closure_of (done seen) = seen
closure_of _ = []

-- `#ancestorClosure`. The walk always ends with its set (`OpLog.Closure`).
unfoldable pub ancestor_closure : OpLog → List Str → List Str
unfolding closure_of
ancestor_closure l hs = closure_of (walk_from (op_graph l.ops) (parents_or_none l) hs)

-- `reachable`, as the list of what it yields; `none` is the MissingReachableOperationError.
yielded : OpLog → Outcome → Option (List Str)
yielded l (done seen) = some (reverse seen)
yielded l _ = none

unfoldable pub reachable : OpLog → List Str → Option (List Str)
unfolding yielded
reachable l hs = yielded l (walk_from (op_graph l.ops) (parents_of l.ops) hs)

-- `#isAncestor`
unfoldable pub is_ancestor : OpLog → Str → Str → Bool
is_ancestor l ancestor of = member ancestor (ancestor_closure l (of ∷ []))

abbrev pub eq_opt : Option Str → Str → Bool
eq_opt none s = false
eq_opt (some t) s = t == s

-- `referencesPlaintext`
unfoldable pub references_plaintext : OpLog → Str → Bool
references_plaintext l id =
    any
      (λ op.
        eq_opt (elim op.payload as (λ _. Option Str) [ none ↦ none | some r ↦ some r.plaintext_id ])
          id)
      (values l.ops)

pub data PublicOp : Type 0 where
  open_op : Op → PublicOp
  embargoed : (id ordering_token : Str) → Ref → PublicOp

show_op : Op → Option Embargo → PublicOp
show_op op none = open_op op
show_op op (some e) = if e.revealed then open_op op else embargoed op.id e.token e.meta_ref

-- `publicView`; `none` is the Error on an unknown id.
unfoldable pub public_view : OpLog → Str → Option PublicOp
unfolding show_op
public_view l id = elim (get l.ops id) [
  | none ↦ none
  | some op ↦ some (show_op op (get l.embargo id))
]

ref_json : Option Ref → Json
ref_json none = null
ref_json (some r) =
    obj (field (text "id") (str r.id) (field (text "plaintext_id") (str r.plaintext_id) end))

-- `JSON.stringify({ ...op, sig: bytesToHex(op.sig) })`
unfoldable pub op_meta : Op → Str
unfolding ref_json
op_meta op = stringify (
    obj (
      field (text "id") (str op.id) (
        field (text "path") (str op.path) (
          field (text "parents") (arr (strs op.parents)) (
            field (text "lamport") (num op.lamport) (
              field (text "at") (str op.at) (
                field (text "author") (str op.author) (
                  field (text "payload") (ref_json op.payload)
                    (field (text "sig") (str (bytes_to_hex op.sig)) end)))))))))
