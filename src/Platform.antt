-- ===== src/Platform.antt =====
-- packages/platform/src/platform.ts: repositories, the landing of one view on another, and the table
-- of repositories. The log is the one of `Log.OpLog`, so only its write of a view to a backend may
-- fail: `stored` says whether `repoint` gets through. `seq` is `landSeq`. `createDurable` and the loads
-- of `openDurable` are left out.
pub mod Policy
pub mod Merge
pub mod Land
pub mod Repair
use thaddeus.Prelude.{
  ℕ, suc, ◌+◌, ◌≡◌, refl, Bool, true, false, ◌&&◌, ◌||◌, not, Option, none, some, List, [], ◌∷◌,
  ◌++◌, Str, text, ◌==◌, member, unique, sort, if◌then◌else◌, nat_eq, length, keep,
}
use thaddeus.Prelude.Dict.{Dict, get, put}
use thaddeus.Walk.{walk_from}
use thaddeus.Identity.{Crypto, starts_with}
use thaddeus.Json.{decimal}
use thaddeus.Log.Op.{Op}
use thaddeus.Log.Head.{HeadRecord, Rejection, pass, reject, verify_head}
use thaddeus.Log.HeadStore.{HeadStore, Backend, current}
use thaddeus.Log.Head.Snapshot.{op_graph}
use thaddeus.Log.OpLog.{
  OpLog, heads, ordered, set_view, view_names, closure_of, parents_or_none, empty,
}
use thaddeus.Log.OpLog.Conflicts.{Conflict}

abbrev pub internal_view_prefix : Str
internal_view_prefix = text "land/"

unfoldable pub merge_heads : List Str → List Str → List Str
merge_heads a b = sort (unique (a ++ b))

-- `a.every((head, index) => head === b[index])`
unfoldable pub same_at : List Str → List Str → Bool
same_at [] b = true
same_at (x ∷ a) [] = false
same_at (x ∷ a) (y ∷ b) = x == y && same_at a b

unfoldable pub same_heads : List Str → List Str → Bool
unfolding same_at
same_heads a b = nat_eq (length a) (length b) && same_at a b

-- `new Map(ops.map((o) => [o.id, o]))`
unfoldable pub by_id : Dict Op → List Op → Dict Op
by_id m [] = m
by_id m (op ∷ ops) = by_id (put m op.id op) ops

abbrev pub log_of : Dict Op → OpLog
log_of ops = record { ops = ops; views = []; embargo = [] }

-- The walk over an id map, whose unknown ids have no parents.
unfoldable pub closure : Dict Op → List Str → List Str
unfolding closure_of
closure m hs = closure_of (walk_from (op_graph m) (parents_or_none (log_of m)) hs)

-- from's closure minus into's, in the order of `ops()`
unfoldable pub incoming : OpLog → List Str → List Str → List Op
unfolding closure by_id
incoming l from_heads into_heads =
    let m = by_id [] (ordered l) in
    let reached = closure m from_heads in
    let present = closure m into_heads in
    keep (λ o. member o.id reached && not (member o.id present)) (ordered l)

pub record LandProposal : Type 0 where
  pub into : Str
  pub into_heads : List Str
  pub incoming_heads : List Str
  pub merged_heads : List Str
  pub incoming_ops : List Op
  pub conflicts : List Conflict

pub record LandDecision : Type 0 where
  pub allow : Bool
  pub reason : Option Str

abbrev pub LandPolicy : Type 0
LandPolicy = LandProposal → LandDecision

pub record LandResult : Type 0 where
  pub landed : Bool
  pub into : Str
  pub heads : List Str
  pub conflicts : List Conflict
  pub reason : Option Str

-- `W` is the store's state.
pub record Repo (W : Type 0) : Type 0 where
  pub name : Str
  pub log : OpLog
  pub store : W
  pub head_records : HeadStore

-- `branches()`
unfoldable pub branches : OpLog → List Str
branches l = keep (λ v. not (starts_with v internal_view_prefix)) (view_names l)

-- The name of the view of the dry run.
unfoldable pub dry_run_view : Str → ℕ → Str
dry_run_view into seq = internal_view_prefix ++ into ++ text "/" ++ decimal seq

-- The tests of a signed successor.
pub data HeadCheck : Type 0 where
  fits not_successor not_merged : HeadCheck
  bad_record : Rejection → HeadCheck

unfoldable pub is_successor : HeadStore → Str → Str → HeadRecord → Bool
is_successor s name into r = elim (current s into) [
  | none ↦ false
  | some now ↦
      r.repo == name
      && r.view == into
      && elim s.owner [ none ↦ false | some o ↦ r.owner == o ]
      && nat_eq r.version (now.version + 1)
      && elim r.previous [ none ↦ false | some p ↦ p == now.id ]
]

module _ (c : Crypto) where
  unfoldable pub check_head : HeadStore → Str → Str → List Str → HeadRecord → HeadCheck
  unfolding is_successor same_heads
  check_head s name into merged r = elim (verify_head c r) [
    | reject e ↦ bad_record e
    | pass u ↦
        if is_successor s name into r
        then (if same_heads r.heads merged then fits else not_merged)
        else not_successor
  ]
