-- ===== src/Examples/Landings.antt =====
-- Tests on landings and their policies.
use mathlib.Core.List.{Memᴰ}
use mathlib.Core.List.Memᴰ.{head, tail}
use thaddeus.Prelude.{
  ℕ, ◌≡◌, ◌↔◌, inr, refl, true, false, some, none, Option, [], ◌∷◌, ◌++◌, Str, text, ◌&&◌, not,
  member, arith, sort, unique,
}
use thaddeus.Prelude.Texts.{str_dec, lt_str}
use thaddeus.Prelude.Dict.{get, put, keys, values}
use thaddeus.Json.{stringify, decimal}
use thaddeus.Identity.{signature_holds, starts_with}
use thaddeus.Walk.{walk_from, walk, rounds, budget}
use thaddeus.Walk.Reach.{Reach}
use thaddeus.Paths.{
  match_glob, ends_with, chop, has_dot_dot, split_slash, supported_path_glob, has_star,
}
use thaddeus.Log.Op.{Op}
use thaddeus.Log.Head.{
  verify_head, check_chain, check_record, check_link, check_prefix, verify_head_chain, is_id,
  canonical_head, assert_canonical, signed_tuple,
}
use thaddeus.Log.HeadStore.{HeadStore, Backend, advance, append, history}
use thaddeus.Log.Head.Snapshot.{op_graph, parents_of}
use thaddeus.Log.OpLog.{
  view_heads, heads, ordered, sort_ops, insert_op, lt_op, ancestor_closure, is_ancestor,
  parents_or_none, set_view, closure_of,
}
use thaddeus.Log.OpLog.Order.{IsKeyed}
use thaddeus.Log.OpLog.Closure.{ancestor_closure_exact}
use thaddeus.Log.OpLog.Conflicts.{
  conflicts, collect, group, at_path, in_view, contested, undescended, concurrent, conflict_at,
}
use thaddeus.Platform.{
  Repo, LandPolicy, LandResult, merge_heads, incoming, dry_run_view, by_id, closure, check_head,
  is_successor, same_heads,
}
use thaddeus.Platform.Merge.{incoming_exact}
use thaddeus.Platform.Policy.{
  allow_all, block_on_conflict, none_of, restrict_paths, standing_query, touches_protected, VetoLog,
  block_on_veto,
}
use thaddeus.Platform.Policy.Gates.{restrict_paths_allows, block_on_veto_allows}
use thaddeus.Platform.Land.{
  LandEnd, returned, LandOptions, dry_run, proposal, refusal, success, finish, decide, check_option,
  land,
}
use thaddeus.Platform.Land.Effect.{IsUntouched, land-IsUntouched}
use thaddeus.Platform.Land.Landed.{IsLanded, IsSigned, land-IsLanded, land-IsSigned}
use thaddeus.Platform.Land.Gated.{land-incoming, land-restricted}
use thaddeus.Platform.Repair.{is_behind}
use thaddeus.Examples.{
  head_crypto, one_codec, empty_heads, started_heads, genesis, successor, three_ops, op_y, ann_did,
  named, sixty_three,
}

abbrev no_backend : Option Backend
no_backend = none

abbrev the_repo : Repo ℕ
the_repo = record { name = text "r"; log = three_ops; store = 0; head_records = empty_heads }

abbrev guarded : LandOptions
guarded = record { from = text "dev"; into = none; policy = none; head_record = none }

abbrev after_refusal : Repo ℕ
after_refusal = record the_repo { log = dry_run the_repo guarded 0 }

abbrev conflict_refusal : LandEnd
conflict_refusal =
    returned (
      refusal (proposal the_repo guarded 0)
        (block_on_conflict (proposal the_repo guarded 0)).reason)

landing_refused :
    land head_crypto one_codec the_repo none guarded 0 true
    ≡ ((after_refusal, none), conflict_refusal)
unfolding land decide proposal dry_run incoming by_id closure closure_of check_option
    block_on_conflict conflicts collect group at_path in_view contested undescended concurrent
    conflict_at ordered sort_ops insert_op lt_op lt_str str_dec ancestor_closure walk_from walk
    rounds budget op_graph parents_or_none parents_of member get put keys values heads view_heads
    is_ancestor set_view dry_run_view decimal merge_heads sort unique
landing_refused = refl

land-IsUntouched_example : IsUntouched the_repo after_refusal guarded 0 × (no_backend ≡ no_backend)
unfolding refusal
land-IsUntouched_example =
    land-IsUntouched head_crypto one_codec the_repo after_refusal none none guarded 0 true
      conflict_refusal landing_refused refl

abbrev open_door : LandOptions
open_door = record guarded { policy = some allow_all }

abbrev after_landing : Repo ℕ
after_landing = record the_repo {
  log =
      set_view (dry_run the_repo open_door 0) (text "main")
        (merge_heads (view_heads three_ops (text "main")) (view_heads three_ops (text "dev")));
}

abbrev landed_result : LandResult
landed_result = success (proposal the_repo open_door 0)

landing_done :
    land head_crypto one_codec the_repo none open_door 0 true
    ≡ ((after_landing, none), returned landed_result)
unfolding land decide finish success proposal dry_run incoming by_id closure closure_of check_option
    allow_all conflicts collect group at_path in_view contested undescended concurrent conflict_at
    ordered sort_ops insert_op lt_op lt_str str_dec ancestor_closure walk_from walk rounds budget
    op_graph parents_or_none parents_of member get put keys values heads view_heads is_ancestor
    set_view dry_run_view decimal merge_heads sort unique
landing_done = refl

land-IsLanded_example :
    IsLanded head_crypto one_codec the_repo after_landing open_door 0 landed_result
unfolding success
land-IsLanded_example =
    land-IsLanded head_crypto one_codec the_repo after_landing none none open_door 0 true
      landed_result landing_done refl

-- Only the author of the operations may touch `a`.
abbrev only_ann : LandPolicy
only_ann =
    none_of (text "standing query \"" ++ (text "protect " ++ text "a") ++ text "\": ")
      (text " op(s) violate the invariant")
      (λ op. touches_protected (text "a" ∷ []) op && not (member op.author (ann_did ∷ [])))

only_ann_restricts : restrict_paths (text "a" ∷ []) (ann_did ∷ []) none ≡ some only_ann
unfolding restrict_paths standing_query has_dot_dot supported_path_glob has_star ends_with chop
    member split_slash str_dec
only_ann_restricts = refl

abbrev watched : LandOptions
watched = record guarded { policy = some only_ann }

abbrev after_watched : Repo ℕ
after_watched = record the_repo {
  log =
      set_view (dry_run the_repo watched 0) (text "main")
        (merge_heads (view_heads three_ops (text "main")) (view_heads three_ops (text "dev")));
}

three_ops-IsKeyed : IsKeyed three_ops.ops
unfolding keys values member str_dec
three_ops-IsKeyed = record { keyed = refl; distinct = (refl, (refl, (refl, tt))) }

y_in_order : Memᴰ op_y (ordered three_ops)
unfolding ordered sort_ops insert_op lt_op lt_str values
y_in_order = tail (tail (head refl))

y_reached :
    Reach (parents_or_none three_ops) (view_heads after_landing.log (text "main")) (text "y")
y_reached =
    (ancestor_closure_exact three_ops (view_heads after_landing.log (text "main")) (text "y")).0
      seen
  where
    seen :
        member (text "y") (ancestor_closure three_ops (view_heads after_landing.log (text "main")))
        ≡ true
    seen =
        unfold ancestor_closure closure_of walk_from walk rounds budget op_graph parents_or_none
          parents_of member get put view_heads set_view dry_run dry_run_view decimal merge_heads
          sort unique lt_str str_dec in
        refl

y_reached_watched :
    Reach (parents_or_none three_ops) (view_heads after_watched.log (text "main")) (text "y")
y_reached_watched =
    (ancestor_closure_exact three_ops (view_heads after_watched.log (text "main")) (text "y")).0
      seen
  where
    seen :
        member (text "y") (ancestor_closure three_ops (view_heads after_watched.log (text "main")))
        ≡ true
    seen =
        unfold ancestor_closure closure_of walk_from walk rounds budget op_graph parents_or_none
          parents_of member get put view_heads set_view dry_run dry_run_view decimal merge_heads
          sort unique lt_str str_dec in
        refl

y_not_before : ¬ Reach (parents_or_none three_ops) (view_heads three_ops (text "main")) (text "y")
unfolding ancestor_closure closure_of walk_from walk rounds budget op_graph parents_or_none
    parents_of member get view_heads str_dec
y_not_before r = absurd (
    ground (
      arith,
      (ancestor_closure_exact three_ops (view_heads three_ops (text "main")) (text "y")).1 r,
    ))

land-incoming_example : Memᴰ op_y (proposal the_repo open_door 0).incoming_ops
unfolding success
land-incoming_example =
    land-incoming head_crypto one_codec the_repo after_landing none none open_door 0 true
      landed_result op_y three_ops-IsKeyed landing_done refl y_in_order y_reached y_not_before

watched_done :
    land head_crypto one_codec the_repo none watched 0 true
    ≡ ((after_watched, none), returned (success (proposal the_repo watched 0)))
unfolding none_of touches_protected match_glob has_dot_dot ends_with chop starts_with land decide
    finish success proposal dry_run incoming by_id closure closure_of check_option conflicts collect
    group at_path in_view contested undescended concurrent conflict_at ordered sort_ops insert_op
    lt_op lt_str str_dec ancestor_closure walk_from walk rounds budget op_graph parents_or_none
    parents_of member get put keys values heads view_heads is_ancestor set_view dry_run_view decimal
    merge_heads sort unique
watched_done = refl

land-restricted_example : member ann_did (ann_did ∷ []) ≡ true
unfolding success
land-restricted_example =
    land-restricted head_crypto one_codec the_repo after_watched none none watched 0 true
      (success (proposal the_repo watched 0)) op_y (text "a" ∷ []) (ann_did ∷ []) only_ann
      three_ops-IsKeyed only_ann_restricts refl watched_done refl y_in_order y_reached_watched
      y_not_before (inr (text "a", head refl, inr (inr refl)))

restrict_paths_allows_example : ((only_ann (proposal the_repo watched 0)).allow ≡ true) ↔ (
    (op : Op)
    → Memᴰ op (proposal the_repo watched 0).incoming_ops
    → touches_protected (text "a" ∷ []) op ≡ true
    → member op.author (ann_did ∷ []) ≡ true)
restrict_paths_allows_example =
    restrict_paths_allows (text "a" ∷ []) (ann_did ∷ []) none only_ann (proposal the_repo watched 0)
      only_ann_restricts

abbrev no_vetoes : VetoLog Str
no_vetoes = record { for_op = λ id. id ∷ []; verified = λ v. true; reviewer = λ v. v }

block_on_veto_allows_example :
    ((block_on_veto no_vetoes (text "y" ∷ []) (λ v op. true) (proposal the_repo watched 0)).allow
      ≡ true)
    ↔ ((op : Op) (v : Str)
        → Memᴰ op (proposal the_repo watched 0).incoming_ops
        → Memᴰ v (no_vetoes.for_op op.id)
        → (no_vetoes.verified v && member (no_vetoes.reviewer v) (text "y" ∷ [])) && true ≡ false)
block_on_veto_allows_example =
    block_on_veto_allows no_vetoes (text "y" ∷ []) (λ v op. true) (proposal the_repo watched 0)

incoming_exact_example : Memᴰ op_y (incoming three_ops (text "y" ∷ []) (text "x" ∷ [])) ↔ (
    Memᴰ op_y (ordered three_ops)
    × Reach (parents_or_none three_ops) (text "y" ∷ []) (text "y")
    × ¬ Reach (parents_or_none three_ops) (text "x" ∷ []) (text "y"))
incoming_exact_example =
    incoming_exact three_ops (text "y" ∷ []) (text "x" ∷ []) op_y three_ops-IsKeyed

main_is_local : is_behind three_ops (text "main") (history started_heads (text "main")) ≡ false
unfolding is_behind get str_dec same_heads view_heads
main_is_local = refl

-- A log whose one operation is named by the head that `genesis` and its successor sign.
abbrev head_op : Op
head_op = named (48 ∷ sixty_three) (text "a") [] 0

abbrev signed_repo : Repo ℕ
signed_repo = record {
  name = text "r";
  log = record {
    ops = (48 ∷ sixty_three, head_op) ∷ [];
    views = (text "dev", (48 ∷ sixty_three) ∷ []) ∷ [];
    embargo = [];
  };
  store = 0;
  head_records = started_heads;
}

abbrev with_record : LandOptions
with_record = record { from = text "dev"; into = none; policy = none; head_record = some successor }

abbrev advanced_heads : HeadStore
advanced_heads = record started_heads { histories = (text "main", genesis ∷ successor ∷ []) ∷ [] }

abbrev after_signed : Repo ℕ
after_signed = record signed_repo {
  log = set_view (dry_run signed_repo with_record 0) (text "main") (
      merge_heads (view_heads signed_repo.log (text "main"))
        (view_heads signed_repo.log (text "dev")));
  head_records = advanced_heads;
}

signed_done :
    land head_crypto one_codec signed_repo none with_record 0 true
    ≡ ((after_signed, none), returned (success (proposal signed_repo with_record 0)))
unfolding block_on_conflict check_head is_successor same_heads advance append verify_head_chain
    check_chain check_record check_link check_prefix verify_head is_id canonical_head
    assert_canonical signed_tuple stringify signature_holds thaddeus.Log.HeadStore.write land decide
    finish success proposal dry_run incoming by_id closure closure_of check_option conflicts collect
    group at_path in_view contested undescended concurrent conflict_at ordered sort_ops insert_op
    lt_op lt_str str_dec ancestor_closure walk_from walk rounds budget op_graph parents_or_none
    parents_of member get put keys values heads view_heads is_ancestor set_view dry_run_view decimal
    merge_heads sort unique
signed_done = refl

land-IsSigned_example :
    IsSigned head_crypto one_codec signed_repo after_signed with_record successor
unfolding success
land-IsSigned_example =
    land-IsSigned head_crypto one_codec signed_repo after_signed none none with_record 0 true
      (success (proposal signed_repo with_record 0)) successor signed_done refl refl
