-- ===== src/Examples/Logs.antt =====
-- Tests on operation logs.
use mathlib.Core.List.Memᴰ.{head}
use mathlib.Core.List.Permᴰ.{swap}
use thaddeus.Prelude.{
  ◌≡◌, ◌↔◌, ◌⊎◌, refl, true, false, some, none, Option, List, [], ◌∷◌, ◌++◌, Str, text, member,
  sort,
}
use thaddeus.Prelude.Texts.{str_dec, lt_str}
use thaddeus.Prelude.Dict.{get, put, keys, values}
use thaddeus.Json.{stringify}
use thaddeus.Identity.{signature_holds}
use thaddeus.Walk.{walk_from, walk, rounds, budget}
use thaddeus.Walk.Reach.{Reach}
use thaddeus.Log.Op.{Op, verify_op, canonical_op, assert_canonical, signed_tuple, sign_op}
use thaddeus.Log.Head.Snapshot.{op_graph, parents_of}
use thaddeus.Log.OpLog.{
  OpLog, view_heads, heads, ordered, sort_ops, insert_op, lt_op, ancestor_closure, reachable,
  is_ancestor, parents_or_none, public_view, next_lamport, commit, max_lamport,
}
use thaddeus.Log.OpLog.Write.{write, reveal, sign, append, place}
use thaddeus.Log.OpLog.Order.{IsKeyed}
use thaddeus.Log.OpLog.Closure.{reachable_exact}
use thaddeus.Log.OpLog.Conflicts.{
  Conflict, conflicts, collect, group, at_path, in_view, contested, undescended, concurrent,
  conflict_at,
}
use thaddeus.Log.OpLog.Conflicts.Sound.{IsConflict, conflicts-IsConflict}
use thaddeus.Log.OpLog.Sealed.{Written, write-Written, IsSealed, write-IsSealed}
use thaddeus.Log.OpLog.After.{sign-after}
use thaddeus.Log.OpLog.Tree.{Entry, materialize, visible}
use thaddeus.Log.OpLog.Tree.LastWriter.{last_on, left_by, materialize-last_on}
use thaddeus.Log.OpLog.Tree.Converges.{append_all, materialize_converges}
use thaddeus.Examples.{
  plain_env, ann, ref_a, first_op, other_op, signed_op, empty_log, three_ops, op_x, op_y, op_z,
  counting_store,
}

empty_log-IsKeyed : IsKeyed empty_log.ops
unfolding keys values
empty_log-IsKeyed = record { keyed = refl; distinct = tt }

abbrev first_then_other : OpLog
first_then_other = record empty_log { ops = (first_op.id, first_op) ∷ (other_op.id, other_op) ∷ [] }

abbrev other_then_first : OpLog
other_then_first = record empty_log { ops = (other_op.id, other_op) ∷ (first_op.id, first_op) ∷ [] }

appended_in_order :
    append_all plain_env empty_log (first_op ∷ other_op ∷ []) ≡ some first_then_other
unfolding append_all append verify_op canonical_op assert_canonical signed_tuple stringify
    signature_holds str_dec get put sort
appended_in_order = refl

appended_in_reverse :
    append_all plain_env empty_log (other_op ∷ first_op ∷ []) ≡ some other_then_first
unfolding append_all append verify_op canonical_op assert_canonical signed_tuple stringify
    signature_holds str_dec get put sort
appended_in_reverse = refl

materialize_converges_example :
    materialize counting_store first_then_other 0 none none
    ≡ materialize counting_store other_then_first 0 none none
unfolding member signed_tuple stringify str_dec
materialize_converges_example =
    materialize_converges plain_env counting_store 0 empty_log first_then_other other_then_first
      (first_op ∷ other_op ∷ []) (other_op ∷ first_op ∷ []) none none empty_log-IsKeyed
      (refl, (refl, tt)) (swap refl refl) appended_in_order appended_in_reverse

materialize-last_on_example :
    get (materialize counting_store three_ops 0 (some (text "dev")) none) (text "a")
    ≡ (elim (last_on (text "a") (visible counting_store three_ops 0 (some (text "dev")) none))
        as (λ _. Option Entry) [ none ↦ none | some op ↦ left_by op ])
materialize-last_on_example =
    materialize-last_on counting_store three_ops 0 (some (text "dev")) none (text "a")

three_ops-IsKeyed : IsKeyed three_ops.ops
unfolding keys values member str_dec
three_ops-IsKeyed = record { keyed = refl; distinct = (refl, (refl, (refl, tt))) }

abbrev reversed_ops : OpLog
reversed_ops = record three_ops {
  ops = (text "z", op_z) ∷ (text "y", op_y) ∷ (text "x", op_x) ∷ [];
}

reversed_ops-IsKeyed : IsKeyed reversed_ops.ops
unfolding keys values member str_dec
reversed_ops-IsKeyed = record { keyed = refl; distinct = (refl, (refl, (refl, tt))) }

abbrev one_op : OpLog
one_op = record empty_log { ops = (first_op.id, first_op) ∷ [] }

one_op-IsKeyed : IsKeyed one_op.ops
unfolding keys values member
one_op-IsKeyed = record { keyed = refl; distinct = (refl, tt) }

other_appended : append plain_env one_op other_op ≡ some first_then_other
unfolding append verify_op canonical_op assert_canonical signed_tuple stringify signature_holds
    str_dec get put sort
other_appended = refl

reachable_exact_example :
    ((out : List Str) × (reachable three_ops (text "y" ∷ []) ≡ some out)
      × ((id : Str) → (member id out ≡ true) ↔ Reach (parents_of three_ops.ops) (text "y" ∷ []) id))
    ⊎ ((reachable three_ops (text "y" ∷ []) ≡ none)
        × (id : Str) × Reach (parents_of three_ops.ops) (text "y" ∷ []) id
        × (get three_ops.ops id ≡ none))
reachable_exact_example = reachable_exact three_ops (text "y" ∷ [])

abbrev a_conflict : Conflict
a_conflict = record { path = text "a"; ops = text "z" ∷ text "y" ∷ []; winner = text "y" }

two_rivals : conflicts three_ops (some (text "dev")) ≡ a_conflict ∷ []
unfolding conflicts collect group at_path in_view contested undescended concurrent conflict_at
    ordered sort_ops insert_op lt_op lt_str str_dec ancestor_closure walk_from walk rounds budget
    op_graph parents_or_none parents_of member get put keys values heads view_heads is_ancestor
two_rivals = refl

conflicts-IsConflict_example : IsConflict three_ops (some (text "dev")) a_conflict
conflicts-IsConflict_example =
    conflicts-IsConflict three_ops (some (text "dev")) a_conflict three_ops-IsKeyed
      (rw two_rivals (head refl))

write-Written_example :
    Written plain_env counting_store three_ops
      (write plain_env counting_store three_ops 0
        (text "main")
        (text "a")
        (text "b")
        ann
        none
        (text "Z")).0.0
      (text "main")
      (text "a")
      ann
      (text "Z")
      (write plain_env counting_store three_ops 0
        (text "main")
        (text "a")
        (text "b")
        ann
        none
        (text "Z")).1
write-Written_example =
    write-Written plain_env counting_store three_ops 0 (text "main") (text "a") (text "b") ann none
      (text "Z")

abbrev sealed_log : OpLog
sealed_log = record {
  ops = (first_op.id, first_op) ∷ [];
  views = (text "main", first_op.id ∷ []) ∷ [];
  embargo =
      (
        first_op.id,
        record { meta_ref = ref_a; token = text "token:" ++ first_op.id; revealed = false },
      )
      ∷ [];
}

written_sealed :
    write plain_env counting_store empty_log 0
      (text "main")
      (text "a")
      (text "b")
      ann
      (some (text "U"))
      (text "Z")
    ≡ ((sealed_log, 2), some first_op)
unfolding write place sign sign_op canonical_op assert_canonical signed_tuple stringify view_heads
    next_lamport commit get put str_dec thaddeus.Identity.sign thaddeus.Log.OpLog.Write.embargo_op
written_sealed = refl

write-IsSealed_example : IsSealed plain_env counting_store sealed_log first_op.id
write-IsSealed_example =
    write-IsSealed plain_env counting_store empty_log sealed_log 0 2 (text "main") (text "a")
      (text "b") (text "U") (text "Z") ann first_op written_sealed

abbrev next_op : Op
next_op = signed_op (record {
  path = text "a";
  parents = text "x" ∷ [];
  lamport = 1;
  at = text "Z";
  payload = none;
})

next_signed : sign plain_env three_ops (text "main") (text "a") none ann (text "Z") ≡ some next_op
unfolding sign sign_op canonical_op assert_canonical signed_tuple stringify view_heads next_lamport
    max_lamport get str_dec thaddeus.Identity.sign
next_signed = refl

sign-after_example :
    (next_op.parents ≡ view_heads three_ops (text "main"))
    × ((p : Str) (q : Op)
        → member p next_op.parents ≡ true
        → get three_ops.ops p ≡ some q
        → lt_op q next_op ≡ true)
sign-after_example =
    sign-after plain_env three_ops (text "main") (text "a") (text "Z") none ann next_op next_signed
