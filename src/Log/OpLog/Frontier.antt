-- ===== src/Log/OpLog/Frontier.antt =====
-- `heads()` of packages/log/src/oplog.ts, the heads of the whole log, are read off the operations in their
-- order.
use thaddeus.Prelude.{
  ◌≡◌, refl, sym, ap, ◌∙◌, Bool, ◌&&◌, ◌||◌, not, List, [], ◌∷◌, ◌++◌, Str, member, member-append,
  keep, arith,
}
use thaddeus.Prelude.Dict.{keys, values}
use thaddeus.Log.Op.{Op}
use thaddeus.Log.Head.Snapshot.Exact.{ids}
use thaddeus.Log.OpLog.{OpLog, all_parents, frontier, insert_op, sort_ops, ordered}
use thaddeus.Log.OpLog.Order.{IsKeyed, member-sort_ops}

member-keep :
    (p : Str → Bool) (z : Str) (xs : List Str) → member z (keep p xs) ≡ (member z xs && p z)
unfolding member
member-keep p z [] = refl
member-keep p z (x ∷ xs) = ground (arith, member-keep p z xs)

all_parents-insert_op :
    (z : Str) (x : Op) (ys : List Op)
    → member z (all_parents (insert_op x ys)) ≡ member z x.parents || member z (all_parents ys)
unfolding all_parents insert_op
all_parents-insert_op z x [] = member-append z x.parents []
all_parents-insert_op z x (y ∷ ys) = ground (
  arith,
  all_parents-insert_op z x ys,
  member-append z y.parents (all_parents (insert_op x ys)),
  member-append z y.parents (all_parents ys),
  member-append z x.parents (y.parents ++ all_parents ys),
)

all_parents-sort_ops :
    (z : Str) (xs : List Op) → member z (all_parents (sort_ops xs)) ≡ member z (all_parents xs)
unfolding all_parents sort_ops
all_parents-sort_ops z [] = refl
all_parents-sort_ops z (x ∷ xs) =
    all_parents-insert_op z x (sort_ops xs)
    ∙ ap (λ b. member z x.parents || b) (all_parents-sort_ops z xs)
    ∙ sym (member-append z x.parents (all_parents xs))

-- What `heads()` holds: the operations that are no operation's parent.
pub member-frontier :
    (l : OpLog) (z : Str)
    → IsKeyed l.ops
    → member z (frontier l)
      ≡ (member z (ids (ordered l)) && not (member z (all_parents (ordered l))))
unfolding frontier ordered
member-frontier l z k =
    let a = member-keep (λ id. not (member id (all_parents (values l.ops)))) z (keys l.ops) in
    let b = ap (member z) k.keyed ∙ sym (member-sort_ops z (values l.ops)) in
    let c = all_parents-sort_ops z (values l.ops) in cc
