-- ===== src/Log/OpLog/Keyed.antt =====
-- Every operation of the log stands under its own id, and stays so
-- (`append`, `ingest` and `#commit` of packages/log/src/oplog.ts).
use thaddeus.Prelude.{◌≡◌, refl, some, [], ◌∷◌, Str, arith}
use thaddeus.Prelude.Dict.Keys.{IsUnique-put}
use thaddeus.Prelude.Dict.{Dict, put, keys, values}
use thaddeus.Log.Op.{Op, Env}
use thaddeus.Log.Head.Snapshot.Exact.{ids}
use thaddeus.Log.OpLog.{OpLog, commit}
use thaddeus.Log.OpLog.Write.{append, ingest}
use thaddeus.Log.OpLog.Order.{IsKeyed}

keyed-put :
    (m : Dict Op) (op : Op)
    → keys m ≡ ids (values m)
    → keys (put m op.id op) ≡ ids (values (put m op.id op))
unfolding keys values put
keyed-put [] op k = refl
keyed-put ((j, x) ∷ m) op k =
    let rest : keys m ≡ ids (values m) = cc in
    let first : j ≡ x.id = cc in ground (arith, keyed-put m op rest)

put-IsKeyed : (m : Dict Op) (op : Op) → IsKeyed m → IsKeyed (put m op.id op)
put-IsKeyed m op h = record {
  keyed = keyed-put m op h.keyed;
  distinct = IsUnique-put m op.id op h.distinct;
}

pub commit-IsKeyed :
    (l : OpLog) (view : Str) (op : Op) → IsKeyed l.ops → IsKeyed (commit l view op).ops
unfolding commit
commit-IsKeyed l view op h = put-IsKeyed l.ops op h

module _ (e : Env) where
  -- If each operation of a log stands under its own id, and each id once, then so it is after an
  -- append that returns.
  pub append-IsKeyed :
      (l l' : OpLog) (op : Op) → append e l op ≡ some l' → IsKeyed l.ops → IsKeyed l'.ops
  unfolding append
  append-IsKeyed l l' op q h = ground (arith, put-IsKeyed l.ops op h)

  pub ingest-IsKeyed :
      (l l' : OpLog) (op : Op) → ingest e l op ≡ some l' → IsKeyed l.ops → IsKeyed l'.ops
  unfolding ingest
  ingest-IsKeyed l l' op q h = ground (arith, put-IsKeyed l.ops op h)
