-- ===== src/Log/OpLog/Write.antt =====
-- The writing half of packages/log/src/oplog.ts: `write`, `remove`, `append`, `ingest`, `reveal`.
use thaddeus.Prelude.{
  Bool, true, false, Option, none, some, ◌++◌, Str, text, ◌==◌, if◌then◌else◌, any,
}
use thaddeus.Prelude.Dict.{get, put, has}
use thaddeus.Identity.{Identity}
use thaddeus.Log.Op.{Ref, Op, Env, sign_op, verify_op}
use thaddeus.Log.OpLog.{OpLog, StoreApi, view_heads, next_lamport, commit, op_meta}

module _ {W : Type 0} (api : StoreApi W) where
  -- `#placeable`
  unfoldable pub placeable : OpLog → W → Option Str → Op → Bool
  placeable l w viewer op = elim (get l.embargo op.id) [
    | none ↦ true
    | some m ↦ if m.revealed then true else elim viewer [
      | none ↦ false
      | some did ↦ any (λ g. g == did) (api.caps w m.meta_ref.plaintext_id)
    ]
  ]

module _ (e : Env) where
  -- `#sign`
  unfoldable pub sign : OpLog → Str → Str → Option Ref → Identity → Str → Option Op
  sign l view path payload author at =
      sign_op e
        (record {
          path = path;
          parents = view_heads l view;
          lamport = next_lamport l (view_heads l view);
          at = at;
          payload = payload;
        })
        author

  -- `remove`: a tombstone, signed and placed at once.
  unfoldable pub remove_path : OpLog → Str → Str → Identity → Str → OpLog × Option Op
  remove_path l view path author at = elim (sign l view path none author at) [
    | none ↦ (l, none)
    | some op ↦ (commit l view op, some op)
  ]

  -- `append` and, without a backend, `ingest`: `none` is the throw on an operation that does not
  -- verify. `append` leaves an id that is there alone, `ingest` sets it.
  unfoldable pub append : OpLog → Op → Option OpLog
  append l op =
      if verify_op e op
      then some (if has l.ops op.id then l else record l { ops = put l.ops op.id op })
      else none

  unfoldable pub ingest : OpLog → Op → Option OpLog
  ingest l op = if verify_op e op then some (record l { ops = put l.ops op.id op }) else none

  module _ {W : Type 0} (api : StoreApi W) where
    -- `#embargoOp`: the log is changed last, when the store has taken the metadata and the schedule.
    unfoldable pub embargo_op : OpLog → W → Op → Str → Identity → Option OpLog × W
    embargo_op l w op until by = elim (api.put w (op_meta op) by) [
      | none ↦ (none, w)
      | some (meta_ref, w') ↦ elim (api.schedule_reveal w' meta_ref until by) [
        | none ↦ (none, w')
        | some w'' ↦ (
          some (record l {
            embargo = put l.embargo op.id (record {
              meta_ref = meta_ref;
              token = e.blake3_hex (text "token:" ++ op.id);
              revealed = false;
            });
          }),
          w'',
        )
      ]
    ]

    -- The end of `write`: register the embargo, if there is one, and only then place the operation.
    unfoldable pub place : OpLog → W → Str → Op → Option Str → Identity → (OpLog × W) × Option Op
    unfolding embargo_op
    place l w view op none author = ((commit l view op, w), some op)
    place l w view op (some until) author =
        let (registered, w') = embargo_op l w op until author in
        elim registered [ none ↦ ((l, w'), none) | some l' ↦ ((commit l' view op, w'), some op) ]

    -- `write`
    unfoldable pub write :
        OpLog → W → Str → Str → Str → Identity → Option Str → Str → (OpLog × W) × Option Op
    unfolding place sign
    write l w view path bytes author until at = elim (api.put w bytes author) [
      | none ↦ ((l, w), none)
      | some (ref, w') ↦ elim (sign l view path (some ref) author at) [
        | none ↦ ((l, w'), none)
        | some op ↦ place l w' view op until author
      ]
    ]

    -- `reveal`; `none` is a throw of the store.
    unfoldable pub reveal : OpLog → W → Str → Option Str → (OpLog × W) × Option Bool
    reveal l w id now = elim (get l.embargo id) [
      | none ↦ ((l, w), some false)
      | some m ↦ elim (api.reveal w m.meta_ref now) [
        | none ↦ ((l, w), none)
        | some (released, w') ↦ (
          (
            if released
                then record l { embargo = put l.embargo id (record m { revealed = true }) }
                else l,
            w',
          ),
          some released,
        )
      ]
    ]
