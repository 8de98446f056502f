-- ===== src/Log/OpLog/Sealed.antt =====
-- What `write` and `reveal` of packages/log/src/oplog.ts do to the log, on every path: a write that
-- throws leaves the log alone, and an embargoed operation is never seen in the open before its reveal.
use thaddeus.Prelude.{
  ◌≡◌, ◌≢◌, refl, true, false, Option, none, some, [], ◌∷◌, ◌++◌, Str, text, arith, Option-cases,
  inl, inr,
}
use thaddeus.Prelude.Dict.{put, get-put_self}
use thaddeus.Identity.{Identity}
use thaddeus.Log.Op.{Ref, Op, Env}
use thaddeus.Log.OpLog.{OpLog, Embargo, StoreApi, embargoed, public_view, commit, op_meta}
use thaddeus.Log.OpLog.Write.{placeable, sign, embargo_op, place, write, reveal}

module _ (e : Env) {W : Type 0} (api : StoreApi W) where
  -- `write` either throws and leaves the log as it was, or places one operation: signed over the
  -- view's heads, set under its id, and the only head of the view.
  pub data Written (l l' : OpLog) (view path : Str) (by : Identity) (at : Str)
      : Option Op → Type 0 where
    threw : l' ≡ l → Written l l' view path by at none
    placed :
        (op : Op) (r : Ref)
        → sign e l view path (some r) by at ≡ some op
        → l'.ops ≡ put l.ops op.id op
        → l'.views ≡ put l.views view (op.id ∷ [])
        → Written l l' view path by at (some op)

  place-Written :
      (l : OpLog) (w : W) (view path : Str) (op : Op) (until : Option Str) (by : Identity)
      (at : Str) (r : Ref)
      → sign e l view path (some r) by at ≡ some op
      → Written l
          (place e api l w view op until by).0.0
          view
          path
          by
          at
          (place e api l w view op until by).1
  unfolding place embargo_op commit
  place-Written l w view path op none by at r s = placed op r s refl refl
  place-Written l w view path op (some until) by at r s =
      elim (Option-cases (api.put w (op_meta op) by)) [
        | inl h ↦ rw (h, place, embargo_op) (threw refl)
        | inr ((m, w'), h) ↦ elim (Option-cases (api.schedule_reveal w' m until by)) [
          | inl k ↦ rw (h, k, place, embargo_op) (threw refl)
          | inr (w'', k) ↦ rw (h, k, place, embargo_op) (placed op r s refl refl)
        ]
      ]

  -- A write either throws and leaves the log as it was, or places one operation: signed over the heads
  -- of the view, set under its id, and the only head of the view.
  pub write-Written :
      (l : OpLog) (w : W) (view path bytes : Str) (by : Identity) (until : Option Str) (at : Str)
      → Written l
          (write e api l w view path bytes by until at).0.0
          view
          path
          by
          at
          (write e api l w view path bytes by until at).1
  unfolding write
  write-Written l w view path bytes by until at = elim (Option-cases (api.put w bytes by)) [
    | inl h ↦ rw (h, write) (threw refl)
    | inr ((r, w'), h) ↦ elim (Option-cases (sign e l view path (some r) by at)) [
      | inl k ↦ rw (h, k, write) (threw refl)
      | inr (op, k) ↦ rw (h, k, write) (place-Written l w' view path op until by at r k)
    ]
  ]

  -- The log holds the operation as sealed: the public view shows its id, its token and its metadata's
  -- reference alone, and no anonymous reader may place it.
  pub record IsSealed (l : OpLog) (id : Str) : Type 0 where
    pub meta : Ref
    pub shown : public_view l id ≡ some (embargoed id (e.blake3_hex (text "token:" ++ id)) meta)
    pub hidden : (w : W) (op : Op) → op.id ≡ id → placeable api l w none op ≡ false

  sealed : Op → Ref → Embargo
  sealed op m = record {
    meta_ref = m;
    token = e.blake3_hex (text "token:" ++ op.id);
    revealed = false;
  }

  place-IsSealed :
      (l l' : OpLog) (w w' : W) (view : Str) (op op' : Op) (until : Str) (by : Identity)
      → place e api l w view op (some until) by ≡ ((l', w'), some op')
      → IsSealed l' op'.id
  unfolding place embargo_op commit public_view placeable sealed
  place-IsSealed l l' w w' view op op' until by h =
      elim (Option-cases (api.put w (op_meta op) by)) [
        | inl q ↦ ground arith
        | inr ((m, w1), q) ↦ elim (Option-cases (api.schedule_reveal w1 m until by)) [
          | inl k ↦ ground arith
          | inr (w2, k) ↦ record {
            meta = m;
            shown =
                ground
                  (arith, get-put_self l.embargo op.id (sealed op m), get-put_self l.ops op.id op);
            hidden = λ w op'' same.
                ground
                  (arith, get-put_self l.embargo op.id (sealed op m), get-put_self l.ops op.id op);
          }
        ]
      ]

  -- A write under embargo that returns leaves its operation sealed.
  pub write-IsSealed :
      (l l' : OpLog) (w w' : W) (view path bytes until at : Str) (by : Identity) (op : Op)
      → write e api l w view path bytes by (some until) at ≡ ((l', w'), some op)
      → IsSealed l' op.id
  unfolding write
  write-IsSealed l l' w w' view path bytes until at by op h =
      elim (Option-cases (api.put w bytes by)) [
        | inl q ↦ ground arith
        | inr ((r, w1), q) ↦ elim (Option-cases (sign e l view path (some r) by at)) [
          | inl k ↦ ground arith
          | inr (op', k) ↦ place-IsSealed l l' w1 w' view op' op until by (ground arith)
        ]
      ]

  -- A reveal that does not return true changes what the public view shows of no operation.
  pub reveal_sealed :
      (l : OpLog) (w : W) (id j : Str) (now : Option Str)
      → (reveal e api l w id now).1 ≢ some true
      → public_view (reveal e api l w id now).0.0 j ≡ public_view l j
  unfolding reveal
  reveal_sealed l w id j now h = ground arith
