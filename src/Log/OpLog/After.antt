-- ===== src/Log/OpLog/After.antt =====
-- The lamport number of packages/log/src/oplog.ts: a signed operation is later than its parents.
use thaddeus.Prelude.{
  ◌≤◌, ◌<◌, ◌≡◌, true, Option, some, List, [], ◌∷◌, Str, member, arith, Option-cases, inl, inr,
}
use thaddeus.Prelude.Dict.{get}
use thaddeus.Identity.{Identity}
use thaddeus.Log.Op.{Ref, Op, Env, sign_op, canonical_op}
use thaddeus.Log.OpLog.{OpLog, view_heads, lt_op, max, max_lamport, next_lamport}
use thaddeus.Log.OpLog.Write.{sign}

max_lamport-bound :
    (l : OpLog) (hs : List Str) (p : Str) (q : Op)
    → member p hs ≡ true
    → get l.ops p ≡ some q
    → q.lamport ≤ max_lamport l hs
unfolding max_lamport max member
max_lamport-bound l [] p q m g = cc
max_lamport-bound l (h ∷ hs) p q m g = ground (arith, max_lamport-bound l hs p q)

next_lamport-bound :
    (l : OpLog) (hs : List Str) (p : Str) (q : Op)
    → member p hs ≡ true
    → get l.ops p ≡ some q
    → q.lamport < next_lamport l hs
unfolding next_lamport member
next_lamport-bound l [] p q m g = cc
next_lamport-bound l (h ∷ hs) p q m g = omega (arith, max_lamport-bound l (h ∷ hs) p q m g)

module _ (e : Env) where
  -- An operation that is signed for a view has the view's heads as its parents, and comes after every
  -- parent that the log knows in the order of `ops()`.
  pub sign-after :
      (l : OpLog) (view path at : Str) (payload : Option Ref) (by : Identity) (op : Op)
      → sign e l view path payload by at ≡ some op
      → (op.parents ≡ view_heads l view)
        × ((p : Str) (q : Op)
            → member p op.parents ≡ true
            → get l.ops p ≡ some q
            → lt_op q op ≡ true)
  unfolding sign sign_op lt_op
  sign-after l view path at payload by op s =
      elim (Option-cases (
        canonical_op e
          (record {
            path = path;
            parents = view_heads l view;
            lamport = next_lamport l (view_heads l view);
            at = at;
            payload = payload;
          })
          by.public.did)) [
            | inl k ↦ absurd (ground arith)
            | inr (bytes, k) ↦
                let ps : op.parents ≡ view_heads l view = ground arith in
                let lam : op.lamport ≡ next_lamport l (view_heads l view) = ground arith in
                (ps, λ p q m g. ground (arith, next_lamport-bound l (view_heads l view) p q))
          ]
