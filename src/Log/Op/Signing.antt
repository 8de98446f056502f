-- ===== src/Log/Op/Signing.antt =====
-- Ids and signatures of operations (packages/log/src/op.ts).
use mathlib.Core.List.{Permᴰ}
use mathlib.Core.List.Permᴰ.{nil, cons, swap, trans}
use thaddeus.Prelude.{
  ◌≡◌, refl, ap, ◌∙◌, Option-cases, inl, inr, Bool, true, not, some, List, Str, all, arith, ℕ,
}
use thaddeus.Prelude.Sorting.Laws.{sort-permᴰ}
use thaddeus.Identity.{Identity, IsKeypair, of_keypair, signature_holds-sign}
use thaddeus.Log.Op.{
  Op, OpFields, Env, is_empty, assert_canonical, signed_tuple, canonical_op, op_id, sign_op,
  verify_op,
}

all-perm : (p : Str → Bool) {xs ys : List Str} → Permᴰ xs ys → all p xs ≡ all p ys
all-perm p nil = refl
all-perm p (cons e d) = cc (ap p e, all-perm p d)
all-perm p (swap {a} {b} {a'} {b'} {l} e f) = ground (arith, ap p e, ap p f)
all-perm p (trans d d') = all-perm p d ∙ all-perm p d'

module _ (e : Env) where
  -- The id of an operation does not depend on the order in which its parents are listed.
  pub op_id-permᴰ :
      (f : OpFields) (ps : List Str) (author : Str)
      → Permᴰ f.parents ps
      → op_id e (record f { parents = ps }) author ≡ op_id e f author
  unfolding op_id canonical_op assert_canonical signed_tuple
  op_id-permᴰ f ps author p = cc (sort-permᴰ p, all-perm (λ x. not (is_empty x)) p)

  -- An operation that an identity signs verifies, if the identity is made of a key pair of the
  -- documented kind.
  pub verify_op-sign_op :
      (ed_pk ed_sk : List ℕ) (who : Identity) (f : OpFields) (op : Op)
      → IsKeypair e.crypto ed_pk ed_sk
      → of_keypair e.crypto ed_pk ed_sk ≡ some who
      → sign_op e f who ≡ some op
      → verify_op e op ≡ true
  unfolding verify_op sign_op
  verify_op-sign_op ed_pk ed_sk who f op k o s =
      elim (Option-cases (canonical_op e f who.public.did)) [
        | inl throws ↦ ground arith
        | inr (bytes, q) ↦ ground (arith, signature_holds-sign e.crypto ed_pk ed_sk who bytes k o)
      ]
