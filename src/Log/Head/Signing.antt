-- ===== src/Log/Head/Signing.antt =====
-- Signing heads (packages/log/src/head.ts): what `signHead` returns passes `verifyHead`.
use thaddeus.Prelude.{◌≡◌, true, some, List, Str, arith, ℕ, length, Option-cases, inl, inr}
use thaddeus.Identity.{Crypto, Identity, IsKeypair, of_keypair, sign, signature_holds-sign}
use thaddeus.Log.Head.{HeadFields, HeadRecord, valid, is_id, canonical_head, sign_head, verify_head}

-- What is documented of the third-party functions: a digest is 64 lowercase hexadecimal characters,
-- and a detached signature is 64 bytes.
pub record HasSizes (c : Crypto) : Type 0 where
  pub digest : (m : Str) → is_id (c.blake3_hex m) ≡ true
  pub signature : (m : Str) (sk : List ℕ) → length (c.sign_detached m sk) ≡ 64

module _ (c : Crypto) where
  -- A head that an identity signs verifies, if the identity is made of a key pair of the documented
  -- kind, and digests and signatures have the documented form.
  pub verify_head-sign_head :
      (ed_pk ed_sk : List ℕ) (who : Identity) (f : HeadFields) (r : HeadRecord)
      → HasSizes c
      → IsKeypair c ed_pk ed_sk
      → of_keypair c ed_pk ed_sk ≡ some who
      → sign_head c f who ≡ some r
      → verify_head c r ≡ valid
  unfolding verify_head sign_head sign
  verify_head-sign_head ed_pk ed_sk who f r z k o s =
      elim (Option-cases (canonical_head f who.public.did)) [
        | inl throws ↦ ground arith
        | inr (bytes, e) ↦ ground (
          arith,
          z.digest bytes,
          z.signature bytes who.ed_sk,
          signature_holds-sign c ed_pk ed_sk who bytes k o,
        )
      ]
