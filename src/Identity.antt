-- ===== src/Identity.antt =====
-- packages/identity: `did:key` texts and the identities that sign and verify. libsodium, BLAKE3 and
-- base58 are third-party code: an argument `Crypto`. Sealing and the `ready` flag are left out.
use thaddeus.Prelude.{
  ℕ, ◌≡◌, Bool, true, false, ◌&&◌, Option, none, some, List, [], ◌∷◌, ◌++◌, Str, text,
  if◌then◌else◌, nat_eq, drop, arith,
}

pub record Crypto : Type 0 where
  -- bytesToHex(blake3(bytes)) of a text's bytes
  pub blake3_hex : Str → Str
  -- `base58` of @scure/base; decoding throws on a text that is not base58
  pub base58_encode : List ℕ → Str
  pub base58_decode : Str → Option (List ℕ)
  -- crypto_sign_ed25519_pk_to_curve25519 throws on bytes that are no curve point
  pub pk_to_curve : List ℕ → Option (List ℕ)
  -- crypto_sign_verify_detached(sig, message, pk) throws on a key or a signature of a wrong size
  pub verify_detached : List ℕ → Str → List ℕ → Option Bool
  -- crypto_sign_detached(message, sk)
  pub sign_detached : Str → List ℕ → List ℕ

-- `m >>= f` for code that may throw: `none` is an exception.
infixl 5 ◌>>=◌
abbrev pub ◌>>=◌ {ℓ κ} : {A : Type ℓ} {B : Type κ} → Option A → (A → Option B) → Option B
none >>= f = none
some a >>= f = f a

-- `s.startsWith(prefix)`
unfoldable pub starts_with : Str → Str → Bool
starts_with s [] = true
starts_with [] (p ∷ ps) = false
starts_with (c ∷ s) (p ∷ ps) = nat_eq c p && starts_with s ps

abbrev did_prefix : Str
did_prefix = text "did:key:z"

-- The multicodec prefix of an ed25519 key.
strip_multicodec : List ℕ → Option (List ℕ)
strip_multicodec (a ∷ b ∷ key) = if nat_eq a 0xed && nat_eq b 0x01 then some key else none
strip_multicodec _ = none

pub record PublicIdentity : Type 0 where
  pub did : Str
  pub ed_pk : List ℕ
  pub x_pk : List ℕ

pub record Identity : Type 0 where
  pub ed_sk : List ℕ
  pub public : PublicIdentity

module _ (c : Crypto) where
  unfoldable pub encode_did_key : List ℕ → Str
  encode_did_key key = did_prefix ++ c.base58_encode (0xed ∷ 0x01 ∷ key)

  unfoldable pub decode_did_key : Str → Option (List ℕ)
  unfolding starts_with strip_multicodec
  decode_did_key did =
      if starts_with did did_prefix then c.base58_decode (drop 9 did) >>= strip_multicodec else none

  unfoldable pub from_did : Str → Option PublicIdentity
  from_did did = do
    ed_pk ← decode_did_key did
    x_pk ← c.pk_to_curve ed_pk
    some (record { did = did; ed_pk = ed_pk; x_pk = x_pk })

  unfoldable pub verify : PublicIdentity → Str → List ℕ → Option Bool
  verify who bytes sig = c.verify_detached sig bytes who.ed_pk

  -- The private constructor, given the key pair that `create` and `fromSeed` make.
  unfoldable pub of_keypair : List ℕ → List ℕ → Option Identity
  of_keypair ed_pk ed_sk = do
    x_pk ← c.pk_to_curve ed_pk
    some (record {
      ed_sk = ed_sk;
      public = record { did = encode_did_key ed_pk; ed_pk = ed_pk; x_pk = x_pk };
    })

  unfoldable pub sign : Identity → Str → List ℕ
  sign who bytes = c.sign_detached bytes who.ed_sk

  -- `PublicIdentity.fromDid(did).verify(bytes, sig)`, with the `catch` that its callers wrap round
  -- it: whatever throws counts as a bad signature.
  unfoldable pub signature_holds : Str → Str → List ℕ → Bool
  unfolding from_did decode_did_key verify
  signature_holds did bytes sig = elim (from_did did >>= λ who. verify who bytes sig) [
    | none ↦ false
    | some b ↦ b
  ]

-- What is documented of the third-party functions, for one key pair: a decoded text is what was
-- encoded, the public key is a curve point, and a signature by the secret key verifies.
pub record IsKeypair (c : Crypto) (ed_pk ed_sk : List ℕ) : Type 0 where
  pub base58 : c.base58_decode (c.base58_encode (0xed ∷ 0x01 ∷ ed_pk)) ≡ some (0xed ∷ 0x01 ∷ ed_pk)
  pub point : (x : List ℕ) × (c.pk_to_curve ed_pk ≡ some x)
  pub signs : (m : Str) → c.verify_detached (c.sign_detached m ed_sk) m ed_pk ≡ some true

-- Decoding gives back the key that was encoded, for the public key of a key pair of the documented
-- kind.
pub decode_did_key-encode_did_key :
    (c : Crypto) (ed_pk ed_sk : List ℕ)
    → IsKeypair c ed_pk ed_sk
    → decode_did_key c (encode_did_key c ed_pk) ≡ some ed_pk
unfolding decode_did_key encode_did_key starts_with strip_multicodec
decode_did_key-encode_did_key c ed_pk ed_sk h = rw h.base58

-- What an identity signs verifies under its did, if the identity is made of a key pair of the
-- documented kind.
pub signature_holds-sign :
    (c : Crypto) (ed_pk ed_sk : List ℕ) (who : Identity) (bytes : Str)
    → IsKeypair c ed_pk ed_sk
    → of_keypair c ed_pk ed_sk ≡ some who
    → signature_holds c who.public.did bytes (sign c who bytes) ≡ true
unfolding signature_holds of_keypair sign
signature_holds-sign c ed_pk ed_sk who bytes h e =
    ground (arith, h.signs bytes, h.point, decode_did_key-encode_did_key c ed_pk ed_sk h)
