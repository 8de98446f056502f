-- ===== src/Examples/Signed.antt =====
-- Tests on signed operations, heads and identities.
use thaddeus.Prelude.{◌≡◌, refl, true, some, [], ◌∷◌, text, arith}
use thaddeus.Identity.{
  IsKeypair, encode_did_key, decode_did_key, signature_holds, sign, of_keypair,
  decode_did_key-encode_did_key, signature_holds-sign,
}
use thaddeus.Log.Op.{op_id, verify_op, sign_op}
use thaddeus.Log.Op.Signing.{verify_op-sign_op}
use thaddeus.Log.Head.{verify_head, sign_head, valid}
use thaddeus.Log.Head.Signing.{HasSizes, verify_head-sign_head}
use thaddeus.Examples.{plain_crypto, plain_env, ann, first_fields, first_op, head_crypto, genesis}

plain-IsKeypair : IsKeypair plain_crypto (7 ∷ []) (8 ∷ [])
plain-IsKeypair = record { base58 = refl; point = (7 ∷ [], refl); signs = λ m. ground arith }

head-IsKeypair : IsKeypair head_crypto (7 ∷ []) (8 ∷ [])
head-IsKeypair = record { base58 = refl; point = (7 ∷ [], refl); signs = λ m. refl }

ann_plain : of_keypair plain_crypto (7 ∷ []) (8 ∷ []) ≡ some ann
unfolding of_keypair encode_did_key
ann_plain = refl

ann_head : of_keypair head_crypto (7 ∷ []) (8 ∷ []) ≡ some ann
unfolding of_keypair encode_did_key
ann_head = refl

head_sizes : HasSizes head_crypto
unfolding thaddeus.Log.Head.is_id
head_sizes = record { digest = λ m. ground arith; signature = λ m sk. refl }

first_signed : sign_op plain_env first_fields ann ≡ some first_op
unfolding sign_op sign thaddeus.Log.Op.canonical_op thaddeus.Log.Op.assert_canonical
first_signed = refl

genesis_signed : sign_head head_crypto genesis.fields ann ≡ some genesis
unfolding sign_head sign thaddeus.Log.Head.canonical_head thaddeus.Log.Head.assert_canonical
    thaddeus.Log.Head.is_id
genesis_signed = refl

decode_did_key-encode_did_key_example :
    decode_did_key plain_crypto (encode_did_key plain_crypto (7 ∷ [])) ≡ some (7 ∷ [])
decode_did_key-encode_did_key_example =
    decode_did_key-encode_did_key plain_crypto (7 ∷ []) (8 ∷ []) plain-IsKeypair

signature_holds-sign_example :
    signature_holds plain_crypto ann.public.did (text "m") (sign plain_crypto ann (text "m")) ≡ true
signature_holds-sign_example =
    signature_holds-sign plain_crypto (7 ∷ []) (8 ∷ []) ann (text "m") plain-IsKeypair ann_plain

verify_op-sign_op_example : verify_op plain_env first_op ≡ true
verify_op-sign_op_example =
    verify_op-sign_op plain_env (7 ∷ []) (8 ∷ []) ann first_fields first_op plain-IsKeypair
      ann_plain first_signed

verify_head-sign_head_example : verify_head head_crypto genesis ≡ valid
verify_head-sign_head_example =
    verify_head-sign_head head_crypto (7 ∷ []) (8 ∷ []) ann genesis.fields genesis head_sizes
      head-IsKeypair ann_head genesis_signed
