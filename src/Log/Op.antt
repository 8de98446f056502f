-- ===== src/Log/Op.antt =====
-- packages/log/src/op.ts: the signed operation. `Date.parse` is the engine's, and an argument. The
-- `typeof` tests hold of every value of the model's types.
pub mod Signing
use thaddeus.Prelude.{
  ℕ, ◌-◌, ◌^◌, Bool, true, false, ◌&&◌, Option, none, some, List, [], ◌∷◌, Str, text, ◌==◌,
  if◌then◌else◌, leb, all, get_last?, sort, not, nat_eq,
}
use thaddeus.Json.{Json, null, num, str, arr, nil, cons, strs, stringify}
use thaddeus.Identity.{Crypto, Identity, signature_holds, sign, ◌>>=◌}

-- A content pointer of packages/store.
pub record Ref : Type 0 where
  pub id : Str
  pub plaintext_id : Str

pub record OpFields : Type 0 where
  pub path : Str
  pub parents : List Str
  pub lamport : ℕ
  pub at : Str
  pub payload : Option Ref

pub record Op : Type 0 where
  pub fields : OpFields
  pub open fields use *
  pub id : Str
  pub author : Str
  pub sig : List ℕ

-- `Number.isSafeInteger` of a number that is not negative.
abbrev pub max_safe : ℕ
max_safe = 2 ^ 53 - 1

unfoldable pub is_empty : Str → Bool
is_empty [] = true
is_empty (x ∷ s) = false

ends_with_z : Str → Bool
ends_with_z s = elim (get_last? s) [ none ↦ false | some c ↦ nat_eq c b'Z' ]

abbrev op_domain : Str
op_domain = text "thaddeus.log.op.v2"

pub record Env : Type 0 where
  pub crypto : Crypto
  pub open crypto use *
  -- !Number.isNaN(Date.parse(s))
  pub date_parses : Str → Bool

module _ (e : Env) where
  -- Whether `assertCanonical` returns; `false` is its TypeError.
  unfoldable pub assert_canonical : OpFields → Str → Bool
  unfolding is_empty ends_with_z
  assert_canonical f author =
      not (is_empty f.path)
      && not (is_empty author)
      && leb f.lamport max_safe
      && (ends_with_z f.at && e.date_parses f.at)
      && all (λ p. not (is_empty p)) f.parents

  payload_json : Option Ref → Json
  payload_json none = null
  payload_json (some r) = arr (cons (str r.id) (cons (str r.plaintext_id) nil))

  -- The tuple that is hashed and signed.
  unfoldable pub signed_tuple : OpFields → Str → Json
  unfolding payload_json
  signed_tuple f author = arr (
      cons (str op_domain) (
        cons (str f.path) (
          cons (arr (strs (sort f.parents))) (
            cons (num f.lamport)
              (cons (str author) (cons (payload_json f.payload) (cons (str f.at) nil)))))))

  unfoldable pub canonical_op : OpFields → Str → Option Str
  canonical_op f author =
      if assert_canonical f author then some (stringify (signed_tuple f author)) else none

  unfoldable pub op_id : OpFields → Str → Option Str
  op_id f author = do bytes ← canonical_op f author; some (e.blake3_hex bytes)

  unfoldable pub sign_op : OpFields → Identity → Option Op
  sign_op f author = do
    bytes ← canonical_op f author.public.did
    some (record {
      fields = f;
      id = e.blake3_hex bytes;
      author = author.public.did;
      sig = sign e.crypto author bytes;
    })

  unfoldable pub verify_op : Op → Bool
  verify_op op = elim (canonical_op op.fields op.author) [
    | none ↦ false
    | some bytes ↦ e.blake3_hex bytes == op.id && signature_holds e.crypto op.author bytes op.sig
  ]
