-- ===== src/Authority/Wire.antt =====
-- packages/authority/src/errors.ts, codec.ts: refusals, base64url, and the bytes that are signed. UTF-8
-- bytes of a text stand as the text where they are signed or hashed; the engine's TextEncoder and
-- JSON.parse are fields of `Engine`.
pub mod Base64
use thaddeus.Prelude.{
  ℕ, suc, ◌+◌, ◌-◌, ◌≡◌, refl, Bool, true, false, ◌&&◌, not, Option, none, some, List, ◌∷◌, ◌++◌,
  Str, ◌==◌, if◌then◌else◌, length,
}
use thaddeus.Json.{Json, stringify}
use thaddeus.Identity.{Crypto, from_did, signature_holds}
use thaddeus.Authority.Wire.Base64.{base64url, buffer_of, is_base64url}

pub data AuthorityErrorCode : Type 0 where
  malformed wrong_service unknown_tenant tenant_exists not_a_member not_an_admin bad_credential
        wrong_tenant not_yet_valid expired revoked bad_proof stale_proof replayed_proof
        replay_capacity scope_denied policy_denied conflict stale_head ticket_used bad_ticket
        invalid_claim decrypt_failed :
      AuthorityErrorCode

-- A value, an AuthorityError, or any other exception.
pub data Outcome {ℓ} (A : Type ℓ) : Type ℓ where
  ok : A → Outcome A
  refused : AuthorityErrorCode → Outcome A
  broken : Outcome A

infixl 5 ◌>>=◌ ◌>>◌
abbrev pub ◌>>=◌ {ℓ κ} : {A : Type ℓ} {B : Type κ} → Outcome A → (A → Outcome B) → Outcome B
ok a >>= f = f a
refused c >>= f = refused c
broken >>= f = broken

abbrev pub ◌>>◌ {ℓ} : {B : Type ℓ} → Outcome (Unit {0}) → Outcome B → Outcome B
m >> k = m >>= λ _. k

-- `if (!test) throw new AuthorityError(code, …)`
abbrev pub assure : Bool → AuthorityErrorCode → Outcome (Unit {0})
assure true code = ok tt
assure false code = refused code

pub record Engine : Type 0 where
  pub crypto : Crypto
  pub open crypto use *
  -- new TextEncoder().encode(text)
  pub utf8 : Str → List ℕ
  -- JSON.parse(decodeUtf8(bytes)), for a payload of the values that `Json` has; `none` is a throw
  pub parse_json : List ℕ → Option Json

-- `none` is the AuthorityError.
unfoldable pub from_base64url : Str → Option (List ℕ)
unfolding is_base64url buffer_of
from_base64url t =
    if is_base64url t && (base64url (buffer_of t) == t) then some (buffer_of t) else none

-- `${domain}\n${JSON.stringify(value)}`
unfoldable pub signed_bytes : Str → Json → Str
signed_bytes domain value = domain ++ 10 ∷ stringify value

module _ (e : Engine) where
  unfoldable pub digest : Str → Str → Str
  digest domain value = e.blake3_hex (domain ++ 0 ∷ value)

  -- Malformed input is false.
  unfoldable pub verify_did : Str → Str → List ℕ → Bool
  verify_did did bytes sig = signature_holds e.crypto did bytes sig

  -- Whether `assertDid` returns.
  unfoldable pub is_did : Str → Bool
  is_did did = elim (from_did e.crypto did) [ none ↦ false | some _ ↦ true ]

-- Inversion of a chain of checks that went through.
pub assured :
    {A : Type 0} {a : A} (test : Bool) (code : AuthorityErrorCode) (k : Outcome A)
    → (assure test code >> k) ≡ ok a
    → (test ≡ true) × (k ≡ ok a)
assured true code k h = (refl, h)
assured false code k h = cc

pub bound :
    {A B : Type 0} {b : B} (m : Outcome A) (f : A → Outcome B)
    → (m >>= f) ≡ ok b
    → (a : A) × (m ≡ ok a) × (f a ≡ ok b)
bound (ok a) f h = (a, refl, h)
bound (refused c) f h = cc
bound broken f h = cc

pub ok-inj : {A : Type 0} {a b : A} → ok a ≡ ok b → a ≡ b
ok-inj h = cc
