-- ===== src/Authority/Token/Roundtrip.antt =====
-- What the service seals it opens (packages/authority/src/token.ts).
use mathlib.Core.List.{append_assoc}
use thaddeus.Prelude.{
  ℕ, ◌*◌, ◌≤◌, ◌≡◌, refl, ap, ◌∙◌, inl, inr, true, some, List, [], ◌∷◌, ◌++◌, Str, text, nat_eq,
  length, arith, Bool-cases,
}
use thaddeus.Prelude.Texts.{str_dec}
use thaddeus.Json.{Json, Fields, num, arr, obj, end, strs, stringify}
use thaddeus.Log.Op.{max_safe}
use thaddeus.Authority.{Grant, canonical_grants}
use thaddeus.Authority.Wire.{Engine, ok, ◌>>=◌, verify_did, from_base64url}
use thaddeus.Authority.Wire.Base64.{
  base64url, is_base64url, is_digit64, IsBytes, buffer_of-base64url, is_base64url-base64url,
}
use thaddeus.Authority.Proof.{
  PrincipalKind, human, agent, worker, kind_text, is_tenant, grants_json,
}
use thaddeus.Authority.Token.{
  ServiceSigner, CredentialClaims, split_dot, member_at, text_at, time_at, texts_of, grant_of,
  grants_of, grants_at, kind_of, is_token_id, claims_json, seal_token, open_payload, open_parts,
  open_token, read_claims, is_supported, encode_credential, decode_credential, credential_prefix,
  credential_domain,
}

-- Bytes that are encoded are decoded.
pub from_base64url-base64url : (bs : List ℕ) → IsBytes bs → from_base64url (base64url bs) ≡ some bs
unfolding from_base64url
from_base64url-base64url bs h =
    ground (arith, buffer_of-base64url bs h, is_base64url-base64url bs h)

split_dot-one : (s : Str) → is_base64url s ≡ true → split_dot s ≡ s ∷ []
unfolding split_dot is_base64url is_digit64
split_dot-one [] h = refl
split_dot-one (c ∷ s) h = ground (arith, split_dot-one s)

split_dot-cons : (s : Str) → (seg : Str) × (segs : List Str) × (split_dot s ≡ seg ∷ segs)
unfolding split_dot
split_dot-cons [] = ([], [], refl)
split_dot-cons (c ∷ s) =
    let (seg, segs, q) = split_dot-cons s in
    elim (Bool-cases (nat_eq c 46)) [
      | inl dot ↦ ([], seg ∷ segs, ground arith)
      | inr other ↦ (c ∷ seg, segs, ground arith)
    ]

split_dot-more : (s t : Str) → is_base64url s ≡ true → split_dot (s ++ 46 ∷ t) ≡ s ∷ split_dot t
unfolding split_dot is_base64url is_digit64
split_dot-more [] t h = let (seg, segs, q) = split_dot-cons t in ground (arith, q)
split_dot-more (c ∷ s) t h = ground (arith, split_dot-more s t)

texts_of-strs : (ss : List Str) → texts_of (strs ss) ≡ some ss
unfolding texts_of
texts_of-strs [] = refl
texts_of-strs (s ∷ ss) = ground (arith, texts_of-strs ss)

grants_of-grants_json : (gs : List Grant) → grants_of (grants_json gs) ≡ some gs
unfolding grants_of grants_json grant_of member_at text_at
grants_of-grants_json [] = refl
grants_of-grants_json (g ∷ gs) =
    ground (arith, texts_of-strs g.scopes, texts_of-strs g.paths, grants_of-grants_json gs)

kind_of-kind_text : (k : PrincipalKind) → kind_of (kind_text k) ≡ some k
unfolding kind_of str_dec
kind_of-kind_text human = refl
kind_of-kind_text agent = refl
kind_of-kind_text worker = refl

-- What a service writes into a credential.
pub record HasForm (c : CredentialClaims) : Type 0 where
  pub id : is_token_id c.id ≡ true
  pub tenant : is_tenant c.tenant ≡ true
  pub issued_at : c.issued_at ≤ max_safe
  pub expires_at : c.expires_at ≤ max_safe
  pub policy_version : c.policy_version ≤ max_safe
  pub grants : canonical_grants c.grants ≡ some c.grants

claims_fields : CredentialClaims → Fields
claims_fields c = elim (claims_json c) [ obj fs ↦ fs | _ ↦ end ]

module _ (c : CredentialClaims) where
  texts_there :
      (text_at (claims_fields c) (text "id") ≡ some c.id)
      × (text_at (claims_fields c) (text "tenant") ≡ some c.tenant)
      × (text_at (claims_fields c) (text "kind") ≡ some (kind_text c.kind))
      × (text_at (claims_fields c) (text "principal") ≡ some c.principal)
      × (text_at (claims_fields c) (text "subject") ≡ some c.subject)
      × (text_at (claims_fields c) (text "issuer") ≡ some c.issuer)
  unfolding claims_fields claims_json text_at member_at str_dec
  texts_there = (refl, refl, refl, refl, refl, refl)

  time_there :
      (fs : Fields) (k : Str) (n : ℕ)
      → member_at fs k ≡ some (num n)
      → n ≤ max_safe
      → time_at fs k ≡ some n
  unfolding time_at
  time_there fs k n m h = ground arith

  members_there :
      (member_at (claims_fields c) (text "v") ≡ some (num 1))
      × (member_at (claims_fields c) (text "issuedAt") ≡ some (num c.issued_at))
      × (member_at (claims_fields c) (text "expiresAt") ≡ some (num c.expires_at))
      × (member_at (claims_fields c) (text "policyVersion") ≡ some (num c.policy_version))
      × (member_at (claims_fields c) (text "grants") ≡ some (arr (grants_json c.grants)))
  unfolding claims_fields claims_json member_at str_dec
  members_there = (refl, refl, refl, refl, refl)

  grants_there :
      canonical_grants c.grants ≡ some c.grants
      → grants_at (claims_fields c) (text "grants") ≡ some c.grants
  unfolding grants_at
  grants_there h =
      let (m0, m1, m2, m3, m4) = members_there in ground (arith, grants_of-grants_json c.grants)

  read_claims-claims_json :
      (e : Engine) (issuer : Str)
      → HasForm c
      → c.issuer ≡ issuer
      → read_claims e (claims_fields c) issuer ≡ ok c
  unfolding read_claims is_supported
  read_claims-claims_json e issuer h by =
      let (t0, t1, t2, t3, t4, t5) = texts_there in
      let (m0, m1, m2, m3, m4) = members_there in
      ground (
        arith,
        time_there (claims_fields c) (text "issuedAt") c.issued_at m1 h.issued_at,
        time_there (claims_fields c) (text "expiresAt") c.expires_at m2 h.expires_at,
        time_there (claims_fields c) (text "policyVersion") c.policy_version m3 h.policy_version,
        grants_there h.grants,
        kind_of-kind_text c.kind,
        h.id,
        h.tenant,
      )

-- What is documented of TextEncoder and JSON.parse, for one value.
pub record IsRead (e : Engine) (j : Json) : Type 0 where
  pub bytes : IsBytes (e.utf8 (stringify j))
  pub parsed : e.parse_json (e.utf8 (stringify j)) ≡ some j

-- What is documented of a signer: its signatures are bytes, and verify under its did.
pub record IsSigner (e : Engine) (signer : ServiceSigner) : Type 0 where
  pub bytes : (m : Str) → IsBytes (signer.sign m)
  pub verifies : (m : Str) → verify_did e signer.did m (signer.sign m) ≡ true

module _ (e : Engine) (signer : ServiceSigner) where
  -- What was sealed under a prefix without a dot is opened.
  open_token-seal_token :
      (prefix domain : Str) (fs : Fields)
      → IsSigner e signer
      → IsRead e (obj fs)
      → is_base64url prefix ≡ true
      → length (seal_token e prefix domain (obj fs) signer) ≤ 64 * 1024
      → open_token e prefix domain (seal_token e prefix domain (obj fs) signer) signer.did ≡ ok fs
  unfolding open_token seal_token open_parts open_payload
  open_token-seal_token prefix domain fs k r plain short =
      let body = base64url (e.utf8 (stringify (obj fs))) in
      let sig = base64url (signer.sign (domain ++ 10 ∷ body)) in
      let parts : split_dot (prefix ++ 46 ∷ body ++ 46 ∷ sig) ≡ prefix ∷ body ∷ sig ∷ [] =
        ap split_dot (append_assoc prefix (46 ∷ body) (46 ∷ sig))
        ∙ split_dot-more prefix (body ++ 46 ∷ sig) plain
        ∙ ap (λ l. prefix ∷ l)
            (split_dot-more body sig (is_base64url-base64url _ r.bytes)
              ∙ ap (λ l. body ∷ l) (split_dot-one sig (is_base64url-base64url _ (k.bytes _)))) in
      ground (
        arith,
        parts,
        short,
        from_base64url-base64url (e.utf8 (stringify (obj fs))) r.bytes,
        from_base64url-base64url (signer.sign (domain ++ 10 ∷ body)) (k.bytes _),
        k.verifies (domain ++ 10 ∷ body),
        r.parsed,
      )

  -- The service reads back the credential that it sealed, if the claims have the form in which it issues
  -- them, it is their issuer, the token is not too long, its signatures verify, and JSON.parse reads back
  -- the text of the claims.
  pub decode_credential-encode_credential :
      (c : CredentialClaims)
      → IsSigner e signer
      → IsRead e (claims_json c)
      → HasForm c
      → c.issuer ≡ signer.did
      → length (encode_credential e c signer) ≤ 64 * 1024
      → decode_credential e (encode_credential e c signer) signer.did ≡ ok c
  unfolding decode_credential encode_credential claims_fields claims_json is_base64url is_digit64
  decode_credential-encode_credential c k r h by short =
      ap (λ m. m >>= λ fs. read_claims e fs signer.did)
        (open_token-seal_token credential_prefix credential_domain (claims_fields c) k r refl short)
      ∙ read_claims-claims_json c e signer.did h by
