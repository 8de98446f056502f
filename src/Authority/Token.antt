-- ===== src/Authority/Token.antt =====
-- packages/authority/src/token.ts: credentials and tickets, signed by the service. The payload's text is
-- what is signed, so opening a token does not serialise anything again.
pub mod Roundtrip
use thaddeus.Prelude.{
  ℕ, ◌+◌, ◌*◌, ◌^◌, Bool, true, false, ◌&&◌, not, Option, none, some, List, [], ◌∷◌, ◌++◌, Str,
  text, ◌==◌, if◌then◌else◌, leb, nat_eq, length, all,
}
use thaddeus.Json.{
  Json, Jsons, Fields, null, num, str, arr, obj, nil, cons, end, field, strs, stringify,
}
use thaddeus.Log.Op.{max_safe}
use thaddeus.Log.Head.{is_hex}
use thaddeus.Authority.{Grant, canonical_grants}
use thaddeus.Authority.Wire.{
  Engine, Outcome, ok, refused, broken, ◌>>=◌, ◌>>◌, assure, malformed, bad_credential, bad_ticket,
  verify_did, from_base64url,
}
use thaddeus.Authority.Wire.Base64.{base64url}
use thaddeus.Authority.Proof.{
  PrincipalKind, human, agent, worker, kind_text, is_tenant, grants_json,
}

-- `sign` may be asynchronous.
pub record ServiceSigner : Type 0 where
  pub did : Str
  pub sign : Str → List ℕ

pub record CredentialClaims : Type 0 where
  pub id : Str
  pub issuer : Str
  pub tenant : Str
  pub principal : Str
  pub subject : Str
  pub kind : PrincipalKind
  pub grants : List Grant
  pub issued_at : ℕ
  pub expires_at : ℕ
  pub policy_version : ℕ

pub record TicketClaims : Type 0 where
  pub id : Str
  pub credential : Str
  pub scope : Str
  pub repo : Str
  pub paths : List Str
  pub queued_at : ℕ

abbrev credential_prefix : Str
credential_prefix = text "thc1"

abbrev credential_domain : Str
credential_domain = text "thaddeus.authority.credential.v1"

abbrev ticket_prefix : Str
ticket_prefix = text "tht1"

abbrev ticket_domain : Str
ticket_domain = text "thaddeus.authority.ticket.v1"

-- `s.split('.')`
unfoldable pub split_dot : Str → List Str
split_dot [] = [] ∷ []
split_dot (c ∷ s) = elim (split_dot s) [
  | [] ↦ []
  | seg ∷ segs ↦ if nat_eq c b'.' then [] ∷ seg ∷ segs else (c ∷ seg) ∷ segs
]

-- A member of a parsed object; `none` is `undefined`.
unfoldable pub member_at : Fields → Str → Option Json
member_at end k = none
member_at (field j v fs) k = if j == k then some v else member_at fs k

unfoldable pub text_at : Fields → Str → Option Str
unfolding member_at
text_at fs k = elim (member_at fs k) [ some (str s) ↦ some s | _ ↦ none ]

-- A number that is a time; the wire has no other whole numbers in the model.
unfoldable pub time_at : Fields → Str → Option ℕ
unfolding member_at
time_at fs k = elim (member_at fs k) [
  | some (num n) ↦ if leb n max_safe then some n else none
  | _ ↦ none
]

unfoldable pub texts_of : Jsons → Option (List Str)
texts_of nil = some []
texts_of (cons (str s) js) = elim (texts_of js) [ none ↦ none | some ss ↦ some (s ∷ ss) ]
texts_of (cons _ js) = none

unfoldable pub texts_at : Fields → Str → Option (List Str)
unfolding member_at texts_of
texts_at fs k = elim (member_at fs k) [ some (arr js) ↦ texts_of js | _ ↦ none ]

-- What `canonicalGrants` reads of a parsed value; `none` is its AuthorityError.
grant_of : Json → Option Grant
unfolding text_at texts_at
grant_of (obj fs) = elim (text_at fs (text "repo")) [
  | none ↦ none
  | some repo ↦ elim (texts_at fs (text "scopes")) [
    | none ↦ none
    | some scopes ↦ elim (texts_at fs (text "paths")) [
      | none ↦ none
      | some paths ↦ some (record { repo = repo; scopes = scopes; paths = paths })
    ]
  ]
]
grant_of _ = none

unfoldable pub grants_of : Jsons → Option (List Grant)
unfolding grant_of
grants_of nil = some []
grants_of (cons j js) = elim (grant_of j) [
  | none ↦ none
  | some g ↦ elim (grants_of js) [ none ↦ none | some gs ↦ some (g ∷ gs) ]
]

unfoldable pub grants_at : Fields → Str → Option (List Grant)
unfolding member_at grants_of
grants_at fs k = elim (member_at fs k) [
  | some (arr js) ↦ elim (grants_of js) [ none ↦ none | some gs ↦ canonical_grants gs ]
  | _ ↦ none
]

unfoldable pub kind_of : Str → Option PrincipalKind
kind_of s =
    if s == text "human"
    then some human
    else if s == text "agent"
    then some agent
    else if s == text "worker"
    then some worker
    else none

-- /^[0-9a-f]{32}$/
unfoldable pub is_token_id : Str → Bool
unfolding is_hex
is_token_id s = nat_eq (length s) 32 && all is_hex s

-- What is missing or malformed throws.
abbrev given {ℓ} : {A : Type ℓ} → Option A → Outcome A
given none = refused malformed
given (some a) = ok a

-- The members in the order in which `issue` writes them.
unfoldable pub claims_json : CredentialClaims → Json
claims_json c = obj (
    field (text "v") (num 1) (
      field (text "id") (str c.id) (
        field (text "issuer") (str c.issuer) (
          field (text "tenant") (str c.tenant) (
            field (text "principal") (str c.principal) (
              field (text "subject") (str c.subject) (
                field (text "kind") (str (kind_text c.kind)) (
                  field (text "grants") (arr (grants_json c.grants)) (
                    field (text "issuedAt") (num c.issued_at) (
                      field (text "expiresAt") (num c.expires_at)
                        (field (text "policyVersion") (num c.policy_version) end)))))))))))

unfoldable pub ticket_json : TicketClaims → Json
ticket_json t = obj (
    field (text "v") (num 1) (
      field (text "id") (str t.id) (
        field (text "credential") (str t.credential) (
          field (text "scope") (str t.scope) (
            field (text "repo") (str t.repo) (
              field (text "paths") (arr (strs t.paths))
                (field (text "queuedAt") (num t.queued_at) end)))))))

module _ (e : Engine) where
  unfoldable pub seal_token : Str → Str → Json → ServiceSigner → Str
  seal_token prefix domain payload signer =
      let body = base64url (e.utf8 (stringify payload)) in
      prefix ++ 46 ∷ body ++ 46 ∷ base64url (signer.sign (domain ++ 10 ∷ body))

  -- The payload under a signature that holds.
  open_payload : Str → Outcome Fields
  open_payload body = do
    bytes ← given (from_base64url body)
    elim (e.parse_json bytes) [ some (obj fs) ↦ ok fs | _ ↦ refused malformed ]

  unfoldable pub open_parts : Str → Str → List Str → Str → Outcome Fields
  unfolding open_payload
  open_parts prefix domain (p ∷ body ∷ sig ∷ []) issuer = do
    assure (p == prefix) malformed
    bytes ← given (from_base64url sig)
    assure (verify_did e issuer (domain ++ 10 ∷ body) bytes) bad_credential
    open_payload body
  open_parts prefix domain _ issuer = refused malformed

  unfoldable pub open_token : Str → Str → Str → Str → Outcome Fields
  unfolding open_parts split_dot
  open_token prefix domain token issuer = do
    assure (leb (length token) (64 * 1024)) malformed
    open_parts prefix domain (split_dot token) issuer

  unfoldable pub encode_credential : CredentialClaims → ServiceSigner → Str
  unfolding seal_token
  encode_credential claims signer =
      seal_token credential_prefix credential_domain (claims_json claims) signer

  -- The version and the issuer that the payload claims.
  is_supported : Fields → Str → Bool
  unfolding member_at text_at
  is_supported fs issuer =
      elim (member_at fs (text "v")) [ some (num v) ↦ nat_eq v 1 | _ ↦ false ]
      && elim (text_at fs (text "issuer")) [ none ↦ false | some i ↦ i == issuer ]

  unfoldable pub read_claims : Fields → Str → Outcome CredentialClaims
  unfolding is_supported is_token_id text_at kind_of time_at grants_at
  read_claims fs issuer = do
    assure (is_supported fs issuer) bad_credential
    id ← given (text_at fs (text "id"))
    assure (is_token_id id) malformed
    tenant ← given (text_at fs (text "tenant"))
    assure (is_tenant tenant) malformed
    kind_name ← given (text_at fs (text "kind"))
    kind ← given (kind_of kind_name)
    principal ← given (text_at fs (text "principal"))
    subject ← given (text_at fs (text "subject"))
    issued_at ← given (time_at fs (text "issuedAt"))
    expires_at ← given (time_at fs (text "expiresAt"))
    policy_version ← given (time_at fs (text "policyVersion"))
    grants ← given (grants_at fs (text "grants"))
    ok (record {
      id = id;
      issuer = issuer;
      tenant = tenant;
      principal = principal;
      subject = subject;
      kind = kind;
      grants = grants;
      issued_at = issued_at;
      expires_at = expires_at;
      policy_version = policy_version;
    })

  unfoldable pub decode_credential : Str → Str → Outcome CredentialClaims
  unfolding open_token read_claims
  decode_credential token issuer = do
    fs ← open_token credential_prefix credential_domain token issuer
    read_claims fs issuer

  unfoldable pub encode_ticket : TicketClaims → ServiceSigner → Str
  unfolding seal_token
  encode_ticket claims signer = seal_token ticket_prefix ticket_domain (ticket_json claims) signer

  -- The shape of a ticket; whatever it throws is reported as a bad ticket.
  unfoldable pub read_ticket : Fields → Outcome TicketClaims
  unfolding member_at text_at texts_at time_at is_token_id
  read_ticket fs = do
    assure (elim (member_at fs (text "v")) [ some (num v) ↦ nat_eq v 1 | _ ↦ false ]) bad_ticket
    id ← given (text_at fs (text "id"))
    assure (is_token_id id) bad_ticket
    credential ← given (text_at fs (text "credential"))
    scope ← given (text_at fs (text "scope"))
    repo ← given (text_at fs (text "repo"))
    paths ← given (texts_at fs (text "paths"))
    at ← given (time_at fs (text "queuedAt"))
    ok (record {
      id = id;
      credential = credential;
      scope = scope;
      repo = repo;
      paths = paths;
      queued_at = at;
    })

  unfoldable pub decode_ticket : Str → Str → Outcome TicketClaims
  unfolding open_token read_ticket
  decode_ticket token issuer =
      elim (do fs ← open_token ticket_prefix ticket_domain token issuer; read_ticket fs) [
        | broken ↦ broken
        | refused _ ↦ refused bad_ticket
        | ok t ↦ ok t
      ]
