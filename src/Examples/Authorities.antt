-- ===== src/Examples/Authorities.antt =====
-- Runs of the authority: one tenant, one member, one credential.
pub mod Runs
pub mod Witnesses
use thaddeus.Prelude.{
  ℕ, suc, ◌+◌, ◌*◌, ◌≤◌, ◌<◌, ◌≡◌, ◌≢◌, ◌↔◌, refl, sym, ap, ◌∙◌, ◌⊎◌, inl, inr, Bool, true, false,
  Option, none, some, List, [], ◌∷◌, ◌++◌, Str, text, ◌==◌, if◌then◌else◌, arith, length, member,
  sort, unique,
}
use thaddeus.Prelude.Texts.{str_dec}
use thaddeus.Prelude.Dict.{get, put, keys}
use thaddeus.Json.{Json, stringify, pad}
use thaddeus.Identity.{signature_holds, from_did, decode_did_key}
use thaddeus.Authority.{
  Grant, canonical_grants, grants_subsume, grants_cover, grant_covers, pattern_covers,
}
use thaddeus.Authority.Wire.{
  Engine, Outcome, ok, refused, is_did, from_base64url, verify_did, digest,
}
use thaddeus.Authority.Wire.Base64.{base64url}
use thaddeus.Authority.Proof.{
  Proof, Action, grants_json, canonical_action, is_action, IssueRequest, RevokeRequest, credential,
  human, is_tenant, check_proof_signature,
}
use thaddeus.Authority.Token.{
  ServiceSigner, CredentialClaims, TicketClaims, claims_json, ticket_json, encode_credential,
  decode_credential, encode_ticket, decode_ticket,
}
use thaddeus.Authority.TenantPolicy.{
  PolicyBody, PolicyMember, TenantPolicy, PolicyChange, member_of, policy_change_body,
}
use thaddeus.Authority.Service.{
  AuthorityOptions, Service, Backend, default_ttl, proof_skew_ms, then_do, checked, audited,
  consume_proof, nonce_key, validate, reaches,
}
use thaddeus.Replay.{
  consume_nonce_state, valid_input, clean, clean_round, settle, push_expiration, sift_up,
}
use thaddeus.Authority.Service.Issuing.{Issued, issue, revoke, name_key}
use thaddeus.Authority.Service.Use.{
  Authorization, authorize, redeem, audited_use, spend_proof, check,
}
use thaddeus.Authority.Service.Policies.{change_policy}
use thaddeus.Authority.Service.History.{AdvanceInput, sign_head, advance, head, write_head}
use thaddeus.Authority.ServiceHead.{ActorClaim, HeadContent, ServiceHeadRecord}
use thaddeus.Examples.{head_crypto, ann_did, sixty_three}

abbrev pub grant : Grant
grant = record { repo = text "r"; scopes = text "integrate" ∷ []; paths = text "src/**" ∷ [] }

abbrev pub thirty_two : Str
thirty_two = text "0123456789abcdef0123456789abcdef"

abbrev pub cred : CredentialClaims
cred = record {
  id = thirty_two;
  issuer = ann_did;
  tenant = text "t";
  principal = ann_did;
  subject = ann_did;
  kind = human;
  grants = grant ∷ [];
  issued_at = 1001;
  expires_at = 1001 + 8 * (60 * (60 * 1000));
  policy_version = 0;
}

abbrev pub signer : ServiceSigner
signer = record { did = ann_did; sign = λ m. 48 ∷ sixty_three }

abbrev pub options : AuthorityOptions
options = record {
  signer = signer;
  ttl = default_ttl;
  skew = proof_skew_ms;
  put_fails = λ t k b. false;
  capacity = 3;
  instance_id = text "i";
}

-- Texts of one byte a character, and the one payload that is parsed, or else the other.
abbrev pub engine_of : Json → Json → Engine
engine_of j k = record {
  crypto = head_crypto;
  utf8 = λ s. s;
  parse_json = λ b. if b == stringify j then some j else some k;
}

abbrev pub engine : Engine
engine = engine_of (claims_json cred) (claims_json cred)

abbrev pub body : PolicyBody
body = record {
  admins = ann_did ∷ [];
  members = record { subject = ann_did; kind = human; grants = grant ∷ [] } ∷ [];
}

abbrev pub policy : TenantPolicy
policy = record { body = body; tenant = text "t"; version = 0; changed_by = none; changed_at = 5 }

abbrev pub start : Service
start = record {
  policies = (text "t", policy) ∷ [];
  revoked_credentials = [];
  revoked_dids = [];
  heads = [];
  audit_seq = 0;
  backend = record {
    policies = [];
    revocations = [];
    heads = [];
    tickets = [];
    audits = [];
    nonces = record { by_key = []; expirations = [] };
  };
}

abbrev pub proof_at : ℕ → Proof
proof_at now = record {
  timestamp = now;
  nonce = text "n";
  signature = base64url (48 ∷ sixty_three);
}

abbrev pub request : IssueRequest
request = record {
  service = ann_did;
  tenant = text "t";
  principal = ann_did;
  subject = ann_did;
  kind = human;
  grants = grant ∷ [];
  ttl_ms = none;
}

abbrev pub granted : Issued
granted = record { token = encode_credential engine cred signer; claims = cred }

abbrev pub action : Action
action = record {
  scope = text "integrate";
  tenant = text "t";
  repo = text "r";
  paths = text "src/**" ∷ [];
  digest = none;
}

abbrev pub authorization : Authorization
authorization = record {
  claims = cred;
  token = granted.token;
  action = action;
  policy_version = 0;
  ticket = none;
}

abbrev pub revocation : RevokeRequest
revocation = record {
  service = ann_did;
  tenant = text "t";
  actor = ann_did;
  target = credential granted.token;
}

abbrev pub ticket : TicketClaims
ticket = record {
  id = thirty_two;
  credential = granted.token;
  scope = text "integrate";
  repo = text "r";
  paths = text "src/**" ∷ [];
  queued_at = 2500;
}

abbrev pub change_at : ℕ → PolicyChange
change_at version = record {
  service = ann_did;
  tenant = text "t";
  admin = ann_did;
  expected_version = version;
  policy = body;
}

abbrev pub policy_at : ℕ → ℕ → TenantPolicy
policy_at version at = record {
  body = body;
  tenant = text "t";
  version = version;
  changed_by = some ann_did;
  changed_at = at;
}

abbrev pub second_proof : ℕ → Proof
second_proof now = record (proof_at now) { nonce = text "nn" }

abbrev pub actor_claim : ActorClaim
actor_claim = record { did = ann_did; signature = base64url (48 ∷ sixty_three) }

abbrev pub advance_input : AdvanceInput
advance_input = record {
  view = text "main";
  expected_version = none;
  revision = text "x";
  changed_paths = text "src/a" ∷ [];
  actor_claims = actor_claim ∷ [];
}

abbrev pub first_content : HeadContent
first_content = record {
  tenant = text "t";
  repo = text "r";
  view = text "main";
  version = 0;
  previous = none;
  revision = text "x";
  paths = text "src/a" ∷ [];
}

abbrev pub second_input : AdvanceInput
second_input = record advance_input { expected_version = some 0 }
