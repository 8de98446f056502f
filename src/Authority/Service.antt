-- ===== src/Authority/Service.antt =====
-- packages/authority/src/authority.ts: the state of the service, what it loads, audits and validates. The
-- operations are in the children. The backend's keys begin with one of five prefixes, none of which
-- begins another, so each is a table of its own here, of decoded records. Authorizations are genuine by
-- their type. The clock is read once for each part of a call that runs without waiting. A write that the
-- store refuses throws.
pub mod Policies
pub mod Issuing
pub mod Use
pub mod History
pub mod Keeps
pub mod Inversion
pub mod Calls
pub mod Allowed
pub mod Revoked
pub mod Once
pub mod Opening
pub mod Issued
pub mod Replaced
pub mod Advanced
pub mod Refusals
use thaddeus.Prelude.{
  ℕ, suc, ◌+◌, ◌-◌, ◌*◌, Bool, true, false, ◌&&◌, ◌||◌, not, Option, none, some, List, [], ◌∷◌,
  ◌++◌, Str, text, ◌==◌, if◌then◌else◌, ltb, leb, nat_eq, length, all, any, member, lt_str,
}
use thaddeus.Prelude.Dict.{Dict, get, put, has, keys}
use thaddeus.Json.{Json, str, arr, nil, cons, stringify, pad}
use thaddeus.Authority.{grants_cover, pattern_covers, is_pattern}
use thaddeus.Authority.Wire.{
  AuthorityErrorCode, Engine, Outcome, ok, refused, broken, ◌>>=◌, ◌>>◌, assure, digest,
  unknown_tenant, wrong_service, not_a_member, not_yet_valid, expired, revoked, stale_proof,
  replayed_proof, replay_capacity, scope_denied, policy_denied,
}
use thaddeus.Authority.Proof.{PrincipalKind, human, agent, worker, Proof, Action}
use thaddeus.Authority.Token.{ServiceSigner, CredentialClaims}
use thaddeus.Authority.TenantPolicy.{TenantPolicy, PolicyMember, member_of}
use thaddeus.Authority.ServiceHead.{ServiceHeadRecord}
use thaddeus.Replay.{
  ReplayNonceState, ConsumeNonceInput, ConsumeNonceResult, consumed, replayed, at_capacity,
  ConsumeEnd, decided, inconsistent, invalid_input, unfinished, consume_nonce_state,
  max_replay_nonce_capacity,
}

pub record TtlRule : Type 0 where
  pub default_ms : ℕ
  pub max_ms : ℕ

abbrev hour : ℕ
hour = 60 * (60 * 1000)

abbrev pub proof_skew_ms : ℕ
proof_skew_ms = 5 * 60 * 1000

unfoldable pub default_ttl : PrincipalKind → TtlRule
default_ttl human = record { default_ms = 8 * hour; max_ms = 12 * hour }
default_ttl agent = record { default_ms = 15 * (60 * 1000); max_ms = hour }
default_ttl worker = record { default_ms = 15 * (60 * 1000); max_ms = hour }

pub data AuditEvent : Type 0 where
  tenant_create policy_change credential_issue credential_revoke authorized plaintext_read
        plaintext_write ticket_queue ticket_redeem history_advance :
      AuditEvent

pub data AuditOutcome : Type 0 where
  allow deny : AuditOutcome

pub record AuditBase : Type 0 where
  pub tenant : Str
  pub event : AuditEvent
  pub actor : Option Str
  pub principal : Option Str
  pub subject : Option Str
  pub kind : Option PrincipalKind
  pub credential : Option Str
  pub scope : Option Str
  pub repo : Option Str
  pub paths : Option (List Str)

-- The detail, a text for people, is left out.
pub record AuditRecord : Type 0 where
  pub id : Str
  pub at : ℕ
  pub base : AuditBase
  pub outcome : AuditOutcome
  pub code : Option AuthorityErrorCode

pub data Revocation : Type 0 where
  of_credential of_did : (tenant name : Str) (at : ℕ) (by : Str) → Revocation

pub record Backend : Type 0 where
  pub policies : Dict TenantPolicy
  pub revocations : Dict Revocation
  pub heads : Dict ServiceHeadRecord
  pub tickets : Dict ℕ
  pub audits : Dict AuditRecord
  pub nonces : ReplayNonceState

-- The prefixes of the keys that are written.
pub data Table : Type 0 where
  at_policies at_revocations at_tickets at_heads at_audits : Table

-- What an authority is made with. `instance` is a random text, and `put_fails` says
-- which writes its store refuses: they throw, and write nothing.
pub record AuthorityOptions : Type 0 where
  pub signer : ServiceSigner
  pub ttl : PrincipalKind → TtlRule
  pub skew : ℕ
  pub capacity : ℕ
  pub instance_id : Str
  pub put_fails : Table → Str → Backend → Bool

-- The fields of `Authority`.
pub record Service : Type 0 where
  pub policies : Dict TenantPolicy
  pub revoked_credentials : List Str
  pub revoked_dids : Dict ℕ
  pub heads : Dict (Option ServiceHeadRecord)
  pub audit_seq : ℕ
  pub backend : Backend

-- A call: how it ended, and the state then.
abbrev pub Answer : Type 0 → Type 0
Answer A = Outcome A × Service

unfoldable pub then_do : {A B : Type 0} → Answer A → (A → Service → Answer B) → Answer B
then_do (ok a, s) f = f a s
then_do (refused c, s) f = (refused c, s)
then_do (broken, s) f = (broken, s)

-- Checks that change nothing, and what follows them.
unfoldable pub checked : {A B : Type 0} → Outcome A → Service → (A → Answer B) → Answer B
checked (ok a) s f = f a
checked (refused c) s f = (refused c, s)
checked broken s f = (broken, s)

unfoldable pub policy_of : Service → Str → Outcome TenantPolicy
policy_of s tenant = elim (get s.policies tenant) [ none ↦ refused unknown_tenant | some p ↦ ok p ]

-- `assertKnown`
unfoldable pub assert_known : TenantPolicy → Str → Outcome (Unit {0})
assert_known p did =
    assure (member did p.admins || elim (member_of p did) [ none ↦ false | some _ ↦ true ])
      not_a_member

unfoldable pub did_key : Str → Str → Str
did_key tenant did = tenant ++ 10 ∷ did

unfoldable pub revoked_since : Service → CredentialClaims → Str → Bool
unfolding did_key
revoked_since s c did = elim (get s.revoked_dids (did_key c.tenant did)) [
  | none ↦ false
  | some at ↦ leb c.issued_at at
]

unfoldable pub is_revoked : Service → CredentialClaims → Bool
unfolding revoked_since
is_revoked s c =
    member c.id s.revoked_credentials
    || revoked_since s c c.subject
    || revoked_since s c c.principal

-- `note_did_revocation`: the latest time stays.
unfoldable pub note_did_revocation : Service → Str → Str → ℕ → Service
unfolding did_key
note_did_revocation s tenant did at =
    let key = did_key tenant did in
    let old = elim (get s.revoked_dids key) as (λ _. ℕ) [ none ↦ 0 | some t ↦ t ] in
    record s { revoked_dids = put s.revoked_dids key (if leb at old then old else at) }

-- `reaches`: one of the patterns covers the path.
unfoldable pub reaches : List Str → Str → Bool
reaches patterns path = is_pattern path && any (λ pattern. pattern_covers pattern path) patterns

unfoldable pub member_covers : TenantPolicy → CredentialClaims → Action → Str → Bool
member_covers p c a pattern = elim (member_of p c.principal) [
  | none ↦ false
  | some m ↦ grants_cover m.grants a.repo a.scope pattern
]

unfoldable pub audit_id : AuthorityOptions → ℕ → Service → Str
audit_id o now s = pad now 15 ++ 45 ∷ o.instance_id ++ 45 ∷ pad s.audit_seq 12

-- The record of an audit, once it is written.
unfoldable pub put_audit :
    AuthorityOptions → ℕ → AuditBase → AuditOutcome → Option AuthorityErrorCode → Service → Service
unfolding audit_id
put_audit o now base outcome code s =
    let id = audit_id o now s in
    record s {
      audit_seq = suc s.audit_seq;
      backend = record (s.backend) {
        audits =
            put s.backend.audits (base.tenant ++ 47 ∷ id)
              (record { id = id; at = now; base = base; outcome = outcome; code = code });
      };
    }

-- `#audit`: the sequence number is spent before the write, which may throw.
unfoldable pub write_audit :
    AuthorityOptions
    → ℕ
    → AuditBase
    → AuditOutcome
    → Option AuthorityErrorCode
    → Service
    → Answer (Unit {0})
unfolding audit_id put_audit
write_audit o now base outcome code s =
    if o.put_fails at_audits (base.tenant ++ 47 ∷ audit_id o now s) s.backend
    then (broken, record s { audit_seq = suc s.audit_seq })
    else (ok tt, put_audit o now base outcome code s)

-- `#audited`, applied to how the work ended. `more` adds to the record of a success; `both` is false
-- in the mode 'deny-only'. When the audit throws, so does the call, with what the work did left.
unfoldable pub audited :
    {A : Type 0}
    → AuthorityOptions
    → ℕ
    → AuditBase
    → (A → AuditBase → AuditBase)
    → Bool
    → Answer A
    → Answer A
unfolding write_audit then_do
audited o now base more both (ok a, s) =
    if both
    then then_do (write_audit o now (more a base) allow none s) (λ _ s'. (ok a, s'))
    else (ok a, s)
audited o now base more both (refused c, s) =
    then_do (write_audit o now base deny (some c) s) (λ _ s'. (refused c, s'))
audited o now base more both (broken, s) = (broken, s)

-- `who`, in a record of `tenant` and `event`.
abbrev pub base_of : CredentialClaims → AuditEvent → Option Action → AuditBase
base_of c event a = record {
  tenant = c.tenant;
  event = event;
  actor = some c.subject;
  principal = some c.principal;
  subject = some c.subject;
  kind = some c.kind;
  credential = some c.id;
  scope = elim a as (λ _. Option Str) [ none ↦ none | some x ↦ some x.scope ];
  repo = elim a as (λ _. Option Str) [ none ↦ none | some x ↦ some x.repo ];
  paths = elim a as (λ _. Option (List Str)) [ none ↦ none | some x ↦ some x.paths ];
}

abbrev pub acting : Str → AuditEvent → Option Str → AuditBase
acting tenant event actor = record {
  tenant = tenant;
  event = event;
  actor = actor;
  principal = none;
  subject = none;
  kind = none;
  credential = none;
  scope = none;
  repo = none;
  paths = none;
}

module _ (o : AuthorityOptions) where
  abbrev pub did : Str
  did = o.signer.did

  -- `#validate`: the version of the policy under which the action is allowed now.
  unfoldable pub validate : Service → ℕ → CredentialClaims → Action → Outcome ℕ
  unfolding policy_of is_revoked member_covers
  validate s now c a = do
    p ← policy_of s c.tenant
    assure (leb c.issued_at (now + o.skew)) not_yet_valid
    assure (ltb now c.expires_at) expired
    assure (not (is_revoked s c)) revoked
    assure (all (λ pattern. grants_cover c.grants a.repo a.scope pattern) a.paths) scope_denied
    assure (all (member_covers p c a) a.paths) policy_denied
    ok p.version

  abbrev pub assert_service : Str → Outcome (Unit {0})
  assert_service service = assure (service == did) wrong_service

  module _ (e : Engine) where
    unfoldable pub nonce_key : Str → Str → Str
    nonce_key who nonce =
        digest e (text "thaddeus.authority.nonce.v1")
          (stringify (arr (cons (str who) (cons (str nonce) nil))))

    nonce_input : ℕ → Str → Proof → ConsumeNonceInput
    nonce_input now who p = record {
      key = nonce_key who p.nonce;
      expires_at = p.timestamp + o.skew;
      now = now;
      capacity = o.capacity;
    }

    consumption : ConsumeNonceResult → Outcome (Unit {0})
    consumption (consumed _ _) = ok tt
    consumption (replayed _ _) = refused replayed_proof
    consumption (at_capacity _ _ _) = refused replay_capacity

    -- `#consumeProof`
    unfoldable pub consume_proof : ℕ → Str → Proof → Service → Answer (Unit {0})
    unfolding nonce_input consumption consume_nonce_state
    consume_proof now who p s =
        if ltb (p.timestamp + o.skew) now || ltb (now + o.skew) p.timestamp
        then (refused stale_proof, s)
        else elim (consume_nonce_state s.backend.nonces (nonce_input now who p)) [
          | invalid_input ↦ (broken, s)
          | unfinished ↦ (broken, s)
          | inconsistent n ↦ (broken, record s { backend = record (s.backend) { nonces = n } })
          | decided n d ↦
              (consumption d.result, record s { backend = record (s.backend) { nonces = n } })
        ]
