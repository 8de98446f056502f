-- ===== src/Authority/Service/Issuing.antt =====
-- packages/authority/src/authority.ts: `issue` and `revoke`. `issue` holds no lock: other calls may run
-- while its proof is consumed, so it is two functions, which `issue` joins.
use thaddeus.Prelude.{
  ℕ, ◌+◌, Bool, true, false, ◌&&◌, ◌||◌, not, Option, none, some, Str, List, ◌∷◌, ◌++◌, text, ◌==◌,
  if◌then◌else◌, ltb, leb, nat_eq, length, member,
}
use thaddeus.Prelude.Dict.{put}
use thaddeus.Json.{pad}
use thaddeus.Authority.{Grant, grants_subsume, canonical_grants}
use thaddeus.Authority.Wire.{
  Engine, Outcome, ok, refused, broken, ◌>>=◌, ◌>>◌, assure, malformed, not_a_member, not_an_admin,
  policy_denied, wrong_tenant, is_did, digest,
}
use thaddeus.Authority.Proof.{
  PrincipalKind, human, agent, worker, Proof, IssueRequest, RevokeTarget, RevokeRequest, is_tenant,
  issue_domain, revoke_domain, issue_body, revoke_body, check_proof_signature,
}
use thaddeus.Authority.Token.{CredentialClaims, encode_credential, decode_credential}
use thaddeus.Authority.TenantPolicy.{PolicyMember, member_of}
use thaddeus.Authority.Service.{
  AuthorityOptions, Service, Answer, AuditBase, credential_issue, credential_revoke, acting,
  audited, checked, then_do, policy_of, assert_known, assert_service, consume_proof, did,
  Revocation, at_revocations, of_credential, of_did, note_did_revocation,
}

pub record Issued : Type 0 where
  pub token : Str
  pub claims : CredentialClaims

unfoldable pub same_kind : PrincipalKind → PrincipalKind → Bool
same_kind human human = true
same_kind agent agent = true
same_kind worker worker = true
same_kind _ _ = false

-- The kinds that a principal may ask for.
unfoldable pub kind_allowed : PolicyMember → IssueRequest → Bool
unfolding same_kind
kind_allowed m r =
    if r.subject == r.principal then same_kind r.kind m.kind else same_kind r.kind agent

unfoldable pub name_key : Engine → Str → Str
name_key e name = digest e (text "thaddeus.authority.name") name

module _ (o : AuthorityOptions) (e : Engine) where
  unfoldable pub issue_base : IssueRequest → AuditBase
  issue_base r = record (acting r.tenant credential_issue (some r.principal)) {
    principal = some r.principal;
    subject = some r.subject;
    kind = some r.kind;
  }

  unfoldable pub issued_base : Issued → AuditBase → AuditBase
  issued_base i b = record b { credential = some i.claims.id }

  -- The checks before the first wait; they give the canonical grants.
  unfoldable pub check_issue : IssueRequest → Proof → Service → Outcome (List Grant)
  unfolding policy_of assert_known
  check_issue r proof s = do
    assert_service o r.service
    assure (is_tenant r.tenant) malformed
    assure (is_did e r.principal) malformed
    assure (is_did e r.subject) malformed
    grants ← elim (canonical_grants r.grants) [ none ↦ refused malformed | some gs ↦ ok gs ]
    check_proof_signature e r.principal issue_domain (issue_body e r grants) proof
    p ← policy_of s r.tenant
    assert_known p r.principal
    ok grants

  -- Up to the consumption of the proof.
  unfoldable pub begin_issue : ℕ → IssueRequest → Proof → Service → Answer (List Grant)
  unfolding check_issue issue_base
  begin_issue now r proof s = checked (check_issue r proof s) s (λ grants.
      audited o now (issue_base r) (λ _ b. b) false
        (then_do (consume_proof o e now r.principal proof s) (λ _ s'. (ok grants, s'))))

  -- The credential, under the policy that is current when the proof is consumed.
  unfoldable pub cut_credential :
      ℕ → Str → IssueRequest → List Grant → Service → Outcome CredentialClaims
  unfolding policy_of kind_allowed
  cut_credential now id r grants s = do
    p ← policy_of s r.tenant
    m ← elim (member_of p r.principal) [ none ↦ refused not_a_member | some m ↦ ok m ]
    assure (kind_allowed m r) policy_denied
    assure (not (nat_eq (length grants) 0) && grants_subsume m.grants grants) policy_denied
    let ttl = elim r.ttl_ms as (λ _. ℕ) [ none ↦ (o.ttl r.kind).default_ms | some t ↦ t ]
    assure (ltb 0 ttl && leb ttl (o.ttl r.kind).max_ms) malformed
    ok (record {
      id = id;
      issuer = did o;
      tenant = r.tenant;
      principal = r.principal;
      subject = r.subject;
      kind = r.kind;
      grants = grants;
      issued_at = now;
      expires_at = now + ttl;
      policy_version = p.version;
    })

  unfoldable pub finish_issue : ℕ → Str → IssueRequest → List Grant → Service → Answer Issued
  unfolding cut_credential issue_base issued_base
  finish_issue now id r grants s = audited o now (issue_base r) issued_base true (
      checked (cut_credential now id r grants s) s (λ claims.
        (ok (record { token = encode_credential e claims o.signer; claims = claims }), s)))

  -- `others` is what other calls do to the state in between; `id` is random.
  unfoldable pub issue :
      (others : Service → Service) (now later : ℕ) (id : Str)
      → IssueRequest
      → Proof
      → Service
      → Answer Issued
  unfolding begin_issue finish_issue
  issue others now later id r proof s =
      then_do (begin_issue now r proof s) (λ grants s'. finish_issue later id r grants (others s'))

  -- The record of a revocation is written after it is noted in memory.
  unfoldable pub put_revocation : Str → Revocation → Service → Answer (Unit {0})
  put_revocation key x s = if o.put_fails at_revocations key s.backend then (broken, s) else (
    ok tt,
    record s { backend = record (s.backend) { revocations = put s.backend.revocations key x } },
  )

  unfoldable pub revoke_credential :
      ℕ → RevokeRequest → CredentialClaims → Service → Answer (Unit {0})
  unfolding put_revocation
  revoke_credential now r c s =
      put_revocation (r.tenant ++ text "/credential/" ++ c.id)
        (of_credential r.tenant c.id now r.actor)
        (record s { revoked_credentials = c.id ∷ s.revoked_credentials })

  unfoldable pub revoke_did : ℕ → Str → RevokeRequest → Str → Service → Answer (Unit {0})
  unfolding put_revocation note_did_revocation name_key
  revoke_did now id r who s =
      put_revocation (r.tenant ++ text "/did/" ++ name_key e who ++ 47 ∷ pad now 15 ++ 45 ∷ id)
        (of_did r.tenant who now r.actor) (note_did_revocation s r.tenant who now)

  -- What follows the consumption of the proof, for either kind of target.
  unfoldable pub revoke_claims :
      ℕ → RevokeRequest → (is_admin holds : Bool) → CredentialClaims → Service → Answer (Unit {0})
  unfolding revoke_credential
  revoke_claims now r is_admin holds c s =
      if not (c.tenant == r.tenant)
      then (refused wrong_tenant, s)
      else if not is_admin && not holds
      then (refused not_an_admin, s)
      else revoke_credential now r c s

  unfoldable pub revoke_holder :
      ℕ → Str → RevokeRequest → (is_admin : Bool) → Str → Service → Answer (Unit {0})
  unfolding revoke_did
  revoke_holder now id r is_admin who s =
      if not (is_did e who)
      then (refused malformed, s)
      else if not is_admin && not (r.actor == who)
      then (refused not_an_admin, s)
      else revoke_did now id r who s

  unfoldable pub revoke_target :
      ℕ
      → Str
      → RevokeRequest
      → (is_admin holds : Bool) → RevokeTarget
      → Option CredentialClaims
      → Service
      → Answer (Unit {0})
  unfolding revoke_claims revoke_holder
  revoke_target now id r is_admin holds t (some c) s = revoke_claims now r is_admin holds c s
  revoke_target now id r is_admin holds (RevokeTarget.did who) none s =
      revoke_holder now id r is_admin who s
  revoke_target now id r is_admin holds (RevokeTarget.credential _) none s = (refused malformed, s)

  -- The credential that a request names, if it names one.
  unfoldable pub target_claims : RevokeTarget → Outcome (Option CredentialClaims)
  target_claims (RevokeTarget.credential token) = (do
    c ← decode_credential e token (did o)
    ok (some c))
  target_claims (RevokeTarget.did who) = ok none

  unfoldable pub holds_credential : RevokeRequest → Option CredentialClaims → Bool
  holds_credential r none = false
  holds_credential r (some c) = (r.actor == c.principal) || (r.actor == c.subject)

  unfoldable pub revoke_in_lock :
      ℕ → Str → RevokeRequest → Proof → Option CredentialClaims → Service → Answer (Unit {0})
  unfolding revoke_target holds_credential policy_of assert_known
  revoke_in_lock now id r proof claims s =
      checked
        (do
          p ← policy_of s r.tenant
          (if holds_credential r claims then ok tt else assert_known p r.actor)
          ok p)
        s
        (λ p.
          audited o now (acting r.tenant credential_revoke (some r.actor)) (λ _ b. b) true
            (then_do (consume_proof o e now r.actor proof s) (λ _ s'.
              revoke_target now id r (member r.actor p.admins) (holds_credential r claims) r.target
                claims s')))

  -- The checks of a request, but for the credential that it names.
  unfoldable pub check_revoke : RevokeRequest → Proof → Outcome (Unit {0})
  check_revoke r proof = do
    assert_service o r.service
    assure (is_tenant r.tenant) malformed
    assure (is_did e r.actor) malformed
    check_proof_signature e r.actor revoke_domain (revoke_body e r) proof

  unfoldable pub revoke : ℕ → Str → RevokeRequest → Proof → Service → Answer (Unit {0})
  unfolding revoke_in_lock target_claims check_revoke
  revoke now id r proof s =
      checked (do check_revoke r proof; target_claims r.target) s
        (λ claims. revoke_in_lock now id r proof claims s)
