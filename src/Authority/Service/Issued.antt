-- ===== src/Authority/Service/Issued.antt =====
-- A credential never exceeds what its principal holds (`issue` in packages/authority/src/authority.ts).
pub mod Call
pub mod Bounds
use mathlib.Core.List.{Memᴰ}
use thaddeus.Prelude.{
  ℕ, ◌+◌, ◌≤◌, ◌<◌, ◌≡◌, ◌≢◌, refl, sym, ap, ◌∙◌, subst, ◌⊎◌, inl, inr, true, false, ◌&&◌, not,
  Option, none, some, List, Str, ◌==◌, ltb, leb, nat_eq, length, arith, Bool-cases,
}
use thaddeus.Prelude.Dict.{get}
use thaddeus.Authority.{Grant, grants_subsume, grants_cover, canonical_grants}
use thaddeus.Authority.Covers.{grants_subsume-cover}
use thaddeus.Authority.Wire.{
  Engine, Outcome, ok, refused, assured, bound, ok-inj, malformed, not_a_member, policy_denied,
  is_did,
}
use thaddeus.Authority.Proof.{
  PrincipalKind, human, agent, worker, Proof, Action, IssueRequest, issue_domain, issue_body,
  check_proof_signature, is_tenant,
}
use thaddeus.Authority.Token.{ServiceSigner, CredentialClaims, encode_credential}
use thaddeus.Authority.TenantPolicy.{TenantPolicy, PolicyMember, member_of}
use thaddeus.Authority.Service.{
  AuthorityOptions, TtlRule, default_ttl, Service, allow, did, policy_of, assert_known,
  consume_proof, validate, put_audit,
}
use thaddeus.Authority.Service.Issuing.{
  Issued, kind_allowed, same_kind, check_issue, issue_base, issued_base, begin_issue,
  cut_credential, finish_issue, issue,
}
use thaddeus.Authority.Service.Opening.{make_options, make_options-ttl}
use thaddeus.Authority.Service.Inversion.{
  answer-inj, checked-ok, then_do-ok, audited-ok, audited-quiet,
}
use thaddeus.Authority.Service.Allowed.{validate_exact}

-- A member may ask for itself with its own kind, and for any other key as an agent.
abbrev KindFits : PolicyMember → CredentialClaims → Type 0
KindFits m c =
    ((c.subject ≡ c.principal) × (c.kind ≡ m.kind)) ⊎ ((c.subject ≢ c.principal) × (c.kind ≡ agent))

-- What a credential is cut from: a member's grants in the policy `p`, at the time `now`.
pub record IsCutFrom (o : AuthorityOptions) (now : ℕ) (s : Service) (c : CredentialClaims)
    (p : TenantPolicy) (m : PolicyMember) : Type 0 where
  pub current : get s.policies c.tenant ≡ some p
  pub version : c.policy_version ≡ p.version
  pub member : member_of p c.principal ≡ some m
  pub kind : KindFits m c
  pub within : grants_subsume m.grants c.grants ≡ true
  pub issued_now : c.issued_at ≡ now
  pub lives : c.issued_at < c.expires_at
  pub ceiling : c.expires_at ≤ c.issued_at + (o.ttl c.kind).max_ms

same_kind-eq : (a b : PrincipalKind) → same_kind a b ≡ true → a ≡ b
unfolding same_kind
same_kind-eq human human h = refl
same_kind-eq agent agent h = refl
same_kind-eq worker worker h = refl
same_kind-eq human agent h = cc
same_kind-eq human worker h = cc
same_kind-eq agent human h = cc
same_kind-eq agent worker h = cc
same_kind-eq worker human h = cc
same_kind-eq worker agent h = cc

kind_allowed-KindFits :
    (m : PolicyMember) (r : IssueRequest) (c : CredentialClaims)
    → c.subject ≡ r.subject
    → c.principal ≡ r.principal
    → c.kind ≡ r.kind
    → kind_allowed m r ≡ true
    → KindFits m c
unfolding kind_allowed
kind_allowed-KindFits m r c es ep ek h = elim (Bool-cases (r.subject == r.principal)) [
  | inl i ↦
      inl (
        es ∙ eq_of r.subject r.principal i ∙ sym ep,
        ek ∙ same_kind-eq r.kind m.kind (ground arith),
      )
  | inr i ↦ inr (differ i, ek ∙ same_kind-eq r.kind agent (ground arith))
]
  where
    eq_of : (b d : Str) → (b == d) ≡ true → b ≡ d
    eq_of b d i = ground arith

    differ : (r.subject == r.principal) ≡ false → c.subject ≢ c.principal
    differ i q = ground (arith, es, ep, i, q)

module _ (o : AuthorityOptions) (e : Engine) where
  asked_ttl : IssueRequest → ℕ
  asked_ttl r = elim r.ttl_ms as (λ _. ℕ) [ none ↦ (o.ttl r.kind).default_ms | some t ↦ t ]

  cut : ℕ → Str → IssueRequest → List Grant → TenantPolicy → CredentialClaims
  cut now id r grants p = record {
    id = id;
    issuer = did o;
    tenant = r.tenant;
    principal = r.principal;
    subject = r.subject;
    kind = r.kind;
    grants = grants;
    issued_at = now;
    expires_at = now + asked_ttl r;
    policy_version = p.version;
  }

  cut-IsCutFrom :
      (now : ℕ) (id : Str) (r : IssueRequest) (grants : List Grant) (s : Service) (p : TenantPolicy)
      (m : PolicyMember)
      → policy_of s r.tenant ≡ ok p
      → member_of p r.principal ≡ some m
      → kind_allowed m r ≡ true
      → grants_subsume m.grants grants ≡ true
      → (ltb 0 (asked_ttl r) && leb (asked_ttl r) (o.ttl r.kind).max_ms) ≡ true
      → IsCutFrom o now s (cut now id r grants p) p m
  unfolding cut policy_of
  cut-IsCutFrom now id r grants s p m at found kind within span = record {
    current = ground arith;
    version = refl;
    member = found;
    kind = kind_allowed-KindFits m r (cut now id r grants p) refl refl refl kind;
    within = within;
    issued_now = refl;
    lives = longer (asked_ttl r) (o.ttl r.kind).max_ms span;
    ceiling = shorter (asked_ttl r) (o.ttl r.kind).max_ms span;
  }
    where
      longer : (x y : ℕ) → (ltb 0 x && leb x y) ≡ true → now < now + x
      longer x y h = ground arith

      shorter : (x y : ℕ) → (ltb 0 x && leb x y) ≡ true → now + x ≤ now + y
      shorter x y h = ground arith

  cut_credential-IsCutFrom :
      (now : ℕ) (id : Str) (r : IssueRequest) (grants : List Grant) (s : Service)
      (c : CredentialClaims)
      → cut_credential o e now id r grants s ≡ ok c
      → (p : TenantPolicy) × (m : PolicyMember) × IsCutFrom o now s c p m
        × (cut now id r grants p ≡ c)
  unfolding cut_credential cut asked_ttl
  cut_credential-IsCutFrom now id r grants s c h =
      let (p, at, k0) = bound (policy_of s r.tenant) _ h in
      let (m, found, k1) =
        bound
          (elim (member_of p r.principal) as (λ _. Outcome PolicyMember) [
            | none ↦ refused not_a_member
            | some m ↦ ok m
          ])
          _ k0 in
      let (kind, k2) = assured (kind_allowed m r) policy_denied _ k1 in
      let (within, k3) =
        assured (not (nat_eq (length grants) 0) && grants_subsume m.grants grants) policy_denied _
          k2 in
      let (span, k4) = assured _ malformed _ k3 in
      let same = ok-inj k4 in
      (
        p,
        m,
        subst (λ x. IsCutFrom o now s x p m) same
            (cut-IsCutFrom now id r grants s p m at (member_at p m found) kind (ground arith) span),
        same,
      )
    where
      member_at :
          (p : TenantPolicy) (m : PolicyMember)
          → (elim (member_of p r.principal) as (λ _. Outcome PolicyMember) [
            | none ↦ refused not_a_member
            | some m ↦ ok m
          ])
            ≡ ok m
          → member_of p r.principal ≡ some m
      member_at p m q = ground arith
