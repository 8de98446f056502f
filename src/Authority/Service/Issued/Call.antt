-- ===== src/Authority/Service/Issued/Call.antt =====
-- What `issue` has checked (packages/authority/src/authority.ts).
use thaddeus.Prelude.{ℕ, ◌≡◌, sym, ap, ◌∙◌, subst, true, none, some, List, Str, ◌==◌, arith}
use thaddeus.Authority.{Grant, canonical_grants}
use thaddeus.Authority.Wire.{
  Engine, Outcome, ok, refused, assured, bound, ok-inj, malformed, is_did,
}
use thaddeus.Authority.Proof.{
  Proof, IssueRequest, issue_domain, issue_body, check_proof_signature, is_tenant,
}
use thaddeus.Authority.Token.{CredentialClaims, encode_credential}
use thaddeus.Authority.TenantPolicy.{TenantPolicy, PolicyMember}
use thaddeus.Authority.Service.{
  AuthorityOptions, Service, allow, did, policy_of, assert_known, consume_proof, put_audit,
}
use thaddeus.Authority.Service.Issuing.{
  Issued, check_issue, issue_base, issued_base, begin_issue, cut_credential, finish_issue, issue,
}
use thaddeus.Authority.Service.Inversion.{
  answer-inj, checked-ok, then_do-ok, audited-ok, audited-quiet,
}
use thaddeus.Authority.Service.Issued.{IsCutFrom, cut, cut_credential-IsCutFrom}

module _ (o : AuthorityOptions) (e : Engine) where
  -- What `issue` has checked when it returns `x`: `m` is the state when the proof was consumed.
  pub record IsIssued (now later : ℕ) (r : IssueRequest) (proof : Proof) (s m t : Service)
      (x : Issued) : Type 0 where
    pub grants_canonical : canonical_grants r.grants ≡ some x.claims.grants
    pub signed :
        check_proof_signature e r.principal issue_domain (issue_body e r x.claims.grants) proof
        ≡ ok tt
    pub spent : consume_proof o e now r.principal proof s ≡ (ok tt, m)
    pub as_asked :
        (x.claims.tenant ≡ r.tenant)
        × (x.claims.principal ≡ r.principal)
        × (x.claims.subject ≡ r.subject)
        × (x.claims.kind ≡ r.kind)
    pub cut_from : (p : TenantPolicy) × (m' : PolicyMember) × IsCutFrom o later t x.claims p m'
    pub sealed : x.token ≡ encode_credential e x.claims o.signer

  check_issue-parts :
      (r : IssueRequest) (proof : Proof) (s : Service) (gs : List Grant)
      → check_issue o e r proof s ≡ ok gs
      → (canonical_grants r.grants ≡ some gs)
        × (check_proof_signature e r.principal issue_domain (issue_body e r gs) proof ≡ ok tt)
  unfolding check_issue
  check_issue-parts r proof s gs h =
      let (_, k0) = assured (r.service == did o) _ _ h in
      let (_, k1) = assured (is_tenant r.tenant) malformed _ k0 in
      let (_, k2) = assured (is_did e r.principal) malformed _ k1 in
      let (_, k3) = assured (is_did e r.subject) malformed _ k2 in
      let (xs, canonical, k4) =
        bound
          (elim (canonical_grants r.grants) as (λ _. Outcome (List Grant)) [
            | none ↦ refused malformed
            | some gs ↦ ok gs
          ])
          _ k3 in
      let (u, signed, k5) =
        bound (check_proof_signature e r.principal issue_domain (issue_body e r xs) proof) _ k4 in
      let (p, at, k6) = bound (policy_of s r.tenant) _ k5 in
      let (v, known, k7) = bound (assert_known p r.principal) _ k6 in
      let same = ok-inj k7 in
      (
        some_of xs canonical ∙ ap some same,
        subst
            (λ ys.
              check_proof_signature e r.principal issue_domain (issue_body e r ys) proof ≡ ok tt)
            same signed,
      )
    where
      some_of :
          (xs : List Grant)
          → (elim (canonical_grants r.grants) as (λ _. Outcome (List Grant)) [
            | none ↦ refused malformed
            | some gs ↦ ok gs
          ])
            ≡ ok xs
          → canonical_grants r.grants ≡ some xs
      some_of xs q = ground arith

  begin_issue-parts :
      (now : ℕ) (r : IssueRequest) (proof : Proof) (s m : Service) (gs : List Grant)
      → begin_issue o e now r proof s ≡ (ok gs, m)
      → (canonical_grants r.grants ≡ some gs)
        × (check_proof_signature e r.principal issue_domain (issue_body e r gs) proof ≡ ok tt)
        × (consume_proof o e now r.principal proof s ≡ (ok tt, m))
  unfolding begin_issue
  begin_issue-parts now r proof s m gs h =
      let (xs, checks, k) = checked-ok (check_issue o e r proof s) s _ h in
      let quiet = audited-quiet o now (issue_base o e r) (λ _ b. b) _ k in
      let (u, m', spent, q) = then_do-ok (consume_proof o e now r.principal proof s) _ quiet in
      let (same, at) = answer-inj q in
      let (canonical, signed) = check_issue-parts r proof s xs checks in
      (
        canonical ∙ ap some same,
        subst
            (λ ys.
              check_proof_signature e r.principal issue_domain (issue_body e r ys) proof ≡ ok tt)
            same signed,
        spent ∙ ap (λ z. (ok tt, z)) at,
      )

  issued : CredentialClaims → Issued
  issued c = record { token = encode_credential e c o.signer; claims = c }

  finish_issue-parts :
      (later : ℕ) (id : Str) (r : IssueRequest) (gs : List Grant) (s t : Service) (x : Issued)
      → finish_issue o e later id r gs s ≡ (ok x, t)
      → (cut_credential o e later id r gs s ≡ ok x.claims)
        × (x.token ≡ encode_credential e x.claims o.signer)
        × (t ≡ put_audit o later (issued_base o e x (issue_base o e r)) allow none s)
  unfolding finish_issue issued
  finish_issue-parts later id r gs s t x h =
      let (u, made, recorded) = audited-ok o later (issue_base o e r) (issued_base o e) true _ h in
      let (c, cut_is, q) = checked-ok (cut_credential o e later id r gs s) s _ made in
      let (same, at) = answer-inj q in
      (
        cut_is ∙ ap (λ y. ok y.claims) same,
        sym (ap (λ y. y.token) same) ∙ ap (λ y. encode_credential e y.claims o.signer) same,
        recorded
            ∙ ap (put_audit o later (issued_base o e x (issue_base o e r)) allow none) (sym at),
      )

  -- A credential is issued only for the principal's signature over the request with its canonical
  -- grants, whose proof was fresh and unused. It says what was asked for, within the grants that its
  -- principal has in the current policy after the proof was consumed, in whatever state other calls have
  -- left, and for a time within the maximum of its kind. That state gets the audit record and no other
  -- change.
  pub issue-IsIssued :
      (others : Service → Service) (now later : ℕ) (id : Str) (r : IssueRequest) (proof : Proof)
      (s t : Service) (x : Issued)
      → issue o e others now later id r proof s ≡ (ok x, t)
      → (m : Service) × IsIssued now later r proof s m (others m) x
        × (t ≡ put_audit o later (issued_base o e x (issue_base o e r)) allow none (others m))
  unfolding issue cut
  issue-IsIssued others now later id r proof s t x h =
      let (gs, m, began, k) = then_do-ok (begin_issue o e now r proof s) _ h in
      let (canonical, signed, spent) = begin_issue-parts now r proof s m gs began in
      let (cut_is, sealed, recorded) = finish_issue-parts later id r gs (others m) t x k in
      let (p, m', from, same) =
        cut_credential-IsCutFrom o e later id r gs (others m) x.claims cut_is in
      let grants = ap (λ c. c.grants) same in
      (
        m,
        record {
          grants_canonical = canonical ∙ ap some grants;
          signed =
              subst
                (λ ys.
                  check_proof_signature e r.principal issue_domain (issue_body e r ys) proof
                  ≡ ok tt)
                grants signed;
          spent = spent;
          as_asked = (
            ap (λ c. c.tenant) (sym same),
            ap (λ c. c.principal) (sym same),
            ap (λ c. c.subject) (sym same),
            ap (λ c. c.kind) (sym same),
          );
          cut_from = (p, m', from);
          sealed = sealed;
        },
        recorded,
      )
