-- ===== src/Authority/Service/Keeps/Issuing.antt =====
-- What issue and revoke keep (packages/authority/src/authority.ts).
use thaddeus.Prelude.{
  ℕ, ◌≤◌, ◌≡◌, refl, sym, subst, inl, inr, Bool, true, false, not, Option, none, some, List, ◌∷◌,
  Str, ◌==◌, ◌&&◌, if◌then◌else◌, leb, arith, Bool-cases, member-there,
}
use thaddeus.Prelude.Dict.{get, get-put}
use thaddeus.Authority.{Grant}
use thaddeus.Authority.Wire.{Engine, ok, malformed, wrong_tenant, not_an_admin, is_did}
use thaddeus.Authority.Proof.{Proof, IssueRequest, RevokeRequest, RevokeTarget, credential, did}
use thaddeus.Authority.Token.{CredentialClaims}
use thaddeus.Authority.Service.{
  AuthorityOptions, Service, then_do, audited, consume_proof, did_key, note_did_revocation,
  Revocation, at_revocations,
}
use thaddeus.Authority.Service.Issuing.{
  check_issue, issue_base, begin_issue, finish_issue, put_revocation, revoke_credential, revoke_did,
  revoke_claims, revoke_holder, revoke_target, revoke_in_lock, revoke,
}
use thaddeus.Authority.Service.Keeps.{
  Keeps, Keeps-refl, Keeps-trans, same-Keeps, if-Keeps, checked-Keeps, then_do-Keeps, audited-Keeps,
  consume_proof-Keeps, twice-Keeps,
}

module _ (o : AuthorityOptions) (e : Engine) (b : ℕ) where
  pub begin_issue-Keeps :
      (now : ℕ) (r : IssueRequest) (p : Proof) (s : Service)
      → now ≤ b
      → Keeps b s (begin_issue o e now r p s).1
  unfolding begin_issue
  begin_issue-Keeps now r p s n =
      checked-Keeps b (check_issue o e r p s) s
        (λ grants.
          audited o now (issue_base o e r) (λ _ x. x) false
            (then_do (consume_proof o e now r.principal p s) (λ _ t. (ok grants, t))))
        (λ grants q.
          audited-Keeps o b now _ _ _ s
            (then_do (consume_proof o e now r.principal p s) (λ _ t. (ok grants, t)))
            (then_do-Keeps b s (consume_proof o e now r.principal p s) (λ _ t. (ok grants, t))
              (consume_proof-Keeps o e b now r.principal p s n) (λ u x. Keeps-refl b _)))

  pub finish_issue-Keeps :
      (now : ℕ) (id : Str) (r : IssueRequest) (grants : List Grant) (s : Service)
      → Keeps b s (finish_issue o e now id r grants s).1
  unfolding finish_issue
  finish_issue-Keeps now id r grants s =
      audited-Keeps o b now _ _ _ s _ (checked-Keeps b _ s _ (λ claims q. Keeps-refl b s))

  put_revocation-Keeps :
      (key : Str) (x : Revocation) (s : Service) → Keeps b s (put_revocation o e key x s).1
  unfolding put_revocation
  put_revocation-Keeps key x s =
      if-Keeps b s (o.put_fails at_revocations key s.backend) _ _ (λ fails. Keeps-refl b s)
        (λ written. same-Keeps b s _ refl refl refl refl refl refl refl)

  revoke_credential-Keeps :
      (now : ℕ) (r : RevokeRequest) (c : CredentialClaims) (s : Service)
      → Keeps b s (revoke_credential o e now r c s).1
  unfolding revoke_credential
  revoke_credential-Keeps now r c s =
      Keeps-trans b s noted _ listed (put_revocation-Keeps _ _ noted)
    where
      noted : Service
      noted = record s { revoked_credentials = c.id ∷ s.revoked_credentials }

      listed : Keeps b s noted
      listed = record {
        policies = λ tenant p h. (p, h, inl refl);
        credentials = λ id h. member-there id c.id s.revoked_credentials h;
        dids = λ key at h. (at, h, omega arith);
        tickets = λ key at h. h;
        policy_log = λ key p h. h;
        head_log = λ key x h. h;
        nonces = λ key until n h. h;
      }

  revoke_did-Keeps :
      (now : ℕ) (id : Str) (r : RevokeRequest) (who : Str) (s : Service)
      → Keeps b s (revoke_did o e now id r who s).1
  unfolding revoke_did
  revoke_did-Keeps now id r who s = Keeps-trans b s noted _ since (put_revocation-Keeps _ _ noted)
    where
      noted : Service
      noted = note_did_revocation s r.tenant who now

      old : ℕ
      old = elim (get s.revoked_dids (did_key r.tenant who)) as (λ _. ℕ) [ none ↦ 0 | some t ↦ t ]

      later : ℕ
      later = if leb now old then old else now

      eq_of : (a c : Str) → (a == c) ≡ true → a ≡ c
      eq_of a c h = ground arith

      later-ge : (at : ℕ) → get s.revoked_dids (did_key r.tenant who) ≡ some at → at ≤ later
      later-ge at h = ground arith

      since : Keeps b s noted
      since =
          unfold note_did_revocation in
          record {
            policies = λ tenant p h. (p, h, inl refl);
            credentials = λ id h. h;
            dids = λ key at h. elim (Bool-cases (did_key r.tenant who == key)) [
              | inl same ↦ (
                later,
                ground (arith, get-put s.revoked_dids (did_key r.tenant who) key later),
                later-ge at (subst (λ k. get s.revoked_dids k ≡ some at) (sym (eq_of _ _ same)) h),
              )
              | inr other ↦ (
                at,
                ground (arith, get-put s.revoked_dids (did_key r.tenant who) key later),
                omega arith,
              )
            ];
            tickets = λ key at h. h;
            policy_log = λ key p h. h;
            head_log = λ key x h. h;
            nonces = λ key until n h. h;
          }

  revoke_claims-Keeps :
      (now : ℕ) (r : RevokeRequest) (is_admin holds : Bool) (c : CredentialClaims) (s : Service)
      → Keeps b s (revoke_claims o e now r is_admin holds c s).1
  unfolding revoke_claims
  revoke_claims-Keeps now r is_admin holds c s =
      twice-Keeps {A = Unit {0}} b s (not (c.tenant == r.tenant)) (not is_admin && not holds)
        wrong_tenant not_an_admin _ (revoke_credential-Keeps now r c s)

  revoke_holder-Keeps :
      (now : ℕ) (id : Str) (r : RevokeRequest) (is_admin : Bool) (who : Str) (s : Service)
      → Keeps b s (revoke_holder o e now id r is_admin who s).1
  unfolding revoke_holder
  revoke_holder-Keeps now id r is_admin who s =
      twice-Keeps {A = Unit {0}} b s (not (is_did e who)) (not is_admin && not (r.actor == who))
        malformed not_an_admin _ (revoke_did-Keeps now id r who s)

  revoke_target-Keeps :
      (now : ℕ) (id : Str) (r : RevokeRequest) (is_admin holds : Bool) (t : RevokeTarget)
      (claims : Option CredentialClaims) (s : Service)
      → Keeps b s (revoke_target o e now id r is_admin holds t claims s).1
  unfolding revoke_target
  revoke_target-Keeps now id r is_admin holds t (some c) s =
      revoke_claims-Keeps now r is_admin holds c s
  revoke_target-Keeps now id r is_admin holds (did who) none s =
      revoke_holder-Keeps now id r is_admin who s
  revoke_target-Keeps now id r is_admin holds (credential token) none s = Keeps-refl b s

  revoke_in_lock-Keeps :
      (now : ℕ) (id : Str) (r : RevokeRequest) (p : Proof) (claims : Option CredentialClaims)
      (s : Service)
      → now ≤ b
      → Keeps b s (revoke_in_lock o e now id r p claims s).1
  unfolding revoke_in_lock
  revoke_in_lock-Keeps now id r p claims s n = checked-Keeps b _ s _ (λ current q.
      audited-Keeps o b now _ _ _ s _ (
        then_do-Keeps b s _ _ (consume_proof-Keeps o e b now r.actor p s n)
          (λ u x. revoke_target-Keeps now id r _ _ r.target claims _)))

  pub revoke-Keeps :
      (now : ℕ) (id : Str) (r : RevokeRequest) (p : Proof) (s : Service)
      → now ≤ b
      → Keeps b s (revoke o e now id r p s).1
  unfolding revoke
  revoke-Keeps now id r p s n =
      checked-Keeps b _ s _ (λ claims q. revoke_in_lock-Keeps now id r p claims s n)
