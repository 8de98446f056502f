-- ===== src/Authority/Service/Refusals.antt =====
-- What a refused call leaves (packages/authority/src/authority.ts).
pub mod Every
use thaddeus.Prelude.{
  ℕ, suc, ◌≡◌, ◌⊎◌, inl, inr, ◌++◌, ◌∷◌, arith, Bool-cases, refl, sym, ◌∙◌, subst, Bool, true,
  false, Option, none, some, List, Str, if◌then◌else◌, sort, unique,
}
use thaddeus.Authority.{Grant}
use thaddeus.Authority.Wire.{
  AuthorityErrorCode, Engine, Outcome, ok, refused, broken, malformed, wrong_tenant, not_an_admin,
  stale_head, ticket_used, not_an_admin, conflict,
}
use thaddeus.Authority.Proof.{
  Proof, Action, canonical_action, IssueRequest, RevokeRequest, RevokeTarget, credential, did,
}
use thaddeus.Authority.Token.{CredentialClaims}
use thaddeus.Authority.TenantPolicy.{PolicyBody, PolicyChange, TenantPolicy}
use thaddeus.Authority.ServiceHead.{ServiceHeadRecord}
use thaddeus.Authority.Service.{
  AuthorityOptions, Service, Answer, AuditBase, AuditOutcome, allow, deny, Table, at_audits,
  Backend, then_do, checked, audited, audit_id, put_audit, write_audit, consume_proof,
}
use thaddeus.Authority.Service.Policies.{
  create_in_lock, create_tenant, replace_policy, change_in_lock, change_policy,
}
use thaddeus.Authority.Service.Issuing.{
  begin_issue, finish_issue, revoke_claims, revoke_holder, revoke_target, revoke_in_lock, revoke,
}
use thaddeus.Authority.Service.Use.{
  Authorization, spend_proof, audited_use, begin_use, finish_use, redeem_in_lock, redeem,
}
use thaddeus.Authority.Service.History.{
  AdvanceInput, head, forget_head, store_head, extend, advance_in_lock, advance,
}
use thaddeus.Authority.Service.Keeps.{consume_proof-only}

-- The states agree but for the audit, the nonces and the cache of heads.
pub record SameRecords (s t : Service) : Type 0 where
  pub policies : t.policies ≡ s.policies
  pub credentials : t.revoked_credentials ≡ s.revoked_credentials
  pub dids : t.revoked_dids ≡ s.revoked_dids
  pub policy_log : t.backend.policies ≡ s.backend.policies
  pub revocations : t.backend.revocations ≡ s.backend.revocations
  pub tickets : t.backend.tickets ≡ s.backend.tickets
  pub head_log : t.backend.heads ≡ s.backend.heads

-- The store refused a write of this service at some time.
abbrev pub StoreThrew : AuthorityOptions → Type 0
StoreThrew o = (table : Table) × (key : Str) × (b : Backend) × (o.put_fails table key b ≡ true)

-- A call from the state `s` that was refused left the records alone, and so did one that threw in any
-- other way, unless the store refused a write.
pub HarmlessIfRefused : {A : Type 0} → AuthorityOptions → Service → Answer A → Type 0
HarmlessIfRefused o s (ok a, t) = Unit
HarmlessIfRefused o s (refused c, t) = SameRecords s t
HarmlessIfRefused o s (broken, t) = SameRecords s t ⊎ StoreThrew o

unchanged : (s : Service) → SameRecords s s
unchanged s = record {
  policies = refl;
  credentials = refl;
  dids = refl;
  policy_log = refl;
  revocations = refl;
  tickets = refl;
  head_log = refl;
}

then_unchanged : (s t u : Service) → SameRecords s t → SameRecords t u → SameRecords s u
then_unchanged s t u k l = record {
  policies = l.policies ∙ k.policies;
  credentials = l.credentials ∙ k.credentials;
  dids = l.dids ∙ k.dids;
  policy_log = l.policy_log ∙ k.policy_log;
  revocations = l.revocations ∙ k.revocations;
  tickets = l.tickets ∙ k.tickets;
  head_log = l.head_log ∙ k.head_log;
}

module _ (o : AuthorityOptions) where
  went_through : {A : Type 0} (s : Service) (a : A) (t : Service) → HarmlessIfRefused o s (ok a, t)
  unfolding HarmlessIfRefused
  went_through s a t = tt

  checked-Harmless :
      {A B : Type 0} (m : Outcome A) (s : Service) (f : A → Answer B)
      → ((a : A) → HarmlessIfRefused o s (f a))
      → HarmlessIfRefused o s (checked m s f)
  unfolding checked HarmlessIfRefused
  checked-Harmless (ok a) s f h = h a
  checked-Harmless (refused c) s f h = unchanged s
  checked-Harmless broken s f h = inl (unchanged s)

  moved :
      {B : Type 0} (s t : Service) (r : Answer B)
      → SameRecords s t
      → HarmlessIfRefused o t r
      → HarmlessIfRefused o s r
  unfolding HarmlessIfRefused
  moved s t (ok b, u) k x = tt
  moved s t (refused c, u) k x = then_unchanged s t u k x
  moved s t (broken, u) k (inl x) = inl (then_unchanged s t u k x)
  moved s t (broken, u) k (inr x) = inr x

  then_do-Harmless :
      {A B : Type 0} (s : Service) (m : Answer A) (f : A → Service → Answer B)
      → SameRecords s m.1
      → ((a : A) → HarmlessIfRefused o m.1 (f a m.1))
      → HarmlessIfRefused o s (then_do m f)
  unfolding then_do HarmlessIfRefused
  then_do-Harmless s (ok a, t) f k h = moved s t (f a t) k (h a)
  then_do-Harmless s (refused c, t) f k h = k
  then_do-Harmless s (broken, t) f k h = inl k

  -- A write that may throw, and what is done when it does not.
  throw_or_do :
      {A : Type 0} (s t : Service) (table : Table) (key : Str) (b : Backend) (r : Answer A)
      → HarmlessIfRefused o s r
      → HarmlessIfRefused o s (if o.put_fails table key b then (broken, t) else r)
  unfolding HarmlessIfRefused
  throw_or_do s t table key b r h = elim (Bool-cases (o.put_fails table key b)) [
    | inl fails ↦
        subst (λ test. HarmlessIfRefused o s (if test then (broken, t) else r)) (sym fails)
          (inr (table, key, b, fails))
    | inr written ↦
        subst (λ test. HarmlessIfRefused o s (if test then (broken, t) else r)) (sym written) h
  ]

  then_do-went :
      {A B : Type 0} (s : Service) (m : Answer A) (b : B)
      → HarmlessIfRefused o s m
      → HarmlessIfRefused o s (then_do m (λ _ s'. (ok b, s')))
  unfolding then_do HarmlessIfRefused
  then_do-went s (ok a, t) b h = tt
  then_do-went s (refused c, t) b h = h
  then_do-went s (broken, t) b h = h

  write_audit-Harmless :
      (s : Service) (now : ℕ) (base : AuditBase) (out : AuditOutcome)
      (code : Option AuthorityErrorCode) (t : Service)
      → HarmlessIfRefused o s (write_audit o now base out code t)
  unfolding write_audit
  write_audit-Harmless s now base out code t = throw_or_do s _ at_audits _ _ _ (went_through s tt _)

  then_refused :
      (A : Type 0) (s t : Service) (now : ℕ) (base : AuditBase) (c : AuthorityErrorCode)
      → SameRecords s t
      → HarmlessIfRefused {A = A} o s
          (then_do (write_audit o now base deny (some c) t) (λ _ s'. (refused c, s')))
  unfolding write_audit then_do HarmlessIfRefused put_audit
  then_refused A s t now base c k =
      elim (Bool-cases (o.put_fails at_audits (base.tenant ++ 47 ∷ audit_id o now t) t.backend)) [
        | inl fails ↦
            subst (HarmlessIfRefused {A = A} o s)
              {x = (broken, record t { audit_seq = suc t.audit_seq })} (ground arith)
              (inr (at_audits, _, _, fails))
        | inr written ↦
            subst (HarmlessIfRefused {A = A} o s)
              {x = (refused c, put_audit o now base deny (some c) t)} (ground arith)
              (record {
                policies = k.policies;
                credentials = k.credentials;
                dids = k.dids;
                policy_log = k.policy_log;
                revocations = k.revocations;
                tickets = k.tickets;
                head_log = k.head_log;
              })
      ]

  audited-Harmless :
      {A : Type 0} (now : ℕ) (base : AuditBase) (more : A → AuditBase → AuditBase) (both : Bool)
      (s : Service) (m : Answer A)
      → HarmlessIfRefused o s m
      → HarmlessIfRefused o s (audited o now base more both m)
  unfolding audited HarmlessIfRefused
  audited-Harmless now base more true s (ok a, t) k =
      then_do-went s (write_audit o now (more a base) allow none t) a
        (write_audit-Harmless s now (more a base) allow none t)
  audited-Harmless now base more false s (ok a, t) k = tt
  audited-Harmless now base more both s (refused c, t) k = then_refused _ s t now base c k
  audited-Harmless now base more both s (broken, t) k = k

  -- One test that refuses, and what is done past it.
  refuse_or_do :
      {A : Type 0} (s t : Service) (test : Bool) (c : AuthorityErrorCode) (r : Answer A)
      → SameRecords s t
      → HarmlessIfRefused o s r
      → HarmlessIfRefused o s (if test then (refused c, t) else r)
  unfolding HarmlessIfRefused
  refuse_or_do s t true c r k h = k
  refuse_or_do s t false c r k h = h
