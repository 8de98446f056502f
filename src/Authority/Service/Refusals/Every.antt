-- ===== src/Authority/Service/Refusals/Every.antt =====
-- What each call leaves when it is refused (packages/authority/src/authority.ts).
use thaddeus.Prelude.{
  ℕ, inl, refl, sym, subst, Bool, true, false, Option, none, some, List, Str, sort, unique,
}
use thaddeus.Authority.{Grant}
use thaddeus.Authority.Wire.{
  Engine, Outcome, ok, refused, broken, malformed, wrong_tenant, not_an_admin, stale_head,
  ticket_used, not_an_admin, conflict,
}
use thaddeus.Authority.Proof.{
  Proof, Action, canonical_action, IssueRequest, RevokeRequest, RevokeTarget, credential, did,
}
use thaddeus.Authority.Token.{CredentialClaims}
use thaddeus.Authority.TenantPolicy.{PolicyBody, PolicyChange, TenantPolicy}
use thaddeus.Authority.ServiceHead.{ServiceHeadRecord}
use thaddeus.Authority.Service.{
  AuthorityOptions, Service, consume_proof, at_policies, at_revocations, at_tickets, at_heads,
}
use thaddeus.Authority.Service.Policies.{
  create_in_lock, create_tenant, replace_policy, change_in_lock, change_policy,
}
use thaddeus.Authority.Service.Issuing.{
  begin_issue, finish_issue, revoke_credential, revoke_did, put_revocation, revoke_claims,
  revoke_holder, revoke_target, revoke_in_lock, revoke,
}
use thaddeus.Authority.Service.Use.{
  Authorization, spend_proof, audited_use, begin_use, finish_use, redeem_in_lock, redeem,
}
use thaddeus.Authority.Service.History.{
  AdvanceInput, head, forget_head, store_head, extend, advance_in_lock, advance,
}
use thaddeus.Authority.Service.Advanced.Loads.{head-only}
use thaddeus.Authority.Service.Keeps.{consume_proof-only}
use thaddeus.Authority.Service.Refusals.{
  SameRecords, HarmlessIfRefused, unchanged, checked-Harmless, then_do-Harmless, audited-Harmless,
  refuse_or_do, went_through, throw_or_do, then_do-went, write_audit-Harmless,
}

module _ (o : AuthorityOptions) (e : Engine) where
  consume_proof-SameRecords :
      (now : ℕ) (who : Str) (p : Proof) (s : Service)
      → SameRecords s (consume_proof o e now who p s).1
  consume_proof-SameRecords now who p s =
      let (n, same, how) = consume_proof-only o e now who p s in
      subst (SameRecords s) (sym same) (record {
        policies = refl;
        credentials = refl;
        dids = refl;
        policy_log = refl;
        revocations = refl;
        tickets = refl;
        head_log = refl;
      })

  create_tenant-Harmless :
      (now : ℕ) (tenant : Str) (body : PolicyBody) (s : Service)
      → HarmlessIfRefused o s (create_tenant o e now tenant body s)
  unfolding create_tenant create_in_lock
  create_tenant-Harmless now tenant body s = checked-Harmless o _ s _ (λ canonical.
      refuse_or_do o s s _ _ _ (unchanged s) (
        throw_or_do o s s at_policies _ _ _ (
          refuse_or_do o s s _ _ _ (unchanged s)
            (then_do-went o s _ _ (write_audit-Harmless o s now _ _ _ _)))))

  change_policy-Harmless :
      (now : ℕ) (c : PolicyChange) (p : Proof) (s : Service)
      → HarmlessIfRefused o s (change_policy o e now c p s)
  unfolding change_policy change_in_lock
  change_policy-Harmless now c p s = checked-Harmless o _ s _ (λ body.
      checked-Harmless o _ s _ (λ current. audited-Harmless o now _ _ true s _ (
        then_do-Harmless o s _ _ (consume_proof-SameRecords now c.admin p s)
          (λ u. replaced body current _))))
    where
      replaced :
          (body : PolicyBody) (current : TenantPolicy) (u : Service)
          → HarmlessIfRefused o u (replace_policy o e now c body current u)
      replaced body current u =
          unfold replace_policy in
          refuse_or_do o u u _ not_an_admin _ (unchanged u) (
            refuse_or_do o u u _ conflict _ (unchanged u) (
              throw_or_do o u u at_policies _ _ _
                (refuse_or_do o u u _ conflict _ (unchanged u) (went_through o u _ _))))

  revoke-Harmless :
      (now : ℕ) (id : Str) (r : RevokeRequest) (p : Proof) (s : Service)
      → HarmlessIfRefused o s (revoke o e now id r p s)
  unfolding revoke revoke_in_lock
  revoke-Harmless now id r p s = checked-Harmless o _ s _ (λ claims.
      checked-Harmless o _ s _ (λ current. audited-Harmless o now _ _ true s _ (
        then_do-Harmless o s _ _ (consume_proof-SameRecords now r.actor p s)
          (λ u. target _ _ r.target claims _))))
    where
      target :
          (is_admin holds : Bool) (t : RevokeTarget) (claims : Option CredentialClaims)
          (u : Service)
          → HarmlessIfRefused o u (revoke_target o e now id r is_admin holds t claims u)
      target is_admin holds t (some c) u =
          unfold revoke_target revoke_claims revoke_credential put_revocation in
          refuse_or_do o u u _ wrong_tenant _ (unchanged u) (
            refuse_or_do o u u _ not_an_admin _ (unchanged u)
              (throw_or_do o u _ at_revocations _ _ _ (went_through o u tt _)))
      target is_admin holds (did who) none u =
          unfold revoke_target revoke_holder revoke_did put_revocation in
          refuse_or_do o u u _ malformed _ (unchanged u) (
            refuse_or_do o u u _ not_an_admin _ (unchanged u)
              (throw_or_do o u _ at_revocations _ _ _ (went_through o u tt _)))
      target is_admin holds (credential token) none u =
          unfold revoke_target HarmlessIfRefused in unchanged u

  redeem-Harmless :
      (now : ℕ) (ticket : Str) (s : Service) → HarmlessIfRefused o s (redeem o e now ticket s)
  unfolding redeem redeem_in_lock
  redeem-Harmless now ticket s = checked-Harmless o _ s _ (λ r.
      audited-Harmless o now _ _ true s _ (
        checked-Harmless o _ s _ (λ version.
          throw_or_do o s s at_tickets _ _ _
            (refuse_or_do o s s _ ticket_used _ (unchanged s) (went_through o s _ _)))))

  -- Loading a head fills the cache.
  head-SameRecords :
      (tenant repo view : Str) (s : Service) → SameRecords s (head o e tenant repo view s).1
  head-SameRecords tenant repo view s =
      let (h, same) = head-only o e tenant repo view s in
      subst (SameRecords s) (sym same) (record {
        policies = refl;
        credentials = refl;
        dids = refl;
        policy_log = refl;
        revocations = refl;
        tickets = refl;
        head_log = refl;
      })

  extend-Harmless :
      (now : ℕ) (a : Authorization) (i : AdvanceInput) (changed : List Str)
      (tip : Option ServiceHeadRecord) (s : Service)
      → HarmlessIfRefused o s (extend o e now a i changed tip s)
  unfolding extend
  extend-Harmless now a i changed tip s = checked-Harmless o _ s _ (λ p. stored _)
    where
      forgotten : (r : ServiceHeadRecord) → SameRecords s (forget_head o e r s)
      forgotten r =
          unfold forget_head in
          record {
            policies = refl;
            credentials = refl;
            dids = refl;
            policy_log = refl;
            revocations = refl;
            tickets = refl;
            head_log = refl;
          }

      stored : (r : ServiceHeadRecord) → HarmlessIfRefused o s (store_head o e r s)
      stored r =
          unfold store_head in
          throw_or_do o s s at_heads _ _ _ (
            refuse_or_do o s (forget_head o e r s) _ stale_head _ (forgotten r)
              (went_through o s _ _))

  advance-Harmless :
      (now : ℕ) (a : Authorization) (i : AdvanceInput) (s : Service)
      → HarmlessIfRefused o s (advance o e now a i s)
  unfolding advance advance_in_lock
  advance-Harmless now a i s = checked-Harmless o _ s _ (λ _. audited-Harmless o now _ _ true s _ (
      checked-Harmless o _ s _ (λ version.
        then_do-Harmless o s _ _ (head-SameRecords a.claims.tenant a.action.repo i.view s)
          (λ tip. extend-Harmless now a i (sort (unique i.changed_paths)) tip _))))

  begin_issue-Harmless :
      (now : ℕ) (r : IssueRequest) (p : Proof) (s : Service)
      → HarmlessIfRefused o s (begin_issue o e now r p s)
  unfolding begin_issue
  begin_issue-Harmless now r p s = checked-Harmless o _ s _ (λ grants.
      audited-Harmless o now _ _ false s _ (
        then_do-Harmless o s _ _ (consume_proof-SameRecords now r.principal p s)
          (λ u. went_through o _ grants _)))

  finish_issue-Harmless :
      (now : ℕ) (id : Str) (r : IssueRequest) (grants : List Grant) (s : Service)
      → HarmlessIfRefused o s (finish_issue o e now id r grants s)
  unfolding finish_issue
  finish_issue-Harmless now id r grants s =
      audited-Harmless o now _ _ true s _
        (checked-Harmless o _ s _ (λ claims. went_through o s _ s))

  spend_proof-Harmless :
      (now : ℕ) (c : CredentialClaims) (token : Str) (x : Action) (p : Proof) (s : Service)
      → HarmlessIfRefused o s (spend_proof o e now c token x p s)
  unfolding spend_proof
  spend_proof-Harmless now c token x p s = checked-Harmless o _ s _ (λ v.
      then_do-Harmless o s _ _ (consume_proof-SameRecords now c.subject p s)
        (λ u. went_through o _ x _))

  begin_use-Harmless :
      (now : ℕ) (c : CredentialClaims) (token : Str) (a : Action) (p : Proof) (s : Service)
      → HarmlessIfRefused o s (begin_use o e now c token a p s)
  unfolding begin_use audited_use
  begin_use-Harmless now c token a p s = use_of (canonical_action a)
    where
      use_of : (r : Outcome Action) → HarmlessIfRefused o s (audited_use o e now c token r p s)
      use_of (ok x) =
          unfold audited_use in
          audited-Harmless o now _ _ false s _ (spend_proof-Harmless now c token x p s)
      use_of (refused code) =
          unfold audited_use HarmlessIfRefused in
          audited-Harmless o {A = Action} now _ _ false s (refused code, s) (unchanged s)
      use_of broken = unfold audited_use HarmlessIfRefused in inl (unchanged s)

  finish_use-Harmless :
      (now : ℕ) (c : CredentialClaims) (token : Str) (x : Action) (s : Service)
      → HarmlessIfRefused o s (finish_use o e now c token x s)
  unfolding finish_use
  finish_use-Harmless now c token x s =
      audited-Harmless o now _ _ false s _
        (checked-Harmless o _ s _ (λ version. went_through o s _ s))

  -- A call that the authority refuses leaves the policies, the revocations, the redeemed tickets and the
  -- stored policies and heads as they were: it writes no more than the audit, the nonces and the cache of
  -- heads. The same holds of a call that throws anything else, unless the store refused one of the
  -- service's writes, of which nothing is said. (The two parts of issuing and of authorizing are calls
  -- here, since other calls may run between them.)
  pub refused_changes_nothing :
      (now : ℕ) (id tenant token : Str) (body : PolicyBody) (change : PolicyChange)
      (r : IssueRequest) (grants : List Grant) (q : RevokeRequest) (c : CredentialClaims)
      (a : Action) (x : Authorization) (i : AdvanceInput) (p : Proof) (s : Service)
      → HarmlessIfRefused o s (create_tenant o e now tenant body s)
        × HarmlessIfRefused o s (change_policy o e now change p s)
        × HarmlessIfRefused o s (begin_issue o e now r p s)
        × HarmlessIfRefused o s (finish_issue o e now id r grants s)
        × HarmlessIfRefused o s (revoke o e now id q p s)
        × HarmlessIfRefused o s (begin_use o e now c token a p s)
        × HarmlessIfRefused o s (finish_use o e now c token a s)
        × HarmlessIfRefused o s (redeem o e now token s)
        × HarmlessIfRefused o s (advance o e now x i s)
  refused_changes_nothing now id tenant token body change r grants q c a x i p s = (
    create_tenant-Harmless now tenant body s,
    change_policy-Harmless now change p s,
    begin_issue-Harmless now r p s,
    finish_issue-Harmless now id r grants s,
    revoke-Harmless now id q p s,
    begin_use-Harmless now c token a p s,
    finish_use-Harmless now c token a s,
    redeem-Harmless now token s,
    advance-Harmless now x i s,
  )
