-- ===== src/Authority/Service/Policies.antt =====
-- packages/authority/src/authority.ts: `createTenant` and `changePolicy`. Both run in the tenant's lock.
use thaddeus.Prelude.{ℕ, suc, true, not, none, some, Str, ◌++◌, ◌∷◌, if◌then◌else◌, nat_eq, member}
use thaddeus.Prelude.Dict.{put, has}
use thaddeus.Json.{pad}
use thaddeus.Authority.Wire.{
  Engine, ok, refused, broken, ◌>>=◌, ◌>>◌, assure, malformed, tenant_exists, not_an_admin,
  conflict, is_did,
}
use thaddeus.Authority.Proof.{Proof, is_tenant, policy_domain, check_proof_signature}
use thaddeus.Authority.TenantPolicy.{
  PolicyBody, TenantPolicy, PolicyChange, canonical_policy_body, policy_change_body,
}
use thaddeus.Authority.Service.{
  AuthorityOptions, Service, Answer, tenant_create, policy_change, allow, acting, audited,
  write_audit, at_policies, checked, then_do, policy_of, assert_known, assert_service,
  consume_proof,
}

unfoldable pub policy_key : Str → ℕ → Str
policy_key tenant version = tenant ++ 47 ∷ pad version 12

-- `#create` of a policy, and the map in memory when it was created.
unfoldable pub store_policy : Service → TenantPolicy → Service
unfolding policy_key
store_policy s p = record s {
  policies = put s.policies p.tenant p;
  backend = record (s.backend) {
    policies = put s.backend.policies (policy_key p.tenant p.version) p;
  };
}

module _ (o : AuthorityOptions) (e : Engine) where
  -- The work in the lock.
  unfoldable pub create_in_lock : ℕ → Str → PolicyBody → Service → Answer TenantPolicy
  unfolding policy_key store_policy
  create_in_lock now tenant body s =
      if has s.policies tenant
      then (refused tenant_exists, s)
      else if o.put_fails at_policies (policy_key tenant 0) s.backend
      then (broken, s)
      else if has s.backend.policies (policy_key tenant 0)
      then (refused tenant_exists, s)
      else let p : TenantPolicy = record {
        body = body;
        tenant = tenant;
        version = 0;
        changed_by = none;
        changed_at = now;
      } in
        then_do (write_audit o now (acting tenant tenant_create none) allow none (store_policy s p))
          (λ _ s'. (ok p, s'))

  unfoldable pub create_tenant : ℕ → Str → PolicyBody → Service → Answer TenantPolicy
  unfolding create_in_lock
  create_tenant now tenant body s =
      checked (do assure (is_tenant tenant) malformed; canonical_policy_body e body) s
        (λ canonical. create_in_lock now tenant canonical s)

  -- What follows the consumption of the proof; `current` was read before it.
  unfoldable pub replace_policy :
      ℕ → PolicyChange → PolicyBody → TenantPolicy → Service → Answer TenantPolicy
  unfolding policy_key store_policy
  replace_policy now c body current s =
      if not (member c.admin current.admins)
      then (refused not_an_admin, s)
      else if not (nat_eq c.expected_version current.version)
      then (refused conflict, s)
      else if o.put_fails at_policies (policy_key c.tenant (suc current.version)) s.backend
      then (broken, s)
      else if has s.backend.policies (policy_key c.tenant (suc current.version))
      then (refused conflict, s)
      else let p : TenantPolicy = record {
        body = body;
        tenant = c.tenant;
        version = suc current.version;
        changed_by = some c.admin;
        changed_at = now;
      } in
        (ok p, store_policy s p)

  unfoldable pub change_in_lock :
      ℕ → PolicyChange → PolicyBody → Proof → Service → Answer TenantPolicy
  unfolding replace_policy policy_of assert_known
  change_in_lock now c body proof s =
      checked (do current ← policy_of s c.tenant; assert_known current c.admin; ok current) s
        (λ current.
          audited o now (acting c.tenant policy_change (some c.admin)) (λ _ b. b) true
            (then_do (consume_proof o e now c.admin proof s)
              (λ _ s'. replace_policy now c body current s')))

  unfoldable pub change_policy : ℕ → PolicyChange → Proof → Service → Answer TenantPolicy
  unfolding change_in_lock
  change_policy now c proof s =
      checked
        (do
          assert_service o c.service
          body ← policy_change_body e c
          assure (is_did e c.admin) malformed
          check_proof_signature e c.admin policy_domain body proof
          canonical_policy_body e c.policy)
        s (λ canonical. change_in_lock now c canonical proof s)
