-- ===== src/Authority/Service/Keeps/Policies.antt =====
-- What createTenant and changePolicy keep (packages/authority/src/authority.ts).
use thaddeus.Prelude.{
  ℕ, suc, ◌≤◌, ◌<◌, ◌≡◌, refl, ◌∙◌, ap, inl, inr, false, none, some, Str, ◌==◌, not, nat_eq, member,
  arith, Bool-cases,
}
use thaddeus.Prelude.Dict.{get, has, get-put}
use thaddeus.Authority.Wire.{Engine, ok, ◌>>=◌, ◌>>◌}
use thaddeus.Authority.Proof.{Proof}
use thaddeus.Authority.TenantPolicy.{PolicyBody, PolicyChange, TenantPolicy}
use thaddeus.Authority.Service.{
  AuthorityOptions, Service, consume_proof, policy_of, assert_known, acting, tenant_create, allow,
  at_policies,
}
use thaddeus.Authority.Service.Policies.{
  policy_key, store_policy, create_in_lock, create_tenant, replace_policy, change_in_lock,
  change_policy,
}
use thaddeus.Authority.Service.Keeps.{
  Keeps, Keeps-refl, Keeps-trans, write_audit-Keeps, if-Keeps, checked-Keeps, then_do-Keeps,
  audited-Keeps, consume_proof-Keeps, consume_proof-only,
}
use thaddeus.Prelude.Dict.{get-put_fresh}

store_policy-Keeps :
    (b : ℕ) (s : Service) (p : TenantPolicy)
    → has s.backend.policies (policy_key p.tenant p.version) ≡ false
    → ((q : TenantPolicy) → get s.policies p.tenant ≡ some q → q.version < p.version)
    → Keeps b s (store_policy s p)
unfolding store_policy
store_policy-Keeps b s p fresh up = record {
  policies = λ tenant q h. elim (Bool-cases (p.tenant == tenant)) [
    | inl same ↦
        (p, ground (arith, get-put s.policies p.tenant tenant p), inr (up q (ground arith)))
    | inr other ↦ (q, ground (arith, get-put s.policies p.tenant tenant p), inl refl)
  ];
  credentials = λ id h. h;
  dids = λ key at h. (at, h, omega arith);
  tickets = λ key at h. h;
  policy_log = λ key q h. get-put_fresh s.backend.policies _ key p q fresh h;
  head_log = λ key r h. h;
  nonces = λ key until n h. h;
}

module _ (o : AuthorityOptions) (e : Engine) (b : ℕ) where
  create_in_lock-Keeps :
      (now : ℕ) (tenant : Str) (body : PolicyBody) (s : Service)
      → Keeps b s (create_in_lock o e now tenant body s).1
  unfolding create_in_lock
  create_in_lock-Keeps now tenant body s =
      if-Keeps b s (has s.policies tenant) _ _ (λ there. Keeps-refl b s)
        (λ free.
          if-Keeps b s (o.put_fails at_policies (policy_key tenant 0) s.backend) _ _
            (λ fails. Keeps-refl b s)
            (λ written.
              if-Keeps b s (has s.backend.policies (policy_key tenant 0)) _ _
                (λ there. Keeps-refl b s)
                (λ fresh.
                  Keeps-trans b s (store_policy s first) _
                    (store_policy-Keeps b s first fresh (λ p h. absurd (ground arith)))
                    (write_audit-Keeps o b now (acting tenant tenant_create none) allow none
                      (store_policy s first) (ok first)))))
    where
      first : TenantPolicy
      first = record {
        body = body;
        tenant = tenant;
        version = 0;
        changed_by = none;
        changed_at = now;
      }

  pub create_tenant-Keeps :
      (now : ℕ) (tenant : Str) (body : PolicyBody) (s : Service)
      → Keeps b s (create_tenant o e now tenant body s).1
  unfolding create_tenant
  create_tenant-Keeps now tenant body s =
      checked-Keeps b _ s _ (λ canonical q. create_in_lock-Keeps now tenant canonical s)

  replace_policy-Keeps :
      (now : ℕ) (c : PolicyChange) (body : PolicyBody) (current : TenantPolicy) (s : Service)
      → get s.policies c.tenant ≡ some current
      → Keeps b s (replace_policy o e now c body current s).1
  unfolding replace_policy
  replace_policy-Keeps now c body current s h =
      if-Keeps b s (not (member c.admin current.admins)) _ _ (λ n. Keeps-refl b s)
        (λ admin.
          if-Keeps b s (not (nat_eq c.expected_version current.version)) _ _ (λ n. Keeps-refl b s)
            (λ version.
              if-Keeps b s
                (o.put_fails at_policies (policy_key c.tenant (suc current.version)) s.backend) _ _
                (λ fails. Keeps-refl b s)
                (λ written.
                  if-Keeps b s (has s.backend.policies (policy_key c.tenant (suc current.version)))
                    _ _ (λ there. Keeps-refl b s)
                    (λ free. store_policy-Keeps b s next free (λ p g. ground arith)))))
    where
      next : TenantPolicy
      next = record {
        body = body;
        tenant = c.tenant;
        version = suc current.version;
        changed_by = some c.admin;
        changed_at = now;
      }

  consume_proof-policies :
      (now : ℕ) (who : Str) (p : Proof) (s : Service)
      → (consume_proof o e now who p s).1.policies ≡ s.policies
  consume_proof-policies now who p s =
      let (n, same, how) = consume_proof-only o e now who p s in ap (λ x. x.policies) same

  change_in_lock-Keeps :
      (now : ℕ) (c : PolicyChange) (body : PolicyBody) (p : Proof) (s : Service)
      → now ≤ b
      → Keeps b s (change_in_lock o e now c body p s).1
  unfolding change_in_lock policy_of
  change_in_lock-Keeps now c body p s n = checked-Keeps b _ s _ (λ current q.
      audited-Keeps o b now _ _ _ s _ (
        then_do-Keeps b s _ _ (consume_proof-Keeps o e b now c.admin p s n) (λ u r.
          replace_policy-Keeps now c body current _
            (ap (λ d. get d c.tenant) (consume_proof-policies now c.admin p s) ∙ read q))))
    where
      read :
          {current : TenantPolicy}
          → (do x ← policy_of s c.tenant; assert_known x c.admin; ok x) ≡ ok current
          → get s.policies c.tenant ≡ some current
      read {current} q = ground arith

  pub change_policy-Keeps :
      (now : ℕ) (c : PolicyChange) (p : Proof) (s : Service)
      → now ≤ b
      → Keeps b s (change_policy o e now c p s).1
  unfolding change_policy
  change_policy-Keeps now c p s n =
      checked-Keeps b _ s _ (λ body q. change_in_lock-Keeps now c body p s n)
