-- ===== src/Authority/Service/Replaced.antt =====
-- Policies follow each other (`changePolicy` in packages/authority/src/authority.ts).
use thaddeus.Prelude.{
  ℕ, suc, ◌≤◌, ◌<◌, ◌≡◌, sym, ap, ◌∙◌, subst, inl, inr, true, false, none, some, ◌==◌, nat_eq,
  nat_eq→eq, member, arith, Bool-cases,
}
use thaddeus.Prelude.Dict.{get, has, get-put_self}
use thaddeus.Authority.Wire.{Engine, ok, ◌>>=◌, ◌>>◌, assure, assured, bound, malformed, is_did}
use thaddeus.Authority.Proof.{Proof, policy_domain, check_proof_signature}
use thaddeus.Authority.TenantPolicy.{
  PolicyBody, TenantPolicy, PolicyChange, canonical_policy_body, policy_change_body,
}
use thaddeus.Authority.Service.{
  AuthorityOptions, Service, policy_change, allow, acting, put_audit, at_policies, policy_of,
  assert_known, assert_service, consume_proof, did,
}
use thaddeus.Authority.Service.Policies.{
  policy_key, store_policy, replace_policy, change_in_lock, change_policy,
}
use thaddeus.Authority.Service.Inversion.{answer-inj, checked-ok, then_do-ok, audited-ok}
use thaddeus.Authority.Service.Calls.{Calls, Calls-Keeps}

-- What `changePolicy` has checked when it returns `p`, and what it has done: `current` was the policy, and
-- `m` is the state when the proof was consumed.
pub record IsReplaced (o : AuthorityOptions) (e : Engine) (now : ℕ) (c : PolicyChange)
    (proof : Proof) (s t : Service) (p current : TenantPolicy) (m : Service) : Type 0 where
  pub was : get s.policies c.tenant ≡ some current
  pub admin : member c.admin current.admins ≡ true
  pub expected : c.expected_version ≡ current.version
  pub canonical : canonical_policy_body e c.policy ≡ ok p.body
  pub next : (p.tenant ≡ c.tenant) × (p.version ≡ suc current.version)
  pub spent : consume_proof o e now c.admin proof s ≡ (ok tt, m)
  pub fresh : has m.backend.policies (policy_key c.tenant p.version) ≡ false
  pub stored :
      t
      ≡ put_audit o now (acting c.tenant policy_change (some c.admin)) allow none (store_policy m p)

module _ (o : AuthorityOptions) (e : Engine) where
  replaced : ℕ → PolicyChange → PolicyBody → TenantPolicy → TenantPolicy
  replaced now c body current = record {
    body = body;
    tenant = c.tenant;
    version = suc current.version;
    changed_by = some c.admin;
    changed_at = now;
  }

  replace_policy-parts :
      (now : ℕ) (c : PolicyChange) (body : PolicyBody) (current : TenantPolicy) (s t : Service)
      (p : TenantPolicy)
      → replace_policy o e now c body current s ≡ (ok p, t)
      → (member c.admin current.admins ≡ true)
        × (c.expected_version ≡ current.version)
        × (has s.backend.policies (policy_key c.tenant (suc current.version)) ≡ false)
        × (replaced now c body current ≡ p)
        × (store_policy s p ≡ t)
  unfolding replace_policy replaced
  replace_policy-parts now c body current s t p h =
      elim (Bool-cases (member c.admin current.admins)) [
        | inr n ↦ absurd (ground arith)
        | inl admin ↦ elim (Bool-cases (nat_eq c.expected_version current.version)) [
          | inr n ↦ absurd (ground arith)
          | inl version ↦
              elim (Bool-cases
                (o.put_fails at_policies (policy_key c.tenant (suc current.version)) s.backend)) [
                  | inl fails ↦ absurd (ground arith)
                  | inr written ↦
                      elim (Bool-cases
                        (has s.backend.policies (policy_key c.tenant (suc current.version)))) [
                          | inl there ↦ absurd (ground arith)
                          | inr free ↦ made admin version free (answer-inj (ground (arith, h)))
                        ]
                ]
        ]
      ]
    where
      made :
          member c.admin current.admins ≡ true
          → nat_eq c.expected_version current.version ≡ true
          → has s.backend.policies (policy_key c.tenant (suc current.version)) ≡ false
          → (replaced now c body current ≡ p) × (store_policy s (replaced now c body current) ≡ t)
          → (member c.admin current.admins ≡ true)
            × (c.expected_version ≡ current.version)
            × (has s.backend.policies (policy_key c.tenant (suc current.version)) ≡ false)
            × (replaced now c body current ≡ p)
            × (store_policy s p ≡ t)
      made admin version free (same, at) =
          (admin, nat_eq→eq _ _ version, free, same, ap (store_policy s) (sym same) ∙ at)

  change_in_lock-IsReplaced :
      (now : ℕ) (c : PolicyChange) (body : PolicyBody) (proof : Proof) (s t : Service)
      (p : TenantPolicy)
      → canonical_policy_body e c.policy ≡ ok body
      → change_in_lock o e now c body proof s ≡ (ok p, t)
      → (current : TenantPolicy) × (m : Service) × IsReplaced o e now c proof s t p current m
  unfolding change_in_lock replaced policy_of
  change_in_lock-IsReplaced now c body proof s t p canonical h =
      let (current, q, k) =
        checked-ok (do current ← policy_of s c.tenant; assert_known current c.admin; ok current) s _
          h in
      let (current', at, k0) = bound (policy_of s c.tenant) _ q in
      let (u, known, k1) = bound (assert_known current' c.admin) _ k0 in
      let (m', made, recorded) =
        audited-ok o now (acting c.tenant policy_change (some c.admin)) (λ _ b. b) true _ k in
      let (v, m, spent, k2) = then_do-ok (consume_proof o e now c.admin proof s) _ made in
      let (admin, version, fresh, same, stored) =
        replace_policy-parts now c body current m m' p k2 in
      (
        current,
        m,
        record {
          was = policy_at current (at ∙ k1);
          admin = admin;
          expected = version;
          canonical = canonical ∙ ap (λ x. ok x.body) same;
          next = (ap (λ x. x.tenant) (sym same), ap (λ x. x.version) (sym same));
          spent = spent;
          fresh =
              subst (λ n. has m.backend.policies (policy_key c.tenant n) ≡ false)
                (ap (λ x. x.version) same) fresh;
          stored =
              recorded
              ∙ ap (put_audit o now (acting c.tenant policy_change (some c.admin)) allow none)
                  (sym stored);
        },
      )
    where
      policy_at :
          (p : TenantPolicy) → policy_of s c.tenant ≡ ok p → get s.policies c.tenant ≡ some p
      policy_at p q = ground arith

  -- A policy is replaced only by an admin of the current policy, who expected its version, whose proof was
  -- fresh and unused. The new one is canonical and has the next version, under which nothing was stored;
  -- it is stored and recorded, and nothing else changes.
  pub change_policy-IsReplaced :
      (now : ℕ) (c : PolicyChange) (proof : Proof) (s t : Service) (p : TenantPolicy)
      → change_policy o e now c proof s ≡ (ok p, t)
      → (current : TenantPolicy) × (m : Service) × IsReplaced o e now c proof s t p current m
  unfolding change_policy
  change_policy-IsReplaced now c proof s t p h =
      let (body, q, k) =
        checked-ok
          (do
            assert_service o c.service
            body ← policy_change_body e c
            assure (is_did e c.admin) malformed
            check_proof_signature e c.admin policy_domain body proof
            canonical_policy_body e c.policy)
          s _ h in
      let (_, k0) = assured (c.service == did o) _ _ q in
      let (bytes, _, k1) = bound (policy_change_body e c) _ k0 in
      let (_, k2) = assured (is_did e c.admin) malformed _ k1 in
      let (_, _, canonical) =
        bound (check_proof_signature e c.admin policy_domain bytes proof) _ k2 in
      change_in_lock-IsReplaced now c body proof s t p canonical k

  stored_policy :
      (s : Service) (p : TenantPolicy) → get (store_policy s p).policies p.tenant ≡ some p
  unfolding store_policy
  stored_policy s p = get-put_self s.policies p.tenant p

  -- No change is lost: whatever is called between two changes of a tenant's policy, the second was made
  -- by one who expected a version at least that of the first, and it has a later version.
  pub change_policy_serial :
      (b now now' : ℕ) (c c' : PolicyChange) (proof proof' : Proof) (s t u w : Service)
      (p q : TenantPolicy)
      → change_policy o e now c proof s ≡ (ok p, t)
      → Calls o e b t u
      → change_policy o e now' c' proof' u ≡ (ok q, w)
      → c.tenant ≡ c'.tenant
      → (p.version ≤ c'.expected_version) × (p.version < q.version)
  unfolding put_audit
  change_policy_serial b now now' c c' proof proof' s t u w p q h calls k tenant =
      let (current, m, first) = change_policy-IsReplaced now c proof s t p h in
      let (current', m', second) = change_policy-IsReplaced now' c' proof' u w q k in
      let there : get t.policies c.tenant ≡ some p =
        ap (λ x. get x.policies c.tenant) first.stored
        ∙ subst (λ x. get (store_policy m p).policies x ≡ some p) first.next.0
            (stored_policy m p) in
      let (p', kept, later) = (Calls-Keeps o e b calls).policies c.tenant p there in
      let same : p' ≡ current' =
        ground (
          arith,
          sym kept ∙ subst (λ x. get u.policies x ≡ some current') (sym tenant) second.was,
        ) in
      let up : p.version ≤ p'.version = elim later [
        | inl e ↦ omega (arith, ap (λ x. x.version) e)
        | inr l ↦ omega (arith, l)
      ] in
      let version = ap (λ x. x.version) same in
      (omega (arith, up, version, second.expected), omega (arith, up, version, second.next.1))
