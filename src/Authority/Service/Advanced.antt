-- ===== src/Authority/Service/Advanced.antt =====
-- The heads of a view follow each other (`advance` in packages/authority/src/authority.ts).
pub mod Genuine
pub mod NoFork
pub mod Loads
pub mod Next
use mathlib.Core.List.{Memᴰ}
use thaddeus.Prelude.{
  ℕ, ◌≡◌, ◌≢◌, refl, sym, ap, ◌∙◌, subst, inl, inr, true, false, ◌&&◌, Option, none, some, List,
  Str, text, ◌==◌, all, all-Memᴰ, sort, unique, arith, Bool-cases, Option-cases,
}
use thaddeus.Prelude.Dict.{Dict, put, get, has, get-put_self}
use thaddeus.Authority.{is_name, is_path}
use thaddeus.Authority.Wire.{
  Engine, Outcome, ok, refused, broken, ◌>>◌, assure, assured, malformed, scope_denied, stale_head,
  invalid_claim,
}
use thaddeus.Authority.Proof.{is_tenant}
use thaddeus.Authority.TenantPolicy.{TenantPolicy}
use thaddeus.Authority.ServiceHead.{ServiceHeadRecord, verify_actor_claim}
use thaddeus.Authority.Service.{
  AuthorityOptions, Service, AuditBase, history_advance, allow, base_of, put_audit, at_heads,
  policy_of, validate, reaches, checked,
}
use thaddeus.Authority.Service.Use.{Authorization, check}
use thaddeus.Authority.Service.History.{
  AdvanceInput, is_version, same_version, head_prefix, head_key, check_stored, read_newest,
  load_head, head, next_content, sign_head, write_head, store_head, extend, advance_in_lock,
  advance,
}
use thaddeus.Authority.Service.Inversion.{answer-inj, checked-ok, then_do-ok, audited-ok}
use thaddeus.Authority.Service.Calls.{Calls, Calls-Keeps}

-- How `advance` made `r`: `tip` was the newest head, `m` the state with it loaded, and `p` the policy.
pub record IsMade (o : AuthorityOptions) (e : Engine) (now : ℕ) (a : Authorization)
    (i : AdvanceInput) (s t : Service) (r : ServiceHeadRecord) (tip : Option ServiceHeadRecord)
    (m : Service) (p : TenantPolicy) : Type 0 where
  pub scope : a.action.scope ≡ text "integrate"
  pub within :
      (path : Str) → Memᴰ path (sort (unique i.changed_paths)) → reaches a.action.paths path ≡ true
  pub valid : (version : ℕ) × (validate o s now a.claims a.action ≡ ok version)
  pub loaded : head o e a.claims.tenant a.action.repo i.view s ≡ (ok tip, m)
  pub expected :
      same_version i.expected_version
        (elim tip as (λ _. Option ℕ) [ none ↦ none | some x ↦ some x.version ])
      ≡ true
  pub claims_agree :
      all
        (verify_actor_claim e (next_content o e a i (sort (unique i.changed_paths)) tip))
        i.actor_claims
      ≡ true
  pub policy : get m.policies a.claims.tenant ≡ some p
  pub made :
      r
      ≡ sign_head o e now a p.version i.actor_claims
          (next_content o e a i (sort (unique i.changed_paths)) tip)
  pub fresh :
      has m.backend.heads (head_key o e (head_prefix o e r.tenant r.repo r.view) r.version) ≡ false
  pub stored :
      t
      ≡ put_audit o now
          (record (base_of a.claims history_advance (some a.action)) {
            scope = some (text "integrate");
            paths = some (sort (unique i.changed_paths));
          })
          allow
          none
          (write_head o e r m)

module _ (o : AuthorityOptions) (e : Engine) where
  store_head-parts :
      (r r' : ServiceHeadRecord) (s t : Service)
      → store_head o e r s ≡ (ok r', t)
      → (r' ≡ r)
        × (t ≡ write_head o e r s)
        × (has s.backend.heads (head_key o e (head_prefix o e r.tenant r.repo r.view) r.version)
            ≡ false)
  unfolding store_head
  store_head-parts r r' s t h =
      elim (Bool-cases (
        o.put_fails at_heads (head_key o e (head_prefix o e r.tenant r.repo r.view) r.version)
          s.backend)) [
            | inl fails ↦ absurd (ground arith)
            | inr written ↦
                elim (Bool-cases (
                  has s.backend.heads
                    (head_key o e (head_prefix o e r.tenant r.repo r.view) r.version))) [
                      | inl there ↦ absurd (ground arith)
                      | inr free ↦
                          let (same, at) : (r ≡ r') × (write_head o e r s ≡ t) =
                            answer-inj (ground (arith, h)) in
                          (sym same, sym at, free)
                    ]
          ]

  extend-parts :
      (now : ℕ) (a : Authorization) (i : AdvanceInput) (changed : List Str)
      (tip : Option ServiceHeadRecord) (s t : Service) (r : ServiceHeadRecord)
      → extend o e now a i changed tip s ≡ (ok r, t)
      → (p : TenantPolicy) × (same_version i.expected_version
            (elim tip as (λ _. Option ℕ) [ none ↦ none | some x ↦ some x.version ])
          ≡ true)
        × (all (verify_actor_claim e (next_content o e a i changed tip)) i.actor_claims ≡ true)
        × (get s.policies a.claims.tenant ≡ some p)
        × (store_head o e
              (sign_head o e now a p.version i.actor_claims (next_content o e a i changed tip))
              s
            ≡ (ok r, t))
  unfolding extend
  extend-parts now a i changed tip s t r h =
      let current = elim tip as (λ _. Option ℕ) [ none ↦ none | some t ↦ some t.version ] in
      let (p, q, k) =
        checked-ok
          (do
            assure (same_version i.expected_version current) stale_head
            assure (all (verify_actor_claim e (next_content o e a i changed tip)) i.actor_claims)
                invalid_claim
            policy_of s a.claims.tenant)
          s _ h in
      let (expected, k0) = assured (same_version i.expected_version current) stale_head _ q in
      let (agree, k1) = assured (all _ i.actor_claims) invalid_claim _ k0 in
      (p, expected, agree, policy_at p k1, k)
    where
      policy_at :
          (p : TenantPolicy)
          → policy_of s a.claims.tenant ≡ ok p
          → get s.policies a.claims.tenant ≡ some p
      policy_at p q = unfold policy_of in ground arith

  pub advance-IsMade :
      (now : ℕ) (a : Authorization) (i : AdvanceInput) (s t : Service) (r : ServiceHeadRecord)
      → advance o e now a i s ≡ (ok r, t)
      → (tip : Option ServiceHeadRecord) × (m : Service) × (p : TenantPolicy) × IsMade o e now a i s
          t r tip m p
  unfolding advance advance_in_lock check
  advance-IsMade now a i s t r h =
      let changed = sort (unique i.changed_paths) in
      let base : AuditBase = record (base_of a.claims history_advance (some a.action)) {
        scope = some (text "integrate");
        paths = some changed;
      } in
      let (_, q, k) =
        checked-ok
          (do
            assure (a.action.scope == text "integrate") scope_denied
            assure (is_name i.view && is_name i.revision) malformed
            assure (is_version i.expected_version) malformed
            assure (all is_path i.changed_paths) malformed)
          s _ h in
      let (scope, k0) = assured (a.action.scope == text "integrate") scope_denied _ q in
      let (u, made, recorded) = audited-ok o now base (λ _ b. b) true _ k in
      let (version, q1, k1) =
        checked-ok
          (do assure (all (reaches a.action.paths) changed) scope_denied; check o e now a s) s _
          made in
      let (within, valid) = assured (all (reaches a.action.paths) changed) scope_denied _ q1 in
      let (tip, m, loaded, k2) =
        then_do-ok (head o e a.claims.tenant a.action.repo i.view s) _ k1 in
      let (p, expected, agree, policy, k3) = extend-parts now a i changed tip m u r k2 in
      let (same, at, fresh) =
        store_head-parts
          (sign_head o e now a p.version i.actor_claims (next_content o e a i changed tip)) r m u
          k3 in
      (
        tip,
        m,
        p,
        record {
          scope = eq_of a.action.scope (text "integrate") scope;
          within = λ path j. all-Memᴰ _ path changed within j;
          valid = (version, valid);
          loaded = loaded;
          expected = expected;
          claims_agree = agree;
          policy = policy;
          made = same;
          fresh =
              subst
                (λ x.
                  has m.backend.heads
                    (head_key o e (head_prefix o e x.tenant x.repo x.view) x.version)
                  ≡ false)
                (sym same) fresh;
          stored =
              recorded
              ∙ ap (put_audit o now base allow none) (at ∙ ap (λ x. write_head o e x m) (sym same));
        },
      )
    where
      eq_of : (b d : Str) → (b == d) ≡ true → b ≡ d
      eq_of b d i = ground arith
