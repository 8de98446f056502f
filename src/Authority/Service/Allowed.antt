-- ===== src/Authority/Service/Allowed.antt =====
-- What the service allows (packages/authority/src/authority.ts): the validation of a credential, and the
-- authorizations that come out of `authorize`.
pub mod Exact
use mathlib.Core.List.{Memᴰ}
use thaddeus.Prelude.{
  ℕ, ◌+◌, ◌≤◌, ◌<◌, ◌≡◌, ◌↔◌, refl, sym, ap, ◌∙◌, subst, inl, inr, true, false, not, none, some,
  Str, ◌==◌, ltb, leb, lt→ltb, all, arith, tests, Option-cases, all-Memᴰ, Memᴰ-all,
}
use thaddeus.Prelude.Dict.{get}
use thaddeus.Authority.{grants_cover}
use thaddeus.Authority.Wire.{Engine, Outcome, ok, refused, broken, ◌>>◌, assured, bound, ok-inj}
use thaddeus.Authority.Proof.{
  Proof, Action, action_domain, action_body, canonical_action, check_proof_signature,
}
use thaddeus.Authority.Token.{CredentialClaims, decode_credential}
use thaddeus.Authority.TenantPolicy.{TenantPolicy, PolicyMember, member_of}
use thaddeus.Authority.Service.{
  AuthorityOptions, Service, validate, policy_of, is_revoked, member_covers, consume_proof, did,
  base_of, authorized,
}
use thaddeus.Authority.Service.Inversion.{answer-inj, checked-ok, then_do-ok, audited-quiet}
use thaddeus.Authority.Service.Use.{
  Authorization, check_use, spend_proof, audited_use, begin_use, finish_use, authorize,
}

-- A credential allows an action under a policy at a time: it is live, and both its grants and those of
-- its principal in the policy cover every path.
pub record IsAllowed (o : AuthorityOptions) (s : Service) (now : ℕ) (c : CredentialClaims)
    (a : Action) (p : TenantPolicy) : Type 0 where
  pub current : get s.policies c.tenant ≡ some p
  pub begun : c.issued_at ≤ now + o.skew
  pub unexpired : now < c.expires_at
  pub unrevoked : is_revoked s c ≡ false
  pub granted :
      (pattern : Str) → Memᴰ pattern a.paths → grants_cover c.grants a.repo a.scope pattern ≡ true
  pub member_granted :
      (pattern : Str)
      → Memᴰ pattern a.paths
      → (m : PolicyMember) × (member_of p c.principal ≡ some m)
        × (grants_cover m.grants a.repo a.scope pattern ≡ true)

member_covers-parts :
    (p : TenantPolicy) (c : CredentialClaims) (a : Action) (pattern : Str)
    → member_covers p c a pattern ≡ true
    → (m : PolicyMember) × (member_of p c.principal ≡ some m)
      × (grants_cover m.grants a.repo a.scope pattern ≡ true)
unfolding member_covers
member_covers-parts p c a pattern h = elim (Option-cases (member_of p c.principal)) [
  | inl e ↦ absurd (ground arith)
  | inr (m, e) ↦ (m, e, ground arith)
]

module _ (o : AuthorityOptions) (s : Service) (now : ℕ) (c : CredentialClaims) (a : Action) where
  validate-parts :
      (version : ℕ)
      → validate o s now c a ≡ ok version
      → (p : TenantPolicy) × (get s.policies c.tenant ≡ some p)
        × (p.version ≡ version)
        × (leb c.issued_at (now + o.skew) ≡ true)
        × (ltb now c.expires_at ≡ true)
        × (is_revoked s c ≡ false)
        × (all (λ pattern. grants_cover c.grants a.repo a.scope pattern) a.paths ≡ true)
        × (all (member_covers p c a) a.paths ≡ true)
  unfolding validate policy_of
  validate-parts version h =
      let (p, at, k0) = bound (policy_of s c.tenant) _ h in
      let (begun, k1) = assured (leb c.issued_at (now + o.skew)) _ _ k0 in
      let (unexpired, k2) = assured (ltb now c.expires_at) _ _ k1 in
      let (live, k3) = assured (not (is_revoked s c)) _ _ k2 in
      let (granted, k4) = assured (all _ a.paths) _ _ k3 in
      let (member, k5) = assured (all (member_covers p c a) a.paths) _ _ k4 in
      (p, policy_at p at, ok-inj k5, begun, unexpired, ground arith, granted, member)
    where
      policy_at :
          (p : TenantPolicy) → policy_of s c.tenant ≡ ok p → get s.policies c.tenant ≡ some p
      policy_at p q = ground arith

  validate-ok :
      (p : TenantPolicy)
      → get s.policies c.tenant ≡ some p
      → leb c.issued_at (now + o.skew) ≡ true
      → ltb now c.expires_at ≡ true
      → is_revoked s c ≡ false
      → all (λ pattern. grants_cover c.grants a.repo a.scope pattern) a.paths ≡ true
      → all (member_covers p c a) a.paths ≡ true
      → validate o s now c a ≡ ok p.version
  unfolding validate policy_of
  validate-ok p e1 e2 e3 e4 e5 e6 = ground arith

  -- The validation succeeds exactly under a policy that allows the action, with its version.
  pub validate_exact :
      (version : ℕ)
      → (validate o s now c a ≡ ok version)
        ↔ ((p : TenantPolicy) × IsAllowed o s now c a p × (p.version ≡ version))
  validate_exact version = (
    λ h.
        let (p, at, e, begun, unexpired, live, granted, member) = validate-parts version h in
        (
          p,
          record {
            current = at;
            begun = omega (tests, begun);
            unexpired = omega (tests, unexpired);
            unrevoked = live;
            granted = λ pattern i. all-Memᴰ _ pattern a.paths granted i;
            member_granted = λ pattern i.
                member_covers-parts p c a pattern
                  (all-Memᴰ (member_covers p c a) pattern a.paths member i);
          },
          e,
        ),
    λ (p, k, e).
        subst (λ v. validate o s now c a ≡ ok v) e
          (validate-ok p k.current (leb_true _ _ k.begun) (lt→ltb _ _ k.unexpired) k.unrevoked
            (Memᴰ-all _ a.paths k.granted)
            (Memᴰ-all (member_covers p c a) a.paths
              (λ pattern i. covered p pattern (k.member_granted pattern i)))),
  )
    where
      leb_true : (x y : ℕ) → x ≤ y → leb x y ≡ true
      leb_true x y h = ground arith

      covered :
          (p : TenantPolicy) (pattern : Str)
          → (m : PolicyMember) × (member_of p c.principal ≡ some m)
            × (grants_cover m.grants a.repo a.scope pattern ≡ true)
          → member_covers p c a pattern ≡ true
      covered p pattern (m, e, g) = unfold member_covers in ground arith

-- What `authorize` has checked when it returns `x`: `m` is the state when the proof was consumed.
pub record IsAuthorized (o : AuthorityOptions) (e : Engine) (now later : ℕ) (token : Str)
    (a : Action) (proof : Proof) (s m t : Service) (x : Authorization) : Type 0 where
  pub ours : decode_credential e token (did o) ≡ ok x.claims
  pub named : x.token ≡ token
  pub direct : x.ticket ≡ none
  pub canonical : canonical_action a ≡ ok x.action
  pub tenant : x.action.tenant ≡ x.claims.tenant
  pub signed :
      check_proof_signature e x.claims.subject action_domain (action_body e token x.action) proof
      ≡ ok tt
  pub spent : consume_proof o e now x.claims.subject proof s ≡ (ok tt, m)
  pub before : (p : TenantPolicy) × IsAllowed o s now x.claims x.action p
  pub after :
      (p : TenantPolicy) × IsAllowed o t later x.claims x.action p × (p.version ≡ x.policy_version)

module _ (o : AuthorityOptions) (e : Engine) where
  use_spent :
      (now : ℕ) (c : CredentialClaims) (token : Str) (y x : Action) (proof : Proof) (s m : Service)
      → spend_proof o e now c token y proof s ≡ (ok x, m)
      → (x ≡ y)
        × (y.tenant ≡ c.tenant)
        × (check_proof_signature e c.subject action_domain (action_body e token y) proof ≡ ok tt)
        × (consume_proof o e now c.subject proof s ≡ (ok tt, m))
        × ((version : ℕ) × (validate o s now c y ≡ ok version))
  unfolding spend_proof check_use
  use_spent now c token y x proof s m h =
      let (v, q, k) = checked-ok (do check_use o e c token y proof; validate o s now c y) s _ h in
      let (u, q1, valid) = bound (check_use o e c token y proof) _ q in
      let (same, sig) = assured (y.tenant == c.tenant) _ _ q1 in
      let (u', m', spent, r) = then_do-ok (consume_proof o e now c.subject proof s) _ k in
      let (e1, e2) = answer-inj r in
      (sym e1, eq_of y.tenant c.tenant same, sig, spent ∙ ap (λ z. (ok tt, z)) e2, (v, valid))
    where
      eq_of : (b d : Str) → (b == d) ≡ true → b ≡ d
      eq_of b d i = ground arith

  -- A begun use went by the canonical action.
  begun_spent :
      (now : ℕ) (c : CredentialClaims) (token : Str) (r : Outcome Action) (x : Action)
      (proof : Proof) (s m : Service)
      → audited_use o e now c token r proof s ≡ (ok x, m)
      → (y : Action) × (r ≡ ok y) × (spend_proof o e now c token y proof s ≡ (ok x, m))
  unfolding audited_use
  begun_spent now c token (ok y) x proof s m h = (y, refl, audited-quiet o now _ _ _ h)
  begun_spent now c token (refused code) x proof s m h =
      let l = audited-quiet {A = Action} o now _ _ (refused code, s) h in absurd (ground arith)
  begun_spent now c token broken x proof s m h = absurd (ground arith)

  authorization : CredentialClaims → Str → Action → ℕ → Authorization
  authorization c token y version = record {
    claims = c;
    token = token;
    action = y;
    policy_version = version;
    ticket = none;
  }

  collected :
      (now later : ℕ) (token : Str) (a : Action) (proof : Proof) (s m u : Service)
      (c : CredentialClaims) (y : Action) (v version : ℕ)
      → decode_credential e token (did o) ≡ ok c
      → canonical_action a ≡ ok y
      → y.tenant ≡ c.tenant
      → check_proof_signature e c.subject action_domain (action_body e token y) proof ≡ ok tt
      → consume_proof o e now c.subject proof s ≡ (ok tt, m)
      → validate o s now c y ≡ ok v
      → validate o u later c y ≡ ok version
      → IsAuthorized o e now later token a proof s m u (authorization c token y version)
  unfolding authorization
  collected now later token a proof s m u c y v version ours canonical tenant signed spent valid
        valid' =
      let (p, k, i) = (validate_exact o s now c y v).0 valid in
      record {
        ours = ours;
        named = refl;
        direct = refl;
        canonical = canonical;
        tenant = tenant;
        signed = signed;
        spent = spent;
        before = (p, k);
        after = (validate_exact o u later c y version).0 valid';
      }

  -- An authorization is returned only for a credential of this service and the holder's signature over
  -- the canonical action, in the credential's tenant, whose proof was fresh and unused. The credential
  -- was live and covered every path, and so did the policy: before the proof was consumed, and in the
  -- state afterwards, whatever other calls have done meanwhile.
  pub authorize-IsAuthorized :
      (others : Service → Service) (now later : ℕ) (token : Str) (a : Action) (proof : Proof)
      (s t : Service) (x : Authorization)
      → authorize o e others now later token a proof s ≡ (ok x, t)
      → (m : Service) × (t ≡ others m) × IsAuthorized o e now later token a proof s m t x
  unfolding authorize begin_use finish_use authorization
  authorize-IsAuthorized others now later token a proof s t x h =
      let (c, ours, k) = checked-ok (decode_credential e token (did o)) s _ h in
      let (y, m, began, l) = then_do-ok (begin_use o e now c token a proof s) _ k in
      let (z, canonical, spend) = begun_spent now c token (canonical_action a) y proof s m began in
      let (same, tenant, signed, spent, (v, valid)) = use_spent now c token z y proof s m spend in
      let quiet = audited-quiet o later (base_of c authorized (some y)) (λ _ w. w) _ l in
      let (version, valid', r) = checked-ok (validate o (others m) later c y) (others m) _ quiet in
      let (e1, e2) = answer-inj r in
      let now_valid = subst (λ w. validate o (others m) later c w ≡ ok version) same valid' in
      let made =
        collected now later token a proof s m (others m) c z v version ours canonical tenant signed
          spent valid now_valid in
      let as_x = ap (λ w. authorization c token w version) (sym same) ∙ e1 in
      (
        m,
        sym e2,
        subst (λ u. IsAuthorized o e now later token a proof s m u x) e2
            (subst (λ w. IsAuthorized o e now later token a proof s m (others m) w) as_x made),
      )
