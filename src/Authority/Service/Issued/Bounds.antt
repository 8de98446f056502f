-- ===== src/Authority/Service/Issued/Bounds.antt =====
-- For how long and for what an issued credential can be used (packages/authority/src/authority.ts).
use mathlib.Core.List.{Memᴰ}
use thaddeus.Prelude.{ℕ, ◌+◌, ◌≤◌, ◌<◌, ◌≡◌, subst, Bool, true, Option, some, Str, arith}
use thaddeus.Prelude.Dict.{get}
use thaddeus.Authority.{grants_cover}
use thaddeus.Authority.Covers.{grants_subsume-cover}
use thaddeus.Authority.Wire.{Engine, ok}
use thaddeus.Authority.Proof.{PrincipalKind, Proof, Action, IssueRequest}
use thaddeus.Authority.Token.{ServiceSigner}
use thaddeus.Authority.TenantPolicy.{TenantPolicy, PolicyMember, member_of}
use thaddeus.Authority.Service.{
  AuthorityOptions, Table, Backend, TtlRule, default_ttl, Service, consume_proof, validate,
}
use thaddeus.Authority.Service.Issuing.{Issued, issue}
use thaddeus.Authority.Service.Opening.{make_options, make_options-ttl}
use thaddeus.Authority.Service.Allowed.{validate_exact}
use thaddeus.Authority.Service.Issued.Call.{issue-IsIssued}

module _ (o : AuthorityOptions) (e : Engine) where
  -- With an authority that `make_options` gives, a credential that was issued allows an action only
  -- before the default maximum of its kind has passed since it was cut, whatever state the service is in
  -- by then, and only on paths that the grants of its principal covered when it was cut: in the policy
  -- that was current in the state that the consumption of the proof, and then the other calls, left.
  pub issue-bounds :
      (signer : ServiceSigner) (host : PrincipalKind → Option TtlRule) (skew capacity : Option ℕ)
      (instance_id : Str) (put_fails : Table → Str → Backend → Bool) (others : Service → Service)
      (now later : ℕ) (id : Str) (r : IssueRequest) (proof : Proof) (s t : Service) (x : Issued)
      (s' : Service) (at : ℕ) (a : Action) (version : ℕ)
      → make_options e signer host skew capacity instance_id put_fails ≡ ok o
      → issue o e others now later id r proof s ≡ (ok x, t)
      → validate o s' at x.claims a ≡ ok version
      → (u : Service) × (consume_proof o e now r.principal proof s ≡ (ok tt, u))
        × (at < later + (default_ttl x.claims.kind).max_ms)
        × ((pattern : Str)
            → Memᴰ pattern a.paths
            → (p : TenantPolicy) × (m : PolicyMember) × (get (others u).policies r.tenant ≡ some p)
              × (x.claims.policy_version ≡ p.version)
              × (member_of p r.principal ≡ some m)
              × (grants_cover m.grants a.repo a.scope pattern ≡ true))
  issue-bounds signer host skew capacity instance_id put_fails others now later id r proof s t x s'
        at a version made is_issued valid =
      let (u, k, recorded) = issue-IsIssued o e others now later id r proof s t x is_issued in
      let (p, m, from) = k.cut_from in
      let (q, allowed, same) = (validate_exact o s' at x.claims a version).0 valid in
      (
        u,
        k.spent,
        below at later x.claims.issued_at x.claims.expires_at _ _ allowed.unexpired from.issued_now
            from.ceiling
            (make_options-ttl e signer host skew capacity instance_id put_fails o x.claims.kind
              made),
        λ pattern i. (
          p,
          m,
          subst (λ tenant. get (others u).policies tenant ≡ some p) k.as_asked.0 from.current,
          from.version,
          subst (λ who. member_of p who ≡ some m) k.as_asked.1 from.member,
          grants_subsume-cover m.grants x.claims.grants a.repo a.scope pattern from.within
              (allowed.granted pattern i),
        ),
      )
    where
      below :
          (at later begun expires most ceiling : ℕ)
          → at < expires
          → begun ≡ later
          → expires ≤ begun + most
          → most ≤ ceiling
          → at < later + ceiling
      below at later begun expires most ceiling h1 h2 h3 h4 = omega (arith, h1, h2, h3, h4)
