-- ===== src/Authority/Service/Allowed/Exact.antt =====
-- When `authorize` authorizes (packages/authority/src/authority.ts).
use thaddeus.Prelude.{ℕ, ◌≡◌, ◌↔◌, refl, ◌∙◌, subst, Str, arith}
use thaddeus.Authority.Wire.{Engine, ok}
use thaddeus.Authority.Proof.{
  Proof, Action, action_domain, action_body, canonical_action, check_proof_signature,
}
use thaddeus.Authority.Token.{CredentialClaims, decode_credential}
use thaddeus.Authority.Service.{
  AuthorityOptions, Service, then_do, checked, audited, validate, consume_proof, did,
}
use thaddeus.Authority.Service.Use.{
  Authorization, check_use, spend_proof, audited_use, begin_use, finish_use, authorize,
}
use thaddeus.Authority.Service.Allowed.{
  IsAuthorized, validate_exact, authorize-IsAuthorized, authorization,
}

module _ (o : AuthorityOptions) (e : Engine) where
  spend_proof-ok :
      (now v : ℕ) (c : CredentialClaims) (token : Str) (x : Action) (proof : Proof) (s m : Service)
      → x.tenant ≡ c.tenant
      → check_proof_signature e c.subject action_domain (action_body e token x) proof ≡ ok tt
      → validate o s now c x ≡ ok v
      → consume_proof o e now c.subject proof s ≡ (ok tt, m)
      → spend_proof o e now c token x proof s ≡ (ok x, m)
  unfolding spend_proof check_use checked then_do
  spend_proof-ok now v c token x proof s m tenant signed valid spent =
      ground (arith, tenant, signed, valid, spent)

  begin_use-ok :
      (now : ℕ) (c : CredentialClaims) (token : Str) (a x : Action) (proof : Proof) (s m : Service)
      → canonical_action a ≡ ok x
      → spend_proof o e now c token x proof s ≡ (ok x, m)
      → begin_use o e now c token a proof s ≡ (ok x, m)
  unfolding begin_use audited_use audited
  begin_use-ok now c token a x proof s m canonical spent = ground (arith, canonical, spent)

  finish_use-ok :
      (now version : ℕ) (c : CredentialClaims) (token : Str) (x : Action) (s : Service)
      → validate o s now c x ≡ ok version
      → finish_use o e now c token x s ≡ (ok (authorization o e c token x version), s)
  unfolding finish_use audited checked authorization
  finish_use-ok now version c token x s valid = ground (arith, valid)

  authorize-ok :
      (others : Service → Service) (now later : ℕ) (token : Str) (a : Action) (proof : Proof)
      (s m : Service) (c : CredentialClaims) (x : Action) (y : Authorization)
      → decode_credential e token (did o) ≡ ok c
      → begin_use o e now c token a proof s ≡ (ok x, m)
      → finish_use o e later c token x (others m) ≡ (ok y, others m)
      → authorize o e others now later token a proof s ≡ (ok y, others m)
  unfolding authorize checked then_do
  authorize-ok others now later token a proof s m c x y ours began finished =
      ground (arith, ours, began, finished)

  -- An authorization is returned exactly for a credential of this service and the holder's signature over
  -- the canonical action, in the credential's tenant, with a proof that is fresh and unused, when the
  -- credential was live and covered every path, and so did the policy: before the proof was consumed, and
  -- in the state afterwards, whatever other calls have done meanwhile.
  pub authorize_exact :
      (others : Service → Service) (now later : ℕ) (token : Str) (a : Action) (proof : Proof)
      (s t : Service) (x : Authorization)
      → (authorize o e others now later token a proof s ≡ (ok x, t))
        ↔ ((m : Service) × (t ≡ others m) × IsAuthorized o e now later token a proof s m t x)
  unfolding authorization
  authorize_exact others now later token a proof s t x = (
    λ h. authorize-IsAuthorized o e others now later token a proof s t x h,
    λ (m, at, k).
        let (p, before) = k.before in
        let (q, after, version) = k.after in
        let valid : validate o (others m) later x.claims x.action ≡ ok x.policy_version =
          subst (λ u. validate o u later x.claims x.action ≡ ok x.policy_version) at
            ((validate_exact o t later x.claims x.action x.policy_version).1 (q, after, version)) in
        let began = begin_use-ok now x.claims token a x.action proof s m k.canonical (
          spend_proof-ok now p.version x.claims token x.action proof s m k.tenant k.signed
            ((validate_exact o s now x.claims x.action p.version).1 (p, before, refl)) k.spent) in
        let done =
          authorize-ok others now later token a proof s m x.claims x.action
            (authorization o e x.claims token x.action x.policy_version) k.ours began
            (finish_use-ok later x.policy_version x.claims token x.action (others m) valid) in
        done ∙ ground (arith, at, k.named, k.direct),
  )
