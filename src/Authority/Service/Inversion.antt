-- ===== src/Authority/Service/Inversion.antt =====
-- What a call that went through went through (packages/authority/src/authority.ts).
use thaddeus.Prelude.{
  ℕ, ◌≡◌, refl, ap, Bool, true, false, inl, inr, Bool-cases, Option, none, some, ◌∙◌, ◌++◌, ◌∷◌,
  if◌then◌else◌, arith,
}
use thaddeus.Authority.Wire.{AuthorityErrorCode, Outcome, ok, refused, broken, ok-inj}
use thaddeus.Authority.Service.{
  AuthorityOptions, Service, Answer, AuditBase, AuditOutcome, allow, deny, at_audits, then_do,
  checked, audited, audit_id, put_audit, write_audit,
}

pub answer-inj :
    {A : Type 0} {a b : A} {s t : Service}
    → ◌≡◌ {A = Answer A} (ok a, s) (ok b, t)
    → (a ≡ b) × (s ≡ t)
answer-inj h = (ok-inj (ap (λ x. x.0) h), ap (λ x. x.1) h)

pub checked-ok :
    {A B : Type 0} {b : B} {t : Service} (m : Outcome A) (s : Service) (f : A → Answer B)
    → checked m s f ≡ (ok b, t)
    → (a : A) × (m ≡ ok a) × (f a ≡ (ok b, t))
unfolding checked
checked-ok (ok a) s f h = (a, refl, h)
checked-ok (refused c) s f h = absurd (ground arith)
checked-ok broken s f h = absurd (ground arith)

pub then_do-ok :
    {A B : Type 0} {b : B} {t : Service} (m : Answer A) (f : A → Service → Answer B)
    → then_do m f ≡ (ok b, t)
    → (a : A) × (u : Service) × (m ≡ (ok a, u)) × (f a u ≡ (ok b, t))
unfolding then_do
then_do-ok (ok a, u) f h = (a, u, refl, h)
then_do-ok (refused c, u) f h = absurd (ground arith)
then_do-ok (broken, u) f h = absurd (ground arith)

-- An audit that did not throw.
pub recorded-ok :
    {A : Type 0} {a : A} {t : Service} (o : AuthorityOptions) (now : ℕ) (base : AuditBase)
    (out : AuditOutcome) (code : Option AuthorityErrorCode) (s : Service) (r : Outcome A)
    → then_do (write_audit o now base out code s) (λ _ s'. (r, s')) ≡ (ok a, t)
    → (r ≡ ok a) × (t ≡ put_audit o now base out code s)
unfolding then_do write_audit
recorded-ok o now base out code s r h =
    elim (Bool-cases (o.put_fails at_audits (base.tenant ++ 47 ∷ audit_id o now s) s.backend)) [
      | inl fails ↦ absurd (ground arith)
      | inr written ↦ (ground arith, ground arith)
    ]

pub audited-ok :
    {A : Type 0} {a : A} {t : Service} (o : AuthorityOptions) (now : ℕ) (base : AuditBase)
    (more : A → AuditBase → AuditBase) (both : Bool) (m : Answer A)
    → audited o now base more both m ≡ (ok a, t)
    → (u : Service) × (m ≡ (ok a, u))
      × (t ≡ (if both then put_audit o now (more a base) allow none u else u))
unfolding audited
audited-ok {A} {a} {t} o now base more true (ok b, u) h =
    let (same, at) = recorded-ok o now (more b base) allow none u (ok b) h in
    (
      u,
      ap (λ x. (x, u)) same,
      at ∙ ap (λ x. put_audit o now (more x base) allow none u) (ok-inj same),
    )
audited-ok o now base more false (ok a, u) h = (u, ground arith, ground arith)
audited-ok o now base more both (refused c, u) h =
    let (wrong, at) = recorded-ok o now base deny (some c) u (refused c) h in absurd (ground arith)
audited-ok o now base more both (broken, u) h = absurd (ground arith)

-- In the mode 'deny-only' a success is not recorded.
pub audited-quiet :
    {A : Type 0} {a : A} {t : Service} (o : AuthorityOptions) (now : ℕ) (base : AuditBase)
    (more : A → AuditBase → AuditBase) (m : Answer A)
    → audited o now base more false m ≡ (ok a, t)
    → m ≡ (ok a, t)
unfolding audited
audited-quiet o now base more (ok a, u) h = h
audited-quiet o now base more (refused c, u) h =
    let (wrong, at) = recorded-ok o now base deny (some c) u (refused c) h in absurd (ground arith)
audited-quiet o now base more (broken, u) h = absurd (ground arith)
