-- ===== src/Authority/Service/Keeps.antt =====
-- What every operation of packages/authority/src/authority.ts keeps: revocations, redeemed tickets, created
-- records, live nonces, and policies but for newer ones.
pub mod Policies
pub mod Issuing
pub mod Use
pub mod History
use thaddeus.Prelude.{
  ℕ, suc, none, ◌++◌, ◌∷◌, ◌+◌, ◌≤◌, ◌<◌, ◌≡◌, refl, sym, ◌∙◌, ap, subst, ◌⊎◌, inl, inr, Bool, true,
  false, ◌||◌, Option, some, Str, if◌then◌else◌, ltb, member, arith, Bool-cases,
}
use thaddeus.Prelude.Dict.{get}
use thaddeus.Authority.Wire.{Engine, Outcome, ok, refused, broken, AuthorityErrorCode}
use thaddeus.Authority.Proof.{Proof}
use thaddeus.Authority.TenantPolicy.{TenantPolicy}
use thaddeus.Authority.ServiceHead.{ServiceHeadRecord}
use thaddeus.Replay.{
  ReplayNonceState, ConsumeNonceInput, ReplayNonceDecision, ConsumeEnd, decided, inconsistent,
  invalid_input, unfinished, consume_nonce_state,
}
use thaddeus.Replay.Once.{consume-live, consume-live_inconsistent}
use thaddeus.Authority.Service.{
  AuthorityOptions, Service, Answer, AuditBase, AuditOutcome, then_do, checked, audited, audit_id,
  put_audit, write_audit, at_audits, consume_proof, nonce_input,
}

-- Calls up to the time `bound` keep this of the state `s` in the state `t`.
pub record Keeps (bound : ℕ) (s t : Service) : Type 0 where
  pub policies :
      (tenant : Str) (p : TenantPolicy)
      → get s.policies tenant ≡ some p
      → (q : TenantPolicy) × (get t.policies tenant ≡ some q) × ((q ≡ p) ⊎ (p.version < q.version))
  pub credentials :
      (id : Str) → member id s.revoked_credentials ≡ true → member id t.revoked_credentials ≡ true
  pub dids :
      (key : Str) (at : ℕ)
      → get s.revoked_dids key ≡ some at
      → (later : ℕ) × (get t.revoked_dids key ≡ some later) × (at ≤ later)
  pub tickets :
      (key : Str) (at : ℕ)
      → get s.backend.tickets key ≡ some at
      → get t.backend.tickets key ≡ some at
  pub policy_log :
      (key : Str) (p : TenantPolicy)
      → get s.backend.policies key ≡ some p
      → get t.backend.policies key ≡ some p
  pub head_log :
      (key : Str) (r : ServiceHeadRecord)
      → get s.backend.heads key ≡ some r
      → get t.backend.heads key ≡ some r
  pub nonces :
      (key : Str) (until : ℕ)
      → bound ≤ until
      → get s.backend.nonces.by_key key ≡ some until
      → get t.backend.nonces.by_key key ≡ some until

pub Keeps-refl : (b : ℕ) (s : Service) → Keeps b s s
Keeps-refl b s = record {
  policies = λ tenant p h. (p, h, inl refl);
  credentials = λ id h. h;
  dids = λ key at h. (at, h, omega arith);
  tickets = λ key at h. h;
  policy_log = λ key p h. h;
  head_log = λ key r h. h;
  nonces = λ key until n h. h;
}

newer :
    (p q r : TenantPolicy)
    → (q ≡ p) ⊎ (p.version < q.version)
    → (r ≡ q) ⊎ (q.version < r.version)
    → (r ≡ p) ⊎ (p.version < r.version)
newer p q r (inl a) (inl b) = inl (b ∙ a)
newer p q r (inl a) (inr b) = inr (subst (λ x. x.version < r.version) a b)
newer p q r (inr a) (inl b) = inr (subst (λ x. p.version < x.version) (sym b) a)
newer p q r (inr a) (inr b) = inr (omega arith)

pub Keeps-trans : (b : ℕ) (s t u : Service) → Keeps b s t → Keeps b t u → Keeps b s u
Keeps-trans b s t u k l = record {
  policies = λ tenant p h.
      let (q, g, m) = k.policies tenant p h in
      let (r, f, n) = l.policies tenant q g in (r, f, newer p q r m n);
  credentials = λ id h. l.credentials id (k.credentials id h);
  dids = λ key at h.
      let (x, g, m) = k.dids key at h in let (y, f, n) = l.dids key x g in (y, f, omega arith);
  tickets = λ key at h. l.tickets key at (k.tickets key at h);
  policy_log = λ key p h. l.policy_log key p (k.policy_log key p h);
  head_log = λ key r h. l.head_log key r (k.head_log key r h);
  nonces = λ key until n h. l.nonces key until n (k.nonces key until n h);
}

-- Two states that agree on all of it.
pub same-Keeps :
    (b : ℕ) (s t : Service)
    → t.policies ≡ s.policies
    → t.revoked_credentials ≡ s.revoked_credentials
    → t.revoked_dids ≡ s.revoked_dids
    → t.backend.tickets ≡ s.backend.tickets
    → t.backend.policies ≡ s.backend.policies
    → t.backend.heads ≡ s.backend.heads
    → t.backend.nonces ≡ s.backend.nonces
    → Keeps b s t
same-Keeps b s t ep ec ed et el eh en = record {
  policies = λ tenant p h. (p, ap (λ d. get d tenant) ep ∙ h, inl refl);
  credentials = λ id h. ap (member id) ec ∙ h;
  dids = λ key at h. (at, ap (λ d. get d key) ed ∙ h, omega arith);
  tickets = λ key at h. ap (λ d. get d key) et ∙ h;
  policy_log = λ key p h. ap (λ d. get d key) el ∙ h;
  head_log = λ key r h. ap (λ d. get d key) eh ∙ h;
  nonces = λ key until n h. ap (λ d. get d.by_key key) en ∙ h;
}

pub checked-Keeps :
    {A B : Type 0} (b : ℕ) (m : Outcome A) (s : Service) (f : A → Answer B)
    → ((a : A) → m ≡ ok a → Keeps b s (f a).1)
    → Keeps b s (checked m s f).1
unfolding checked
checked-Keeps b (ok a) s f h = h a refl
checked-Keeps b (refused c) s f h = Keeps-refl b s
checked-Keeps b broken s f h = Keeps-refl b s

pub then_do-Keeps :
    {A B : Type 0} (b : ℕ) (s : Service) (m : Answer A) (f : A → Service → Answer B)
    → Keeps b s m.1
    → ((a : A) → m ≡ (ok a, m.1) → Keeps b m.1 (f a m.1).1)
    → Keeps b s (then_do m f).1
unfolding then_do
then_do-Keeps b s (ok a, t) f k h = Keeps-trans b s t _ k (h a refl)
then_do-Keeps b s (refused c, t) f k h = k
then_do-Keeps b s (broken, t) f k h = k

pub if-Keeps :
    {A : Type 0} (b : ℕ) (s : Service) (test : Bool) (x y : Answer A)
    → (test ≡ true → Keeps b s x.1)
    → (test ≡ false → Keeps b s y.1)
    → Keeps b s (if test then x else y).1
if-Keeps b s true x y h k = h refl
if-Keeps b s false x y h k = k refl

-- An audit, whether it throws or not, and the answer after it.
pub write_audit-Keeps :
    {A : Type 0} (o : AuthorityOptions) (b now : ℕ) (base : AuditBase) (out : AuditOutcome)
    (code : Option AuthorityErrorCode) (s : Service) (r : Outcome A)
    → Keeps b s (then_do (write_audit o now base out code s) (λ _ s'. (r, s'))).1
unfolding write_audit put_audit
write_audit-Keeps o b now base out code s r =
    then_do-Keeps b s (write_audit o now base out code s) (λ _ s'. (r, s'))
      (if-Keeps b s (o.put_fails at_audits (base.tenant ++ 47 ∷ audit_id o now s) s.backend)
        (broken, record s { audit_seq = suc s.audit_seq }) (ok tt, put_audit o now base out code s)
        (λ fails. same-Keeps b s _ refl refl refl refl refl refl refl)
        (λ written. same-Keeps b s _ refl refl refl refl refl refl refl))
      (λ u q. Keeps-refl b _)

pub audited-Keeps :
    {A : Type 0} (o : AuthorityOptions) (b now : ℕ) (base : AuditBase)
    (more : A → AuditBase → AuditBase) (both : Bool) (s : Service) (m : Answer A)
    → Keeps b s m.1
    → Keeps b s (audited o now base more both m).1
unfolding audited
audited-Keeps o b now base more true s (ok a, t) k =
    Keeps-trans b s t _ k (write_audit-Keeps o b now _ _ _ t (ok a))
audited-Keeps o b now base more false s (ok a, t) k = k
audited-Keeps o b now base more both s (refused c, t) k =
    Keeps-trans b s t _ k (write_audit-Keeps o b now _ _ _ t (refused c))
audited-Keeps o b now base more both s (broken, t) k = k

-- Only the nonces change.
pub nonces-Keeps :
    (b : ℕ) (s : Service) (n : ReplayNonceState)
    → ((key : Str) (until : ℕ)
        → b ≤ until
        → get s.backend.nonces.by_key key ≡ some until
        → get n.by_key key ≡ some until)
    → Keeps b s (record s { backend = record (s.backend) { nonces = n } })
nonces-Keeps b s n h = record {
  policies = λ tenant p g. (p, g, inl refl);
  credentials = λ id g. g;
  dids = λ key at g. (at, g, omega arith);
  tickets = λ key at g. g;
  policy_log = λ key p g. g;
  head_log = λ key r g. g;
  nonces = h;
}

-- The consumption of a proof changes the nonces alone.
pub consume_proof-only :
    (o : AuthorityOptions) (e : Engine) (now : ℕ) (who : Str) (p : Proof) (s : Service)
    → (n : ReplayNonceState) × ((consume_proof o e now who p s).1
        ≡ record s { backend = record (s.backend) { nonces = n } })
      × ((n ≡ s.backend.nonces)
          ⊎ ((i : ConsumeNonceInput) × (i.now ≡ now)
              × (((d : ReplayNonceDecision) × (consume_nonce_state s.backend.nonces i
                      ≡ decided n d))
                  ⊎ (consume_nonce_state s.backend.nonces i ≡ inconsistent n))))
unfolding consume_proof
consume_proof-only o e now who p s =
    elim (Bool-cases (ltb (p.timestamp + o.skew) now || ltb (now + o.skew) p.timestamp)) [
      | inl stale ↦ (s.backend.nonces, ground arith, inl refl)
      | inr fresh ↦ go (consume_nonce_state s.backend.nonces (nonce_input o e now who p)) refl fresh
    ]
  where
    go :
        (r : ConsumeEnd)
        → consume_nonce_state s.backend.nonces (nonce_input o e now who p) ≡ r
        → (ltb (p.timestamp + o.skew) now || ltb (now + o.skew) p.timestamp) ≡ false
        → (n : ReplayNonceState) × ((consume_proof o e now who p s).1
            ≡ record s { backend = record (s.backend) { nonces = n } })
          × ((n ≡ s.backend.nonces)
              ⊎ ((i : ConsumeNonceInput) × (i.now ≡ now)
                  × (((d : ReplayNonceDecision) × (consume_nonce_state s.backend.nonces i
                          ≡ decided n d))
                      ⊎ (consume_nonce_state s.backend.nonces i ≡ inconsistent n))))
    go invalid_input q f = (s.backend.nonces, ground arith, inl refl)
    go unfinished q f = (s.backend.nonces, ground arith, inl refl)
    go (inconsistent n) q f = (n, ground arith, inr (nonce_input o e now who p, refl, inr q))
    go (decided n d) q f = (n, ground arith, inr (nonce_input o e now who p, refl, inl (d, q)))

pub consume_proof-Keeps :
    (o : AuthorityOptions) (e : Engine) (b now : ℕ) (who : Str) (p : Proof) (s : Service)
    → now ≤ b
    → Keeps b s (consume_proof o e now who p s).1
consume_proof-Keeps o e b now who p s h =
    let (n, same, how) = consume_proof-only o e now who p s in
    subst (Keeps b s) (sym same) (
      nonces-Keeps b s n (λ key until m g. elim how [
        | inl e ↦ subst (λ x. get x.by_key key ≡ some until) (sym e) g
        | inr (i, at, inl (d, q)) ↦ consume-live s.backend.nonces n i d key until q g (omega arith)
        | inr (i, at, inr q) ↦
            consume-live_inconsistent s.backend.nonces n i key until q g (omega arith)
      ]))

-- Two tests that refuse, and what is done past them.
pub twice-Keeps :
    {A : Type 0} (b : ℕ) (s : Service) (first second : Bool) (c d : AuthorityErrorCode)
    (r : Answer A)
    → Keeps b s r.1
    → Keeps b s
        (if◌then◌else◌ {A = Answer A} first (refused c, s) (if second then (refused d, s) else r)).1
twice-Keeps b s true second c d r k = Keeps-refl b s
twice-Keeps b s false true c d r k = Keeps-refl b s
twice-Keeps b s false false c d r k = k
