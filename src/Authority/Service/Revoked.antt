-- ===== src/Authority/Service/Revoked.antt =====
-- A revocation is for good (packages/authority/src/authority.ts).
use thaddeus.Prelude.{
  ℕ, ◌≤◌, ◌≡◌, ◌≢◌, refl, sym, ap, ◌∙◌, subst, ◌⊎◌, inl, inr, Bool, true, false, ◌&&◌, not, Option,
  none, some, Str, ◌==◌, if◌then◌else◌, leb, member, arith, Bool-cases, member-here,
}
use thaddeus.Prelude.Dict.{get, get-put_self}
use thaddeus.Authority.Wire.{
  AuthorityErrorCode, malformed, wrong_tenant, not_an_admin, is_did, Engine, ok, refused, bound,
  ok-inj,
}
use thaddeus.Authority.Proof.{Proof, Action, RevokeTarget, RevokeRequest, credential, did}
use thaddeus.Authority.Token.{CredentialClaims, decode_credential}
use thaddeus.Authority.Service as Service
use thaddeus.Authority.Service.{
  AuthorityOptions, Service, Answer, validate, is_revoked, revoked_since, did_key,
  note_did_revocation, put_audit, Revocation, at_revocations, consume_proof,
}
use thaddeus.Authority.Service.Issuing.{
  put_revocation, revoke_credential, revoke_did, revoke_claims, revoke_holder, revoke_target,
  revoke_in_lock, revoke, check_revoke, target_claims,
}
use thaddeus.Authority.Service.Inversion.{checked-ok, then_do-ok, audited-ok}
use thaddeus.Authority.Service.Keeps.{Keeps}
use thaddeus.Authority.Service.Calls.{Calls, Calls-Keeps}
use thaddeus.Authority.Service.Allowed.{validate_exact}

-- A request made at the time `now` is about a credential: it names the credential, or a DID to which or
-- through which the credential was issued by then.
pub data Targets (o : AuthorityOptions) (e : Engine) (now : ℕ) (r : RevokeRequest)
    (c : CredentialClaims) : Type 0 where
  itself :
      (token : Str)
      → r.target ≡ credential token
      → decode_credential e token (Service.did o) ≡ ok c
      → Targets o e now r c
  holder :
      (who : Str)
      → r.target ≡ did who
      → (c.subject ≡ who) ⊎ (c.principal ≡ who)
      → c.tenant ≡ r.tenant
      → c.issued_at ≤ now
      → Targets o e now r c

-- What a state says of a revoked credential or DID.
Noted : Service → RevokeRequest → ℕ → Option CredentialClaims → Type 0
Noted s r now (some c) = member c.id s.revoked_credentials ≡ true
Noted s r now none =
    (who : Str) × (at : ℕ) × (r.target ≡ did who)
    × (get s.revoked_dids (did_key r.tenant who) ≡ some at)
    × (now ≤ at)

passed_both :
    {A : Type 0} (first second : Bool) (c d : AuthorityErrorCode) (a : A) (s u : Service)
    (r : Answer A)
    → if◌then◌else◌ {A = Answer A} first (refused c, s) (if second then (refused d, s) else r)
      ≡ (ok a, u)
    → r ≡ (ok a, u)
passed_both true second c d a s u r h = absurd (ground arith)
passed_both false true c d a s u r h = absurd (ground arith)
passed_both false false c d a s u r h = h

module _ (o : AuthorityOptions) (e : Engine) where
  -- A revocation that was written, with what was noted before.
  put_revocation-ok :
      (key : Str) (x : Revocation) (s t : Service)
      → put_revocation o e key x s ≡ (ok tt, t)
      → (t.revoked_credentials ≡ s.revoked_credentials) × (t.revoked_dids ≡ s.revoked_dids)
  unfolding put_revocation
  put_revocation-ok key x s t h = elim (Bool-cases (o.put_fails at_revocations key s.backend)) [
    | inl fails ↦ absurd (ground arith)
    | inr written ↦ (ground arith, ground arith)
  ]

  revoke_target-Noted :
      (now : ℕ) (id : Str) (r : RevokeRequest) (is_admin holds : Bool) (target : RevokeTarget)
      (claims : Option CredentialClaims) (s t : Service)
      → r.target ≡ target
      → revoke_target o e now id r is_admin holds target claims s ≡ (ok tt, t)
      → Noted t r now claims
  unfolding revoke_target revoke_claims revoke_holder revoke_credential revoke_did
      note_did_revocation Noted
  revoke_target-Noted now id r is_admin holds target (some c) s t q h =
      let same =
        passed_both {A = Unit {0}} (not (c.tenant == r.tenant)) (not is_admin && not holds)
          wrong_tenant not_an_admin tt s t (revoke_credential o e now r c s) h in
      let (listed, _) = put_revocation-ok _ _ _ t same in
      subst (λ x. member c.id x ≡ true) (sym listed) (member-here c.id s.revoked_credentials)
  revoke_target-Noted now id r is_admin holds (did who) none s t q h =
      let same =
        passed_both {A = Unit {0}} (not (is_did e who)) (not is_admin && not (r.actor == who))
          malformed not_an_admin tt s t (revoke_did o e now id r who s) h in
      let (_, since) = put_revocation-ok _ _ _ t same in
      (
        who,
        later,
        q,
        ap (λ x. get x (did_key r.tenant who)) since
            ∙ get-put_self s.revoked_dids (did_key r.tenant who) later,
        ground arith,
      )
    where
      old : ℕ
      old = elim (get s.revoked_dids (did_key r.tenant who)) as (λ _. ℕ) [ none ↦ 0 | some t ↦ t ]

      later : ℕ
      later = if leb now old then old else now
  revoke_target-Noted now id r is_admin holds (credential token) none s t q h =
      absurd (ground arith)

  revoke-Noted :
      (now : ℕ) (id : Str) (r : RevokeRequest) (proof : Proof) (s t : Service)
      → revoke o e now id r proof s ≡ (ok tt, t)
      → (claims : Option CredentialClaims) × (target_claims o e r.target ≡ ok claims)
        × Noted t r now claims
  unfolding revoke revoke_in_lock put_audit
  revoke-Noted now id r proof s t h =
      let (claims, q, k) = checked-ok _ s _ h in
      let (p, q', l) = checked-ok _ s _ k in
      let (u, l', same) = audited-ok o now _ _ true _ l in
      let (x, v, spent, done) = then_do-ok (consume_proof o e now r.actor proof s) _ l' in
      let (y, signed, named) = bound (check_revoke o e r proof) _ q in
      (
        claims,
        named,
        moved u claims (ap (λ z. z.revoked_credentials) same) (ap (λ z. z.revoked_dids) same)
            (revoke_target-Noted now id r _ _ r.target claims v u refl done),
      )
    where
      moved :
          (u : Service) (claims : Option CredentialClaims)
          → t.revoked_credentials ≡ u.revoked_credentials
          → t.revoked_dids ≡ u.revoked_dids
          → Noted u r now claims
          → Noted t r now claims
      moved u (some c) e1 e2 n = unfold Noted in ap (member c.id) e1 ∙ n
      moved u none e1 e2 n =
          unfold Noted in
          let (who, at, q, g, m) = n in
          (who, at, q, ap (λ d. get d (did_key r.tenant who)) e2 ∙ g, m)

  -- What is noted stays so.
  Noted-Keeps :
      (b : ℕ) (s t : Service) (r : RevokeRequest) (now : ℕ) (claims : Option CredentialClaims)
      → Keeps b s t
      → Noted s r now claims
      → Noted t r now claims
  unfolding Noted
  Noted-Keeps b s t r now (some c) k n = k.credentials c.id n
  Noted-Keeps b s t r now none k (who, at, q, g, m) =
      let (later, g', m') = k.dids (did_key r.tenant who) at g in (who, later, q, g', omega arith)

  listed_is_revoked :
      (s : Service) (c : CredentialClaims)
      → member c.id s.revoked_credentials ≡ true
      → is_revoked s c ≡ true
  unfolding is_revoked
  listed_is_revoked s c h = ground arith

  since_is_revoked :
      (s : Service) (c : CredentialClaims) (who : Str) (at : ℕ)
      → get s.revoked_dids (did_key c.tenant who) ≡ some at
      → c.issued_at ≤ at
      → revoked_since s c who ≡ true
  unfolding revoked_since
  since_is_revoked s c who at g n = ground arith

  either_is_revoked :
      (s : Service) (c : CredentialClaims)
      → (revoked_since s c c.subject ≡ true) ⊎ (revoked_since s c c.principal ≡ true)
      → is_revoked s c ≡ true
  unfolding is_revoked
  either_is_revoked s c (inl h) = ground arith
  either_is_revoked s c (inr h) = ground arith

  Noted-is_revoked :
      (s : Service) (r : RevokeRequest) (now : ℕ) (claims : Option CredentialClaims)
      (c : CredentialClaims)
      → target_claims o e r.target ≡ ok claims
      → Targets o e now r c
      → Noted s r now claims
      → is_revoked s c ≡ true
  unfolding Noted target_claims
  Noted-is_revoked s r now claims c h (itself token q d) n = listed_is_revoked s c (
      subst (λ x. Noted s r now x)
        (sym (ok-inj (sym (named token d) ∙ ap (target_claims o e) (sym q) ∙ h))) n)
    where
      named :
          (token : Str)
          → decode_credential e token (Service.did o) ≡ ok c
          → target_claims o e (credential token) ≡ ok (some c)
      named token d = ground arith
  Noted-is_revoked s r now none c h (holder who q whose same n) (who', at, q', g, m) =
      either_is_revoked s c (elim whose [
        | inl sub ↦ inl (since_is_revoked s c c.subject at (at_holder c.subject sub) (omega arith))
        | inr prin ↦
            inr (since_is_revoked s c c.principal at (at_holder c.principal prin) (omega arith))
      ])
    where
      at_holder : (x : Str) → x ≡ who → get s.revoked_dids (did_key c.tenant x) ≡ some at
      at_holder x i = ground (arith, q, q', g, same, i)
  Noted-is_revoked s r now (some y) c h (holder who q whose same n) m =
      let impossible = sym (ap (target_claims o e) q) ∙ h in absurd (ground arith)

  -- A credential that a revocation is about is validated no more: not after any calls, by whomever, in any
  -- order, at any time, for any action. (`#validate` is what authorize, check, queue, redeem and advance
  -- run.)
  pub revoke_is_final :
      (b now : ℕ) (id : Str) (r : RevokeRequest) (proof : Proof) (s t u : Service)
      (c : CredentialClaims) (later : ℕ) (a : Action) (version : ℕ)
      → revoke o e now id r proof s ≡ (ok tt, t)
      → Targets o e now r c
      → Calls o e b t u
      → validate o u later c a ≢ ok version
  revoke_is_final b now id r proof s t u c later a version h target calls v =
      let (claims, named, noted) = revoke-Noted now id r proof s t h in
      let dead =
        Noted-is_revoked u r now claims c named target
          (Noted-Keeps b t u r now claims (Calls-Keeps o e b calls) noted) in
      let (p, k, same) = (validate_exact o u later c a version).0 v in
      absurd (ground (arith, k.unrevoked))
