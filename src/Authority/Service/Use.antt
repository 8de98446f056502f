-- ===== src/Authority/Service/Use.antt =====
-- packages/authority/src/authority.ts: `authorize`, `check`, `queue` and `redeem`. `authorize` holds no
-- lock: other calls may run while its proof is consumed, so it is two functions, which `authorize` joins.
use thaddeus.Prelude.{
  ℕ, Bool, true, false, Option, none, some, Str, ◌∷◌, ◌++◌, ◌==◌, if◌then◌else◌, member,
}
use thaddeus.Prelude.Dict.{put, has}
use thaddeus.Authority.{all_scopes}
use thaddeus.Authority.Wire.{
  Engine, Outcome, ok, refused, broken, ◌>>=◌, ◌>>◌, assure, malformed, wrong_tenant, ticket_used,
}
use thaddeus.Authority.Proof.{
  Proof, Action, canonical_action, action_domain, action_body, check_proof_signature,
}
use thaddeus.Authority.Token.{
  CredentialClaims, TicketClaims, decode_credential, encode_ticket, decode_ticket,
}
use thaddeus.Authority.Service.{
  AuthorityOptions, Service, Answer, authorized, ticket_queue, ticket_redeem, allow, base_of,
  audited, write_audit, at_tickets, checked, then_do, consume_proof, did, validate, reaches,
}

-- An authorization with the state behind it: its public fields are copies of these.
pub record Authorization : Type 0 where
  pub claims : CredentialClaims
  pub token : Str
  pub action : Action
  pub policy_version : ℕ
  pub ticket : Option Str

-- `allows`
unfoldable pub allows : Authorization → Str → Bool
unfolding reaches
allows a path = reaches a.action.paths path

module _ (o : AuthorityOptions) (e : Engine) where
  -- The canonical action and the holder's signature over it.
  unfoldable pub check_use : CredentialClaims → Str → Action → Proof → Outcome (Unit {0})
  check_use c token a proof = do
    assure (a.tenant == c.tenant) wrong_tenant
    check_proof_signature e c.subject action_domain (action_body e token a) proof

  -- The work up to the consumption of the proof, for a canonical action.
  unfoldable pub spend_proof : ℕ → CredentialClaims → Str → Action → Proof → Service → Answer Action
  unfolding check_use
  spend_proof now c token x proof s =
      checked (do check_use c token x proof; validate o s now c x) s
        (λ _. then_do (consume_proof o e now c.subject proof s) (λ _ s'. (ok x, s')))

  -- The same with its audit, for what `canonicalAction` gives: the record of a malformed action has no
  -- scope, repository and paths.
  unfoldable pub audited_use :
      ℕ → CredentialClaims → Str → Outcome Action → Proof → Service → Answer Action
  audited_use now c token (ok x) proof s =
      audited o now (base_of c authorized (some x)) (λ _ b. b) false
        (spend_proof now c token x proof s)
  audited_use now c token (refused code) proof s =
      audited o now (base_of c authorized none) (λ _ b. b) false (refused code, s)
  audited_use now c token broken proof s = (broken, s)

  -- Up to the consumption of the proof, with the canonical action.
  unfoldable pub begin_use : ℕ → CredentialClaims → Str → Action → Proof → Service → Answer Action
  begin_use now c token a proof s = audited_use now c token (canonical_action a) proof s

  -- The second validation: the policy may have changed while the proof was consumed.
  unfoldable pub finish_use : ℕ → CredentialClaims → Str → Action → Service → Answer Authorization
  finish_use now c token x s =
      audited o now (base_of c authorized (some x)) (λ _ b. b) false
        (checked (validate o s now c x) s (λ version. (
          ok (record {
            claims = c;
            token = token;
            action = x;
            policy_version = version;
            ticket = none;
          }),
          s,
        )))

  -- `others` is what other calls do to the state in between.
  unfoldable pub authorize :
      (others : Service → Service) (now later : ℕ) (token : Str)
      → Action
      → Proof
      → Service
      → Answer Authorization
  unfolding begin_use finish_use
  authorize others now later token a proof s = checked (decode_credential e token (did o)) s (λ c.
      then_do (begin_use now c token a proof s) (λ x s'. finish_use later c token x (others s')))

  -- `check`
  unfoldable pub check : ℕ → Authorization → Service → Outcome ℕ
  check now a s = validate o s now a.claims a.action

  -- `queue`; `id` is random. The ticket is signed before the record is written.
  unfoldable pub queue : ℕ → Str → Authorization → Service → Answer Str
  unfolding check
  queue now id a s = checked (check now a s) s (λ _.
      let ticket =
        encode_ticket e
          (record {
            id = id;
            credential = a.token;
            scope = a.action.scope;
            repo = a.action.repo;
            paths = a.action.paths;
            queued_at = now;
          })
          o.signer in
      then_do (write_audit o now (base_of a.claims ticket_queue (some a.action)) allow none s)
        (λ _ s'. (ok ticket, s')))

  unfoldable pub ticket_key : Str → Str → Str
  ticket_key tenant id = tenant ++ 47 ∷ id

  unfoldable pub spend_ticket : ℕ → Str → Service → Service
  spend_ticket now key s = record s {
    backend = record (s.backend) { tickets = put s.backend.tickets key now };
  }

  abbrev pub redeemed : TicketClaims → CredentialClaims → Action → ℕ → Authorization
  redeemed t c x version = record {
    claims = c;
    token = t.credential;
    action = x;
    policy_version = version;
    ticket = some t.id;
  }

  -- The work in the lock.
  unfoldable pub redeem_in_lock :
      ℕ → TicketClaims → CredentialClaims → Action → Service → Answer Authorization
  unfolding ticket_key
  redeem_in_lock now t c x s = checked (validate o s now c x) s (λ version.
      if o.put_fails at_tickets (ticket_key c.tenant t.id) s.backend
      then (broken, s)
      else if has s.backend.tickets (ticket_key c.tenant t.id)
      then (refused ticket_used, s)
      else (ok (redeemed t c x version), spend_ticket now (ticket_key c.tenant t.id) s))

  -- What a ticket asks for.
  unfoldable pub read_request : Str → Outcome (TicketClaims × CredentialClaims × Action)
  read_request ticket = do
    t ← decode_ticket e ticket (did o)
    c ← decode_credential e t.credential (did o)
    assure (member t.scope all_scopes) malformed
    x ← canonical_action (record {
      scope = t.scope;
      tenant = c.tenant;
      repo = t.repo;
      paths = t.paths;
      digest = none;
    })
    ok (t, c, x)

  unfoldable pub redeem : ℕ → Str → Service → Answer Authorization
  unfolding redeem_in_lock read_request
  redeem now ticket s = checked (read_request ticket) s (λ r.
      audited o now (base_of r.1 ticket_redeem (some r.2)) (λ _ b. b) true
        (redeem_in_lock now r.0 r.1 r.2 s))
