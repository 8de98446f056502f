-- ===== src/Authority/Service/Keeps/Use.antt =====
-- What authorize, queue and redeem keep (packages/authority/src/authority.ts).
use thaddeus.Prelude.{ℕ, ◌≤◌, ◌≡◌, refl, inl, false, none, Str, if◌then◌else◌, arith}
use thaddeus.Prelude.Dict.{has}
use thaddeus.Authority.Wire.{Engine, Outcome, ok, refused, broken, ticket_used, ◌>>◌}
use thaddeus.Authority.Proof.{Proof, Action, canonical_action}
use thaddeus.Authority.Token.{CredentialClaims, TicketClaims}
use thaddeus.Authority.Service.{
  AuthorityOptions, Service, then_do, checked, consume_proof, validate, at_tickets,
}
use thaddeus.Authority.Service.Use.{
  Authorization, spend_ticket, redeemed, check_use, spend_proof, audited_use, begin_use, finish_use,
  queue, redeem_in_lock, redeem, ticket_key,
}
use thaddeus.Authority.Service.Keeps.{
  Keeps, Keeps-refl, write_audit-Keeps, checked-Keeps, then_do-Keeps, audited-Keeps,
  consume_proof-Keeps, if-Keeps,
}
use thaddeus.Prelude.Dict.{get-put_fresh}

module _ (o : AuthorityOptions) (e : Engine) (b : ℕ) where
  spend_proof-Keeps :
      (now : ℕ) (c : CredentialClaims) (token : Str) (x : Action) (p : Proof) (s : Service)
      → now ≤ b
      → Keeps b s (spend_proof o e now c token x p s).1
  unfolding spend_proof
  spend_proof-Keeps now c token x p s n =
      checked-Keeps b (do check_use o e c token x p; validate o s now c x) s
        (λ _. then_do (consume_proof o e now c.subject p s) (λ _ t. (ok x, t)))
        (λ v q.
          then_do-Keeps b s (consume_proof o e now c.subject p s) (λ _ t. (ok x, t))
            (consume_proof-Keeps o e b now c.subject p s n) (λ u r. Keeps-refl b _))

  audited_use-Keeps :
      (now : ℕ) (c : CredentialClaims) (token : Str) (r : Outcome Action) (p : Proof) (s : Service)
      → now ≤ b
      → Keeps b s (audited_use o e now c token r p s).1
  unfolding audited_use
  audited_use-Keeps now c token (ok x) p s n =
      audited-Keeps o b now _ _ _ s _ (spend_proof-Keeps now c token x p s n)
  audited_use-Keeps now c token (refused code) p s n =
      audited-Keeps {A = Action} o b now _ _ _ s (refused code, s) (Keeps-refl b s)
  audited_use-Keeps now c token broken p s n = Keeps-refl b s

  pub begin_use-Keeps :
      (now : ℕ) (c : CredentialClaims) (token : Str) (a : Action) (p : Proof) (s : Service)
      → now ≤ b
      → Keeps b s (begin_use o e now c token a p s).1
  unfolding begin_use
  begin_use-Keeps now c token a p s n = audited_use-Keeps now c token (canonical_action a) p s n

  pub finish_use-Keeps :
      (now : ℕ) (c : CredentialClaims) (token : Str) (x : Action) (s : Service)
      → Keeps b s (finish_use o e now c token x s).1
  unfolding finish_use
  finish_use-Keeps now c token x s =
      audited-Keeps {A = Authorization} o b now _ (λ _ z. z) false s
        (checked (validate o s now c x) s (λ version. (ok (granted version), s)))
        (checked-Keeps b (validate o s now c x) s (λ version. (ok (granted version), s))
          (λ version q. Keeps-refl b s))
    where
      granted : ℕ → Authorization
      granted version = record {
        claims = c;
        token = token;
        action = x;
        policy_version = version;
        ticket = none;
      }

  pub queue-Keeps :
      (now : ℕ) (id : Str) (a : Authorization) (s : Service) → Keeps b s (queue o e now id a s).1
  unfolding queue
  queue-Keeps now id a s =
      checked-Keeps b _ s _ (λ version q. write_audit-Keeps o b now _ _ _ s (ok _))

  spend_ticket-Keeps :
      (now : ℕ) (key : Str) (s : Service)
      → has s.backend.tickets key ≡ false
      → Keeps b s (spend_ticket o e now key s)
  unfolding spend_ticket
  spend_ticket-Keeps now key s fresh = record {
    policies = λ tenant p h. (p, h, inl refl);
    credentials = λ id h. h;
    dids = λ key at h. (at, h, omega arith);
    tickets = λ k at h. get-put_fresh s.backend.tickets key k now at fresh h;
    policy_log = λ key p h. h;
    head_log = λ key x h. h;
    nonces = λ key until n h. h;
  }

  redeem_in_lock-Keeps :
      (now : ℕ) (t : TicketClaims) (c : CredentialClaims) (x : Action) (s : Service)
      → Keeps b s (redeem_in_lock o e now t c x s).1
  unfolding redeem_in_lock
  redeem_in_lock-Keeps now t c x s =
      let key = ticket_key o e c.tenant t.id in
      checked-Keeps b (validate o s now c x) s
        (λ version.
          if o.put_fails at_tickets key s.backend
          then (broken, s)
          else if has s.backend.tickets key
          then (refused ticket_used, s)
          else (ok (redeemed o e t c x version), spend_ticket o e now key s))
        (λ version v.
          if-Keeps b s (o.put_fails at_tickets key s.backend) (broken, s) _
            (λ fails. Keeps-refl b s)
            (λ written.
              if-Keeps b s (has s.backend.tickets key) (refused ticket_used, s)
                (ok (redeemed o e t c x version), spend_ticket o e now key s)
                (λ used. Keeps-refl b s) (λ fresh. spend_ticket-Keeps now key s fresh)))

  pub redeem-Keeps : (now : ℕ) (ticket : Str) (s : Service) → Keeps b s (redeem o e now ticket s).1
  unfolding redeem
  redeem-Keeps now ticket s =
      checked-Keeps b _ s _
        (λ r q. audited-Keeps o b now _ _ _ s _ (redeem_in_lock-Keeps now r.0 r.1 r.2 s))
