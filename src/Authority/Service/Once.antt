-- ===== src/Authority/Service/Once.antt =====
-- Proofs and tickets are good for one use (packages/authority/src/authority.ts).
use thaddeus.Prelude.{
  ℕ, ◌+◌, ◌≤◌, ◌≡◌, ◌≢◌, refl, sym, ap, ◌∙◌, subst, inl, inr, true, false, ◌||◌, some, Str, ltb,
  arith, Bool-cases,
}
use thaddeus.Prelude.Dict.{get, has, get-put_self}
use thaddeus.Authority.Wire.{Engine, ok, ok-inj}
use thaddeus.Authority.Proof.{Proof, Action}
use thaddeus.Authority.Token.{CredentialClaims, TicketClaims}
use thaddeus.Replay.{
  ConsumeEnd, ConsumeNonceResult, ReplayNonceDecision, consumed, replayed, at_capacity, decided,
  inconsistent, invalid_input, unfinished, consume_nonce_state,
}
use thaddeus.Replay.Once.{consumed-there, there-replayed}
use thaddeus.Authority.Service.{
  AuthorityOptions, Service, Answer, consume_proof, nonce_key, nonce_input, consumption, validate,
  put_audit, at_tickets,
}
use thaddeus.Authority.Service.Use.{
  Authorization, authorize, redeem, redeem_in_lock, read_request, ticket_key, spend_ticket,
}
use thaddeus.Authority.Service.Inversion.{checked-ok, audited-ok}
use thaddeus.Authority.Service.Calls.{Calls, Calls-Keeps}
use thaddeus.Authority.Service.Allowed.{authorize-IsAuthorized}

module _ (o : AuthorityOptions) (e : Engine) where
  was_consumed :
      (r : ConsumeNonceResult) → consumption o e r ≡ ok tt → (a : ℕ) × (k : ℕ) × (r ≡ consumed a k)
  unfolding consumption
  was_consumed (consumed a k) h = (a, k, refl)
  was_consumed (replayed a k) h = absurd (ground arith)
  was_consumed (at_capacity a k at) h = absurd (ground arith)

  -- A proof that was consumed was in its window, and the backend answered `consumed`.
  consume_proof-decided :
      (now : ℕ) (who : Str) (p : Proof) (s m : Service)
      → consume_proof o e now who p s ≡ (ok tt, m)
      → (d : ReplayNonceDecision) × (a : ℕ) × (k : ℕ) × (now ≤ p.timestamp + o.skew)
        × (consume_nonce_state s.backend.nonces (nonce_input o e now who p)
            ≡ decided m.backend.nonces d)
        × (d.result ≡ consumed a k)
  unfolding consume_proof
  consume_proof-decided now who p s m h =
      elim (Bool-cases (ltb (p.timestamp + o.skew) now || ltb (now + o.skew) p.timestamp)) [
        | inl stale ↦ absurd (ground arith)
        | inr fresh ↦
            go (consume_nonce_state s.backend.nonces (nonce_input o e now who p)) refl fresh
      ]
    where
      go :
          (r : ConsumeEnd)
          → consume_nonce_state s.backend.nonces (nonce_input o e now who p) ≡ r
          → (ltb (p.timestamp + o.skew) now || ltb (now + o.skew) p.timestamp) ≡ false
          → (d : ReplayNonceDecision) × (a : ℕ) × (k : ℕ) × (now ≤ p.timestamp + o.skew)
            × (consume_nonce_state s.backend.nonces (nonce_input o e now who p)
                ≡ decided m.backend.nonces d)
            × (d.result ≡ consumed a k)
      go invalid_input q f = absurd (ground (arith, h))
      go unfinished q f = absurd (ground (arith, h))
      go (inconsistent n) q f = absurd (ground (arith, h))
      go (decided n d) q f =
          let answer : ◌≡◌ {A = Answer (Unit {0})}
              (consumption o e d.result, record s { backend = record (s.backend) { nonces = n } })
              (ok tt, m) =
            ground (arith, h) in
          let (a, k, c) = was_consumed d.result (ap (λ z. z.0) answer) in
          (d, a, k, ground arith, q ∙ ap (λ z. decided z.1.backend.nonces d) answer, c)

  -- Its nonce is kept until the window ends.
  consume_proof-spent :
      (now : ℕ) (who : Str) (p : Proof) (s m : Service)
      → consume_proof o e now who p s ≡ (ok tt, m)
      → (now ≤ p.timestamp + o.skew)
        × (get m.backend.nonces.by_key (nonce_key o e who p.nonce) ≡ some (p.timestamp + o.skew))
  unfolding nonce_input
  consume_proof-spent now who p s m h =
      let (d, a, k, n, q, c) = consume_proof-decided now who p s m h in
      (n, consumed-there s.backend.nonces m.backend.nonces (nonce_input o e now who p) d a k q c)

  -- A nonce that is kept beyond now is not consumed.
  consume_proof-kept :
      (now : ℕ) (who : Str) (p : Proof) (s m : Service) (until : ℕ)
      → get s.backend.nonces.by_key (nonce_key o e who p.nonce) ≡ some until
      → now ≤ until
      → consume_proof o e now who p s ≢ (ok tt, m)
  unfolding nonce_input
  consume_proof-kept now who p s m until g n h =
      let (d, a, k, w, q, c) = consume_proof-decided now who p s m h in
      let (a', k', r) =
        there-replayed s.backend.nonces m.backend.nonces (nonce_input o e now who p) d until q g
          n in
      absurd (ground (arith, r, c))

  -- The same proof gives no second authorization to its holder, whatever is called in between, as long as
  -- the clock does not go back: calls that run while it was consumed, and calls from then on, are no
  -- later than the second use.
  pub authorize_once :
      (others others' : Service → Service) (b now later now' later' : ℕ) (token token' : Str)
      (a a' : Action) (proof : Proof) (s t u w : Service) (x y : Authorization)
      → ((m : Service) → Calls o e b m (others m))
      → authorize o e others now later token a proof s ≡ (ok x, t)
      → Calls o e b t u
      → b ≤ now'
      → x.claims.subject ≡ y.claims.subject
      → authorize o e others' now' later' token' a' proof u ≢ (ok y, w)
  authorize_once others others' b now later now' later' token token' a a' proof s t u w x y run h
        calls n same k =
      let (m, e1, first) = authorize-IsAuthorized o e others now later token a proof s t x h in
      let (m', e2, second) =
        authorize-IsAuthorized o e others' now' later' token' a' proof u w y k in
      let (window, there) = consume_proof-spent now x.claims.subject proof s m first.spent in
      let (window', there') = consume_proof-spent now' y.claims.subject proof u m' second.spent in
      let key = nonce_key o e x.claims.subject proof.nonce in
      let end = proof.timestamp + o.skew in
      let kept = (Calls-Keeps o e b calls).nonces key end (omega arith) (
        subst (λ z. get z.backend.nonces.by_key key ≡ some end) (sym e1)
          ((Calls-Keeps o e b (run m)).nonces key end (omega arith) there)) in
      consume_proof-kept now' y.claims.subject proof u m' end
        (subst (λ z. get u.backend.nonces.by_key (nonce_key o e z proof.nonce) ≡ some end) same
          kept)
        window' second.spent

  -- What a redemption went through.
  redeemed_lock :
      (now : ℕ) (t : TicketClaims) (c : CredentialClaims) (a : Action) (s m : Service)
      (x : Authorization)
      → redeem_in_lock o e now t c a s ≡ (ok x, m)
      → (has s.backend.tickets (ticket_key o e c.tenant t.id) ≡ false)
        × (get m.backend.tickets (ticket_key o e c.tenant t.id) ≡ some now)
  unfolding redeem_in_lock spend_ticket
  redeemed_lock now t c a s m x h =
      let (version, v, k) = checked-ok (validate o s now c a) s _ h in
      let key = ticket_key o e c.tenant t.id in
      elim (Bool-cases (o.put_fails at_tickets key s.backend)) [
        | inl fails ↦ absurd (ground arith)
        | inr written ↦ elim (Bool-cases (has s.backend.tickets key)) [
          | inl used ↦ absurd (ground arith)
          | inr fresh ↦ (fresh, ground (arith, get-put_self s.backend.tickets key now))
        ]
      ]

  redeem-parts :
      (now : ℕ) (ticket : Str) (s t : Service) (x : Authorization)
      → redeem o e now ticket s ≡ (ok x, t)
      → (r : TicketClaims × CredentialClaims × Action) × (read_request o e ticket ≡ ok r)
        × (has s.backend.tickets (ticket_key o e r.1.tenant r.0.id) ≡ false)
        × (get t.backend.tickets (ticket_key o e r.1.tenant r.0.id) ≡ some now)
  unfolding redeem put_audit
  redeem-parts now ticket s t x h =
      let (r, q, k) = checked-ok (read_request o e ticket) s _ h in
      let (m, l, same) = audited-ok o now _ _ true (redeem_in_lock o e now r.0 r.1 r.2 s) k in
      let (fresh, there) = redeemed_lock now r.0 r.1 r.2 s m x l in
      (r, q, fresh, ap (λ z. get z.backend.tickets (ticket_key o e r.1.tenant r.0.id)) same ∙ there)

  -- A ticket is redeemed once, whatever is called in between.
  pub redeem_once :
      (b now now' : ℕ) (ticket : Str) (s t u w : Service) (x y : Authorization)
      → redeem o e now ticket s ≡ (ok x, t)
      → Calls o e b t u
      → redeem o e now' ticket u ≢ (ok y, w)
  redeem_once b now now' ticket s t u w x y h calls k =
      let (r, q, fresh, there) = redeem-parts now ticket s t x h in
      let (r', q', fresh', there') = redeem-parts now' ticket u w y k in
      let same : r ≡ r' = ok-inj (sym q ∙ q') in
      let key = ticket_key o e r.1.tenant r.0.id in
      let kept = (Calls-Keeps o e b calls).tickets key now there in
      let gone =
        subst (λ z. has u.backend.tickets (ticket_key o e z.1.tenant z.0.id) ≡ false) (sym same)
          fresh' in
      absurd (ground (arith, kept, gone))
