-- ===== src/Authority/Service/Opening.antt =====
-- What an authority may be made with (the constructor in packages/authority/src/authority.ts). That the
-- backend has the capabilities it needs is given by its type.
use thaddeus.Prelude.{
  ℕ, ◌≤◌, ◌≡◌, ap, subst, Bool, true, false, ◌&&◌, Option, none, some, Str, leb, arith, inl, inr,
  Option-cases,
}
use thaddeus.Authority.Wire.{
  Engine, Outcome, ok, broken, ◌>>=◌, ◌>>◌, assure, malformed, is_did, assured, bound, ok-inj,
}
use thaddeus.Authority.Proof.{PrincipalKind, human, agent, worker}
use thaddeus.Authority.Token.{ServiceSigner}
use thaddeus.Replay.{max_replay_nonce_capacity}
use thaddeus.Authority.Service.{
  AuthorityOptions, Table, Backend, TtlRule, default_ttl, proof_skew_ms,
}

-- A TypeError or a RangeError.
abbrev require : Bool → Outcome (Unit {0})
require true = ok tt
require false = broken

unfoldable pub rule_fits : PrincipalKind → TtlRule → Bool
rule_fits kind rule =
    leb 1 rule.default_ms
    && leb rule.default_ms rule.max_ms
    && leb rule.max_ms (default_ttl kind).max_ms

-- The host's rules in place of the defaults.
unfoldable pub resolve_rule : (PrincipalKind → Option TtlRule) → PrincipalKind → Outcome TtlRule
unfolding rule_fits
resolve_rule host kind = elim (host kind) [
  | none ↦ ok (default_ttl kind)
  | some rule ↦ (do require (rule_fits kind rule); ok rule)
]

choose : TtlRule → TtlRule → TtlRule → PrincipalKind → TtlRule
choose h a w human = h
choose h a w agent = a
choose h a w worker = w

module _ (e : Engine) where
  unfoldable pub make_options :
      ServiceSigner
      → (PrincipalKind → Option TtlRule)
      → (skew capacity : Option ℕ) → Str
      → (Table → Str → Backend → Bool)
      → Outcome AuthorityOptions
  unfolding resolve_rule choose
  make_options signer host skew capacity instance_id put_fails = do
    assure (is_did e signer.did) malformed
    h ← resolve_rule host human
    a ← resolve_rule host agent
    w ← resolve_rule host worker
    let skew_ms = elim skew as (λ _. ℕ) [ none ↦ proof_skew_ms | some x ↦ x ]
    require (leb 1 skew_ms && leb skew_ms proof_skew_ms)
    let room = elim capacity as (λ _. ℕ) [ none ↦ 100000 | some x ↦ x ]
    require (leb 1 room && leb room max_replay_nonce_capacity)
    ok (record {
      signer = signer;
      ttl = choose h a w;
      skew = skew_ms;
      capacity = room;
      instance_id = instance_id;
      put_fails = put_fails;
    })

  resolve_rule-le :
      (host : PrincipalKind → Option TtlRule) (kind : PrincipalKind) (rule : TtlRule)
      → resolve_rule host kind ≡ ok rule
      → rule.max_ms ≤ (default_ttl kind).max_ms
  unfolding resolve_rule
  resolve_rule-le host kind rule h = elim (Option-cases (host kind)) [
    | inl e ↦ ground arith
    | inr (r, e) ↦ ground arith
  ]

  required :
      {A : Type 0} {a : A} (test : Bool) (k : Outcome A) → (require test >> k) ≡ ok a → k ≡ ok a
  required true k h = h
  required false k h = absurd (ground arith)

  -- A host can only lower the ceilings.
  pub make_options-ttl :
      (signer : ServiceSigner) (host : PrincipalKind → Option TtlRule) (skew capacity : Option ℕ)
      (instance_id : Str) (put_fails : Table → Str → Backend → Bool) (o : AuthorityOptions)
      (kind : PrincipalKind)
      → make_options signer host skew capacity instance_id put_fails ≡ ok o
      → (o.ttl kind).max_ms ≤ (default_ttl kind).max_ms
  unfolding make_options choose
  make_options-ttl signer host skew capacity instance_id put_fails o kind h =
      let (d, k0) = assured (is_did e signer.did) malformed _ h in
      let (x, q, k1) = bound (resolve_rule host human) _ k0 in
      let (y, r, k2) = bound (resolve_rule host agent) _ k1 in
      let (z, s, k3) = bound (resolve_rule host worker) _ k2 in
      let same = ok-inj (required _ _ (required _ _ k3)) in
      subst (λ t. (t kind).max_ms ≤ (default_ttl kind).max_ms) (ap (λ w. w.ttl) same)
        (each x y z q r s kind)
    where
      each :
          (x y z : TtlRule)
          → resolve_rule host human ≡ ok x
          → resolve_rule host agent ≡ ok y
          → resolve_rule host worker ≡ ok z
          → (kind : PrincipalKind) → (choose x y z kind).max_ms ≤ (default_ttl kind).max_ms
      each x y z q r s human = resolve_rule-le host human x q
      each x y z q r s agent = resolve_rule-le host agent y r
      each x y z q r s worker = resolve_rule-le host worker z s
