-- ===== src/Replay/Once.antt =====
-- A nonce is consumed at most once while it is live (packages/persist/src/replay.ts).
use thaddeus.Prelude.{
  ℕ, ◌≤◌, ◌≡◌, refl, sym, subst, true, false, some, List, [], ◌∷◌, Str, leb, length, arith,
  Option-cases, Bool-cases, inl, inr,
}
use thaddeus.Prelude.Dict.{get, has, keys, get-put, get-put_self}
use thaddeus.Replay.{
  NonceExpiration, ReplayNonceState, ConsumeNonceInput, ReplayNonceDecision, consumed, replayed,
  decided, inconsistent, clean, settle, consume_nonce_state,
}
use thaddeus.Replay.Cleanup.{clean_ends, clean-live}

-- What a call that decides went through.
settled :
    (s s' : ReplayNonceState) (i : ConsumeNonceInput) (d : ReplayNonceDecision)
    → consume_nonce_state s i ≡ decided s' d
    → (m : ReplayNonceState) × (cleaned : List NonceExpiration) × (clean
          (length s.expirations)
          i.now
          s
          []
        ≡ some (m, cleaned))
      × (settle m cleaned i ≡ decided s' d)
unfolding consume_nonce_state
settled s s' i d h = elim (Option-cases (clean (length s.expirations) i.now s [])) [
  | inl q ↦ absurd (clean_ends i.now s [] q)
  | inr ((m, cleaned), q) ↦ (m, cleaned, q, ground arith)
]

settle-live :
    (m s' : ReplayNonceState) (cleaned : List NonceExpiration) (i : ConsumeNonceInput)
    (d : ReplayNonceDecision) (key : Str) (t : ℕ)
    → settle m cleaned i ≡ decided s' d
    → get m.by_key key ≡ some t
    → get s'.by_key key ≡ some t
unfolding settle
settle-live m s' cleaned i d key t h g = elim (Bool-cases (has m.by_key i.key)) [
  | inl y ↦ ground arith
  | inr n ↦ elim (Bool-cases (leb i.capacity (length (keys m.by_key)))) [
    | inl full ↦ ground arith
    | inr room ↦ ground (arith, get-put m.by_key i.key key i.expires_at)
  ]
]

-- A call keeps every nonce that is live at its time.
pub consume-live :
    (s s' : ReplayNonceState) (i : ConsumeNonceInput) (d : ReplayNonceDecision) (key : Str) (t : ℕ)
    → consume_nonce_state s i ≡ decided s' d
    → get s.by_key key ≡ some t
    → i.now ≤ t
    → get s'.by_key key ≡ some t
consume-live s s' i d key t h g n =
    let (m, cleaned, q, r) = settled s s' i d h in
    settle-live m s' cleaned i d key t r
      (clean-live (length s.expirations) i.now t s m [] cleaned key q g n)

settle-inconsistent :
    (m s' : ReplayNonceState) (cleaned : List NonceExpiration) (i : ConsumeNonceInput)
    → settle m cleaned i ≡ inconsistent s'
    → s' ≡ m
unfolding settle
settle-inconsistent m s' cleaned i h = elim (Bool-cases (has m.by_key i.key)) [
  | inl y ↦ absurd (ground arith)
  | inr n ↦ elim (Bool-cases (leb i.capacity (length (keys m.by_key)))) [
    | inl full ↦ go m.expirations refl n full
    | inr room ↦ absurd (ground arith)
  ]
]
  where
    go :
        (xs : List NonceExpiration)
        → m.expirations ≡ xs
        → has m.by_key i.key ≡ false
        → leb i.capacity (length (keys m.by_key)) ≡ true
        → s' ≡ m
    go [] q n full = ground arith
    go (x ∷ xs) q n full = absurd (ground arith)

-- So does a call that finds the index inconsistent.
pub consume-live_inconsistent :
    (s s' : ReplayNonceState) (i : ConsumeNonceInput) (key : Str) (t : ℕ)
    → consume_nonce_state s i ≡ inconsistent s'
    → get s.by_key key ≡ some t
    → i.now ≤ t
    → get s'.by_key key ≡ some t
unfolding consume_nonce_state
consume-live_inconsistent s s' i key t h g n =
    elim (Option-cases (clean (length s.expirations) i.now s [])) [
      | inl q ↦ absurd (clean_ends i.now s [] q)
      | inr ((m, cleaned), q) ↦
          let e : settle m cleaned i ≡ inconsistent s' = ground arith in
          subst (λ x. get x.by_key key ≡ some t) (sym (settle-inconsistent m s' cleaned i e))
            (clean-live (length s.expirations) i.now t s m [] cleaned key q g n)
    ]

-- Calls up to the time `t`, one after another.
pub data Calls (t : ℕ) (s : ReplayNonceState) : ReplayNonceState → Type 0 where
  no_call : Calls t s s
  one_more :
      {m s' : ReplayNonceState} (i : ConsumeNonceInput) (d : ReplayNonceDecision)
      → Calls t s m
      → i.now ≤ t
      → consume_nonce_state m i ≡ decided s' d
      → Calls t s s'

Calls-live :
    (t : ℕ) (s s' : ReplayNonceState) (key : Str)
    → Calls t s s'
    → get s.by_key key ≡ some t
    → get s'.by_key key ≡ some t
Calls-live t s s' key no_call g = g
Calls-live t s s' key (one_more {m = m} i d c n h) g =
    consume-live m s' i d key t h (Calls-live t s m key c g) n

settle-consumed :
    (m s' : ReplayNonceState) (cleaned : List NonceExpiration) (i : ConsumeNonceInput)
    (d : ReplayNonceDecision) (a k : ℕ)
    → settle m cleaned i ≡ decided s' d
    → d.result ≡ consumed a k
    → get s'.by_key i.key ≡ some i.expires_at
unfolding settle
settle-consumed m s' cleaned i d a k h r = elim (Bool-cases (has m.by_key i.key)) [
  | inl y ↦ absurd (ground arith)
  | inr n ↦ elim (Bool-cases (leb i.capacity (length (keys m.by_key)))) [
    | inl full ↦ absurd (ground arith)
    | inr room ↦ ground (arith, get-put_self m.by_key i.key i.expires_at)
  ]
]

settle-replayed :
    (m s' : ReplayNonceState) (cleaned : List NonceExpiration) (i : ConsumeNonceInput)
    (d : ReplayNonceDecision) (t : ℕ)
    → settle m cleaned i ≡ decided s' d
    → get m.by_key i.key ≡ some t
    → (a : ℕ) × (k : ℕ) × (d.result ≡ replayed a k)
unfolding settle
settle-replayed m s' cleaned i d t h g = (length (keys m.by_key), length cleaned, ground arith)

-- What a call consumed is there afterwards.
pub consumed-there :
    (s s' : ReplayNonceState) (i : ConsumeNonceInput) (d : ReplayNonceDecision) (a k : ℕ)
    → consume_nonce_state s i ≡ decided s' d
    → d.result ≡ consumed a k
    → get s'.by_key i.key ≡ some i.expires_at
consumed-there s s' i d a k h r =
    let (m, c, q, set) = settled s s' i d h in settle-consumed m s' c i d a k set r

-- What is there and live is replayed.
pub there-replayed :
    (s s' : ReplayNonceState) (i : ConsumeNonceInput) (d : ReplayNonceDecision) (t : ℕ)
    → consume_nonce_state s i ≡ decided s' d
    → get s.by_key i.key ≡ some t
    → i.now ≤ t
    → (active : ℕ) × (cleaned : ℕ) × (d.result ≡ replayed active cleaned)
there-replayed s s' i d t h g n =
    let (m, c, q, set) = settled s s' i d h in
    settle-replayed m s' c i d t set
      (clean-live (length s.expirations) i.now t s m [] c i.key q g n)

-- A nonce that was consumed is not consumed again before it expires: whatever calls come in between,
-- none of them after its expiry, a call with the same key that decides by then decides `replayed`.
pub consumed_once :
    (s s1 s2 s3 : ReplayNonceState) (i j : ConsumeNonceInput) (d e : ReplayNonceDecision) (a k : ℕ)
    → consume_nonce_state s i ≡ decided s1 d
    → d.result ≡ consumed a k
    → Calls i.expires_at s1 s2
    → consume_nonce_state s2 j ≡ decided s3 e
    → j.key ≡ i.key
    → j.now ≤ i.expires_at
    → (active : ℕ) × (cleaned : ℕ) × (e.result ≡ replayed active cleaned)
consumed_once s s1 s2 s3 i j d e a k h r calls again same n =
    let there = Calls-live i.expires_at s1 s2 i.key calls (consumed-there s s1 i d a k h r) in
    there-replayed s2 s3 j e i.expires_at again
      (subst (λ key. get s2.by_key key ≡ some i.expires_at) (sym same) there) n
