-- ===== src/Replay/Tidy.antt =====
-- After a call the heap of packages/persist/src/replay.ts holds no expired nonce.
use thaddeus.Prelude.{
  ℕ, zero, suc, ◌+◌, ◌≤◌, ◌≡◌, refl, sym, subst, true, false, none, some, List, [], ◌∷◌, length,
  leb, leb→le, arith, Option-cases, Bool-cases, inl, inr, ◌⊎◌,
}
use thaddeus.Prelude.Dict.{put, has, keys}
use thaddeus.Replay.{
  NonceExpiration, ReplayNonceState, ConsumeNonceInput, ReplayNonceDecision, ConsumeEnd, decided,
  inconsistent, replayed, consumed, at_capacity, push_expiration, pop_expiration, clean_round,
  clean, settle, valid_input, consume_nonce_state,
}
use thaddeus.Replay.Cleanup.{pop-first, clean_ends}
use thaddeus.Replay.Heap.{IsHeap}
use thaddeus.Replay.Heap.Sift.{pop_expiration-IsHeap, push_expiration-IsHeap}
use thaddeus.Replay.Heap.Live.{IsLive, push_expiration-IsLive, first-IsLive}

-- When the loop breaks, no entry has expired.
break-IsLive :
    (now : ℕ) (s : ReplayNonceState) (cleaned : List NonceExpiration)
    → clean_round now s cleaned ≡ none
    → IsHeap s.expirations
    → IsLive now s.expirations
unfolding clean_round
break-IsLive now s cleaned h heap = go s.expirations refl
  where
    go : (xs : List NonceExpiration) → s.expirations ≡ xs → IsLive now s.expirations
    go [] q = subst (IsLive now) (sym q) (λ i v at. absurd (ground arith))
    go (first ∷ rest) q = elim (Bool-cases (leb now first.expires_at)) [
      | inl live ↦ subst (IsLive now) (sym q) (λ i v at. omega (
        arith,
        leb→le now first.expires_at live,
        first-IsLive i first rest i v (omega arith) (subst IsHeap q heap) at,
      ))
      | inr old ↦ absurd (ground (arith, pop-first first rest))
    ]

round-IsHeap :
    (now : ℕ) (s s' : ReplayNonceState) (cleaned cleaned' : List NonceExpiration)
    → clean_round now s cleaned ≡ some (s', cleaned')
    → IsHeap s.expirations
    → IsHeap s'.expirations
unfolding clean_round
round-IsHeap now s s' cleaned cleaned' h heap = go s.expirations refl
  where
    go : (xs : List NonceExpiration) → s.expirations ≡ xs → IsHeap s'.expirations
    go [] q = absurd (ground arith)
    go (first ∷ rest) q =
        let p : (pop_expiration (first ∷ rest)).0 ≡ some first = (pop-first first rest).0 in
        let e : s'.expirations ≡ (pop_expiration (first ∷ rest)).1 =
          elim (Bool-cases (leb now first.expires_at)) [
            | inl live ↦ absurd (ground arith)
            | inr old ↦ ground arith
          ] in
        subst IsHeap (sym e) (pop_expiration-IsHeap first rest (subst IsHeap q heap))

clean-IsLive :
    (fuel now : ℕ) (s s' : ReplayNonceState) (cleaned cleaned' : List NonceExpiration)
    → clean fuel now s cleaned ≡ some (s', cleaned')
    → IsHeap s.expirations
    → IsHeap s'.expirations × IsLive now s'.expirations
unfolding clean
clean-IsLive zero now s s' cleaned cleaned' h heap =
    elim (Option-cases (clean_round now s cleaned)) [
      | inl q ↦
          let e : s ≡ s' = ground arith in
          subst (λ m. IsHeap m.expirations × IsLive now m.expirations) e
            (heap, break-IsLive now s cleaned q heap)
      | inr ((m, c), q) ↦ absurd (ground arith)
    ]
clean-IsLive (suc fuel) now s s' cleaned cleaned' h heap =
    elim (Option-cases (clean_round now s cleaned)) [
      | inl q ↦
          let e : s ≡ s' = ground arith in
          subst (λ m. IsHeap m.expirations × IsLive now m.expirations) e
            (heap, break-IsLive now s cleaned q heap)
      | inr ((m, c), q) ↦
          clean-IsLive fuel now m s' c cleaned' (ground arith)
            (round-IsHeap now s m cleaned c q heap)
    ]

-- A call ends with a decision that leaves `s'`, or throws on an inconsistent index.
pub Ends : ConsumeEnd → ReplayNonceState → Type 0
Ends r s' = ((d : ReplayNonceDecision) × (r ≡ decided s' d)) ⊎ (r ≡ inconsistent s')

pushed : ReplayNonceState → ConsumeNonceInput → ReplayNonceState
pushed m i = record {
  by_key = put m.by_key i.key i.expires_at;
  expirations = push_expiration m.expirations (record { key = i.key; expires_at = i.expires_at });
}

settle-Ends :
    (m : ReplayNonceState) (cleaned : List NonceExpiration) (i : ConsumeNonceInput)
    → Ends (settle m cleaned i) m ⊎ Ends (settle m cleaned i) (pushed m i)
unfolding settle Ends pushed
settle-Ends m cleaned i = elim (Bool-cases (has m.by_key i.key)) [
  | inl y ↦ inl (
      inl (
        record {
          cleaned = cleaned;
          consumed_record = none;
          result = replayed (length (keys m.by_key)) (length cleaned);
        },
        ground arith,
      ))
  | inr fresh ↦ elim (Bool-cases (leb i.capacity (length (keys m.by_key)))) [
    | inl full ↦ go m.expirations refl fresh full
    | inr room ↦ inr (
        inl (
          record {
            cleaned = cleaned;
            consumed_record = some (record { key = i.key; expires_at = i.expires_at });
            result = consumed (length (keys (put m.by_key i.key i.expires_at))) (length cleaned);
          },
          ground arith,
        ))
  ]
]
  where
    go :
        (xs : List NonceExpiration)
        → m.expirations ≡ xs
        → has m.by_key i.key ≡ false
        → leb i.capacity (length (keys m.by_key)) ≡ true
        → Ends (settle m cleaned i) m ⊎ Ends (settle m cleaned i) (pushed m i)
    go [] q fresh full = inl (inr (ground arith))
    go (first ∷ rest) q fresh full = inl (
        inl (
          record {
            cleaned = cleaned;
            consumed_record = none;
            result = at_capacity (length (keys m.by_key)) (length cleaned) (first.expires_at + 1);
          },
          ground arith,
        ))

valid_input-le : (i : ConsumeNonceInput) → valid_input i ≡ true → i.now ≤ i.expires_at
unfolding valid_input
valid_input-le i h = ground (arith, leb→le i.now i.expires_at)

-- A call on a valid input ends, with a decision or because the index is inconsistent. When the expiries
-- were a heap, they are one afterwards, and none of them is before the time of the call: the cleanup
-- misses no expired nonce.
pub consume_nonce_state-IsLive :
    (s : ReplayNonceState) (i : ConsumeNonceInput)
    → valid_input i ≡ true
    → IsHeap s.expirations
    → (s' : ReplayNonceState) × Ends (consume_nonce_state s i) s'
      × IsHeap s'.expirations
      × IsLive i.now s'.expirations
unfolding consume_nonce_state pushed
consume_nonce_state-IsLive s i valid heap =
    elim (Option-cases (clean (length s.expirations) i.now s [])) [
      | inl q ↦ absurd (clean_ends i.now s [] q)
      | inr ((m, cleaned), q) ↦
          let (h, live) = clean-IsLive (length s.expirations) i.now s m [] cleaned q heap in
          let e : consume_nonce_state s i ≡ settle m cleaned i = ground arith in
          elim (settle-Ends m cleaned i) [
            | inl r ↦ (m, subst (λ x. Ends x m) (sym e) r, h, live)
            | inr r ↦
                let v : NonceExpiration = record { key = i.key; expires_at = i.expires_at } in
                (
                  pushed m i,
                  subst (λ x. Ends x (pushed m i)) (sym e) r,
                  push_expiration-IsHeap m.expirations v h,
                  push_expiration-IsLive i.now m.expirations v live (valid_input-le i valid),
                )
          ]
    ]
