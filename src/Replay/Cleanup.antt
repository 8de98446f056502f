-- ===== src/Replay/Cleanup.antt =====
-- The cleanup loop of packages/persist/src/replay.ts ends, and removes no nonce that is live.
use thaddeus.Prelude.{
  ℕ, zero, suc, ◌+◌, ◌*◌, ◌≤◌, ◌≡◌, ◌≢◌, refl, ap, false, none, some, List, [], ◌∷◌, Str, leb,
  nat_eq, length, get_elem?, get_last?, take, arith, Option-cases, Bool-cases, inl, inr, ◌⊎◌,
}
use thaddeus.Prelude.Dict.{get, remove, get-remove}
use thaddeus.Replay.{
  NonceExpiration, ReplayNonceState, set_at, sift_down, smaller_child, pop_expiration, clean_round,
  clean,
}

pub length-set_at :
    (xs : List NonceExpiration) (i : ℕ) (v : NonceExpiration) → length (set_at xs i v) ≡ length xs
unfolding set_at
length-set_at [] i v = refl
length-set_at (x ∷ xs) zero v = refl
length-set_at (x ∷ xs) (suc i) v = omega (arith, length-set_at xs i v)

length-sift_down :
    (fuel : ℕ) (heap : List NonceExpiration) (i : ℕ) (v : NonceExpiration)
    → length (sift_down fuel heap i v) ≡ length heap
unfolding sift_down
length-sift_down zero heap i v = length-set_at heap i v
length-sift_down (suc fuel) heap i v = elim (Option-cases (get_elem? heap (i * 2 + 1))) [
  | inl e ↦ ground (arith, length-set_at heap i v)
  | inr (l, e) ↦ elim (Option-cases (get_elem? heap (smaller_child heap (i * 2 + 1) l))) [
    | inl f ↦ ground (arith, length-set_at heap i v)
    | inr (c, f) ↦ ground (
      arith,
      length-set_at heap i v,
      length-set_at heap i c,
      length-sift_down fuel (set_at heap i c) (smaller_child heap (i * 2 + 1) l) v,
    )
  ]
]

pub length-take : (n : ℕ) (xs : List NonceExpiration) → n ≤ length xs → length (take n xs) ≡ n
length-take zero xs h = refl
length-take (suc n) [] h = omega (arith, h)
length-take (suc n) (x ∷ xs) h = omega (arith, h, length-take n xs)

-- A pop gives the first entry, and the heap is shorter by one.
pub pop-first :
    (first : NonceExpiration) (rest : List NonceExpiration)
    → ((pop_expiration (first ∷ rest)).0 ≡ some first)
      × (length (pop_expiration (first ∷ rest)).1 ≡ length rest)
unfolding pop_expiration
pop-first first rest = elim (Option-cases (get_last? (first ∷ rest))) [
  | inl e ↦ (ground arith, ground arith)
  | inr (last, e) ↦
      let heap = take (length rest) (first ∷ rest) in
      let n : length heap ≡ length rest = length-take (length rest) (first ∷ rest) (omega arith) in
      (ground arith, ground (arith, n, length-sift_down (length heap) heap 0 last))
]

-- A round pops an expired entry and takes it out of the map at most.
clean_round-cases :
    (now : ℕ) (s s' : ReplayNonceState) (cleaned cleaned' : List NonceExpiration)
    → clean_round now s cleaned ≡ some (s', cleaned')
    → (length s.expirations ≡ suc (length s'.expirations))
      × ((s'.by_key ≡ s.by_key)
          ⊎ ((e : NonceExpiration) × (s'.by_key ≡ remove s.by_key e.key)
              × (get s.by_key e.key ≡ some e.expires_at)
              × (leb now e.expires_at ≡ false)))
unfolding clean_round
clean_round-cases now s s' cleaned cleaned' h = go s.expirations refl
  where
    go :
        (heap : List NonceExpiration)
        → s.expirations ≡ heap
        → (length s.expirations ≡ suc (length s'.expirations))
          × ((s'.by_key ≡ s.by_key)
              ⊎ ((e : NonceExpiration) × (s'.by_key ≡ remove s.by_key e.key)
                  × (get s.by_key e.key ≡ some e.expires_at)
                  × (leb now e.expires_at ≡ false)))
    go [] q = absurd (ground arith)
    go (first ∷ rest) q =
        let (p, n) = pop-first first rest in
        elim (Bool-cases (leb now first.expires_at)) [
          | inl live ↦ absurd (ground arith)
          | inr old ↦ elim (Option-cases (get s.by_key first.key)) [
            | inl absent ↦ (ground arith, inl (ground arith))
            | inr (t, there) ↦ elim (Bool-cases (nat_eq t first.expires_at)) [
              | inl same ↦ (ground arith, inr (first, ground arith, ground arith, old))
              | inr other ↦ (ground arith, inl (ground arith))
            ]
          ]
        ]

clean-ends :
    (fuel now : ℕ) (s : ReplayNonceState) (cleaned : List NonceExpiration)
    → length s.expirations ≤ fuel
    → clean fuel now s cleaned ≢ none
unfolding clean
clean-ends zero now s cleaned h e = elim (Option-cases (clean_round now s cleaned)) [
  | inl q ↦ ground arith
  | inr ((s', c'), q) ↦ absurd (omega (arith, h, (clean_round-cases now s s' cleaned c' q).0))
]
clean-ends (suc fuel) now s cleaned h e = elim (Option-cases (clean_round now s cleaned)) [
  | inl q ↦ ground arith
  | inr ((s', c'), q) ↦
      clean-ends fuel now s' c' (omega (arith, h, (clean_round-cases now s s' cleaned c' q).0))
        (ground arith)
]

-- The rounds that the call allows are enough: the cleanup ends.
pub clean_ends :
    (now : ℕ) (s : ReplayNonceState) (cleaned : List NonceExpiration)
    → clean (length s.expirations) now s cleaned ≢ none
clean_ends now s cleaned = clean-ends (length s.expirations) now s cleaned (omega arith)

round-live :
    (now t : ℕ) (s s' : ReplayNonceState) (cleaned cleaned' : List NonceExpiration) (key : Str)
    → clean_round now s cleaned ≡ some (s', cleaned')
    → get s.by_key key ≡ some t
    → now ≤ t
    → get s'.by_key key ≡ some t
round-live now t s s' cleaned cleaned' key h g n =
    elim (clean_round-cases now s s' cleaned cleaned' h).1 [
      | inl e ↦ cc
      | inr (x, e, f, old) ↦ ground (arith, get-remove s.by_key x.key key, ap (λ m. get m key) e)
    ]

-- A nonce that has not expired stays in the map.
pub clean-live :
    (fuel now t : ℕ) (s s' : ReplayNonceState) (cleaned cleaned' : List NonceExpiration) (key : Str)
    → clean fuel now s cleaned ≡ some (s', cleaned')
    → get s.by_key key ≡ some t
    → now ≤ t
    → get s'.by_key key ≡ some t
unfolding clean
clean-live zero now t s s' cleaned cleaned' key h g n =
    elim (Option-cases (clean_round now s cleaned)) [
      | inl q ↦ ground arith
      | inr ((m, c), q) ↦ absurd (ground arith)
    ]
clean-live (suc fuel) now t s s' cleaned cleaned' key h g n =
    elim (Option-cases (clean_round now s cleaned)) [
      | inl q ↦ ground arith
      | inr ((m, c), q) ↦
          clean-live fuel now t m s' c cleaned' key (ground arith)
            (round-live now t s m cleaned c key q g n) n
    ]
