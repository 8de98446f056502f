-- ===== src/Replay/Heap/Live.antt =====
-- What has not expired in the heap of packages/persist/src/replay.ts, and that its first entry expires
-- first.
use thaddeus.Prelude.{
  ℕ, zero, suc, ◌/◌, ◌≤◌, ◌≡◌, refl, sym, subst, some, List, [], ◌∷◌, ◌++◌, length, get_elem?,
  arith, Option-cases, Bool-cases, inl, inr,
}
use thaddeus.Replay.{NonceExpiration, set_at, earlier, sift_up, push_expiration}
use thaddeus.Replay.Heap.{IsHeap}

-- Every entry expires at `now` or later.
abbrev pub IsLive : ℕ → List NonceExpiration → Type 0
IsLive now heap = (i : ℕ) (v : NonceExpiration) → get_elem? heap i ≡ some v → now ≤ v.expires_at

set_at-IsLive :
    (now : ℕ) (xs : List NonceExpiration) (k : ℕ) (v : NonceExpiration)
    → IsLive now xs
    → now ≤ v.expires_at
    → IsLive now (set_at xs k v)
unfolding set_at
set_at-IsLive now [] k v h n i w at = h i w at
set_at-IsLive now (x ∷ xs) zero v h n zero w at = ground arith
set_at-IsLive now (x ∷ xs) zero v h n (suc i) w at = h (suc i) w at
set_at-IsLive now (x ∷ xs) (suc k) v h n zero w at = h zero w at
set_at-IsLive now (x ∷ xs) (suc k) v h n (suc i) w at =
    set_at-IsLive now xs k v (λ j u e. h (suc j) u e) n i w at

sift_up-IsLive :
    (now fuel : ℕ) (xs : List NonceExpiration) (k : ℕ) (v : NonceExpiration)
    → IsLive now xs
    → now ≤ v.expires_at
    → IsLive now (sift_up fuel xs k v)
unfolding sift_up
sift_up-IsLive now zero xs k v h n = set_at-IsLive now xs k v h n
sift_up-IsLive now (suc fuel) xs zero v h n = set_at-IsLive now xs zero v h n
sift_up-IsLive now (suc fuel) xs (suc j) v h n = elim (Option-cases (get_elem? xs (j / 2))) [
  | inl e ↦
      let q : sift_up (suc fuel) xs (suc j) v ≡ set_at xs (suc j) v = ground arith in
      subst (IsLive now) (sym q) (set_at-IsLive now xs (suc j) v h n)
  | inr (p, at) ↦ elim (Bool-cases (earlier v p)) [
    | inl before ↦
        let q : sift_up (suc fuel) xs (suc j) v ≡ sift_up fuel (set_at xs (suc j) p) (j / 2) v =
          ground arith in
        subst (IsLive now) (sym q) (
          sift_up-IsLive now fuel (set_at xs (suc j) p) (j / 2) v
            (set_at-IsLive now xs (suc j) p h (h (j / 2) p at)) n)
    | inr stays ↦
        let q : sift_up (suc fuel) xs (suc j) v ≡ set_at xs (suc j) v = ground arith in
        subst (IsLive now) (sym q) (set_at-IsLive now xs (suc j) v h n)
  ]
]

append-IsLive :
    (now : ℕ) (xs : List NonceExpiration) (v : NonceExpiration)
    → IsLive now xs
    → now ≤ v.expires_at
    → IsLive now (xs ++ v ∷ [])
append-IsLive now [] v h n zero w at = ground arith
append-IsLive now [] v h n (suc i) w at = absurd (ground arith)
append-IsLive now (x ∷ xs) v h n zero w at = h zero w at
append-IsLive now (x ∷ xs) v h n (suc i) w at =
    append-IsLive now xs v (λ j u e. h (suc j) u e) n i w at

pub push_expiration-IsLive :
    (now : ℕ) (heap : List NonceExpiration) (v : NonceExpiration)
    → IsLive now heap
    → now ≤ v.expires_at
    → IsLive now (push_expiration heap v)
unfolding push_expiration
push_expiration-IsLive now heap v h n =
    sift_up-IsLive now (length heap) (heap ++ v ∷ []) (length heap) v (append-IsLive now heap v h n)
      n

before_it :
    (xs : List NonceExpiration) (i j : ℕ) (v : NonceExpiration)
    → i ≤ j
    → get_elem? xs j ≡ some v
    → (u : NonceExpiration) × (get_elem? xs i ≡ some u)
before_it [] i j v n h = absurd (ground arith)
before_it (x ∷ xs) zero j v n h = (x, refl)
before_it (x ∷ xs) (suc i) zero v n h = absurd (omega arith)
before_it (x ∷ xs) (suc i) (suc j) v n h = before_it xs i j v (omega arith) h

-- The first entry of a heap expires first.
pub first-IsLive :
    (fuel : ℕ) (first : NonceExpiration) (rest : List NonceExpiration) (i : ℕ) (v : NonceExpiration)
    → i ≤ fuel
    → IsHeap (first ∷ rest)
    → get_elem? (first ∷ rest) i ≡ some v
    → first.expires_at ≤ v.expires_at
first-IsLive fuel first rest zero v n h at = ground arith
first-IsLive zero first rest (suc i) v n h at = absurd (omega arith)
first-IsLive (suc fuel) first rest (suc i) v n h at =
    let (p, above) = before_it (first ∷ rest) (i / 2) (suc i) v (omega arith) at in
    omega (arith, first-IsLive fuel first rest (i / 2) p (omega arith) h above, h i p v above at)
