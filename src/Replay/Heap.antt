-- ===== src/Replay/Heap.antt =====
-- The min-heap of packages/persist/src/replay.ts: an array in which no entry expires before its parent,
-- and one with a hole, into which an entry is moved.
pub mod Live
pub mod Sift
use thaddeus.Prelude.{
  ℕ, zero, suc, ◌+◌, ◌/◌, ◌≤◌, ◌<◌, ◌≡◌, ◌≢◌, refl, ap, sym, subst, ◌∙◌, true, false, none, some,
  List, [], ◌∷◌, length, get_elem?, nat_eq, nat_eq→eq, nat_eq_refl, arith, Bool-cases, inl, inr,
  ◌⊎◌,
}
use thaddeus.Replay.{NonceExpiration, set_at, earlier}

-- The parent of the entry at `suc i` is at `i / 2`.
abbrev pub IsHeap : List NonceExpiration → Type 0
IsHeap heap =
    (i : ℕ) (p v : NonceExpiration)
    → get_elem? heap (i / 2) ≡ some p
    → get_elem? heap (suc i) ≡ some v
    → p.expires_at ≤ v.expires_at

-- What is at `k` does not count: the edges elsewhere hold, and what is above `k` is before what is below.
pub record IsHeapBut (heap : List NonceExpiration) (k : ℕ) : Type 0 where
  pub edges :
      (i : ℕ) (p v : NonceExpiration)
      → suc i ≢ k
      → i / 2 ≢ k
      → get_elem? heap (i / 2) ≡ some p
      → get_elem? heap (suc i) ≡ some v
      → p.expires_at ≤ v.expires_at
  pub over :
      (j i : ℕ) (p v : NonceExpiration)
      → k ≡ suc j
      → i / 2 ≡ k
      → get_elem? heap (j / 2) ≡ some p
      → get_elem? heap (suc i) ≡ some v
      → p.expires_at ≤ v.expires_at

-- An entry that expires at `t` may stand above what is below `k`, or below what is above it.
abbrev pub IsBefore : List NonceExpiration → ℕ → ℕ → Type 0
IsBefore heap k t =
    (i : ℕ) (v : NonceExpiration) → i / 2 ≡ k → get_elem? heap (suc i) ≡ some v → t ≤ v.expires_at

abbrev pub IsAfter : List NonceExpiration → ℕ → ℕ → Type 0
IsAfter heap k t =
    (j : ℕ) (p : NonceExpiration) → k ≡ suc j → get_elem? heap (j / 2) ≡ some p → p.expires_at ≤ t

pub same_or_not : (a b : ℕ) → (a ≡ b) ⊎ (a ≢ b)
same_or_not a b = elim (Bool-cases (nat_eq a b)) [
  | inl e ↦ inl (nat_eq→eq a b e)
  | inr n ↦ inr (λ e. ground arith)
]

pub some-inj : {x y : NonceExpiration} → some x ≡ some y → x.expires_at ≡ y.expires_at
some-inj h = ground arith

pub get-set_at :
    (xs : List NonceExpiration) (i j : ℕ) (v : NonceExpiration)
    → j ≢ i
    → get_elem? (set_at xs i v) j ≡ get_elem? xs j
unfolding set_at
get-set_at [] i j v n = refl
get-set_at (x ∷ xs) zero zero v n = absurd (n refl)
get-set_at (x ∷ xs) zero (suc j) v n = refl
get-set_at (x ∷ xs) (suc i) zero v n = refl
get-set_at (x ∷ xs) (suc i) (suc j) v n = get-set_at xs i j v (λ e. n (ap suc e))

pub get-set_at_self :
    (xs : List NonceExpiration) (i : ℕ) (v w : NonceExpiration)
    → get_elem? (set_at xs i v) i ≡ some w
    → w.expires_at ≡ v.expires_at
unfolding set_at
get-set_at_self [] i v w h = absurd (ground arith)
get-set_at_self (x ∷ xs) zero v w h = sym (some-inj h)
get-set_at_self (x ∷ xs) (suc i) v w h = get-set_at_self xs i v w h

-- What is read beside the hole was there.
pub read :
    (xs : List NonceExpiration) (i j : ℕ) (v w : NonceExpiration)
    → j ≢ i
    → get_elem? (set_at xs i v) j ≡ some w
    → get_elem? xs j ≡ some w
read xs i j v w n h = sym (get-set_at xs i j v n) ∙ h

-- An entry that fits above and below fills the hole.
pub fill :
    (xs : List NonceExpiration) (k : ℕ) (v : NonceExpiration)
    → IsHeapBut xs k
    → IsAfter xs k v.expires_at
    → IsBefore xs k v.expires_at
    → IsHeap (set_at xs k v)
fill xs k v h above below i p w e f = elim (same_or_not (suc i) k) [
  | inl q ↦
      let f' = get-set_at_self xs k v w (subst (λ n. get_elem? (set_at xs k v) n ≡ some w) q f) in
      omega (arith, f', above i p (sym q) (read xs k (i / 2) v p (λ r. omega arith) e))
  | inr n ↦ elim (same_or_not (i / 2) k) [
    | inl q ↦
        let e' = get-set_at_self xs k v p (subst (λ n. get_elem? (set_at xs k v) n ≡ some p) q e) in
        omega (arith, e', below i w q (read xs k (suc i) v w n f))
    | inr m ↦ h.edges i p w n m (read xs k (i / 2) v p m e) (read xs k (suc i) v w n f)
  ]
]

-- The parent moves into the hole.
pub raise :
    (xs : List NonceExpiration) (j : ℕ) (p : NonceExpiration)
    → IsHeapBut xs (suc j)
    → get_elem? xs (j / 2) ≡ some p
    → IsHeapBut (set_at xs (suc j) p) (j / 2)
raise xs j p h at = record { edges = edges; over = over }
  where
    ys : List NonceExpiration
    ys = set_at xs (suc j) p

    edges :
        (i : ℕ) (q v : NonceExpiration)
        → suc i ≢ j / 2
        → i / 2 ≢ j / 2
        → get_elem? ys (i / 2) ≡ some q
        → get_elem? ys (suc i) ≡ some v
        → q.expires_at ≤ v.expires_at
    edges i q v n m e f =
        let other : suc i ≢ suc j = λ r. m (ap (λ x. x / 2) (omega (arith, r))) in
        let f' = read xs (suc j) (suc i) p v other f in
        elim (same_or_not (i / 2) (suc j)) [
          | inl r ↦ omega (
            arith,
            h.over j i p v refl r at f',
            get-set_at_self xs (suc j) p q (subst (λ x. get_elem? ys x ≡ some q) r e),
          )
          | inr r ↦ h.edges i q v other r (read xs (suc j) (i / 2) p q r e) f'
        ]

    over :
        (l i : ℕ) (q v : NonceExpiration)
        → j / 2 ≡ suc l
        → i / 2 ≡ j / 2
        → get_elem? ys (l / 2) ≡ some q
        → get_elem? ys (suc i) ≡ some v
        → q.expires_at ≤ v.expires_at
    over l i q v n m e f =
        let e' = read xs (suc j) (l / 2) p q (λ r. omega arith) e in
        let up =
          h.edges l q p (λ r. omega arith) (λ r. omega arith) e'
            (subst (λ x. get_elem? xs x ≡ some p) n at) in
        elim (same_or_not (suc i) (suc j)) [
          | inl r ↦
              omega (
                arith,
                up,
                get-set_at_self xs (suc j) p v (subst (λ x. get_elem? ys x ≡ some v) r f),
              )
          | inr r ↦ omega (
            arith,
            up,
            h.edges i p v r (λ x. omega arith) (subst (λ x. get_elem? xs x ≡ some p) (sym m) at)
                (read xs (suc j) (suc i) p v r f),
          )
        ]

-- The child that expires first moves into the hole.
pub lower :
    (xs : List NonceExpiration) (k c : ℕ) (u : NonceExpiration)
    → IsHeapBut xs k
    → c / 2 ≡ k
    → get_elem? xs (suc c) ≡ some u
    → IsBefore xs k u.expires_at
    → IsHeapBut (set_at xs k u) (suc c)
lower xs k c u h parent at least = record { edges = edges; over = over }
  where
    ys : List NonceExpiration
    ys = set_at xs k u

    edges :
        (i : ℕ) (q v : NonceExpiration)
        → suc i ≢ suc c
        → i / 2 ≢ suc c
        → get_elem? ys (i / 2) ≡ some q
        → get_elem? ys (suc i) ≡ some v
        → q.expires_at ≤ v.expires_at
    edges i q v n m e f = elim (same_or_not (suc i) k) [
      | inl r ↦ omega (
        arith,
        get-set_at_self xs k u v (subst (λ x. get_elem? ys x ≡ some v) r f),
        h.over i c q u (sym r) parent (read xs k (i / 2) u q (λ x. omega arith) e) at,
      )
      | inr r ↦ elim (same_or_not (i / 2) k) [
        | inl s ↦ omega (
          arith,
          get-set_at_self xs k u q (subst (λ x. get_elem? ys x ≡ some q) s e),
          least i v s (read xs k (suc i) u v r f),
        )
        | inr s ↦ h.edges i q v r s (read xs k (i / 2) u q s e) (read xs k (suc i) u v r f)
      ]
    ]

    over :
        (l i : ℕ) (q v : NonceExpiration)
        → suc c ≡ suc l
        → i / 2 ≡ suc c
        → get_elem? ys (l / 2) ≡ some q
        → get_elem? ys (suc i) ≡ some v
        → q.expires_at ≤ v.expires_at
    over l i q v n m e f =
        let half : l / 2 ≡ k = omega arith in
        omega (
          arith,
          get-set_at_self xs k u q (subst (λ x. get_elem? ys x ≡ some q) half e),
          h.edges i u v (λ x. omega arith) (λ x. omega arith)
              (subst (λ x. get_elem? xs x ≡ some u) (sym m) at)
              (read xs k (suc i) u v (λ x. omega arith) f),
        )
