-- ===== src/Replay/Heap/Sift.antt =====
-- The two loops on the heap of packages/persist/src/replay.ts keep it one.
use thaddeus.Prelude.{
  ℕ, zero, suc, ◌+◌, ◌*◌, ◌/◌, ◌≤◌, ◌<◌, ◌≡◌, ◌≢◌, refl, ap, sym, subst, ◌∙◌, true, false, none,
  some, List, [], ◌∷◌, ◌++◌, length, get_elem?, get_last?, take, arith, Option-cases, Bool-cases,
  inl, inr, nat_eq, nat_eq→eq, length-append,
}
use thaddeus.Replay.{
  NonceExpiration, set_at, earlier, sift_up, sift_down, smaller_child, push_expiration,
  pop_expiration,
}
use thaddeus.Replay.Cleanup.{length-set_at}
use thaddeus.Replay.Heap.{
  IsHeap, IsHeapBut, IsBefore, IsAfter, same_or_not, some-inj, get-set_at_self, read, fill, raise,
  lower,
}

earlier-le : (l r : NonceExpiration) → earlier l r ≡ true → l.expires_at ≤ r.expires_at
unfolding earlier
earlier-le l r h = ground arith

earlier-ge : (l r : NonceExpiration) → earlier l r ≡ false → r.expires_at ≤ l.expires_at
unfolding earlier
earlier-ge l r h = ground arith

absent :
    (xs : List NonceExpiration) (j l : ℕ) (p : NonceExpiration)
    → suc j ≡ suc l
    → get_elem? xs (j / 2) ≡ none
    → get_elem? xs (l / 2) ≡ some p
    → ⊥
absent xs j l p e h at =
    let same : l ≡ j = omega arith in
    let at' = subst (λ i. get_elem? xs (i / 2) ≡ some p) same at in ground arith

same_entry :
    (xs : List NonceExpiration) (j l : ℕ) (p q : NonceExpiration)
    → get_elem? xs (j / 2) ≡ some p
    → suc j ≡ suc l
    → get_elem? xs (l / 2) ≡ some q
    → q.expires_at ≡ p.expires_at
same_entry xs j l p q at e there =
    let same : l ≡ j = omega arith in
    some-inj (sym (subst (λ i. get_elem? xs (i / 2) ≡ some q) same there) ∙ at)

-- What is moved up is before what is below its new place.
raised :
    (xs : List NonceExpiration) (j : ℕ) (p v : NonceExpiration)
    → IsHeapBut xs (suc j)
    → get_elem? xs (j / 2) ≡ some p
    → v.expires_at ≤ p.expires_at
    → IsBefore (set_at xs (suc j) p) (j / 2) v.expires_at
raised xs j p v h at n i w m f = elim (same_or_not (suc i) (suc j)) [
  | inl r ↦ omega (
    arith,
    get-set_at_self xs (suc j) p w (subst (λ x. get_elem? (set_at xs (suc j) p) x ≡ some w) r f),
  )
  | inr r ↦ omega (
    arith,
    h.edges i p w r (λ x. omega arith) (subst (λ x. get_elem? xs x ≡ some p) (sym m) at)
        (read xs (suc j) (suc i) p w r f),
  )
]

pub sift_up-IsHeap :
    (fuel : ℕ) (xs : List NonceExpiration) (k : ℕ) (v : NonceExpiration)
    → k ≤ fuel
    → IsHeapBut xs k
    → IsBefore xs k v.expires_at
    → IsHeap (sift_up fuel xs k v)
unfolding sift_up
sift_up-IsHeap zero xs k v n h below = fill xs k v h (λ j p e at. absurd (omega arith)) below
sift_up-IsHeap (suc fuel) xs zero v n h below =
    fill xs zero v h (λ j p e at. absurd (omega arith)) below
sift_up-IsHeap (suc fuel) xs (suc j) v n h below = elim (Option-cases (get_elem? xs (j / 2))) [
  | inl none_above ↦
      let e : sift_up (suc fuel) xs (suc j) v ≡ set_at xs (suc j) v = ground arith in
      subst IsHeap (sym e)
        (fill xs (suc j) v h (λ l p q at. absurd (absent xs j l p q none_above at)) below)
  | inr (p, at) ↦ elim (Bool-cases (earlier v p)) [
    | inl before ↦
        let e : sift_up (suc fuel) xs (suc j) v ≡ sift_up fuel (set_at xs (suc j) p) (j / 2) v =
          ground arith in
        subst IsHeap (sym e) (
          sift_up-IsHeap fuel (set_at xs (suc j) p) (j / 2) v (omega arith) (raise xs j p h at)
            (raised xs j p v h at (earlier-le v p before)))
    | inr stays ↦
        let e : sift_up (suc fuel) xs (suc j) v ≡ set_at xs (suc j) v = ground arith in
        subst IsHeap (sym e) (
          fill xs (suc j) v h
            (λ l q r there. omega (arith, earlier-ge v p stays, same_entry xs j l p q at r there))
            below)
  ]
]

pub in_range :
    (xs : List NonceExpiration) (i : ℕ) (v : NonceExpiration)
    → get_elem? xs i ≡ some v
    → i < length xs
in_range [] i v h = absurd (ground arith)
in_range (x ∷ xs) zero v h = omega arith
in_range (x ∷ xs) (suc i) v h = omega (arith, in_range xs i v h)

-- The children of `k` are at `k * 2 + 1` and `k * 2 + 2`.
children :
    (xs : List NonceExpiration) (k t : ℕ)
    → ((v : NonceExpiration) → get_elem? xs (k * 2 + 1) ≡ some v → t ≤ v.expires_at)
    → ((v : NonceExpiration) → get_elem? xs (k * 2 + 1 + 1) ≡ some v → t ≤ v.expires_at)
    → IsBefore xs k t
children xs k t l r i v q f = elim (same_or_not (suc i) (k * 2 + 1)) [
  | inl e ↦ l v (subst (λ x. get_elem? xs x ≡ some v) e f)
  | inr n ↦ r v (subst (λ x. get_elem? xs x ≡ some v) (omega arith) f)
]

agree :
    (xs : List NonceExpiration) (i : ℕ) (u v : NonceExpiration)
    → get_elem? xs i ≡ some u
    → get_elem? xs i ≡ some v
    → u.expires_at ≡ v.expires_at
agree xs i u v at there = some-inj (sym at ∙ there)

out_of_range : (xs : List NonceExpiration) (i : ℕ) → get_elem? xs i ≡ none → length xs ≤ i
out_of_range [] i h = omega arith
out_of_range (x ∷ xs) zero h = absurd (ground arith)
out_of_range (x ∷ xs) (suc i) h = omega (arith, out_of_range xs i h)

smaller_child-first :
    (xs : List NonceExpiration) (k : ℕ) (l : NonceExpiration)
    → get_elem? xs (k * 2 + 1) ≡ some l
    → (c : ℕ) × (u : NonceExpiration) × (smaller_child xs (k * 2 + 1) l ≡ suc c)
      × (c / 2 ≡ k)
      × (get_elem? xs (suc c) ≡ some u)
      × IsBefore xs k u.expires_at
unfolding smaller_child
smaller_child-first xs k l at = elim (Option-cases (get_elem? xs (k * 2 + 1 + 1))) [
  | inl alone ↦ (
    k * 2,
    l,
    ground arith,
    omega arith,
    at',
    children xs k l.expires_at (λ v f. omega (arith, agree xs (k * 2 + 1) l v at f))
        (λ v f. absurd (ground arith)),
  )
  | inr (r, right) ↦ elim (Bool-cases (earlier r l)) [
    | inl y ↦ (
      k * 2 + 1,
      r,
      ground arith,
      omega arith,
      subst (λ i. get_elem? xs i ≡ some r) (omega arith) right,
      children xs k r.expires_at
          (λ v f. omega (arith, earlier-le r l y, agree xs (k * 2 + 1) l v at f))
          (λ v f. omega (arith, agree xs (k * 2 + 1 + 1) r v right f)),
    )
    | inr n ↦ (
      k * 2,
      l,
      ground arith,
      omega arith,
      at',
      children xs k l.expires_at (λ v f. omega (arith, agree xs (k * 2 + 1) l v at f))
          (λ v f. omega (arith, earlier-ge r l n, agree xs (k * 2 + 1 + 1) r v right f)),
    )
  ]
]
  where
    at' : get_elem? xs (suc (k * 2)) ≡ some l
    at' = subst (λ i. get_elem? xs i ≡ some l) (omega arith) at

lowered :
    (xs : List NonceExpiration) (k c : ℕ) (u v : NonceExpiration)
    → c / 2 ≡ k
    → u.expires_at ≤ v.expires_at
    → IsAfter (set_at xs k u) (suc c) v.expires_at
lowered xs k c u v parent n j p e at =
    let half : j / 2 ≡ k = omega arith in
    omega
      (arith, get-set_at_self xs k u p (subst (λ i. get_elem? (set_at xs k u) i ≡ some p) half at))

sift_down-IsHeap :
    (fuel : ℕ) (xs : List NonceExpiration) (k : ℕ) (v : NonceExpiration)
    → length xs ≤ fuel + k
    → IsHeapBut xs k
    → IsAfter xs k v.expires_at
    → IsHeap (sift_down fuel xs k v)
unfolding sift_down
sift_down-IsHeap zero xs k v n h above =
    fill xs k v h above (λ i w q f. absurd (omega (arith, in_range xs (suc i) w f)))
sift_down-IsHeap (suc fuel) xs k v n h above = elim (Option-cases (get_elem? xs (k * 2 + 1))) [
  | inl leaf ↦
      let e : sift_down (suc fuel) xs k v ≡ set_at xs k v = ground arith in
      subst IsHeap (sym e) (
        fill xs k v h above (λ i w q f.
          absurd (omega (arith, out_of_range xs (k * 2 + 1) leaf, in_range xs (suc i) w f))))
  | inr (l, left) ↦
      let (c, u, small, parent, at, least) = smaller_child-first xs k l left in
      let at_child : get_elem? xs (smaller_child xs (k * 2 + 1) l) ≡ some u =
        subst (λ i. get_elem? xs i ≡ some u) (sym small) at in
      elim (Bool-cases (earlier u v)) [
        | inl before ↦
            let e : sift_down (suc fuel) xs k v
                ≡ sift_down fuel (set_at xs k u) (smaller_child xs (k * 2 + 1) l) v =
              ground arith in
            subst IsHeap (sym (e ∙ ap (λ i. sift_down fuel (set_at xs k u) i v) small)) (
              sift_down-IsHeap fuel (set_at xs k u) (suc c) v (omega (arith, length-set_at xs k u))
                (lower xs k c u h parent at least)
                (lowered xs k c u v parent (earlier-le u v before)))
        | inr stays ↦
            let e : sift_down (suc fuel) xs k v ≡ set_at xs k v = ground arith in
            subst IsHeap (sym e)
              (fill xs k v h above (λ i w q f. omega (arith, earlier-ge u v stays, least i w q f)))
      ]
]

get-take :
    (n : ℕ) (xs : List NonceExpiration) (i : ℕ) (v : NonceExpiration)
    → get_elem? (take n xs) i ≡ some v
    → get_elem? xs i ≡ some v
get-take zero xs i v h = absurd (ground arith)
get-take (suc n) [] i v h = absurd (ground arith)
get-take (suc n) (x ∷ xs) zero v h = h
get-take (suc n) (x ∷ xs) (suc i) v h = get-take n xs i v h

get-push :
    (xs : List NonceExpiration) (x v : NonceExpiration) (i : ℕ)
    → i ≢ length xs
    → get_elem? (xs ++ x ∷ []) i ≡ some v
    → get_elem? xs i ≡ some v
get-push [] x v zero n h = absurd (n refl)
get-push [] x v (suc i) n h = h
get-push (y ∷ xs) x v zero n h = h
get-push (y ∷ xs) x v (suc i) n h = get-push xs x v i (λ e. n (ap suc e)) h

has_last : (x : NonceExpiration) (xs : List NonceExpiration) → get_last? (x ∷ xs) ≢ none
has_last x [] h = ground arith
has_last x (y ∷ xs) h = has_last y xs h

-- What is popped off a heap leaves a heap.
pub pop_expiration-IsHeap :
    (first : NonceExpiration) (rest : List NonceExpiration)
    → IsHeap (first ∷ rest)
    → IsHeap (pop_expiration (first ∷ rest)).1
unfolding pop_expiration
pop_expiration-IsHeap first rest h = elim (Option-cases (get_last? (first ∷ rest))) [
  | inl none_last ↦ absurd (has_last first rest none_last)
  | inr (last, e) ↦
      let heap = take (length rest) (first ∷ rest) in
      elim (Bool-cases (nat_eq (length heap) 0)) [
        | inl empty ↦
            let q : (pop_expiration (first ∷ rest)).1 ≡ heap = ground arith in
            subst IsHeap (sym q) (λ i p v a b.
              absurd (omega (arith, nat_eq→eq (length heap) 0 empty, in_range heap (suc i) v b)))
        | inr more ↦
            let q : (pop_expiration (first ∷ rest)).1 ≡ sift_down (length heap) heap 0 last =
              ground arith in
            subst IsHeap (sym q) (
              sift_down-IsHeap (length heap) heap 0 last (omega arith)
                (record {
                  edges = λ i p v n m a b.
                      h i p v (get-take (length rest) (first ∷ rest) (i / 2) p a)
                        (get-take (length rest) (first ∷ rest) (suc i) v b);
                  over = λ j i p v z. absurd (omega arith);
                })
                (λ j p z. absurd (omega arith)))
      ]
]

-- What is pushed onto a heap leaves a heap.
pub push_expiration-IsHeap :
    (heap : List NonceExpiration) (v : NonceExpiration)
    → IsHeap heap
    → IsHeap (push_expiration heap v)
unfolding push_expiration
push_expiration-IsHeap heap v h =
    let n : length (heap ++ v ∷ []) ≡ length heap + 1 = length-append heap (v ∷ []) in
    sift_up-IsHeap (length heap) (heap ++ v ∷ []) (length heap) v (omega arith)
      (record {
        edges = λ i p w m l a b.
            h i p w (get-push heap v p (i / 2) l a) (get-push heap v w (suc i) m b);
        over = λ j i p w e q a b. absurd (omega (arith, n, in_range (heap ++ v ∷ []) (suc i) w b));
      })
      (λ i w q b. absurd (omega (arith, n, in_range (heap ++ v ∷ []) (suc i) w b)))
