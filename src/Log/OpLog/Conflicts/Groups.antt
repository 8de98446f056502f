-- ===== src/Log/OpLog/Conflicts/Groups.antt =====
-- The groups that `conflicts` of packages/log/src/oplog.ts fills: what is in them, and in which order.
use mathlib.Core.List.{Memᴰ}
use mathlib.Core.List.Memᴰ.{head, tail, not-nil}
use thaddeus.Prelude.{
  ◌≡◌, ◌≢◌, refl, sym, ap, ◌∙◌, subst, ◌⊎◌, inl, inr, Bool, true, false, Option, some, List, [],
  ◌∷◌, ◌++◌, Str, ◌==◌, get_last?, arith, Bool-cases, Option-cases, Memᴰ-append, Memᴰ-keep, keep,
}
use thaddeus.Prelude.Sorting.{IsUnique}
use thaddeus.Prelude.Dict.Keys.{get-Memᴰ}
use thaddeus.Prelude.Dict.{Dict, get, put, values}
use thaddeus.Log.Op.{Op}
use thaddeus.Log.OpLog.{OpLog, lt_op, ordered}
use thaddeus.Log.OpLog.Order.{IsOrdered, OpAbove, IsKeyed, lt_op_trans, sort_ops-IsOrdered}
use thaddeus.Log.OpLog.Conflicts.{at_path, group, in_view}

-- Every group holds operations of its own path, all of them of the list.
abbrev pub AllFrom : List Op → Dict (List Op) → Type 0
AllFrom xs m =
    (path : Str) (ops : List Op)
    → Memᴰ (path, ops) m
    → (op : Op) → Memᴰ op ops
    → (op.path ≡ path) × Memᴰ op xs

-- What `put` leaves in the map.
Memᴰ-put :
    (m : Dict (List Op)) (k j : Str) (v w : List Op)
    → Memᴰ (j, w) (put m k v)
    → (((j ≡ k) × (w ≡ v)) ⊎ Memᴰ (j, w) m)
unfolding put
Memᴰ-put [] k j v w (head e) = inl (ap (λ x. x.0) e, ap (λ x. x.1) e)
Memᴰ-put [] k j v w (tail i) = absurd (not-nil i)
Memᴰ-put ((i, u) ∷ m) k j v w h = elim (Bool-cases (i == k)) [
  | inl same ↦ elim (subst (Memᴰ (j, w)) (found same) h) [
    | head e ↦ inl (ap (λ x. x.0) e ∙ eq same, ap (λ x. x.1) e)
    | tail t ↦ inr (tail t)
  ]
  | inr other ↦ elim (subst (Memᴰ (j, w)) (further other) h) [
    | head e ↦ inr (head e)
    | tail t ↦ elim (Memᴰ-put m k j v w t) [ inl p ↦ inl p | inr t ↦ inr (tail t) ]
  ]
]
  where
    eq : (i == k) ≡ true → i ≡ k
    eq q = ground arith

    found : (i == k) ≡ true → put ((i, u) ∷ m) k v ≡ (i, v) ∷ m
    found q = cc

    further : (i == k) ≡ false → put ((i, u) ∷ m) k v ≡ (i, u) ∷ put m k v
    further q = cc

at_path-Memᴰ :
    (m : Dict (List Op)) (k : Str) (op : Op)
    → Memᴰ op (at_path m k)
    → (ops : List Op) × Memᴰ (k, ops) m × Memᴰ op ops
unfolding at_path
at_path-Memᴰ m k op i = elim (Option-cases (get m k)) [
  | inl e ↦ absurd (not-nil (subst (Memᴰ op) (cc) i))
  | inr (ops, e) ↦ (ops, get-Memᴰ m k ops e, subst (Memᴰ op) (cc) i)
]

put-AllFrom :
    (all : List Op) (m : Dict (List Op)) (x : Op)
    → Memᴰ x all
    → AllFrom all m
    → AllFrom all (put m x.path (at_path m x.path ++ x ∷ []))
put-AllFrom all m x inside from path ops i op j =
    elim (Memᴰ-put m x.path path (at_path m x.path ++ x ∷ []) ops i) [
      | inr old ↦ from path ops old op j
      | inl (p, o) ↦ elim (Memᴰ-append op (at_path m x.path) (x ∷ []) (subst (Memᴰ op) o j)) [
        | inr (head e) ↦ (ap (λ o. o.path) e ∙ sym p, subst (λ o. Memᴰ o all) (sym e) inside)
        | inr (tail t) ↦ absurd (not-nil t)
        | inl before ↦
            let (old, a, b) = at_path-Memᴰ m x.path op before in
            let (q, r) = from x.path old a op b in (q ∙ sym p, r)
      ]
    ]

pub group-AllFrom :
    (all xs : List Op) (m : Dict (List Op))
    → ((op : Op) → Memᴰ op xs → Memᴰ op all)
    → AllFrom all m
    → AllFrom all (group m xs)
unfolding group
group-AllFrom all [] m inside from = from
group-AllFrom all (x ∷ xs) m inside from =
    group-AllFrom all xs (put m x.path (at_path m x.path ++ x ∷ [])) (λ op i. inside op (tail i))
      (put-AllFrom all m x (inside x (head refl)) from)

-- Each operation comes before all that follow it.
abbrev pub Ascends : List Op → Type 0
Ascends [] = Unit {0}
Ascends (x ∷ xs) = ((y : Op) → Memᴰ y xs → lt_op x y ≡ true) × Ascends xs

OpAbove-all : (x : Op) (ys : List Op) → OpAbove x ys → (y : Op) → Memᴰ y ys → lt_op x y ≡ true
OpAbove-all x [] a y i = absurd (not-nil i)
OpAbove-all x (z ∷ zs) a y (head e) = subst (λ w. lt_op x w ≡ true) (sym e) a.0
OpAbove-all x (z ∷ zs) a y (tail i) = lt_op_trans x z y a.0 (OpAbove-all z zs a.1 y i)

OpAbove-Ascends : (x : Op) (ys : List Op) → OpAbove x ys → Ascends ys
OpAbove-Ascends x [] a = tt
OpAbove-Ascends x (y ∷ ys) a = (OpAbove-all y ys a.1, OpAbove-Ascends y ys a.1)

IsOrdered-Ascends : (xs : List Op) → IsOrdered xs → Ascends xs
IsOrdered-Ascends [] s = tt
IsOrdered-Ascends (x ∷ xs) s = (OpAbove-all x xs s, OpAbove-Ascends x xs s)

pub keep-Ascends : (p : Op → Bool) (xs : List Op) → Ascends xs → Ascends (keep p xs)
keep-Ascends p [] a = tt
keep-Ascends p (x ∷ xs) a = elim (Bool-cases (p x)) [
  | inl kept ↦
      subst Ascends (sym (with_it kept))
        (λ y i. a.0 y (Memᴰ-keep p y xs i).0, keep-Ascends p xs a.1)
  | inr dropped ↦ subst Ascends (sym (without_it dropped)) (keep-Ascends p xs a.1)
]
  where
    with_it : p x ≡ true → keep p (x ∷ xs) ≡ x ∷ keep p xs
    with_it k = cc

    without_it : p x ≡ false → keep p (x ∷ xs) ≡ keep p xs
    without_it k = cc

append-Ascends :
    (xs : List Op) (x : Op)
    → Ascends xs
    → ((y : Op) → Memᴰ y xs → lt_op y x ≡ true)
    → Ascends (xs ++ x ∷ [])
append-Ascends [] x a below = (λ y i. absurd (not-nil i), tt)
append-Ascends (z ∷ zs) x a below = (
  λ y i. elim (Memᴰ-append y zs (x ∷ []) i) [
    | inl j ↦ a.0 y j
    | inr (head e) ↦ subst (λ w. lt_op z w ≡ true) (sym e) (below z (head refl))
    | inr (tail j) ↦ absurd (not-nil j)
  ],
  append-Ascends zs x a.1 (λ y i. below y (tail i)),
)

-- The last operation of an ascending list is in it, and comes after all others.
pub last-Ascends :
    (xs : List Op) (w : Op)
    → Ascends xs
    → get_last? xs ≡ some w
    → Memᴰ w xs × ((b : Op) → Memᴰ b xs → b.id ≢ w.id → lt_op b w ≡ true)
last-Ascends [] w a e = absurd (ground arith)
last-Ascends (x ∷ []) w a e =
    let same : w ≡ x = ground arith in
    (
      head same,
      λ b i n. elim i [
        | head q ↦ absurd (n (ap (λ o. o.id) (q ∙ sym same)))
        | tail j ↦ absurd (not-nil j)
      ],
    )
last-Ascends (x ∷ y ∷ ys) w a e =
    let (i, above) = last-Ascends (y ∷ ys) w a.1 (ground arith) in
    (
      tail i,
      λ b j n. elim j [
        | head q ↦ subst (λ o. lt_op o w ≡ true) (sym q) (a.0 w i)
        | tail k ↦ above b k n
      ],
    )

pub in_view-Ascends : (l : OpLog) (view : Option Str) → IsKeyed l.ops → Ascends (in_view l view)
unfolding in_view ordered
in_view-Ascends l view k =
    keep-Ascends _ (ordered l)
      (IsOrdered-Ascends _ (sort_ops-IsOrdered (values l.ops) (subst IsUnique k.keyed k.distinct)))

-- Each group ascends, and all that is left to group comes after it.
abbrev pub Rising : List Op → Dict (List Op) → Type 0
Rising xs m =
    (path : Str) (ops : List Op)
    → Memᴰ (path, ops) m
    → Ascends ops × ((op x : Op) → Memᴰ op ops → Memᴰ x xs → lt_op op x ≡ true)

at_path-Rising :
    (m : Dict (List Op)) (k : Str) (xs : List Op)
    → Rising xs m
    → Ascends (at_path m k) × ((op x : Op) → Memᴰ op (at_path m k) → Memᴰ x xs → lt_op op x ≡ true)
unfolding at_path
at_path-Rising m k xs rising = elim (Option-cases (get m k)) [
  | inl e ↦ (subst Ascends {x = []} (cc) tt, λ op x i j. absurd (not-nil (subst (Memᴰ op) (cc) i)))
  | inr (ops, e) ↦
      let (up, below) = rising k ops (get-Memᴰ m k ops e) in
      (subst Ascends {x = ops} (cc) up, λ op x i j. below op x (subst (Memᴰ op) (cc) i) j)
]

put-Rising :
    (m : Dict (List Op)) (x : Op) (xs : List Op)
    → ((y : Op) → Memᴰ y xs → lt_op x y ≡ true)
    → Rising (x ∷ xs) m
    → Rising xs (put m x.path (at_path m x.path ++ x ∷ []))
put-Rising m x xs first rising path ops i =
    elim (Memᴰ-put m x.path path (at_path m x.path ++ x ∷ []) ops i) [
      | inr old ↦ let (up, below) = rising path ops old in (up, λ op y j k. below op y j (tail k))
      | inl (p, o) ↦
          let (up, below) = at_path-Rising m x.path (x ∷ xs) rising in
          (
            subst Ascends (sym o)
                (append-Ascends (at_path m x.path) x up (λ y j. below y x j (head refl))),
            λ op y j k. elim (Memᴰ-append op (at_path m x.path) (x ∷ []) (subst (Memᴰ op) o j)) [
              | inl before ↦ below op y before (tail k)
              | inr (head e) ↦ subst (λ w. lt_op w y ≡ true) (sym e) (first y k)
              | inr (tail t) ↦ absurd (not-nil t)
            ],
          )
    ]

pub group-Rising :
    (xs : List Op) (m : Dict (List Op)) → Ascends xs → Rising xs m → Rising [] (group m xs)
unfolding group
group-Rising [] m up rising = rising
group-Rising (x ∷ xs) m up rising =
    group-Rising xs (put m x.path (at_path m x.path ++ x ∷ [])) up.1 (put-Rising m x xs up.0 rising)
