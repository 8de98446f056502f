-- ===== src/Log/Head/Snapshot/Exact.antt =====
-- A snapshot is accepted exactly when its operations are the closure of the signed heads.
use thaddeus.Prelude.{
  ℕ, suc, ◌≡◌, ◌≢◌, refl, subst, fun_ext, ◌↔◌, ◌⊎◌, inl, inr, true, not, Option, none, some, List,
  [], ◌∷◌, Str, ◌==◌, member, find, all, arith, member-cons_cases, member-here, member-there,
}
use thaddeus.Prelude.Sorting.{IsUnique}
use thaddeus.Prelude.Dict.{Dict, get, put, get-put, get-put_self}
use thaddeus.Walk.{Outcome, done, missing, out_of_fuel, walk_from}
use thaddeus.Walk.Ends.{Covers, walk_from_ends}
use thaddeus.Walk.Reach.{Reach, walk_from-done, walk_from-known, walk_from-missing}
use thaddeus.Log.Op.{Op, Env, verify_op}
use thaddeus.Log.Head.{HeadRecord, pass, valid, >>=-eq-pass, verify_head}
use thaddeus.Log.Head.Snapshot.{
  op_graph, parents_of, check_extra, check_reached, index_operations, verify_head_snapshot,
}

abbrev pub ids : List Op → List Str
ids [] = []
ids (op ∷ ops) = op.id ∷ ids ops

-- The operation of a bundle that has an id, and its parents.
abbrev pub lookup_op : List Op → Str → Option Op
lookup_op ops id = find (λ op. op.id == id) ops

abbrev pub parents_in : List Op → Str → Option (List Str)
parents_in ops id = elim (lookup_op ops id) [ none ↦ none | some op ↦ some op.parents ]

-- The bundle is valid, has no operation twice, and holds the ancestors of the heads and nothing else.
pub record IsClosure (e : Env) (heads : List Str) (operations : List Op) : Type 0 where
  pub verified : all (verify_op e) operations ≡ true
  pub distinct : IsUnique (ids operations)
  pub complete :
      (id : Str) → Reach (parents_in operations) heads id → member id (ids operations) ≡ true
  pub minimal :
      (id : Str) → member id (ids operations) ≡ true → Reach (parents_in operations) heads id

-- `a ?? b` on options.
abbrev first_of_two : Option Op → Option Op → Option Op
first_of_two none b = b
first_of_two (some a) b = some a

-- What is known when the map was filled.
record IsIndexed (e : Env) (by_id : Dict Op) (ops : List Op) (m : Dict Op) : Type 0 where
  verified : all (verify_op e) ops ≡ true
  distinct : IsUnique (ids ops)
  fresh : (id : Str) → member id (ids ops) ≡ true → get by_id id ≡ none
  found : (id : Str) → get m id ≡ first_of_two (get by_id id) (lookup_op ops id)

module _ (e : Env) where
  index_operations-step :
      (i : ℕ) (by_id m : Dict Op) (op : Op) (ops : List Op)
      → index_operations e i by_id (op ∷ ops) ≡ pass m
      → (verify_op e op ≡ true)
        × (get by_id op.id ≡ none)
        × (index_operations e (suc i) (put by_id op.id op) ops ≡ pass m)
  unfolding index_operations
  index_operations-step i by_id m op ops h = ground arith

  index_operations-IsIndexed :
      (i : ℕ) (by_id m : Dict Op) (ops : List Op)
      → index_operations e i by_id ops ≡ pass m
      → IsIndexed e by_id ops m
  unfolding index_operations
  index_operations-IsIndexed i by_id m [] h = record {
    verified = refl;
    distinct = tt;
    fresh = λ id k. unfold member in cc;
    found = λ id. ground arith;
  }
  index_operations-IsIndexed i by_id m (op ∷ ops) h =
      let (v, absent, rest) = index_operations-step i by_id m op ops h in
      let ih = index_operations-IsIndexed (suc i) (put by_id op.id op) m ops rest in
      record {
        verified = ground (arith, ih.verified);
        distinct = (ground (arith, ih.fresh op.id, get-put_self by_id op.id op), ih.distinct);
        fresh = λ id k. elim (member-cons_cases id op.id (ids ops) k) [
          | inl q ↦ ground arith
          | inr j ↦ ground (arith, ih.fresh id j, get-put by_id op.id id op)
        ];
        found = λ id. ground (arith, ih.found id, get-put by_id op.id id op);
      }

  index_operations-total :
      (i : ℕ) (by_id : Dict Op) (ops : List Op)
      → all (verify_op e) ops ≡ true
      → IsUnique (ids ops)
      → ((id : Str) → member id (ids ops) ≡ true → get by_id id ≡ none)
      → (m : Dict Op) × (index_operations e i by_id ops ≡ pass m)
  unfolding index_operations
  index_operations-total i by_id [] v u f = (by_id, refl)
  index_operations-total i by_id (op ∷ ops) v u f =
      let (m, filled) =
        index_operations-total (suc i) (put by_id op.id op) ops (ground arith) u.1 (λ id k.
          ground (arith, f id (member-there id op.id (ids ops) k), get-put by_id op.id id op)) in
      (m, ground (arith, f op.id (member-here op.id (ids ops))))

get-op_graph :
    (m : Dict Op) (id : Str) (ps : List Str)
    → parents_of m id ≡ some ps
    → get (op_graph m) id ≡ some ps
unfolding parents_of op_graph get
get-op_graph [] id ps h = cc
get-op_graph ((j, op) ∷ m) id ps h = ground (arith, get-op_graph m id ps)

pub op_graph-Covers : (m : Dict Op) → Covers (op_graph m) (parents_of m)
op_graph-Covers m id ps h = inr (get-op_graph m id ps h)

member-ids : (ops : List Op) (id : Str) → member id (ids ops) ≡ true → lookup_op ops id ≢ none
unfolding member
member-ids [] id m h = cc
member-ids (op ∷ ops) id m h = ground (arith, member-ids ops id)

lookup_op-member : (ops : List Op) (id : Str) → lookup_op ops id ≢ none → member id (ids ops) ≡ true
unfolding member
lookup_op-member [] id h = absurd (h refl)
lookup_op-member (op ∷ ops) id h = ground (arith, lookup_op-member ops id)

-- Nothing is extra when every operation was reached.
find-none :
    (reachable : List Str) (ops : List Op) (id : Str)
    → find (λ op. not (member op.id reachable)) ops ≡ none
    → member id (ids ops) ≡ true
    → member id reachable ≡ true
unfolding member
find-none reachable [] id h m = cc
find-none reachable (op ∷ ops) id h m = ground (arith, find-none reachable ops id)

all-find-none :
    (reachable : List Str) (ops : List Op)
    → ((id : Str) → member id (ids ops) ≡ true → member id reachable ≡ true)
    → find (λ op. not (member op.id reachable)) ops ≡ none
all-find-none reachable [] h = refl
all-find-none reachable (op ∷ ops) h = ground (
  arith,
  h op.id (member-here op.id (ids ops)),
  all-find-none reachable ops (λ id m. h id (member-there id op.id (ids ops) m)),
)

pub Outcome-cases :
    (o : Outcome)
    → (o ≡ out_of_fuel) ⊎ ((id : Str) × (o ≡ missing id)) ⊎ ((r : List Str) × (o ≡ done r))
Outcome-cases (done r) = inr (inr (r, refl))
Outcome-cases (missing id) = inr (inl (id, refl))
Outcome-cases out_of_fuel = inl refl

module _ (e : Env) (head : HeadRecord) (operations : List Op) where
  snapshot_inv :
      verify_head_snapshot e head operations ≡ valid
      → (verify_head e.crypto head ≡ valid)
        × (m : Dict Op) × (index_operations e 0 [] operations ≡ pass m)
        × (check_reached operations (walk_from (op_graph m) (parents_of m) head.heads) ≡ valid)
  unfolding verify_head_snapshot get
  snapshot_inv h =
      let (u, v, rest) = >>=-eq-pass _ _ h in let (m, i, c) = >>=-eq-pass _ _ rest in (v, m, i, c)

  module _ (m : Dict Op) (found : (id : Str) → get m id ≡ lookup_op operations id) where
    parents_of-eq : parents_of m ≡ parents_in operations
    unfolding parents_of
    parents_of-eq = fun_ext (λ id. ground (arith, found id))

    known : (id : Str) → parents_in operations id ≢ none → member id (ids operations) ≡ true
    known id h = lookup_op-member operations id (λ n. h (ground arith))

    at_lem :
        {o : Outcome}
        → walk_from (op_graph m) (parents_of m) head.heads ≡ o
        → walk_from (op_graph m) (parents_in operations) head.heads ≡ o
    at_lem {o} = subst (λ next. walk_from (op_graph m) next head.heads ≡ o) parents_of-eq

    IsClosure-of_done :
        (r : List Str)
        → walk_from (op_graph m) (parents_of m) head.heads ≡ done r
        → check_extra r operations ≡ valid
        → all (verify_op e) operations ≡ true
        → IsUnique (ids operations)
        → IsClosure e head.heads operations
    unfolding check_extra
    IsClosure-of_done r w x v u = record {
      verified = v;
      distinct = u;
      complete = λ id q.
          known id
            (walk_from-known (parents_in operations) (op_graph m) head.heads r (at_lem w) id q);
      minimal = λ id q.
          (walk_from-done (parents_in operations) (op_graph m) head.heads r (at_lem w) id).0
            (find-none r operations id (ground arith) q);
    }

    done_of_closure :
        IsClosure e head.heads operations
        → check_reached operations (walk_from (op_graph m) (parents_of m) head.heads) ≡ valid
    unfolding check_reached check_extra
    done_of_closure h = elim (Outcome-cases (walk_from (op_graph m) (parents_of m) head.heads)) [
      | inl o ↦ absurd (walk_from_ends (op_graph m) (parents_of m) (op_graph-Covers m) head.heads o)
      | inr (inl (id, o)) ↦
          let (reached, unknown) =
            walk_from-missing (parents_in operations) (op_graph m) head.heads id (at_lem o) in
          absurd (member-ids operations id (h.complete id reached) (ground arith))
      | inr (inr (r, o)) ↦
          let same = walk_from-done (parents_in operations) (op_graph m) head.heads r (at_lem o) in
          let nothing = all-find-none r operations (λ id k. (same id).1 (h.minimal id k)) in
          rw o (ground (arith, nothing))
    ]

  accepted :
      (m : Dict Op)
      → IsIndexed e [] operations m
      → check_reached operations (walk_from (op_graph m) (parents_of m) head.heads) ≡ valid
      → IsClosure e head.heads operations
  unfolding check_reached get
  accepted m x c = elim (Outcome-cases (walk_from (op_graph m) (parents_of m) head.heads)) [
    | inl o ↦ absurd (walk_from_ends (op_graph m) (parents_of m) (op_graph-Covers m) head.heads o)
    | inr (inl (id, o)) ↦ ground arith
    | inr (inr (r, o)) ↦ IsClosure-of_done m x.found r o (ground arith) x.verified x.distinct
  ]

  -- A snapshot is accepted exactly when the head verifies and the operations are, each once and each
  -- verified, the heads and their ancestors.
  pub verify_head_snapshot_exact :
      (verify_head_snapshot e head operations ≡ valid)
      ↔ (verify_head e.crypto head ≡ valid) × IsClosure e head.heads operations
  unfolding verify_head_snapshot get
  verify_head_snapshot_exact = (
    λ h.
        let (v, m, i, c) = snapshot_inv h in
        let x = index_operations-IsIndexed e 0 [] m operations i in (v, accepted m x c),
    λ (v, closed).
        let (m, i) =
          index_operations-total e 0 [] operations closed.verified closed.distinct (λ id k. refl) in
        let x = index_operations-IsIndexed e 0 [] m operations i in
        rw (v, i) (done_of_closure m x.found closed),
  )
