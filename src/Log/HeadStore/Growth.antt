-- ===== src/Log/HeadStore/Growth.antt =====
-- Histories of a head store only grow (packages/log/src/headstore.ts).
use mathlib.Core.List.{append-nil, append_assoc}
use thaddeus.Prelude.{
  ◌≡◌, refl, ap, sym, ◌∙◌, inl, inr, ◌⊎◌, Option, List, [], ◌∷◌, ◌++◌, Str, ◌==◌, if◌then◌else◌,
  nat_eq, arith, Bool-cases,
}
use thaddeus.Prelude.Dict.{get-put}
use thaddeus.Identity.{Crypto}
use thaddeus.Log.Head.{HeadRecord, HeadVerification, pass, reject}
use thaddeus.Log.HeadStore.{
  HeadStore, Backend, Codec, Failure, Attempt, did, failed, publish, import_one, import_rest,
  import_records, import_chain, history,
}
use thaddeus.Log.HeadStore.Invariant.{
  Change, kept, started, extended, bootstrap-Change, advance-Change, IsValid, Change-IsValid,
}

pub Attempt-cases {ℓ} :
    {A : Type ℓ} (m : Attempt A) → ((e : Failure) × (m ≡ failed e)) ⊎ ((a : A) × (m ≡ did a))
Attempt-cases (failed e) = inl (e, refl)
Attempt-cases (did a) = inr (a, refl)

-- Every history of the later store extends that of the earlier one.
abbrev pub Grows : HeadStore → HeadStore → Type 0
Grows s s' = (view : Str) → (more : List HeadRecord) × (history s' view ≡ history s view ++ more)

Grows-refl : (s : HeadStore) → Grows s s
Grows-refl s view = ([], sym (append-nil (history s view)))

Grows-trans : (s t u : HeadStore) → Grows s t → Grows t u → Grows s u
Grows-trans s t u g k view =
    let (xs, e) = g view in
    let (ys, f) = k view in
    (xs ++ ys, f ∙ ap (λ h. h ++ ys) e ∙ append_assoc (history s view) xs ys)

added : HeadRecord → Str → List HeadRecord
added r view = if r.view == view then r ∷ [] else []

module _ (c : Crypto) (codec : Codec) where
  pub Change-Grows : (s s' : HeadStore) (r : HeadRecord) → Change c codec s s' r → Grows s s'
  unfolding publish added
  Change-Grows s s' r (kept e) view = ([], rw e (sym (append-nil (history s view))))
  Change-Grows s s' r (started absent ok e) view = (
    added r view,
    rw e (ground (arith, get-put s.histories r.view view (r ∷ []), append-nil (history s view))),
  )
  Change-Grows s s' r (extended own there ok n e) view = (
    added r view,
    rw e (
        ground
          (arith, get-put s.histories r.view view (own ++ r ∷ []), append-nil (history s view))),
  )

  import_one-Change :
      (s s' : HeadStore) (b b' : Option Backend) (r : HeadRecord)
      → import_one c codec s b r ≡ did (s', b')
      → Change c codec s s' r
  unfolding import_one
  import_one-Change s s' b b' r e = elim (Bool-cases (nat_eq r.version 0)) [
    | inl zero ↦ bootstrap-Change c codec s s' b b' r (ground arith)
    | inr more ↦ advance-Change c codec s s' b b' r (ground arith)
  ]

  -- What a mutation, or several, may do to a store.
  pub record Keeps (s t : HeadStore) : Type 0 where
    pub validity : IsValid c codec s → IsValid c codec t
    pub growth : Grows s t

  Keeps-refl : (s : HeadStore) → Keeps s s
  Keeps-refl s = record { validity = λ v. v; growth = Grows-refl s }

  Keeps-trans : (s t u : HeadStore) → Keeps s t → Keeps t u → Keeps s u
  Keeps-trans s t u k l = record {
    validity = λ v. l.validity (k.validity v);
    growth = Grows-trans s t u k.growth l.growth;
  }

  pub Change-Keeps : (s t : HeadStore) (r : HeadRecord) → Change c codec s t r → Keeps s t
  Change-Keeps s t r d = record {
    validity = Change-IsValid c codec s t r d;
    growth = Change-Grows s t r d;
  }

  import_records-Keeps :
      (s : HeadStore) (b : Option Backend) (rs : List HeadRecord)
      → Keeps s (import_records c codec s b rs).0.0
  unfolding import_records
  import_records-Keeps s b [] = Keeps-refl s
  import_records-Keeps s b (r ∷ rs) = elim (Attempt-cases (import_one c codec s b r)) [
    | inl (x, e) ↦ rw (e, import_records) (Keeps-refl s)
    | inr ((s', b'), e) ↦
        rw (e, import_records)
          (Keeps-trans s s' _ (Change-Keeps s s' r (import_one-Change s s' b b' r e))
            (import_records-Keeps s' b' rs))
  ]

  import_rest-Keeps :
      (v : HeadVerification) (s : HeadStore) (b : Option Backend) (new : List HeadRecord)
      → Keeps s (import_rest c codec v s b new).0.0
  unfolding import_rest
  import_rest-Keeps (reject r) s b new = Keeps-refl s
  import_rest-Keeps (pass u) s b new = import_records-Keeps s b new

  -- An import, also one that fails half way, keeps every history a verified chain of one owner, and
  -- keeps every record that was there, in its place.
  pub import_chain-Keeps :
      (s : HeadStore) (b : Option Backend) (chain : List HeadRecord) (expected : Option Str)
      → Keeps s (import_chain c codec s b chain expected).0.0
  unfolding import_chain
  import_chain-Keeps s b [] expected = import_rest-Keeps _ s b []
  import_chain-Keeps s b (first ∷ rest) expected = import_rest-Keeps _ s b _
