-- ===== src/Log/HeadStore/Current.antt =====
-- What `advance` of packages/log/src/headstore.ts makes current.
use thaddeus.Prelude.{
  ◌≡◌, refl, ap, ◌∙◌, Option, none, some, List, [], ◌∷◌, ◌++◌, get_last?, arith, Option-cases, ◌⊎◌,
  inl, inr,
}
use thaddeus.Prelude.Dict.{get, put, get-put_self}
use thaddeus.Identity.{Crypto}
use thaddeus.Log.Head.{HeadRecord}
use thaddeus.Log.HeadStore.{HeadStore, Backend, Codec, did, append, advance, current}

get_last-append : (h : List HeadRecord) (r : HeadRecord) → get_last? (h ++ r ∷ []) ≡ some r
get_last-append [] r = refl
get_last-append (x ∷ []) r = refl
get_last-append (x ∷ y ∷ h) r = get_last-append (y ∷ h) r

module _ (c : Crypto) (codec : Codec) where
  append-history :
      (s s' : HeadStore) (b b' : Option Backend) (r : HeadRecord) (h : List HeadRecord)
      → append c codec s b r h ≡ did (s', b')
      → s' ≡ record s { histories = put s.histories r.view (h ++ r ∷ []) }
  unfolding append
  append-history s s' b b' r h e = ground arith

  append-current :
      (s s' : HeadStore) (b b' : Option Backend) (r : HeadRecord) (h : List HeadRecord)
      → append c codec s b r h ≡ did (s', b')
      → current s' r.view ≡ some r
  append-current s s' b b' r h e =
      let same = append-history s s' b b' r h e in
      let found = get-put_self s.histories r.view (h ++ r ∷ []) in
      ap (λ t. current t r.view) same
      ∙ ap (λ o. get_last? (elim o as (λ _. List HeadRecord) [ none ↦ [] | some h ↦ h ])) found
      ∙ get_last-append h r

  advance_paths :
      (s s' : HeadStore) (b b' : Option Backend) (r now : HeadRecord) (h : List HeadRecord)
      → get s.histories r.view ≡ some h
      → get_last? h ≡ some now
      → advance c codec s b r ≡ did (s', b')
      → ((now.id ≡ r.id) × (s' ≡ s)) ⊎ (append c codec s b r h ≡ did (s', b'))
  unfolding advance
  advance_paths s s' b b' r now h there last e = ground arith

  advance_fresh :
      (s s' : HeadStore) (b b' : Option Backend) (r : HeadRecord) (h : List HeadRecord)
      → get s.histories r.view ≡ some h
      → get_last? h ≡ none
      → advance c codec s b r ≡ did (s', b')
      → append c codec s b r h ≡ did (s', b')
  unfolding advance
  advance_fresh s s' b b' r h there last e = ground arith

  advance_unknown :
      (s : HeadStore) (b : Option Backend) (r : HeadRecord) {t : HeadStore × Option Backend}
      → get s.histories r.view ≡ none
      → advance c codec s b r ≡ did t
      → ⊥
  unfolding advance
  advance_unknown s b r absent e = ground arith

  -- After an advance that returns, the current record of the view is the one that was given, or one
  -- with its id.
  pub advance-current :
      (s s' : HeadStore) (b b' : Option Backend) (r : HeadRecord)
      → advance c codec s b r ≡ did (s', b')
      → (k : HeadRecord) × (current s' r.view ≡ some k) × (k.id ≡ r.id)
  advance-current s s' b b' r e = elim (Option-cases (get s.histories r.view)) [
    | inl absent ↦ absurd (advance_unknown s b r absent e)
    | inr (h, there) ↦ elim (Option-cases (get_last? h)) [
      | inl empty ↦
          (r, append-current s s' b b' r h (advance_fresh s s' b b' r h there empty e), refl)
      | inr (now, last) ↦ elim (advance_paths s s' b b' r now h there last e) [
        | inl (same, kept) ↦ (now, ap (λ t. current t r.view) kept ∙ cc (there, last), same)
        | inr went ↦ (r, append-current s s' b b' r h went, refl)
      ]
    ]
  ]
