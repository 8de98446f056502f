-- ===== src/Log/HeadStore/Invariant.antt =====
-- Every history of a head store is a verified chain of one owner, and stays so.
use thaddeus.Prelude.{
  ◌≡◌, ◌≢◌, refl, inl, inr, ◌⊎◌, Option, none, some, List, [], ◌∷◌, ◌++◌, Str, length, arith,
  Option-cases,
}
use thaddeus.Prelude.Dict.{Dict, get, put, get-put}
use thaddeus.Identity.{Crypto}
use thaddeus.Log.Head.{
  HeadRecord, HeadChainOptions, valid, or_else, verify_head_chain, check_prefix,
}
use thaddeus.Log.HeadStore.{
  HeadStore, Backend, Codec, Attempt, did, failed, ◌>>=◌, expecting, publish, bootstrap, append,
  advance,
}

pub >>=-eq-did {ℓ κ} :
    {A : Type ℓ} {B : Type κ} (m : Attempt A) (f : A → Attempt B) {b : B}
    → (m >>= f) ≡ did b
    → (a : A) × (m ≡ did a) × (f a ≡ did b)
>>=-eq-did (did a) f h = (a, refl, h)
>>=-eq-did (failed e) f h = cc

module _ (c : Crypto) (codec : Codec) where
  -- The history of a view is a chain that `verifyHeadChain` accepts for this repository, this view
  -- and the store's owner.
  abbrev pub Verified : HeadStore → Str → List HeadRecord → Type 0
  Verified s view h =
      (o : Str) × (s.owner ≡ some o)
      × (verify_head_chain c h (expecting s view (some o) none) ≡ valid)

  pub record IsValid (s : HeadStore) : Type 0 where
    pub chains :
        (view : Str) (h : List HeadRecord) → get s.histories view ≡ some h → Verified s view h

  -- What a mutation that returns does to the store.
  pub data Change (s s' : HeadStore) (r : HeadRecord) : Type 0 where
    kept : s' ≡ s → Change s s' r
    started :
        get s.histories r.view ≡ none
        → verify_head_chain c (r ∷ []) (expecting s r.view s.owner none) ≡ valid
        → s' ≡ publish c codec s r (r ∷ [])
        → Change s s' r
    extended :
        (h : List HeadRecord)
        → get s.histories r.view ≡ some h
        → verify_head_chain c (h ++ r ∷ []) (expecting s r.view s.owner (some h)) ≡ valid
        → r.version ≡ length h
        → s' ≡ record s { histories = put s.histories r.view (h ++ r ∷ []) }
        → Change s s' r

  pub bootstrap-Change :
      (s s' : HeadStore) (b b' : Option Backend) (r : HeadRecord)
      → bootstrap c codec s b r ≡ did (s', b')
      → Change s s' r
  unfolding bootstrap
  bootstrap-Change s s' b b' r e = elim (Option-cases (get s.histories r.view)) [
    | inl absent ↦ started absent (ground arith) (ground arith)
    | inr (h, there) ↦ kept (ground arith)
  ]

  append-Change :
      (s s' : HeadStore) (b b' : Option Backend) (r : HeadRecord) (h : List HeadRecord)
      → get s.histories r.view ≡ some h
      → append c codec s b r h ≡ did (s', b')
      → Change s s' r
  unfolding append
  append-Change s s' b b' r h there e =
      extended h there (ground arith) (ground arith) (ground arith)

  advance_cases :
      (s s' : HeadStore) (b b' : Option Backend) (r : HeadRecord) (h : List HeadRecord)
      → get s.histories r.view ≡ some h
      → advance c codec s b r ≡ did (s', b')
      → (s' ≡ s) ⊎ (append c codec s b r h ≡ did (s', b'))
  unfolding advance
  advance_cases s s' b b' r h there e = ground arith

  advance_known :
      (s : HeadStore) (b : Option Backend) (r : HeadRecord) {t : HeadStore × Option Backend}
      → advance c codec s b r ≡ did t
      → get s.histories r.view ≢ none
  unfolding advance
  advance_known s b r e absent = ground arith

  pub advance-Change :
      (s s' : HeadStore) (b b' : Option Backend) (r : HeadRecord)
      → advance c codec s b r ≡ did (s', b')
      → Change s s' r
  advance-Change s s' b b' r e = elim (Option-cases (get s.histories r.view)) [
    | inl absent ↦ absurd (advance_known s b r e absent)
    | inr (h, there) ↦ elim (advance_cases s s' b b' r h there e) [
      | inl same ↦ kept same
      | inr done ↦ append-Change s s' b b' r h there done
    ]
  ]

  -- A chain accepted with pins is accepted without.
  unpinned :
      (chain : List HeadRecord) (o : HeadChainOptions)
      → verify_head_chain c chain o ≡ valid
      → verify_head_chain c chain (record o { pins = none }) ≡ valid
  unfolding verify_head_chain check_prefix
  unpinned [] o e = cc
  unpinned (first ∷ rest) o e = ground arith

  -- The owner of a genesis record is taken over by a store that has none.
  adopts :
      (s : HeadStore) (r : HeadRecord)
      → verify_head_chain c (r ∷ []) (expecting s r.view s.owner none) ≡ valid
      → verify_head_chain c (r ∷ []) (expecting s r.view (some (or_else s.owner r.owner)) none)
        ≡ valid
  unfolding verify_head_chain
  adopts s r e = ground arith

  Verified-other :
      (s s' : HeadStore) (view : Str) (h : List HeadRecord)
      → s'.repo ≡ s.repo
      → ((o : Str) → s.owner ≡ some o → s'.owner ≡ some o)
      → Verified s view h
      → Verified s' view h
  Verified-other s s' view h repo owner (o, e, v) = (o, owner o e, rw repo v)

  put_cases :
      (m : Dict (List HeadRecord)) (k view : Str) (x h : List HeadRecord)
      → get (put m k x) view ≡ some h
      → ((k ≡ view) × (x ≡ h)) ⊎ (get m view ≡ some h)
  put_cases m k view x h g = ground (arith, get-put m k view x)

  pub Change-IsValid : (s s' : HeadStore) (r : HeadRecord) → Change s s' r → IsValid s → IsValid s'
  unfolding publish
  Change-IsValid s s' r (kept e) v = rw e v
  Change-IsValid s s' r (started absent ok e) v = rw e (record {
    chains = λ view h g. elim (put_cases s.histories r.view view (r ∷ []) h g) [
      | inl (k, x) ↦ (or_else s.owner r.owner, refl, cc (adopts s r ok))
      | inr old ↦ let (o, q, z) = v.chains view h old in (o, ground arith, z)
    ];
  })
  Change-IsValid s s' r (extended own there ok n e) v = rw e (record {
    chains = λ view h g. elim (put_cases s.histories r.view view (own ++ r ∷ []) h g) [
      | inl (k, x) ↦
          let (o, q, z) = v.chains r.view own there in
          (o, q, cc (unpinned (own ++ r ∷ []) (expecting s r.view s.owner (some own)) ok))
      | inr old ↦ v.chains view h old
    ];
  })

  -- If every history of a store is a chain that verifies for the store's repository, its view and the
  -- store's owner, then so it is after a bootstrap that returns.
  pub bootstrap-IsValid :
      (s s' : HeadStore) (b b' : Option Backend) (r : HeadRecord)
      → IsValid s
      → bootstrap c codec s b r ≡ did (s', b')
      → IsValid s'
  bootstrap-IsValid s s' b b' r v e = Change-IsValid s s' r (bootstrap-Change s s' b b' r e) v

  -- If every history of a store is a chain that verifies for the store's repository, its view and the
  -- store's owner, then so it is after an advance that returns.
  pub advance-IsValid :
      (s s' : HeadStore) (b b' : Option Backend) (r : HeadRecord)
      → IsValid s
      → advance c codec s b r ≡ did (s', b')
      → IsValid s'
  advance-IsValid s s' b b' r v e = Change-IsValid s s' r (advance-Change s s' b b' r e) v
