-- ===== src/Log/HeadStore/NoFork.antt =====
-- Stores that share a backend never publish two records at one version of a view
-- (packages/log/src/headstore.ts, `#write`).
use thaddeus.Prelude.{
  ℕ, get_last?, ◌≡◌, ◌≢◌, refl, inl, inr, ◌⊎◌, none, some, List, Str, arith, Option-cases,
}
use thaddeus.Prelude.Dict.{get, put, get-put}
use thaddeus.Identity.{Crypto}
use thaddeus.Log.Head.{HeadRecord}
use thaddeus.Log.HeadStore.{
  HeadStore, Backend, Codec, did, key_for, check_existing, write, bootstrap, append, advance,
  current,
}

-- `decodeRecord` gives back the record that `encodeRecord` was given.
abbrev pub RoundTrips : Codec → HeadRecord → Type 0
RoundTrips codec r = codec.decode (codec.encode r) ≡ some r

module _ (c : Crypto) (codec : Codec) where
  -- The backend holds a record with this id at the place of `r`.
  pub record Holds (b : Backend) (r : HeadRecord) : Type 0 where
    pub key : Str
    pub place : key_for r.view r.version ≡ some key
    pub stored : HeadRecord
    pub decodes : (bytes : List ℕ) × (get b key ≡ some bytes) × (codec.decode bytes ≡ some stored)
    pub same : stored.id ≡ r.id

  existing-same :
      (r : HeadRecord) (bytes : List ℕ)
      → check_existing c codec r bytes ≡ did tt
      → (x : HeadRecord) × (codec.decode bytes ≡ some x) × (x.id ≡ r.id)
  unfolding check_existing
  existing-same r bytes e = ground arith

  data Wrote (r : HeadRecord) (b b' : Backend) : Type 0 where
    created :
        (key : Str)
        → key_for r.view r.version ≡ some key
        → get b key ≡ none
        → b' ≡ put b key (codec.encode r)
        → Wrote r b b'
    found :
        (key : Str) (bytes : List ℕ)
        → key_for r.view r.version ≡ some key
        → get b key ≡ some bytes
        → check_existing c codec r bytes ≡ did tt
        → b' ≡ b
        → Wrote r b b'

  write_keyed :
      (r : HeadRecord) (b b' : Backend)
      → write c codec r (some b) ≡ did (some b')
      → key_for r.view r.version ≢ none
  unfolding write
  write_keyed r b b' e absent = ground arith

  write-Wrote :
      (r : HeadRecord) (b b' : Backend) → write c codec r (some b) ≡ did (some b') → Wrote r b b'
  unfolding write
  write-Wrote r b b' e = elim (Option-cases (key_for r.view r.version)) [
    | inl absent ↦ absurd (write_keyed r b b' e absent)
    | inr (key, k) ↦ elim (Option-cases (get b key)) [
      | inl free ↦ created key k free (ground arith)
      | inr (bytes, there) ↦ found key bytes k there (ground arith) (ground arith)
    ]
  ]

  write-Holds : (r : HeadRecord) (b b' : Backend) → RoundTrips codec r → Wrote r b b' → Holds b' r
  write-Holds r b b' round (created key k free e) = record {
    key = key;
    place = k;
    stored = r;
    decodes = (codec.encode r, ground (arith, e, get-put b key key (codec.encode r)), round);
    same = refl;
  }
  write-Holds r b b' round (found key bytes k there ok e) =
      let (x, d, same) = existing-same r bytes ok in
      record { key = key; place = k; stored = x; decodes = (bytes, rw e there, d); same = same }

  -- What a backend holds is never overwritten.
  Holds-write : (r q : HeadRecord) (b b' : Backend) → Holds b r → Wrote q b b' → Holds b' r
  Holds-write r q b b' h (created key k free e) =
      let (bytes, g, d) = h.decodes in
      record {
        key = h.key;
        place = h.place;
        stored = h.stored;
        decodes = (bytes, ground (arith, e, g, get-put b key h.key (codec.encode q)), d);
        same = h.same;
      }
  Holds-write r q b b' h (found key bytes k there ok e) = rw e h

  Holds-same :
      (r q : HeadRecord) (b b' : Backend)
      → Holds b r
      → Wrote q b b'
      → q.view ≡ r.view
      → q.version ≡ r.version
      → q.id ≡ r.id
  Holds-same r q b b' h (created key k free e) view version =
      let (bytes, g, d) = h.decodes in ground (arith, h.place, g)
  Holds-same r q b b' h (found key bytes k there ok e) view version =
      let (x, d', same) = existing-same q bytes ok in
      let (bytes', g, d) = h.decodes in ground (arith, h.place, h.same, g, d, d', same)

  -- Mutations of any stores over one backend, in any order.
  pub data Run : Backend → Backend → Type 0 where
    done : (b : Backend) → Run b b
    boots :
        {b b' b'' : Backend} (s s' : HeadStore) (q : HeadRecord)
        → bootstrap c codec s (some b) q ≡ did (s', some b')
        → Run b' b''
        → Run b b''
    advances :
        {b b' b'' : Backend} (s s' : HeadStore) (q : HeadRecord)
        → advance c codec s (some b) q ≡ did (s', some b')
        → Run b' b''
        → Run b b''

  bootstrap-write :
      (s s' : HeadStore) (b b' : Backend) (r : HeadRecord)
      → bootstrap c codec s (some b) r ≡ did (s', some b')
      → (b' ≡ b) ⊎ (write c codec r (some b) ≡ did (some b'))
  unfolding bootstrap
  bootstrap-write s s' b b' r e = ground arith

  advance-write :
      (s s' : HeadStore) (b b' : Backend) (r : HeadRecord)
      → advance c codec s (some b) r ≡ did (s', some b')
      → (b' ≡ b) ⊎ (write c codec r (some b) ≡ did (some b'))
  unfolding advance append
  advance-write s s' b b' r e = ground arith

  Holds-mutation :
      (r q : HeadRecord) (b b' : Backend)
      → (b' ≡ b) ⊎ (write c codec q (some b) ≡ did (some b'))
      → Holds b r
      → Holds b' r
  Holds-mutation r q b b' (inl e) h = rw e h
  Holds-mutation r q b b' (inr e) h = Holds-write r q b b' h (write-Wrote q b b' e)

  Holds-Run : (r : HeadRecord) {b b' : Backend} → Run b b' → Holds b r → Holds b' r
  Holds-Run r (done b) h = h
  Holds-Run r (boots {b} {b'} s s' q e rest) h =
      Holds-Run r rest (Holds-mutation r q b b' (bootstrap-write s s' b b' q e) h)
  Holds-Run r (advances {b} {b'} s s' q e rest) h =
      Holds-Run r rest (Holds-mutation r q b b' (advance-write s s' b b' q e) h)

  -- The record is not already the current one of its view in this store: publishing it writes.
  abbrev pub IsNew : HeadStore → HeadRecord → Type 0
  IsNew s r = (now : HeadRecord) → current s r.view ≡ some now → now.id ≢ r.id

  -- A store publishes a record that is new to it, the first of a view or a later one.
  pub data Publishes : Backend → Backend → HeadRecord → Type 0 where
    starts :
        {b b' : Backend} (s s' : HeadStore) (r : HeadRecord)
        → IsNew s r
        → bootstrap c codec s (some b) r ≡ did (s', some b')
        → Publishes b b' r
    continues :
        {b b' : Backend} (s s' : HeadStore) (r : HeadRecord)
        → IsNew s r
        → advance c codec s (some b) r ≡ did (s', some b')
        → Publishes b b' r

  bootstrap-new :
      (s s' : HeadStore) (b b' : Backend) (r : HeadRecord)
      → IsNew s r
      → bootstrap c codec s (some b) r ≡ did (s', some b')
      → write c codec r (some b) ≡ did (some b')
  unfolding bootstrap
  bootstrap-new s s' b b' r new e = elim (Option-cases (get s.histories r.view)) [
    | inl absent ↦ ground arith
    | inr (h, there) ↦ elim (Option-cases (get_last? h)) [
      | inl empty ↦ absurd (ground arith)
      | inr (now, last) ↦ let differs = new now (ground arith) in absurd (ground arith)
    ]
  ]

  advance-new :
      (s s' : HeadStore) (b b' : Backend) (r : HeadRecord)
      → IsNew s r
      → advance c codec s (some b) r ≡ did (s', some b')
      → write c codec r (some b) ≡ did (some b')
  unfolding advance append
  advance-new s s' b b' r new e = elim (Option-cases (get s.histories r.view)) [
    | inl absent ↦ absurd (ground arith)
    | inr (h, there) ↦ elim (Option-cases (get_last? h)) [
      | inl empty ↦ ground arith
      | inr (now, last) ↦ let differs = new now (ground arith) in ground arith
    ]
  ]

  Publishes-Wrote : {b b' : Backend} {r : HeadRecord} → Publishes b b' r → Wrote r b b'
  Publishes-Wrote {b} {b'} (starts s s' r new e) =
      write-Wrote r b b' (bootstrap-new s s' b b' r new e)
  Publishes-Wrote {b} {b'} (continues s s' r new e) =
      write-Wrote r b b' (advance-new s s' b b' r new e)

  -- A store publishes `r`, which the codec reads back as it wrote it; then any stores over the same
  -- backend make any mutations that return; then a store publishes `q` at the same version of the same
  -- view. Then `q` has the id of `r`. Either record may be the first of the view or a later one, and
  -- neither is the current record of the store that publishes it already. The backend has
  -- `putIfAbsent`.
  pub publish_no_fork :
      (b b₁ b₂ b₃ : Backend) (r q : HeadRecord)
      → RoundTrips codec r
      → Publishes b b₁ r
      → Run b₁ b₂
      → Publishes b₂ b₃ q
      → q.view ≡ r.view
      → q.version ≡ r.version
      → q.id ≡ r.id
  publish_no_fork b b₁ b₂ b₃ r q round first run second view version =
      let held = Holds-Run r run (write-Holds r b b₁ round (Publishes-Wrote first)) in
      Holds-same r q b₂ b₃ held (Publishes-Wrote second) view version
