-- ===== src/Log/HeadStore.antt =====
-- packages/log/src/headstore.ts: the histories of signed heads, in memory and written through to a
-- backend that several stores may share. `load` is left out. Mutations run one after another
-- (`#serialize`), so a mutation is a function of the store and the backend. The backend has
-- `putIfAbsent`, does not throw, and keeps the records that are there. The fallback of `#write` for a
-- backend without it is left out: its `get` and `put` are two calls, between which another store may
-- write.
pub mod Invariant
pub mod Growth
pub mod NoFork
pub mod Current
use thaddeus.Prelude.{
  ℕ, suc, ◌+◌, ◌-◌, Bool, true, false, not, Option, none, some, List, [], ◌∷◌, ◌++◌, Str, text,
  ◌==◌, if◌then◌else◌, leb, ltb, nat_eq, length, get_last?, drop, sort,
}
use thaddeus.Prelude.Dict.{Dict, get, put, has, keys}
use thaddeus.Json.{pad}
use thaddeus.Uri.{encode_uri_component}
use thaddeus.Identity.{Crypto}
use thaddeus.Log.Head.{
  HeadRecord, HeadChainOptions, HeadVerification, HeadRejectionCode, Rejection, Checked, pass,
  reject, valid, or_else, verify_head, verify_head_chain, gap, fork, rollback,
}

abbrev pub Bytes : Type 0
Bytes = List ℕ

abbrev pub Backend : Type 0
Backend = Dict Bytes

-- `encodeRecord` and `decodeRecord` of packages/store for head records; `none` is a throw.
pub record Codec : Type 0 where
  pub encode : HeadRecord → Bytes
  pub decode : Bytes → Option HeadRecord

pub record HeadStore : Type 0 where
  pub repo : Str
  pub owner : Option Str
  pub histories : Dict (List HeadRecord)

-- What a mutation throws: a HeadVerificationError, or an Error.
pub data Failure : Type 0 where
  rejected : Rejection → Failure
  uri_error corrupt_record : Failure

pub data Attempt {ℓ} (A : Type ℓ) : Type ℓ where
  did : A → Attempt A
  failed : Failure → Attempt A

infixl 5 ◌>>=◌ ◌>>◌
abbrev pub ◌>>=◌ {ℓ κ} : {A : Type ℓ} {B : Type κ} → Attempt A → (A → Attempt B) → Attempt B
did a >>= f = f a
failed e >>= f = failed e

abbrev pub ◌>>◌ {ℓ} : {B : Type ℓ} → Attempt (Unit {0}) → Attempt B → Attempt B
m >> k = m >>= λ _. k

-- `if (!verified.ok) fail(verified)`
abbrev pub lift : HeadVerification → Attempt (Unit {0})
lift (pass u) = did tt
lift (reject r) = failed (rejected r)

abbrev pub fail {ℓ} : {A : Type ℓ} → HeadRejectionCode → Attempt A
fail code = failed (rejected (record { code = code; index = none; id = none }))

-- `none` is the URIError of a view with a lone surrogate.
unfoldable pub key_for : Str → ℕ → Option Str
key_for view version = elim (encode_uri_component view) [
  | none ↦ none
  | some part ↦ some (text "head/" ++ part ++ text "/" ++ pad version 16)
]

abbrev pub history : HeadStore → Str → List HeadRecord
history s view = elim (get s.histories view) [ none ↦ [] | some h ↦ h ]

abbrev pub current : HeadStore → Str → Option HeadRecord
current s view = get_last? (history s view)

unfoldable pub views : HeadStore → List Str
views s = sort (keys s.histories)

abbrev pub expecting : HeadStore → Str → Option Str → Option (List HeadRecord) → HeadChainOptions
expecting s view owner pins = record {
  repo = some s.repo;
  view = some view;
  owner = owner;
  pins = pins;
}

module _ (c : Crypto) (codec : Codec) where
  -- The record that is there already: it must be the one that is written.
  unfoldable pub check_existing : HeadRecord → Bytes → Attempt (Unit {0})
  check_existing r bytes = elim (codec.decode bytes) [
    | none ↦ failed corrupt_record
    | some existing ↦ do
      lift (verify_head c existing)
      if existing.id == r.id then did tt else fail fork
  ]

  -- `#write`
  unfoldable pub write : HeadRecord → Option Backend → Attempt (Option Backend)
  unfolding check_existing
  write r none = did none
  write r (some b) = elim (key_for r.view r.version) [
    | none ↦ failed uri_error
    | some key ↦ elim (get b key) [
      | none ↦ did (some (put b key (codec.encode r)))
      | some bytes ↦ (do check_existing r bytes; did (some b))
    ]
  ]

  -- `this.#owner ??= record.owner; this.#histories.set(record.view, [...])`
  unfoldable pub publish : HeadStore → HeadRecord → List HeadRecord → HeadStore
  publish s r chain = record s {
    owner = some (or_else s.owner r.owner);
    histories = put s.histories r.view chain;
  }

  -- `#bootstrap`
  unfoldable pub bootstrap :
      HeadStore → Option Backend → HeadRecord → Attempt (HeadStore × Option Backend)
  unfolding publish
  bootstrap s b r = do
    lift (verify_head_chain c (r ∷ []) (expecting s r.view s.owner none))
    elim (get s.histories r.view) [
      | some h ↦ elim (get_last? h) [
        | none ↦ fail fork
        | some now ↦ if now.id == r.id then did (s, b) else fail fork
      ]
      | none ↦ (do b' ← write r b; did (publish s r (r ∷ []), b'))
    ]

  -- The end of `#advance`: the whole chain is verified, written and pushed.
  unfoldable pub append :
      HeadStore
      → Option Backend
      → HeadRecord
      → List HeadRecord
      → Attempt (HeadStore × Option Backend)
  append s b r h = do
    lift (verify_head_chain c (h ++ r ∷ []) (expecting s r.view s.owner (some h)))
    (if nat_eq r.version (length h)
        then did tt
        else (if ltb r.version (length h) then fail rollback else fail gap))
    b' ← write r b
    did (record s { histories = put s.histories r.view (h ++ r ∷ []) }, b')

  -- The tests of a record against the current one.
  unfoldable pub follows : HeadRecord → HeadRecord → Attempt (Unit {0})
  follows now r =
      if leb r.version now.version
      then (if nat_eq r.version now.version then fail fork else fail rollback)
      else if ltb (now.version + 1) r.version
      then fail gap
      else did tt

  -- `#advance`
  unfoldable pub advance :
      HeadStore → Option Backend → HeadRecord → Attempt (HeadStore × Option Backend)
  unfolding follows
  advance s b r = elim (get s.histories r.view) [
    | none ↦ fail gap
    | some h ↦ do
      lift (verify_head c r)
      elim (get_last? h) [
        | none ↦ append s b r h
        | some now ↦ if now.id == r.id then did (s, b) else (do follows now r; append s b r h)
      ]
  ]

  -- One turn of the loop of `import`.
  unfoldable pub import_one :
      HeadStore → Option Backend → HeadRecord → Attempt (HeadStore × Option Backend)
  import_one s b r = if nat_eq r.version 0 then bootstrap s b r else advance s b r

  -- The loop of `import`: what was published before a failure stays, so the state comes back too.
  unfoldable pub import_records :
      HeadStore → Option Backend → List HeadRecord → (HeadStore × Option Backend) × Option Failure
  import_records s b [] = ((s, b), none)
  import_records s b (r ∷ rs) = elim (import_one s b r) [
    | failed e ↦ ((s, b), some e)
    | did (s', b') ↦ import_records s' b' rs
  ]

  import_rest :
      HeadVerification
      → HeadStore
      → Option Backend
      → List HeadRecord
      → (HeadStore × Option Backend) × Option Failure
  import_rest (reject r) s b new = ((s, b), some (rejected r))
  import_rest (pass u) s b new = import_records s b new

  -- `import`
  unfoldable pub import_chain :
      HeadStore
      → Option Backend
      → List HeadRecord
      → Option Str
      → (HeadStore × Option Backend) × Option Failure
  unfolding import_rest
  import_chain s b [] expected =
      import_rest
        (verify_head_chain c [] (record {
          repo = some s.repo;
          view = none;
          owner = elim expected as (λ _. Option Str) [ none ↦ s.owner | some o ↦ some o ];
          pins = some [];
        }))
        s b []
  import_chain s b (first ∷ rest) expected =
      let local = history s first.view in
      let owner = elim expected as (λ _. Option Str) [ none ↦ s.owner | some o ↦ some o ] in
      import_rest (verify_head_chain c (first ∷ rest) (expecting s first.view owner (some local))) s
        b (drop (length local) (first ∷ rest))
