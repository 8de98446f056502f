-- ===== src/Examples/Heads.antt =====
-- Tests on chains of heads and on head stores.
use thaddeus.Prelude.Texts.{str_dec, lt_str}
use thaddeus.Json.{stringify, decimal, pad}
use thaddeus.Uri.{encode_uri_component}
use thaddeus.Identity.{signature_holds}
use thaddeus.Prelude.{◌≡◌, ◌↔◌, refl, true, some, none, List, [], ◌∷◌, Str, text, member, arith, ℕ}
use thaddeus.Prelude.Dict.{get, put}
use thaddeus.Log.Head.{HeadRecord, valid, binding, verify_head, verify_head_chain, HeadChainOptions}
use thaddeus.Log.Head.Chain.{IsChain}
use thaddeus.Log.Head.Pins.{Extends}
use thaddeus.Log.Head.Accepted.{verify_head_chain_exact, accepted_keeps_heads}
use thaddeus.Log.Head.Snapshot.{verify_head_snapshot}
use thaddeus.Log.Head.Snapshot.Exact.{IsClosure, verify_head_snapshot_exact}
use thaddeus.Log.HeadStore.{
  HeadStore, did, bootstrap, append, advance, import_chain, key_for, write,
}
use thaddeus.Log.HeadStore.Invariant.{IsValid, bootstrap-IsValid}
use thaddeus.Log.HeadStore.Growth.{Keeps, import_chain-Keeps}
use thaddeus.Log.HeadStore.NoFork.{IsNew, publish_no_fork, starts, done}
use thaddeus.Examples.{
  plain_env, head_crypto, genesis, successor, head_options, one_codec, empty_heads, started_heads,
  sixty_three, first_op,
}

chain : List HeadRecord
chain = genesis ∷ successor ∷ []

abbrev advanced_heads : HeadStore
advanced_heads = record started_heads { histories = (text "main", genesis ∷ successor ∷ []) ∷ [] }

chain_valid : verify_head_chain head_crypto (genesis ∷ successor ∷ []) head_options ≡ valid
unfolding verify_head_chain thaddeus.Log.Head.check_chain thaddeus.Log.Head.check_record verify_head
    thaddeus.Log.Head.is_id thaddeus.Log.Head.canonical_head thaddeus.Log.Head.assert_canonical
    thaddeus.Log.Head.signed_tuple stringify signature_holds str_dec lt_str member
    thaddeus.Log.Head.check_link thaddeus.Log.Head.check_prefix
chain_valid = refl

verify_head_chain_exact_example :
    (verify_head_chain head_crypto (genesis ∷ successor ∷ []) head_options ≡ valid)
    ↔ IsChain head_crypto (binding head_options genesis) (genesis ∷ successor ∷ [])
      × Extends head_crypto (genesis ∷ successor ∷ []) none
verify_head_chain_exact_example =
    verify_head_chain_exact head_crypto head_options genesis (successor ∷ [])

accepted_keeps_heads_example : member (48 ∷ sixty_three) successor.heads ≡ true
accepted_keeps_heads_example =
    accepted_keeps_heads head_crypto head_options (genesis ∷ successor ∷ []) 0 1 genesis successor
      chain_valid refl refl (48 ∷ sixty_three) (unfold member in ground arith)

verify_head_snapshot_exact_example :
    (verify_head_snapshot plain_env genesis (first_op ∷ []) ≡ valid)
    ↔ (verify_head plain_env.crypto genesis ≡ valid)
      × IsClosure plain_env genesis.heads (first_op ∷ [])
verify_head_snapshot_exact_example = verify_head_snapshot_exact plain_env genesis (first_op ∷ [])

empty_heads-IsValid : IsValid head_crypto one_codec empty_heads
unfolding get
empty_heads-IsValid = record { chains = λ view h e. absurd (ground arith) }

bootstrapped : bootstrap head_crypto one_codec empty_heads none genesis ≡ did (started_heads, none)
unfolding bootstrap verify_head_chain thaddeus.Log.Head.check_chain thaddeus.Log.Head.check_record
    verify_head thaddeus.Log.Head.is_id thaddeus.Log.Head.canonical_head
    thaddeus.Log.Head.assert_canonical thaddeus.Log.Head.signed_tuple stringify signature_holds
    str_dec lt_str member thaddeus.Log.Head.check_link thaddeus.Log.Head.check_prefix get put
    key_for encode_uri_component decimal pad write
bootstrapped = refl

started_heads-IsValid : IsValid head_crypto one_codec started_heads
started_heads-IsValid =
    bootstrap-IsValid head_crypto one_codec empty_heads started_heads none none genesis
      empty_heads-IsValid bootstrapped

advanced : advance head_crypto one_codec started_heads none successor ≡ did (advanced_heads, none)
unfolding advance append verify_head_chain thaddeus.Log.Head.check_chain
    thaddeus.Log.Head.check_record verify_head thaddeus.Log.Head.is_id
    thaddeus.Log.Head.canonical_head thaddeus.Log.Head.assert_canonical
    thaddeus.Log.Head.signed_tuple stringify signature_holds str_dec lt_str member
    thaddeus.Log.Head.check_link thaddeus.Log.Head.check_prefix get put key_for encode_uri_component
    decimal write
advanced = refl

import_chain-Keeps_example :
    Keeps head_crypto one_codec empty_heads
      (import_chain head_crypto one_codec empty_heads none (genesis ∷ successor ∷ []) none).0.0
import_chain-Keeps_example =
    import_chain-Keeps head_crypto one_codec empty_heads none (genesis ∷ successor ∷ []) none

abbrev written : List (Str × List ℕ)
written = (text "head/main/0000000000000000", 0 ∷ []) ∷ []

begun :
    bootstrap head_crypto one_codec empty_heads (some []) genesis
    ≡ did (started_heads, some written)
unfolding bootstrap verify_head_chain thaddeus.Log.Head.check_chain thaddeus.Log.Head.check_record
    verify_head thaddeus.Log.Head.is_id thaddeus.Log.Head.canonical_head
    thaddeus.Log.Head.assert_canonical thaddeus.Log.Head.signed_tuple stringify signature_holds
    str_dec lt_str member thaddeus.Log.Head.check_link thaddeus.Log.Head.check_prefix get put
    key_for encode_uri_component decimal pad write
begun = refl

begun_again :
    bootstrap head_crypto one_codec empty_heads (some written) genesis
    ≡ did (started_heads, some written)
unfolding bootstrap verify_head_chain thaddeus.Log.Head.check_chain thaddeus.Log.Head.check_record
    verify_head thaddeus.Log.Head.is_id thaddeus.Log.Head.canonical_head
    thaddeus.Log.Head.assert_canonical thaddeus.Log.Head.signed_tuple stringify signature_holds
    str_dec lt_str member thaddeus.Log.Head.check_link thaddeus.Log.Head.check_prefix get put
    key_for encode_uri_component decimal pad write
begun_again = refl

genesis-IsNew : IsNew head_crypto one_codec empty_heads genesis
unfolding get
genesis-IsNew now e = ground arith

publish_no_fork_example : genesis.id ≡ genesis.id
publish_no_fork_example =
    publish_no_fork head_crypto one_codec [] written written written genesis genesis refl
      (starts empty_heads started_heads genesis genesis-IsNew begun) (done written)
      (starts empty_heads started_heads genesis genesis-IsNew begun_again) refl refl
