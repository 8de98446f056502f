-- ===== src/Examples/Nonces.antt =====
-- Tests on nonces.
use thaddeus.Prelude.{ℕ, zero, suc, ◌≡◌, refl, true, some, none, [], ◌∷◌, arith}
use thaddeus.Prelude.Texts.{str_dec}
use thaddeus.Prelude.Dict.{get, put, keys}
use thaddeus.Replay.{
  ReplayNonceState, ConsumeNonceInput, ReplayNonceDecision, consumed, replayed, decided,
  consume_nonce_state, clean, clean_round, settle, valid_input, push_expiration, sift_up,
}
use thaddeus.Replay.Once.{no_call, one_more, consumed_once}
use thaddeus.Replay.Heap.{IsHeap}
use thaddeus.Replay.Heap.Live.{IsLive}
use thaddeus.Replay.Tidy.{Ends, consume_nonce_state-IsLive}
use thaddeus.Examples.{sixty_three}

abbrev no_nonces : ReplayNonceState
no_nonces = record { by_key = []; expirations = [] }

abbrev nonce_at : ℕ → ConsumeNonceInput
nonce_at now = record { key = 48 ∷ sixty_three; expires_at = 10; now = now; capacity = 3 }

abbrev one_nonce : ReplayNonceState
one_nonce = record {
  by_key = (48 ∷ sixty_three, 10) ∷ [];
  expirations = record { key = 48 ∷ sixty_three; expires_at = 10 } ∷ [];
}

abbrev consumption : ReplayNonceDecision
consumption = record {
  cleaned = [];
  consumed_record = some (record { key = 48 ∷ sixty_three; expires_at = 10 });
  result = consumed 1 0;
}

abbrev replay : ReplayNonceDecision
replay = record { cleaned = []; consumed_record = none; result = replayed 1 0 }

nonce_consumed : consume_nonce_state no_nonces (nonce_at 5) ≡ decided one_nonce consumption
unfolding consume_nonce_state valid_input clean clean_round settle push_expiration sift_up get put
    keys thaddeus.Log.Head.is_id str_dec
nonce_consumed = refl

nonce_replayed : consume_nonce_state one_nonce (nonce_at 10) ≡ decided one_nonce replay
unfolding consume_nonce_state valid_input clean clean_round settle push_expiration sift_up get put
    keys thaddeus.Log.Head.is_id str_dec
nonce_replayed = refl

consumed_once_example : (active : ℕ) × (cleaned : ℕ) × (replay.result ≡ replayed active cleaned)
consumed_once_example =
    consumed_once no_nonces one_nonce one_nonce one_nonce (nonce_at 5) (nonce_at 10) consumption
      replay 1 0 nonce_consumed refl
      (one_more (nonce_at 10) replay no_call (omega arith) nonce_replayed) nonce_replayed refl
      (omega arith)

-- One nonce that has expired at 5, and one that has not.
abbrev two_nonces : ReplayNonceState
two_nonces = record {
  by_key = (49 ∷ sixty_three, 3) ∷ (50 ∷ sixty_three, 10) ∷ [];
  expirations =
      record { key = 49 ∷ sixty_three; expires_at = 3 }
      ∷ record { key = 50 ∷ sixty_three; expires_at = 10 }
      ∷ [];
}

two_nonces-IsHeap : IsHeap two_nonces.expirations
two_nonces-IsHeap zero p v a b = ground arith
two_nonces-IsHeap (suc i) p v a b = absurd (ground arith)

nonce_valid : valid_input (nonce_at 5) ≡ true
unfolding valid_input thaddeus.Log.Head.is_id
nonce_valid = refl

consume_nonce_state-IsLive_example :
    (s' : ReplayNonceState) × Ends (consume_nonce_state two_nonces (nonce_at 5)) s'
    × IsHeap s'.expirations
    × IsLive 5 s'.expirations
consume_nonce_state-IsLive_example =
    consume_nonce_state-IsLive two_nonces (nonce_at 5) nonce_valid two_nonces-IsHeap
