-- ===== src/Replay.antt =====
-- packages/persist/src/replay.ts: the nonces that are consumed at most once, with a min-heap of their
-- expiries for the cleanup. An array is a list, and an index out of range reads `undefined`.
pub mod Cleanup
pub mod Heap
pub mod Once
pub mod Tidy
use thaddeus.Prelude.{
  ℕ, zero, suc, ◌+◌, ◌-◌, ◌*◌, ◌/◌, Bool, true, false, ◌&&◌, ◌||◌, not, Option, none, some, List,
  [], ◌∷◌, ◌++◌, Str, ◌==◌, lt_str, if◌then◌else◌, ltb, leb, nat_eq, length, get_elem?, get_last?,
  take,
}
use thaddeus.Prelude.Dict.{Dict, get, put, remove, has, keys}
use thaddeus.Log.Op.{max_safe}
use thaddeus.Log.Head.{is_id}

pub record NonceExpiration : Type 0 where
  pub key : Str
  pub expires_at : ℕ

pub record ReplayNonceState : Type 0 where
  pub by_key : Dict ℕ
  pub expirations : List NonceExpiration

pub record ConsumeNonceInput : Type 0 where
  pub key : Str
  pub expires_at : ℕ
  pub now : ℕ
  pub capacity : ℕ

pub data ConsumeNonceResult : Type 0 where
  consumed replayed : (active_count cleaned_count : ℕ) → ConsumeNonceResult
  at_capacity : (active_count cleaned_count retry_at : ℕ) → ConsumeNonceResult

pub record ReplayNonceDecision : Type 0 where
  pub cleaned : List NonceExpiration
  pub consumed_record : Option NonceExpiration
  pub result : ConsumeNonceResult

abbrev pub max_replay_nonce_capacity : ℕ
max_replay_nonce_capacity = 1000000

-- Whether `validateConsumeNonceInput` returns.
unfoldable pub valid_input : ConsumeNonceInput → Bool
valid_input i =
    is_id i.key
    && leb i.now max_safe
    && (leb i.expires_at max_safe && leb i.now i.expires_at)
    && (leb i.capacity max_safe && ltb 0 i.capacity && leb i.capacity max_replay_nonce_capacity)

-- `compareExpiration(left, right) < 0`
unfoldable pub earlier : NonceExpiration → NonceExpiration → Bool
earlier l r =
    if nat_eq l.expires_at r.expires_at then lt_str l.key r.key else ltb l.expires_at r.expires_at

-- `heap[index] = value` within the array.
unfoldable pub set_at : List NonceExpiration → ℕ → NonceExpiration → List NonceExpiration
set_at [] i v = []
set_at (x ∷ xs) zero v = v ∷ xs
set_at (x ∷ xs) (suc i) v = x ∷ set_at xs i v

-- The loop of `pushExpiration`: the index at least halves, so `index` rounds are enough.
unfoldable pub sift_up : ℕ → List NonceExpiration → ℕ → NonceExpiration → List NonceExpiration
unfolding earlier set_at
sift_up zero heap index value = set_at heap index value
sift_up (suc fuel) heap zero value = set_at heap zero value
sift_up (suc fuel) heap (suc i) value =
    let parent = i / 2 in
    elim (get_elem? heap parent) [
      | none ↦ set_at heap (suc i) value
      | some p ↦
          let moved = sift_up fuel (set_at heap (suc i) p) parent value in
          if earlier value p then moved else set_at heap (suc i) value
    ]

unfoldable pub push_expiration : List NonceExpiration → NonceExpiration → List NonceExpiration
unfolding sift_up
push_expiration heap value = sift_up (length heap) (heap ++ value ∷ []) (length heap) value

-- The smaller child; `left` is in range.
smaller_child : List NonceExpiration → ℕ → NonceExpiration → ℕ
unfolding earlier
smaller_child heap left at_left = elim (get_elem? heap (left + 1)) [
  | none ↦ left
  | some at_right ↦ if earlier at_right at_left then left + 1 else left
]

-- The loop of `popExpiration`: the index more than doubles, so `heap.length` rounds are enough.
unfoldable pub sift_down : ℕ → List NonceExpiration → ℕ → NonceExpiration → List NonceExpiration
unfolding earlier set_at smaller_child
sift_down zero heap index last = set_at heap index last
sift_down (suc fuel) heap index last = elim (get_elem? heap (index * 2 + 1)) [
  | none ↦ set_at heap index last
  | some at_left ↦
      let child = smaller_child heap (index * 2 + 1) at_left in
      elim (get_elem? heap child) [
        | none ↦ set_at heap index last
        | some at_child ↦
            let moved = sift_down fuel (set_at heap index at_child) child last in
            if earlier at_child last then moved else set_at heap index last
      ]
]

-- What is popped, and the heap then. `heap.pop()` takes the last element off first.
unfoldable pub pop_expiration : List NonceExpiration → Option NonceExpiration × List NonceExpiration
unfolding sift_down
pop_expiration [] = (none, [])
pop_expiration (first ∷ rest) = elim (get_last? (first ∷ rest)) [
  | none ↦ (some first, rest)
  | some last ↦
      let heap = take (length rest) (first ∷ rest) in
      (some first, if nat_eq (length heap) 0 then heap else sift_down (length heap) heap 0 last)
]

-- The entry leaves the map if it is the one that was popped.
unfoldable pub drop_expired :
    ReplayNonceState → NonceExpiration → List NonceExpiration → Dict ℕ × List NonceExpiration
drop_expired s e cleaned =
    if elim (get s.by_key e.key) [ none ↦ false | some t ↦ nat_eq t e.expires_at ]
    then (remove s.by_key e.key, cleaned ++ e ∷ [])
    else (s.by_key, cleaned)

-- One round of the loop of `consumeNonceState`; `none` when it breaks.
unfoldable pub clean_round :
    ℕ → ReplayNonceState → List NonceExpiration → Option (ReplayNonceState × List NonceExpiration)
unfolding drop_expired
clean_round now s cleaned = elim s.expirations [
  | [] ↦ none
  | first ∷ rest ↦
      if leb now first.expires_at
      then none
      else let (popped, heap) = pop_expiration (first ∷ rest) in
        elim popped [
          | none ↦ some (record s { expirations = heap }, cleaned)
          | some e ↦
              let (by_key, cleaned') = drop_expired s e cleaned in
              some (record { by_key = by_key; expirations = heap }, cleaned')
        ]
]

-- The loop. `none`: it has not ended.
unfoldable pub clean :
    ℕ
    → ℕ
    → ReplayNonceState
    → List NonceExpiration
    → Option (ReplayNonceState × List NonceExpiration)
clean zero now s cleaned = elim (clean_round now s cleaned) [
  | none ↦ some (s, cleaned)
  | some _ ↦ none
]
clean (suc fuel) now s cleaned = elim (clean_round now s cleaned) [
  | none ↦ some (s, cleaned)
  | some (s', cleaned') ↦ clean fuel now s' cleaned'
]

-- A call returns a decision, throws on its input or on an inconsistent index, or has not ended.
pub data ConsumeEnd : Type 0 where
  decided : ReplayNonceState → ReplayNonceDecision → ConsumeEnd
  inconsistent : ReplayNonceState → ConsumeEnd
  invalid_input unfinished : ConsumeEnd

-- What follows the loop.
unfoldable pub settle : ReplayNonceState → List NonceExpiration → ConsumeNonceInput → ConsumeEnd
settle s cleaned i =
    let active = length (keys s.by_key) in
    let cleaned_count = length cleaned in
    if has s.by_key i.key
    then decided s (record {
      cleaned = cleaned;
      consumed_record = none;
      result = replayed active cleaned_count;
    })
    else if leb i.capacity active
    then elim s.expirations [
      | [] ↦ inconsistent s
      | first ∷ rest ↦ decided s (record {
        cleaned = cleaned;
        consumed_record = none;
        result = at_capacity active cleaned_count (first.expires_at + 1);
      })
    ]
    else let r : NonceExpiration = record { key = i.key; expires_at = i.expires_at } in
      let s' : ReplayNonceState = record {
        by_key = put s.by_key i.key i.expires_at;
        expirations = push_expiration s.expirations r;
      } in
      decided s' (record {
        cleaned = cleaned;
        consumed_record = some r;
        result = consumed (length (keys s'.by_key)) cleaned_count;
      })

unfoldable pub consume_nonce_state : ReplayNonceState → ConsumeNonceInput → ConsumeEnd
unfolding settle valid_input clean
consume_nonce_state s i =
    if valid_input i
    then elim (clean (length s.expirations) i.now s []) [
      | none ↦ unfinished
      | some (s', cleaned) ↦ settle s' cleaned i
    ]
    else invalid_input
