-- ===== src/Examples.antt =====
-- Sample data for the tests: key pairs, operations, heads and logs.
pub mod Signed
pub mod Heads
pub mod Logs
pub mod Landings
pub mod Agents
pub mod Nonces
pub mod Authorities
use thaddeus.Prelude.{
  ℕ, ◌+◌, ◌%◌, length, Bool, true, false, Option, none, some, List, [], ◌∷◌, ◌++◌, Str, text, ◌==◌,
  if◌then◌else◌, nat_eq,
}
use thaddeus.Json.{stringify}
use thaddeus.Identity.{Crypto, Identity, PublicIdentity}
use thaddeus.Log.Op.{Env, Op, OpFields, Ref, signed_tuple}
use thaddeus.Log.Head as Head
use thaddeus.Log.Head.{HeadRecord, HeadFields, HeadChainOptions}
use thaddeus.Log.HeadStore.{HeadStore, Codec}
use thaddeus.Log.OpLog.{OpLog, StoreApi, Embargo}

-- A digest is the text itself, and a signature repeats its message.
abbrev pub plain_crypto : Crypto
plain_crypto = record {
  blake3_hex = λ m. m;
  base58_encode = λ b. b;
  base58_decode = λ s. some s;
  pk_to_curve = λ k. some k;
  verify_detached = λ sig m k. some (sig == m);
  sign_detached = λ m k. m;
}

abbrev pub plain_env : Env
plain_env = record { crypto = plain_crypto; date_parses = λ s. true }

abbrev pub ann_did : Str
ann_did = text "did:key:z" ++ 0xed ∷ 0x01 ∷ 7 ∷ []

abbrev pub ann : Identity
ann = record { ed_sk = 8 ∷ []; public = record { did = ann_did; ed_pk = 7 ∷ []; x_pk = 7 ∷ [] } }

abbrev pub ref_a : Ref
ref_a = record { id = text "r"; plaintext_id = text "p" }

abbrev pub first_fields : OpFields
first_fields = record {
  path = text "a";
  parents = [];
  lamport = 0;
  at = text "Z";
  payload = some ref_a;
}

abbrev pub signed_op : OpFields → Op
signed_op f = record {
  fields = f;
  id = stringify (signed_tuple plain_env f ann_did);
  author = ann_did;
  sig = stringify (signed_tuple plain_env f ann_did);
}

abbrev pub first_op : Op
first_op = signed_op first_fields

abbrev pub other_fields : OpFields
other_fields = record { path = text "b"; parents = []; lamport = 0; at = text "Z"; payload = none }

abbrev pub other_op : Op
other_op = signed_op other_fields

abbrev pub empty_log : OpLog
empty_log = record { ops = []; views = []; embargo = [] }

-- Short ids: `y` follows `x` on its path, and `z` stands beside them.
abbrev pub named : Str → Str → List Str → ℕ → Op
named id path parents lamport = record {
  fields = record {
    path = path;
    parents = parents;
    lamport = lamport;
    at = text "Z";
    payload = some ref_a;
  };
  id = id;
  author = ann_did;
  sig = [];
}

abbrev pub op_x : Op
op_x = named (text "x") (text "a") [] 0

abbrev pub op_y : Op
op_y = named (text "y") (text "a") (text "x" ∷ []) 1

abbrev pub op_z : Op
op_z = named (text "z") (text "a") [] 0

abbrev pub three_ops : OpLog
three_ops = record {
  ops = (text "x", op_x) ∷ (text "y", op_y) ∷ (text "z", op_z) ∷ [];
  views = (text "main", text "x" ∷ []) ∷ (text "dev", text "y" ∷ text "z" ∷ []) ∷ [];
  embargo = [];
}

-- A store that counts its puts, and releases every embargo.
abbrev pub counting_store : StoreApi ℕ
counting_store = record {
  put = λ n bytes by. some (ref_a, ℕ.suc n);
  schedule_reveal = λ n r until by. some n;
  caps = λ n id. [];
  reveal = λ n r now. some (true, n);
}

-- A digest of sixty-four characters that ends in the last digit of the text's length; every signature
-- is sixty-four bytes and good.
abbrev pub sixty_three : List ℕ
sixty_three = text "aaaaaaaaaaaaaaaaaaaaaaaaaaaaaaaaaaaaaaaaaaaaaaaaaaaaaaaaaaaaaaa"

abbrev pub digest_of : Str → Str
digest_of m = (48 + length m % 10) ∷ sixty_three

abbrev pub head_crypto : Crypto
head_crypto = record {
  blake3_hex = digest_of;
  base58_encode = λ b. b;
  base58_decode = λ s. some s;
  pk_to_curve = λ k. some k;
  verify_detached = λ sig m k. some true;
  sign_detached = λ m k. 48 ∷ sixty_three;
}

abbrev pub signed_head : HeadFields → HeadRecord
signed_head f = record {
  fields = f;
  id = digest_of (stringify (Head.signed_tuple f ann_did));
  owner = ann_did;
  sig = 48 ∷ sixty_three;
}

abbrev pub genesis : HeadRecord
genesis = signed_head (record {
  repo = text "r";
  view = text "main";
  version = 0;
  previous = none;
  heads = (48 ∷ sixty_three) ∷ [];
})

abbrev pub successor : HeadRecord
successor = signed_head (record {
  repo = text "r";
  view = text "main";
  version = 1;
  previous = some genesis.id;
  heads = (48 ∷ sixty_three) ∷ [];
})

abbrev pub head_options : HeadChainOptions
head_options = record { repo = none; view = none; owner = none; pins = none }

-- Only the successor is read back.
abbrev pub one_codec : Codec
one_codec = record {
  encode = λ r. r.version ∷ [];
  decode = λ bytes. elim bytes [
    | [] ↦ none
    | v ∷ vs ↦ if nat_eq v 0 then some genesis else some successor
  ];
}

abbrev pub empty_heads : HeadStore
empty_heads = record { repo = text "r"; owner = none; histories = [] }

abbrev pub started_heads : HeadStore
started_heads = record {
  repo = text "r";
  owner = some ann_did;
  histories = (text "main", genesis ∷ []) ∷ [];
}
