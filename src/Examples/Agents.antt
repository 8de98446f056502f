-- ===== src/Examples/Agents.antt =====
-- Tests on delegations, grants and nonces.
use mathlib.Core.List.Memᴰ.{head}
use thaddeus.Prelude.{
  ◌≡◌, ◌↔◌, refl, true, false, some, none, List, [], ◌∷◌, Str, text, member, length,
}
use thaddeus.Prelude.Texts.{str_dec}
use thaddeus.Prelude.Dict.{get, put}
use thaddeus.Json.{stringify}
use thaddeus.Identity.{signature_holds, starts_with}
use thaddeus.Paths.{match_glob, ends_with, chop, has_dot_dot}
use thaddeus.Paths.Globs.{Matches, match_glob_exact}
use thaddeus.Log.Op.{Op}
use thaddeus.Platform.{LandProposal}
use thaddeus.Agent.{
  Delegation, DelegationFields, canonical_delegation, verify_delegation, assert_canonical,
  signed_tuple,
}
use thaddeus.Agent.Registry.{
  AgentRegistry, new_registry, register, is_revoked, delegation_for, usage, accumulate,
  record_landing, push_landing, recent_changes, prune, total,
}
use thaddeus.Agent.Registry.Steps.{
  here, then_step, registers, IsVerified, Steps-IsVerified, Steps-is_revoked,
}
use thaddeus.Agent.Policy.{
  delegation_policy, check_scopes, scope_reason, check_budgets, budget_reason, rate_reason,
  count_by_agent,
}
use thaddeus.Agent.Policy.Enforced.{IsPermitted, IsWithin, counted, delegation_policy-allows}
use thaddeus.Authority.{Grant, pattern_covers, base, grant_covers, grants_cover, grants_subsume}
use thaddeus.Authority.Covers.{grants_subsume-cover}
use thaddeus.Examples.{plain_crypto, ann_did, op_x}

abbrev bob_fields : DelegationFields
bob_fields = record {
  agent = text "bob";
  paths = text "src/**" ∷ [];
  max_changes = 5;
  max_spend = 9;
  max_changes_per_hour = some 3;
}

abbrev bob_grant : Delegation
bob_grant = record {
  fields = bob_fields;
  operator = ann_did;
  sig = stringify (signed_tuple bob_fields ann_did);
}

abbrev with_bob : AgentRegistry
with_bob = record new_registry { grants = (text "bob", bob_grant) ∷ [] }

bob_registered : register plain_crypto new_registry bob_grant ≡ some with_bob
unfolding register verify_delegation canonical_delegation assert_canonical signed_tuple stringify
    signature_holds str_dec put
bob_registered = refl

Steps-IsVerified_example : IsVerified plain_crypto with_bob
Steps-IsVerified_example =
    Steps-IsVerified plain_crypto with_bob (then_step here (registers bob_grant bob_registered))

abbrev bob_revoked : AgentRegistry
bob_revoked = record new_registry { quarantine = text "bob" ∷ [] }

abbrev bob_back : AgentRegistry
bob_back = record with_bob { quarantine = text "bob" ∷ [] }

bob_registered_again : register plain_crypto bob_revoked bob_grant ≡ some bob_back
unfolding register verify_delegation canonical_delegation assert_canonical signed_tuple stringify
    signature_holds str_dec put
bob_registered_again = refl

bob_is_revoked : is_revoked bob_revoked (text "bob") ≡ true
unfolding is_revoked member str_dec
bob_is_revoked = refl

Steps-is_revoked_example : is_revoked bob_back (text "bob") ≡ true
Steps-is_revoked_example =
    Steps-is_revoked plain_crypto bob_revoked bob_back (text "bob")
      (then_step here (registers bob_grant bob_registered_again)) bob_is_revoked

abbrev bob_landed : AgentRegistry
bob_landed = record with_bob {
  meter = (text "bob", record { changes = 2; spend = 1 }) ∷ [];
  window = (text "bob", record { at = 10; changes = 2 } ∷ []) ∷ [];
}

bob_recorded : record_landing with_bob 10 (text "bob") 2 1 ≡ some bob_landed
unfolding record_landing accumulate push_landing usage get put str_dec prune
bob_recorded = refl

abbrev bob_op : Op
bob_op = record op_x { author = text "bob"; fields = record op_x.fields { path = text "src/a" } }

abbrev bob_proposal : LandProposal
bob_proposal = record {
  into = text "main";
  into_heads = [];
  incoming_heads = text "x" ∷ [];
  merged_heads = text "x" ∷ [];
  incoming_ops = bob_op ∷ [];
  conflicts = [];
}

bob_allowed : (delegation_policy bob_landed 20 none bob_proposal).0.allow ≡ true
unfolding delegation_policy check_scopes scope_reason check_budgets budget_reason rate_reason
    count_by_agent recent_changes prune total is_revoked delegation_for usage match_glob has_dot_dot
    ends_with chop starts_with get put member str_dec
bob_allowed = refl

delegation_policy-allows_example :
    (d : Delegation) × IsPermitted bob_landed bob_op d
    × IsWithin bob_landed 20
        (text "bob")
        d
        (length (counted none (text "bob") bob_proposal.incoming_ops))
delegation_policy-allows_example =
    delegation_policy-allows bob_landed 20 none bob_proposal bob_op bob_allowed (head refl) refl

match_glob_exact_example :
    (match_glob (text "src/**") (text "src/a") ≡ true)
    ↔ ((has_dot_dot (text "src/a") ≡ false) × Matches (text "src/**") (text "src/a"))
match_glob_exact_example = match_glob_exact (text "src/**") (text "src/a")

abbrev reads : Str → List Grant
reads path = record { repo = text "r"; scopes = text "read" ∷ []; paths = path ∷ [] } ∷ []

all_over_src : grants_subsume (reads (text "**")) (reads (text "src/**")) ≡ true
unfolding grants_subsume grants_cover grant_covers pattern_covers base ends_with chop starts_with
    member str_dec
all_over_src = refl

src_over_lib : grants_subsume (reads (text "src/**")) (reads (text "src/lib/**")) ≡ true
unfolding grants_subsume grants_cover grant_covers pattern_covers base ends_with chop starts_with
    member str_dec
src_over_lib = refl

lib_covers :
    grants_cover (reads (text "src/lib/**")) (text "r") (text "read") (text "src/lib/a") ≡ true
unfolding grants_cover grant_covers pattern_covers base ends_with chop starts_with member str_dec
lib_covers = refl

grants_subsume-cover_example :
    grants_cover (reads (text "src/**")) (text "r") (text "read") (text "src/lib/a") ≡ true
grants_subsume-cover_example =
    grants_subsume-cover (reads (text "src/**")) (reads (text "src/lib/**")) (text "r")
      (text "read") (text "src/lib/a") src_over_lib lib_covers
