-- ===== src/Platform/Policy.antt =====
-- packages/platform/src/policy.ts: the policies that gate a landing. The provenance, reputation and
-- review logs are arguments. A policy's constructor that may throw a RangeError gives an Option.
pub mod Gates
use thaddeus.Prelude.{
  ℕ, Bool, true, false, ◌&&◌, ◌||◌, not, Option, none, some, List, [], ◌∷◌, ◌++◌, Str, text, ◌==◌,
  if◌then◌else◌, nat_eq, leb, ltb, member, length, any, all, keep, map, unique,
}
use thaddeus.Json.{decimal}
use thaddeus.Log.Op.{Op}
use thaddeus.Log.OpLog.Conflicts.{Conflict}
use thaddeus.Paths.{has_dot_dot, match_glob, supported_path_glob}
use thaddeus.Platform.{LandProposal, LandDecision, LandPolicy}

abbrev pub allowed : LandDecision
allowed = record { allow = true; reason = none }

unfoldable pub allow_all : LandPolicy
allow_all p = allowed

-- `texts.join(separator)`
join : Str → List Str → Str
join sep [] = []
join sep (s ∷ []) = s
join sep (s ∷ t ∷ ss) = s ++ sep ++ join sep (t ∷ ss)

unfoldable pub block_on_conflict : LandPolicy
unfolding join
block_on_conflict p = if nat_eq (length p.conflicts) 0 then allowed else record {
  allow = false;
  reason = some (
      decimal (length p.conflicts)
      ++ text " conflict(s): "
      ++ join (text ", ") (map (λ c. c.path) p.conflicts));
}

-- The shape that the other policies share: the operations that offend are filtered out, and there must
-- be none. The reason is their number between two texts.
unfoldable pub none_of : Str → Str → (Op → Bool) → LandPolicy
none_of before after offends p =
    let offending = keep offends p.incoming_ops in
    if nat_eq (length offending) 0
    then allowed
    else record { allow = false; reason = some (before ++ decimal (length offending) ++ after) }

-- What the policies read of a provenance log: the records of an operation, with the actor's kind and
-- whether the status is `verified`.
pub record ProvenanceLog : Type 0 where
  pub for_op : Str → List (Str × Bool)

unfoldable pub require_verified_provenance : ProvenanceLog → LandPolicy
require_verified_provenance prov =
    none_of [] (text " op(s) lack a verified provenance record")
      (λ op. not (any (λ (kind, verified). verified) (prov.for_op op.id)))

-- `reps.profile(author, trustedHosts).byKind.merge` is the first argument.
unfoldable pub require_reputation_tier : (Str → ℕ) → ℕ → LandPolicy
require_reputation_tier merges min_merges =
    none_of []
      (text " op(s) authored below the required tier ("
        ++ decimal min_merges
        ++ text " attested merge(s))")
      (λ op. ltb (merges op.author) min_merges)

unfoldable pub require_passing_checks : ProvenanceLog → List Str → Option LandPolicy
unfolding join
require_passing_checks prov kinds =
    if nat_eq (length kinds) 0
    then none
    else some (
        none_of [] (text " op(s) lack a verified check from " ++ join (text "/") (unique kinds))
          (λ op. not (any (λ (kind, verified). member kind kinds && verified) (prov.for_op op.id))))

-- What the policies read of a veto log: the vetoes of an operation and whether one is `verified`.
pub record VetoLog (V : Type 0) : Type 0 where
  pub for_op : Str → List V
  pub verified : V → Bool
  pub reviewer : V → Str

unfoldable pub block_on_veto : {V : Type 0} → VetoLog V → List Str → (V → Op → Bool) → LandPolicy
block_on_veto vetoes reviewers authorized = none_of [] (text " op(s) under a standing veto") (λ op.
    any (λ v. vetoes.verified v && member (vetoes.reviewer v) reviewers && authorized v op)
      (vetoes.for_op op.id))

unfoldable pub standing_query : Str → (Op → Bool) → Option LandPolicy
standing_query name forbid =
    if nat_eq (length name) 0
    then none
    else some (
        none_of (text "standing query \"" ++ name ++ text "\": ")
          (text " op(s) violate the invariant") forbid)

-- What `restrictPaths` forbids.
unfoldable pub touches_protected : List Str → Op → Bool
touches_protected protect op = has_dot_dot op.path || any (λ glob. match_glob glob op.path) protect

unfoldable pub restrict_paths : List Str → List Str → Option Str → Option LandPolicy
unfolding join
restrict_paths protect allow name =
    if nat_eq (length protect) 0 || any has_dot_dot protect || not (all supported_path_glob protect)
    then none
    else standing_query
        (elim name as (λ _. Str) [
          | none ↦ text "protect " ++ join (text ", ") protect
          | some n ↦ n
        ])
        (λ op. touches_protected protect op && not (member op.author allow))
