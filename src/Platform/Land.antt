-- ===== src/Platform/Land.antt =====
-- `Repo.land` of packages/platform/src/platform.ts. It awaits the policy and the writes; nothing else
-- runs on the repository meanwhile (the class is not safe for concurrent use).
pub mod Effect
pub mod Landed
pub mod Gated
use thaddeus.Prelude.{
  ℕ, Bool, true, false, not, Option, none, some, List, [], ◌∷◌, ◌++◌, Str, text, if◌then◌else◌,
  nat_eq, length,
}
use thaddeus.Identity.{Crypto}
use thaddeus.Log.Op.{Op}
use thaddeus.Log.Head.{HeadRecord, Rejection}
use thaddeus.Log.HeadStore.{HeadStore, Backend, Codec, Failure, Attempt, did, failed, advance}
use thaddeus.Log.OpLog.{OpLog, heads, set_view}
use thaddeus.Log.OpLog.Conflicts.{Conflict, conflicts}
use thaddeus.Platform.{
  Repo, LandPolicy, LandProposal, LandDecision, LandResult, HeadCheck, fits, merge_heads, incoming,
  dry_run_view, check_head,
}
use thaddeus.Platform.Policy.{block_on_conflict}

pub data LandError : Type 0 where
  bad_head : HeadCheck → LandError
  not_advanced : Failure → LandError
  not_stored : LandError

pub data LandEnd : Type 0 where
  returned : LandResult → LandEnd
  threw : LandError → LandEnd

pub record LandOptions : Type 0 where
  pub from : Str
  pub into : Option Str
  pub policy : Option LandPolicy
  pub head_record : Option HeadRecord

abbrev pub target : LandOptions → Str
target o = elim o.into as (λ _. Str) [ none ↦ text "main" | some view ↦ view ]

abbrev pub gate : LandOptions → LandPolicy
gate o = elim o.policy as (λ _. LandPolicy) [ none ↦ block_on_conflict | some p ↦ p ]

-- The result of a landing that is refused, and of one that goes through.
unfoldable pub refusal : LandProposal → Option Str → LandResult
refusal p reason = record {
  landed = false;
  into = p.into;
  heads = p.into_heads;
  conflicts = p.conflicts;
  reason = reason;
}

unfoldable pub success : LandProposal → LandResult
success p = record {
  landed = true;
  into = p.into;
  heads = p.merged_heads;
  conflicts = p.conflicts;
  reason = none;
}

unfoldable pub nothing_to_land : Str → Str
nothing_to_land from =
    text "no incoming ops: source view \"" ++ from ++ text "\" is empty, unknown, or already landed"

module _ {W : Type 0} where
  -- The log with the view of the dry run.
  unfoldable pub dry_run : Repo W → LandOptions → ℕ → OpLog
  dry_run repo o seq =
      set_view repo.log (dry_run_view (target o) seq)
        (merge_heads (heads repo.log (some (target o))) (heads repo.log (some o.from)))

  -- What the policy is asked.
  unfoldable pub proposal : Repo W → LandOptions → ℕ → LandProposal
  unfolding dry_run
  proposal repo o seq =
      let l = dry_run repo o seq in
      let into_heads = heads repo.log (some (target o)) in
      let incoming_heads = heads repo.log (some o.from) in
      record {
        into = target o;
        into_heads = into_heads;
        incoming_heads = incoming_heads;
        merged_heads = merge_heads into_heads incoming_heads;
        incoming_ops = incoming l incoming_heads into_heads;
        conflicts = conflicts l (some (dry_run_view (target o) seq));
      }

module _ (c : Crypto) (codec : Codec) {W : Type 0} where
  -- The end of `land`: the signed record first, then the view. `repoint` sets the view before it
  -- writes it, and a write that fails is an error only without a signed record.
  unfoldable pub finish :
      Repo W
      → Option Backend
      → OpLog
      → LandProposal
      → Option HeadRecord
      → Bool
      → (Repo W × Option Backend) × LandEnd
  unfolding success
  finish repo b l p none stored = (
    (record repo { log = set_view l p.into p.merged_heads }, b),
    if stored then returned (success p) else threw not_stored,
  )
  finish repo b l p (some r) stored = elim (advance c codec repo.head_records b r) [
    | failed f ↦ ((record repo { log = l }, b), threw (not_advanced f))
    | did (s, b') ↦ (
      (record repo { log = set_view l p.into p.merged_heads; head_records = s }, b'),
      returned (success p),
    )
  ]

  -- Everything after the check of the signed record.
  unfoldable pub decide :
      Repo W → Option Backend → LandOptions → ℕ → Bool → (Repo W × Option Backend) × LandEnd
  unfolding proposal refusal finish nothing_to_land dry_run
  decide repo b o seq stored =
      let l = dry_run repo o seq in
      let p = proposal repo o seq in
      if nat_eq (length p.incoming_ops) 0
      then ((record repo { log = l }, b), returned (refusal p (some (nothing_to_land o.from))))
      else let decision = gate o p in
        if decision.allow
        then finish repo b l p o.head_record stored
        else ((record repo { log = l }, b), returned (refusal p decision.reason))

  unfoldable pub check_option : Repo W → LandOptions → HeadCheck
  unfolding check_head
  check_option repo o = elim o.head_record [
    | none ↦ fits
    | some r ↦
        check_head c repo.head_records repo.name (target o)
          (merge_heads (heads repo.log (some (target o))) (heads repo.log (some o.from))) r
  ]

  unfoldable pub land :
      Repo W → Option Backend → LandOptions → ℕ → Bool → (Repo W × Option Backend) × LandEnd
  unfolding decide check_option
  land repo b o seq stored = elim (check_option repo o) [
    | fits ↦ decide repo b o seq stored
    | check ↦ ((repo, b), threw (bad_head check))
  ]
