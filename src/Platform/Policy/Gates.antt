-- ===== src/Platform/Policy/Gates.antt =====
-- When the policies of packages/platform/src/policy.ts let a landing through.
use mathlib.Core.List.{Memᴰ}
use thaddeus.Prelude.{
  ℕ, ◌≤◌, ◌≡◌, refl, sym, ap, subst, ◌↔◌, inl, inr, Bool, true, false, ◌&&◌, ◌||◌, not, Option,
  none, some, List, [], ◌∷◌, ◌++◌, Str, text, member, nat_eq, ltb, length, any, all, keep, arith,
  Bool-cases, keep-empty, any-true, any-false, Memᴰ-any,
}
use thaddeus.Log.Op.{Op}
use thaddeus.Log.OpLog.Conflicts.{Conflict}
use thaddeus.Paths.{has_dot_dot, supported_path_glob}
use thaddeus.Platform.{LandProposal, LandPolicy}
use thaddeus.Platform.Policy.{
  block_on_conflict, none_of, ProvenanceLog, require_verified_provenance, require_reputation_tier,
  VetoLog, block_on_veto, join, standing_query, touches_protected, restrict_paths,
}

keep-nil :
    (p : Op → Bool) (xs : List Op) → ((x : Op) → Memᴰ x xs → p x ≡ false) → length (keep p xs) ≡ 0
keep-nil p [] h = refl
keep-nil p (x ∷ xs) h =
    ground (arith, h x (Memᴰ.head refl), keep-nil p xs (λ y i. h y (Memᴰ.tail i)))

-- `none_of` allows exactly the landings without an operation that offends.
pub none_of_allows :
    (before after : Str) (offends : Op → Bool) (p : LandProposal)
    → ((none_of before after offends p).allow ≡ true)
      ↔ ((op : Op) → Memᴰ op p.incoming_ops → offends op ≡ false)
none_of_allows before after offends p = (there, back)
  where
    there :
        (none_of before after offends p).allow ≡ true
        → (op : Op) → Memᴰ op p.incoming_ops
        → offends op ≡ false
    there e op i = keep-empty offends p.incoming_ops (unfold none_of in ground arith) op i

    back :
        ((op : Op) → Memᴰ op p.incoming_ops → offends op ≡ false)
        → (none_of before after offends p).allow ≡ true
    back h = let e = keep-nil offends p.incoming_ops h in unfold none_of in ground (arith, e)

-- A policy that filters out the operations that offend, whatever its texts are.
abbrev Filters : LandPolicy → (Op → Bool) → Type 0
Filters policy offends = (before : Str) × (after : Str) × (policy ≡ none_of before after offends)

filter_allows :
    (policy : LandPolicy) (offends : Op → Bool) (p : LandProposal)
    → Filters policy offends
    → ((policy p).allow ≡ true) ↔ ((op : Op) → Memᴰ op p.incoming_ops → offends op ≡ false)
filter_allows policy offends p (before, after, e) =
    subst (λ f. ((f p).allow ≡ true) ↔ ((op : Op) → Memᴰ op p.incoming_ops → offends op ≡ false))
      (sym e) (none_of_allows before after offends p)

-- `blockOnConflict` allows exactly the landings whose merged view has no conflict.
pub block_on_conflict_allows :
    (p : LandProposal) → ((block_on_conflict p).allow ≡ true) ↔ (p.conflicts ≡ [])
unfolding block_on_conflict
block_on_conflict_allows p =
    (λ e. clear p.conflicts (ground arith), λ e. ground (arith, ap length e))
  where
    clear : (cs : List Conflict) → length cs ≡ 0 → cs ≡ []
    clear [] h = refl
    clear (c ∷ cs) h = absurd (omega (arith, h))

-- `requireVerifiedProvenance` allows exactly the landings each of whose incoming operations has a
-- verified record.
pub require_verified_provenance_allows :
    (prov : ProvenanceLog) (p : LandProposal)
    → ((require_verified_provenance prov p).allow ≡ true) ↔ (
        (op : Op)
        → Memᴰ op p.incoming_ops
        → (k : Str × Bool) × Memᴰ k (prov.for_op op.id) × (k.1 ≡ true))
unfolding require_verified_provenance
require_verified_provenance_allows prov p =
    let (there, back) =
      filter_allows (require_verified_provenance prov)
        (λ op. not (any (λ k. k.1) (prov.for_op op.id))) p (_, _, refl) in
    (
      λ e op i. let q = there e op i in any-true (λ k. k.1) (prov.for_op op.id) (ground arith),
      λ h. back λ op i.
          let (k, j, q) = h op i in
          let some_one = Memᴰ-any (λ k. k.1) k (prov.for_op op.id) j q in ground arith,
    )

-- `requireReputationTier` allows exactly the landings each of whose authors has enough merges.
pub require_reputation_tier_allows :
    (merges : Str → ℕ) (min_merges : ℕ) (p : LandProposal)
    → ((require_reputation_tier merges min_merges p).allow ≡ true)
      ↔ ((op : Op) → Memᴰ op p.incoming_ops → min_merges ≤ merges op.author)
unfolding require_reputation_tier
require_reputation_tier_allows merges min_merges p =
    let (there, back) =
      filter_allows (require_reputation_tier merges min_merges)
        (λ op. ltb (merges op.author) min_merges) p (_, _, refl) in
    (
      λ e op i. let q = there e op i in ground arith,
      λ h. back λ op i. let q = h op i in ground arith,
    )

-- `blockOnVeto` allows exactly the landings without an incoming operation that has a verified veto of a
-- listed reviewer whom the lifecycle authorises.
pub block_on_veto_allows :
    {V : Type 0} (vetoes : VetoLog V) (reviewers : List Str) (authorized : V → Op → Bool)
    (p : LandProposal)
    → ((block_on_veto vetoes reviewers authorized p).allow ≡ true) ↔ (
        (op : Op) (v : V)
        → Memᴰ op p.incoming_ops
        → Memᴰ v (vetoes.for_op op.id)
        → (vetoes.verified v && member (vetoes.reviewer v) reviewers) && authorized v op ≡ false)
unfolding block_on_veto
block_on_veto_allows vetoes reviewers authorized p =
    let stands = λ (op : Op) (v : _).
      (vetoes.verified v && member (vetoes.reviewer v) reviewers) && authorized v op in
    let (there, back) =
      filter_allows (block_on_veto vetoes reviewers authorized)
        (λ op. any (stands op) (vetoes.for_op op.id)) p (_, _, refl) in
    (
      λ e op v i j. any-false (stands op) v (vetoes.for_op op.id) (there e op i) j,
      λ h. back λ op i. elim (Bool-cases (any (stands op) (vetoes.for_op op.id))) [
        | inr quiet ↦ quiet
        | inl loud ↦
            let (v, j, q) = any-true (stands op) (vetoes.for_op op.id) loud in
            let no = h op v i j in ground arith
      ],
    )

pub standing_query-Filters :
    (name : Str) (forbid : Op → Bool) (policy : LandPolicy)
    → standing_query name forbid ≡ some policy
    → Filters policy forbid
unfolding standing_query
standing_query-Filters name forbid policy e = elim (Bool-cases (nat_eq (length name) 0)) [
  | inl empty ↦ absurd (ground arith)
  | inr named ↦ (before, after, cc)
]
  where
    before : Str
    before = text "standing query \"" ++ name ++ text "\": "

    after : Str
    after = text " op(s) violate the invariant"

restrict_paths-Filters :
    (protect authors : List Str) (name : Option Str) (policy : LandPolicy)
    → restrict_paths protect authors name ≡ some policy
    → Filters policy (λ op. touches_protected protect op && not (member op.author authors))
unfolding restrict_paths
restrict_paths-Filters protect authors name policy e =
    elim (Bool-cases (
      (nat_eq (length protect) 0 || any has_dot_dot protect)
      || not (all supported_path_glob protect))) [
        | inl bad ↦ absurd (ground arith)
        | inr good ↦
            standing_query-Filters
              (elim name as (λ _. Str) [
                | none ↦ text "protect " ++ join (text ", ") protect
                | some n ↦ n
              ])
              (λ op. touches_protected protect op && not (member op.author authors)) policy (cc)
      ]

-- `restrictPaths`, when its globs are accepted, allows exactly the landings in which every incoming
-- operation on a protected path, or on a path with a `..` segment, is by a listed author.
pub restrict_paths_allows :
    (protect authors : List Str) (name : Option Str) (policy : LandPolicy) (p : LandProposal)
    → restrict_paths protect authors name ≡ some policy
    → ((policy p).allow ≡ true) ↔ (
        (op : Op)
        → Memᴰ op p.incoming_ops
        → touches_protected protect op ≡ true
        → member op.author authors ≡ true)
restrict_paths_allows protect authors name policy p e =
    let (there, back) =
      filter_allows policy (λ op. touches_protected protect op && not (member op.author authors)) p
        (restrict_paths-Filters protect authors name policy e) in
    (λ a op i t. let q = there a op i in ground arith, λ h. back λ op i. ok op (h op i))
  where
    ok :
        (op : Op)
        → (touches_protected protect op ≡ true → member op.author authors ≡ true)
        → touches_protected protect op && not (member op.author authors) ≡ false
    ok op h = ground arith
