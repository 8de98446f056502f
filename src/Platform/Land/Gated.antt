-- ===== src/Platform/Land/Gated.antt =====
-- What a landing brings to the target passes its policy
-- (packages/platform/src/platform.ts with packages/platform/src/policy.ts).
use mathlib.Core.List.{Memᴰ}
use thaddeus.Prelude.{
  ℕ, ◌≡◌, ap, subst, inl, inr, Bool, true, Option, none, some, List, Str, member, text, ◌⊎◌, arith,
  Bool-cases, Memᴰ-any, Memᴰ-member,
}
use thaddeus.Identity.{Crypto}
use thaddeus.Walk.Reach.{Reach}
use thaddeus.Log.Op.{Op}
use thaddeus.Log.HeadStore.{Backend, Codec}
use thaddeus.Log.OpLog.{heads, ordered, view_heads, set_view, parents_or_none}
use thaddeus.Log.OpLog.Order.{IsKeyed}
use thaddeus.Paths.{split_slash, has_dot_dot, match_glob}
use thaddeus.Paths.Globs.{Matches, match_glob_exact}
use thaddeus.Platform.{Repo, LandPolicy, LandResult}
use thaddeus.Platform.Merge.{merge_heads-Reach, incoming_exact}
use thaddeus.Platform.Policy.{block_on_conflict, restrict_paths, touches_protected}
use thaddeus.Platform.Policy.Gates.{restrict_paths_allows}
use thaddeus.Platform.Land.{returned, LandOptions, target, gate, dry_run, proposal, land}
use thaddeus.Platform.Land.Landed.{land-IsLanded}

-- The policy sees each path with a segment `..`, and each path that a protected glob stands for.
forbidden-touches :
    (protect : List Str) (op : Op)
    → Memᴰ (text "..") (split_slash op.path)
      ⊎ ((glob : Str) × Memᴰ glob protect × Matches glob op.path)
    → touches_protected protect op ≡ true
unfolding touches_protected has_dot_dot
forbidden-touches protect op (inl i) =
    ground (arith, Memᴰ-member (text "..") (split_slash op.path) i)
forbidden-touches protect op (inr (glob, i, m)) = elim (Bool-cases (has_dot_dot op.path)) [
  | inl dots ↦ ground arith
  | inr clean ↦
      let matched = (match_glob_exact glob op.path).1 (clean, m) in
      ground (arith, Memᴰ-any (λ glob. match_glob glob op.path) glob protect i matched)
]

module _ (c : Crypto) (codec : Codec) {W : Type 0} where
  -- An operation of the log that the target's heads lead to after a landing that succeeds, and did not
  -- before, is one of the incoming operations that the policy was asked about, if each operation of the
  -- log stands under its own id, and each id once.
  pub land-incoming :
      (repo repo' : Repo W) (b b' : Option Backend) (o : LandOptions) (seq : ℕ) (stored : Bool)
      (r : LandResult) (op : Op)
      → IsKeyed repo.log.ops
      → land c codec repo b o seq stored ≡ ((repo', b'), returned r)
      → r.landed ≡ true
      → Memᴰ op (ordered repo.log)
      → Reach (parents_or_none repo.log) (view_heads repo'.log (target o)) op.id
      → ¬ Reach (parents_or_none repo.log) (view_heads repo.log (target o)) op.id
      → Memᴰ op (proposal repo o seq).incoming_ops
  unfolding proposal dry_run set_view heads ordered parents_or_none
  land-incoming repo repo' b b' o seq stored r op k e u there reached before =
      let moved = (land-IsLanded c codec repo repo' b b' o seq stored r e u).moved in
      let into_heads = view_heads repo.log (target o) in
      let from_heads = view_heads repo.log o.from in
      let at_merged = subst (λ hs. Reach (parents_or_none repo.log) hs op.id) moved reached in
      let (split, _) = merge_heads-Reach (parents_or_none repo.log) into_heads from_heads op.id in
      elim (split at_merged) [
        | inl old ↦ absurd (before old)
        | inr new ↦
            let (_, back) = incoming_exact (dry_run repo o seq) from_heads into_heads op k in
            back (there, new, before)
      ]

  -- Under `restrictPaths`, each operation of the log that a landing that succeeds makes the target lead
  -- to, and whose path has a segment `..` or is one that a protected glob stands for, is by a listed
  -- author, if each operation of the log stands under its own id, and each id once.
  pub land-restricted :
      (repo repo' : Repo W) (b b' : Option Backend) (o : LandOptions) (seq : ℕ) (stored : Bool)
      (r : LandResult) (op : Op) (protect authors : List Str) (policy : LandPolicy)
      → IsKeyed repo.log.ops
      → restrict_paths protect authors none ≡ some policy
      → o.policy ≡ some policy
      → land c codec repo b o seq stored ≡ ((repo', b'), returned r)
      → r.landed ≡ true
      → Memᴰ op (ordered repo.log)
      → Reach (parents_or_none repo.log) (view_heads repo'.log (target o)) op.id
      → ¬ Reach (parents_or_none repo.log) (view_heads repo.log (target o)) op.id
      → Memᴰ (text "..") (split_slash op.path)
        ⊎ ((glob : Str) × Memᴰ glob protect × Matches glob op.path)
      → member op.author authors ≡ true
  land-restricted repo repo' b b' o seq stored r op protect authors policy k q p e u there reached
        before t =
      let brought = land-incoming repo repo' b b' o seq stored r op k e u there reached before in
      let yes_please = (land-IsLanded c codec repo repo' b b' o seq stored r e u).allowed in
      let gated : gate o ≡ policy =
        ap (λ x. elim x as (λ _. LandPolicy) [ none ↦ block_on_conflict | some f ↦ f ]) p in
      let (rule, _) = restrict_paths_allows protect authors none policy (proposal repo o seq) q in
      rule (subst (λ f. (f (proposal repo o seq)).allow ≡ true) gated yes_please) op brought
        (forbidden-touches protect op t)
