-- ===== src/Platform/Land/Effect.antt =====
-- What a landing of packages/platform/src/platform.ts does to the repository.
use thaddeus.Prelude.{
  ℕ, ◌≡◌, ◌≢◌, refl, sym, ap, subst, Bool, true, false, not, Option, none, some, List, [], ◌∷◌,
  ◌++◌, Str, text, nat_eq, length, length-append, arith, Bool-cases, inl, inr, ◌⊎◌,
}
use thaddeus.Prelude.Dict.{get-put}
use thaddeus.Identity.{Crypto}
use thaddeus.Json.{decimal}
use thaddeus.Log.Head.{HeadRecord}
use thaddeus.Log.HeadStore.{Backend, Codec, advance}
use thaddeus.Log.HeadStore.Growth.{Attempt-cases}
use thaddeus.Log.OpLog.{OpLog, view_heads, set_view}
use thaddeus.Platform.{
  Repo, LandProposal, HeadCheck, fits, not_successor, not_merged, bad_record, dry_run_view,
  internal_view_prefix, same_at, same_heads,
}
use thaddeus.Platform.Land.{
  bad_head, not_advanced, not_stored, LandEnd, returned, threw, LandOptions, target, gate, dry_run,
  proposal, refusal, success, finish, decide, check_option, land,
}

-- A view that is set has its heads, and the others keep theirs.
pub view_heads-set :
    (l : OpLog) (name : Str) (hs : List Str) → view_heads (set_view l name hs) name ≡ hs
unfolding view_heads set_view
view_heads-set l name hs = ground (arith, get-put l.views name name hs)

pub view_heads-other :
    (l : OpLog) (name view : Str) (hs : List Str)
    → view ≢ name
    → view_heads (set_view l name hs) view ≡ view_heads l view
unfolding view_heads set_view
view_heads-other l name view hs n = ground (arith, get-put l.views name view hs)

-- The view of the dry run is never the target: its name is longer.
pub dry_run_view-target : (into : Str) (seq : ℕ) → into ≢ dry_run_view into seq
unfolding dry_run_view
dry_run_view-target into seq e = absurd (
    omega (
      arith,
      ap length e,
      length-append (internal_view_prefix ++ into ++ text "/") (decimal seq),
      length-append (internal_view_prefix ++ into) (text "/"),
      length-append internal_view_prefix into,
    ))

same_at-eq : (a b : List Str) → length a ≡ length b → same_at a b ≡ true → a ≡ b
unfolding same_at
same_at-eq [] [] n h = refl
same_at-eq [] (y ∷ b) n h = absurd (omega (arith, n))
same_at-eq (x ∷ a) [] n h = absurd (omega (arith, n))
same_at-eq (x ∷ a) (y ∷ b) n h = ground (arith, same_at-eq a b)

pub same_heads-eq : (a b : List Str) → same_heads a b ≡ true → a ≡ b
unfolding same_heads
same_heads-eq a b h = same_at-eq a b (ground arith) (ground arith)

module _ {W : Type 0} where
  -- Nothing but the view of the dry run was set.
  pub record IsUntouched (repo repo' : Repo W) (o : LandOptions) (seq : ℕ) : Type 0 where
    pub same_views :
        (view : Str)
        → view ≢ dry_run_view (target o) seq
        → view_heads repo'.log view ≡ view_heads repo.log view
    pub same_target : view_heads repo'.log (target o) ≡ view_heads repo.log (target o)
    pub same_ops : repo'.log.ops ≡ repo.log.ops
    pub same_records : repo'.head_records ≡ repo.head_records

  IsUntouched-refl : (repo : Repo W) (o : LandOptions) (seq : ℕ) → IsUntouched repo repo o seq
  IsUntouched-refl repo o seq = record {
    same_views = λ _ _. refl;
    same_target = refl;
    same_ops = refl;
    same_records = refl;
  }

  IsUntouched-dry :
      (repo : Repo W) (o : LandOptions) (seq : ℕ)
      → IsUntouched repo (record repo { log = dry_run repo o seq }) o seq
  unfolding dry_run set_view
  IsUntouched-dry repo o seq = record {
    same_views = λ view n. view_heads-other repo.log _ view _ n;
    same_target = view_heads-other repo.log _ (target o) _ (dry_run_view-target (target o) seq);
    same_ops = refl;
    same_records = refl;
  }

pub HeadCheck-cases : (h : HeadCheck) → (h ≡ fits) ⊎ ((k : HeadCheck) × (h ≡ k) × (k ≢ fits))
HeadCheck-cases fits = inl refl
HeadCheck-cases not_successor = inr (not_successor, refl, λ e. cc)
HeadCheck-cases not_merged = inr (not_merged, refl, λ e. cc)
HeadCheck-cases (bad_record r) = inr (bad_record r, refl, λ e. cc)

-- The ways to end without a landing: an error before the view is set, or a result that says so.
abbrev pub unlanded : LandEnd → Bool
unlanded (returned r) = not r.landed
unlanded (threw (bad_head e)) = true
unlanded (threw (not_advanced f)) = true
unlanded (threw not_stored) = false

module _ (c : Crypto) (codec : Codec) {W : Type 0} where
  finish-unlanded :
      (repo repo' : Repo W) (b b' : Option Backend) (l : OpLog) (p : LandProposal)
      (r : Option HeadRecord) (stored : Bool) (end : LandEnd)
      → finish c codec repo b l p r stored ≡ ((repo', b'), end)
      → unlanded end ≡ true
      → (repo' ≡ record repo { log = l }) × (b' ≡ b)
  unfolding finish success
  finish-unlanded repo repo' b b' l p none stored end e u = elim (Bool-cases stored) [
    | inl y ↦ ground arith
    | inr n ↦ ground arith
  ]
  finish-unlanded repo repo' b b' l p (some r) stored end e u =
      elim (Attempt-cases (advance c codec repo.head_records b r)) [
        | inl (f, q) ↦ (ground arith, ground arith)
        | inr ((s, b''), q) ↦ ground arith
      ]

  decide-unlanded :
      (repo repo' : Repo W) (b b' : Option Backend) (o : LandOptions) (seq : ℕ) (stored : Bool)
      (end : LandEnd)
      → decide c codec repo b o seq stored ≡ ((repo', b'), end)
      → unlanded end ≡ true
      → (repo' ≡ record repo { log = dry_run repo o seq }) × (b' ≡ b)
  unfolding decide refusal
  decide-unlanded repo repo' b b' o seq stored end e u =
      elim (Bool-cases (nat_eq (length (proposal repo o seq).incoming_ops) 0)) [
        | inl nothing ↦ ground arith
        | inr some_ops ↦ elim (Bool-cases (gate o (proposal repo o seq)).allow) [
          | inl yes_please ↦
              finish-unlanded repo repo' b b' (dry_run repo o seq) (proposal repo o seq)
                o.head_record stored end (ground arith) u
          | inr no_thanks ↦ ground arith
        ]
      ]

  -- A landing that is refused, that has nothing to land, that a bad signed record stops, or whose
  -- signed record is not advanced leaves the operations, the signed records and every view but that
  -- of the dry run as they were, the target among them.
  pub land-IsUntouched :
      (repo repo' : Repo W) (b b' : Option Backend) (o : LandOptions) (seq : ℕ) (stored : Bool)
      (end : LandEnd)
      → land c codec repo b o seq stored ≡ ((repo', b'), end)
      → unlanded end ≡ true
      → IsUntouched repo repo' o seq × (b' ≡ b)
  unfolding land
  land-IsUntouched repo repo' b b' o seq stored end e u =
      elim (HeadCheck-cases (check_option c codec repo o)) [
        | inl ok ↦
            let (same, back) = decide-unlanded repo repo' b b' o seq stored end (ground arith) u in
            (subst (λ t. IsUntouched repo t o seq) (sym same) (IsUntouched-dry repo o seq), back)
        | inr (check, bad, stops) ↦
            let same : repo' ≡ repo = ground arith in
            (
              subst (λ t. IsUntouched repo t o seq) (sym same) (IsUntouched-refl repo o seq),
              ground arith,
            )
      ]
