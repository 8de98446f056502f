-- ===== src/Platform/Land/Landed.antt =====
-- What a landing of packages/platform/src/platform.ts that succeeds leaves behind.
use thaddeus.Prelude.{
  ℕ, ◌+◌, ◌<◌, ◌≡◌, ◌≢◌, sym, ap, ◌∙◌, subst, Bool, true, false, Option, none, some, Str, nat_eq,
  length, arith, Bool-cases, Option-cases, inl, inr,
}
use thaddeus.Identity.{Crypto}
use thaddeus.Log.Head.{HeadRecord, verify_head, valid}
use thaddeus.Log.HeadStore.{HeadStore, Backend, Codec, advance, current}
use thaddeus.Log.HeadStore.Growth.{Attempt-cases}
use thaddeus.Log.HeadStore.Current.{advance-current}
use thaddeus.Log.OpLog.{OpLog, heads, view_heads, set_view}
use thaddeus.Platform.{
  Repo, LandProposal, LandResult, fits, merge_heads, dry_run_view, check_head, is_successor,
  same_heads,
}
use thaddeus.Platform.Land.{
  returned, LandOptions, target, gate, dry_run, proposal, refusal, success, finish, decide,
  check_option, land,
}
use thaddeus.Platform.Land.Effect.{view_heads-set, view_heads-other, same_heads-eq, HeadCheck-cases}

-- What an exact successor of the current record of a view is.
abbrev Succeeds : HeadStore → Str → Str → HeadRecord → Type 0
Succeeds s name into k =
    (now : HeadRecord) × (current s into ≡ some now)
    × (k.repo ≡ name)
    × (k.view ≡ into)
    × (s.owner ≡ some k.owner)
    × (k.version ≡ now.version + 1)
    × (k.previous ≡ some now.id)

is_successor-Succeeds :
    (s : HeadStore) (name into : Str) (k : HeadRecord)
    → is_successor s name into k ≡ true
    → Succeeds s name into k
unfolding is_successor
is_successor-Succeeds s name into k e = elim (Option-cases (current s into)) [
  | inl absent ↦ absurd (ground arith)
  | inr (now, there) ↦ elim (Option-cases s.owner) [
    | inl unowned ↦ absurd (ground arith)
    | inr (owner, owned) ↦ elim (Option-cases k.previous) [
      | inl first ↦ absurd (ground arith)
      | inr (id, previous) ↦
          (now, there, ground arith, ground arith, ground arith, ground arith, ground arith)
    ]
  ]
]

module _ (c : Crypto) (codec : Codec) {W : Type 0} where
  -- What a landing that succeeds leaves behind.
  pub record IsLanded (repo repo' : Repo W) (o : LandOptions) (seq : ℕ) (r : LandResult)
      : Type 0 where
    pub moved :
        view_heads repo'.log (target o)
        ≡ merge_heads (view_heads repo.log (target o)) (view_heads repo.log o.from)
    pub reported : r.heads ≡ view_heads repo'.log (target o)
    pub others :
        (view : Str)
        → view ≢ target o
        → view ≢ dry_run_view (target o) seq
        → view_heads repo'.log view ≡ view_heads repo.log view
    pub same_ops : repo'.log.ops ≡ repo.log.ops
    pub brings : 0 < length (proposal repo o seq).incoming_ops
    pub allowed : (gate o (proposal repo o seq)).allow ≡ true

  -- What is signed for a landing: the successor of the current record, over the merged heads; and it
  -- is, or stands for, the current record afterwards.
  pub record IsSigned (repo repo' : Repo W) (o : LandOptions) (k : HeadRecord) : Type 0 where
    pub genuine : verify_head c k ≡ valid
    pub successor :
        (now : HeadRecord) × (current repo.head_records (target o) ≡ some now)
        × (k.repo ≡ repo.name)
        × (k.view ≡ target o)
        × (repo.head_records.owner ≡ some k.owner)
        × (k.version ≡ now.version + 1)
        × (k.previous ≡ some now.id)
    pub over_merged : k.heads ≡ view_heads repo'.log (target o)
    pub recorded :
        (now : HeadRecord) × (current repo'.head_records (target o) ≡ some now) × (now.id ≡ k.id)

  -- The shape of the state after `finish` when it says that it landed.
  record IsFinished (repo repo' : Repo W) (l : OpLog) (p : LandProposal) (r : LandResult)
      : Type 0 where
    pointed : repo'.log ≡ set_view l p.into p.merged_heads
    told : r ≡ success p

  finish-IsFinished :
      (repo repo' : Repo W) (b b' : Option Backend) (l : OpLog) (p : LandProposal)
      (k : Option HeadRecord) (stored : Bool) (r : LandResult)
      → finish c codec repo b l p k stored ≡ ((repo', b'), returned r)
      → IsFinished repo repo' l p r
  unfolding finish
  finish-IsFinished repo repo' b b' l p none stored r e = elim (Bool-cases stored) [
    | inl y ↦ record { pointed = ground arith; told = ground arith }
    | inr n ↦ ground arith
  ]
  finish-IsFinished repo repo' b b' l p (some k) stored r e =
      elim (Attempt-cases (advance c codec repo.head_records b k)) [
        | inl (f, q) ↦ ground arith
        | inr ((s, b''), q) ↦ record { pointed = ground arith; told = ground arith }
      ]

  -- A `decide` that lands has gone through the gate to `finish`.
  decide-finish :
      (repo repo' : Repo W) (b b' : Option Backend) (o : LandOptions) (seq : ℕ) (stored : Bool)
      (r : LandResult)
      → decide c codec repo b o seq stored ≡ ((repo', b'), returned r)
      → r.landed ≡ true
      → (nat_eq (length (proposal repo o seq).incoming_ops) 0 ≡ false)
        × ((gate o (proposal repo o seq)).allow ≡ true)
        × (finish c codec repo b (dry_run repo o seq) (proposal repo o seq) o.head_record stored
            ≡ ((repo', b'), returned r))
  unfolding decide refusal
  decide-finish repo repo' b b' o seq stored r e u =
      elim (Bool-cases (nat_eq (length (proposal repo o seq).incoming_ops) 0)) [
        | inl nothing ↦ ground arith
        | inr some_ops ↦ elim (Bool-cases (gate o (proposal repo o seq)).allow) [
          | inl yes_please ↦ (some_ops, yes_please, ground arith)
          | inr no_thanks ↦ ground arith
        ]
      ]

  land-decide :
      (repo repo' : Repo W) (b b' : Option Backend) (o : LandOptions) (seq : ℕ) (stored : Bool)
      (r : LandResult)
      → land c codec repo b o seq stored ≡ ((repo', b'), returned r)
      → (check_option c codec repo o ≡ fits)
        × (decide c codec repo b o seq stored ≡ ((repo', b'), returned r))
  unfolding land
  land-decide repo repo' b b' o seq stored r e =
      elim (HeadCheck-cases (check_option c codec repo o)) [
        | inl ok ↦ (ok, ground arith)
        | inr (check, bad, stops) ↦ ground arith
      ]

  finish-recorded :
      (repo repo' : Repo W) (b b' : Option Backend) (l : OpLog) (p : LandProposal) (k : HeadRecord)
      (stored : Bool) (r : LandResult)
      → finish c codec repo b l p (some k) stored ≡ ((repo', b'), returned r)
      → (now : HeadRecord) × (current repo'.head_records k.view ≡ some now) × (now.id ≡ k.id)
  unfolding finish
  finish-recorded repo repo' b b' l p k stored r e =
      elim (Attempt-cases (advance c codec repo.head_records b k)) [
        | inl (f, q) ↦ ground arith
        | inr ((s, b''), q) ↦
            let same : repo'.head_records ≡ s = ground arith in
            subst (λ t. (now : HeadRecord) × (current t k.view ≡ some now) × (now.id ≡ k.id))
              (sym same) (advance-current c codec repo.head_records s b b'' k q)
      ]

  -- A landing that succeeds points the target at the merged heads and reports them; every other
  -- view but that of the dry run, and the operations, are as they were. It brings at least one
  -- operation, and its policy allows it.
  pub land-IsLanded :
      (repo repo' : Repo W) (b b' : Option Backend) (o : LandOptions) (seq : ℕ) (stored : Bool)
      (r : LandResult)
      → land c codec repo b o seq stored ≡ ((repo', b'), returned r)
      → r.landed ≡ true
      → IsLanded repo repo' o seq r
  unfolding proposal dry_run success set_view heads
  land-IsLanded repo repo' b b' o seq stored r e u =
      let (_, d) = land-decide repo repo' b b' o seq stored r e in
      let (some_ops, yes_please, f) = decide-finish repo repo' b b' o seq stored r d u in
      let done =
        finish-IsFinished repo repo' b b' (dry_run repo o seq) (proposal repo o seq) o.head_record
          stored r f in
      let l = dry_run repo o seq in
      let merged = merge_heads (view_heads repo.log (target o)) (view_heads repo.log o.from) in
      let moved =
        ap (λ l. view_heads l (target o)) done.pointed ∙ view_heads-set l (target o) merged in
      record {
        moved = moved;
        reported = ap (λ r. r.heads) done.told ∙ sym moved;
        others = λ view n d.
            ap (λ l. view_heads l view) done.pointed
            ∙ view_heads-other l (target o) view merged n
            ∙ view_heads-other repo.log _ view merged d;
        same_ops = ap (λ l. l.ops) done.pointed;
        brings = ground arith;
        allowed = yes_please;
      }

  check-fits :
      (repo : Repo W) (o : LandOptions) (k : HeadRecord)
      → o.head_record ≡ some k
      → check_option c codec repo o ≡ fits
      → (verify_head c k ≡ valid)
        × (is_successor repo.head_records repo.name (target o) k ≡ true)
        × (same_heads k.heads
              (merge_heads (view_heads repo.log (target o)) (view_heads repo.log o.from))
            ≡ true)
  unfolding check_option check_head heads
  check-fits repo o k h e = ground arith

  -- A landing with a signed record that succeeds was given a genuine record, the exact successor of
  -- the target's current one: of this repository, this view and the store's owner, with the next
  -- version and the current record's id. It is over the heads that the target then has, and it is
  -- recorded.
  pub land-IsSigned :
      (repo repo' : Repo W) (b b' : Option Backend) (o : LandOptions) (seq : ℕ) (stored : Bool)
      (r : LandResult) (k : HeadRecord)
      → land c codec repo b o seq stored ≡ ((repo', b'), returned r)
      → r.landed ≡ true
      → o.head_record ≡ some k
      → IsSigned repo repo' o k
  land-IsSigned repo repo' b b' o seq stored r k e u h =
      let (ok, d) = land-decide repo repo' b b' o seq stored r e in
      let (_, _, f) = decide-finish repo repo' b b' o seq stored r d u in
      let (genuine, exact, same) = check-fits repo o k h ok in
      let successor = is_successor-Succeeds repo.head_records repo.name (target o) k exact in
      let f' =
        subst
          (λ x.
            finish c codec repo b (dry_run repo o seq) (proposal repo o seq) x stored
            ≡ ((repo', b'), returned r))
          h f in
      record {
        genuine = genuine;
        successor = successor;
        over_merged =
            same_heads-eq _ _ same ∙ sym (land-IsLanded repo repo' b b' o seq stored r e u).moved;
        recorded =
            subst
              (λ view.
                (now : HeadRecord) × (current repo'.head_records view ≡ some now) × (now.id ≡ k.id))
              successor.3
              (finish-recorded repo repo' b b' (dry_run repo o seq) (proposal repo o seq) k stored r
                f');
      }
