-- ===== src/Authority/Covers.antt =====
-- Coverage of grants (packages/authority/src/scope.ts) is a preorder, and canonical grants cover what
-- they stand for.
use mathlib.Core.List.{Memᴰ}
use thaddeus.Prelude.{
  ◌≡◌, sym, ◌∙◌, subst, ◌⊎◌, inl, inr, true, false, List, Str, text, ◌==◌, member, any, all, arith,
  Bool-cases, any-true, Memᴰ-any, all-Memᴰ, Memᴰ-all, member-Memᴰ,
}
use thaddeus.Identity.{starts_with}
use thaddeus.Paths.{ends_with, chop}
use thaddeus.Paths.Globs.{starts_with_trans}
use thaddeus.Authority.{Grant, base, pattern_covers, grant_covers, grants_cover, grants_subsume}

-- The three ways in which a pattern covers another.
abbrev pub Covering : Str → Str → Type 0
Covering outer inner =
    (outer ≡ text "**")
    ⊎ ((((inner == text "**") ≡ false)
          × (ends_with outer (text "/**") ≡ true)
          × (starts_with (base inner) (chop 2 outer) ≡ true))
        ⊎ (outer ≡ inner))

eq_of : (a b : Str) → (a == b) ≡ true → a ≡ b
eq_of a b h = ground arith

pub covers-Covering : (outer inner : Str) → pattern_covers outer inner ≡ true → Covering outer inner
unfolding pattern_covers
covers-Covering outer inner h = elim (Bool-cases (outer == text "**")) [
  | inl all_of ↦ inl (eq_of outer (text "**") all_of)
  | inr narrow ↦ elim (Bool-cases (inner == text "**")) [
    | inl wide ↦ absurd (cc)
    | inr n ↦ elim (Bool-cases (ends_with outer (text "/**"))) [
      | inl e ↦ inr (inl (n, e, cc))
      | inr e ↦ inr (inr (eq_of outer inner (cc)))
    ]
  ]
]

everything_covers : (outer inner : Str) → outer ≡ text "**" → pattern_covers outer inner ≡ true
unfolding pattern_covers
everything_covers outer inner e = ground arith

under_covers :
    (outer inner : Str)
    → (inner == text "**") ≡ false
    → ends_with outer (text "/**") ≡ true
    → starts_with (base inner) (chop 2 outer) ≡ true
    → pattern_covers outer inner ≡ true
unfolding pattern_covers
under_covers outer inner n e s = elim (Bool-cases (outer == text "**")) [ inl y ↦ cc | inr z ↦ cc ]

base_under : (b : Str) → ends_with b (text "/**") ≡ true → base b ≡ chop 2 b
unfolding base
base_under b e = cc

-- A pattern that covers one that covers a third covers the third.
pub pattern_covers_trans :
    (a b c : Str)
    → pattern_covers a b ≡ true
    → pattern_covers b c ≡ true
    → pattern_covers a c ≡ true
pattern_covers_trans a b c h k = elim (covers-Covering a b h) [
  | inl all_of ↦ everything_covers a c all_of
  | inr (inr same) ↦ subst (λ x. pattern_covers x c ≡ true) (sym same) k
  | inr (inl (n, e, s)) ↦ elim (covers-Covering b c k) [
    | inl all_of ↦ absurd (ground arith)
    | inr (inr same) ↦ subst (λ x. pattern_covers a x ≡ true) same h
    | inr (inl (n', e', s')) ↦ under_covers a c n' e (
        starts_with_trans (base c) (chop 2 b) (chop 2 a) s'
          (subst (λ x. starts_with x (chop 2 a) ≡ true) (base_under b e') s))
  ]
]

-- What a grant that covers has.
grant_covers-parts :
    (repo scope pattern : Str) (g : Grant)
    → grant_covers repo scope pattern g ≡ true
    → (g.repo ≡ repo)
      × (member scope g.scopes ≡ true)
      × (any (λ outer. pattern_covers outer pattern) g.paths ≡ true)
unfolding grant_covers
grant_covers-parts repo scope pattern g h = ground arith

parts-grant_covers :
    (repo scope pattern : Str) (g : Grant)
    → g.repo ≡ repo
    → member scope g.scopes ≡ true
    → any (λ outer. pattern_covers outer pattern) g.paths ≡ true
    → grant_covers repo scope pattern g ≡ true
unfolding grant_covers
parts-grant_covers repo scope pattern g r s p = ground arith

-- What subsumption says of each scope and pattern of a grant.
subsume-at :
    (outer inner : List Grant) (g : Grant) (scope pattern : Str)
    → grants_subsume outer inner ≡ true
    → Memᴰ g inner
    → Memᴰ scope g.scopes
    → Memᴰ pattern g.paths
    → grants_cover outer g.repo scope pattern ≡ true
unfolding grants_subsume
subsume-at outer inner g scope pattern h i j k =
    let one =
      all-Memᴰ
        (λ g.
          all (λ scope. all (λ pattern. grants_cover outer g.repo scope pattern) g.paths) g.scopes)
        g inner h i in
    let two =
      all-Memᴰ (λ scope. all (λ pattern. grants_cover outer g.repo scope pattern) g.paths) scope
        g.scopes one j in
    all-Memᴰ (λ pattern. grants_cover outer g.repo scope pattern) pattern g.paths two k

-- What a set of grants covers, any set that subsumes it covers too.
pub grants_subsume-cover :
    (outer inner : List Grant) (repo scope pattern : Str)
    → grants_subsume outer inner ≡ true
    → grants_cover inner repo scope pattern ≡ true
    → grants_cover outer repo scope pattern ≡ true
unfolding grants_cover
grants_subsume-cover outer inner repo scope pattern s h =
    let (g, i, q) = any-true (grant_covers repo scope pattern) inner h in
    let (same_repo, has_scope, path_covers) = grant_covers-parts repo scope pattern g q in
    let (p, j, covers) = any-true (λ outer. pattern_covers outer pattern) g.paths path_covers in
    let above = subsume-at outer inner g scope p s i (member-Memᴰ scope g.scopes has_scope) j in
    let (g', i', q') = any-true (grant_covers g.repo scope p) outer above in
    let (same_repo', has_scope', path_covers') = grant_covers-parts g.repo scope p g' q' in
    let (p', j', covers') = any-true (λ outer. pattern_covers outer p) g'.paths path_covers' in
    Memᴰ-any (grant_covers repo scope pattern) g' outer i' (
      parts-grant_covers repo scope pattern g' (same_repo' ∙ same_repo) has_scope' (
        Memᴰ-any (λ outer. pattern_covers outer pattern) p' g'.paths j'
          (pattern_covers_trans p' p pattern covers' covers)))

-- Attenuation composes: what a credential of a credential grants is within the first one's grants.
pub grants_subsume_trans :
    (a b c : List Grant)
    → grants_subsume a b ≡ true
    → grants_subsume b c ≡ true
    → grants_subsume a c ≡ true
grants_subsume_trans a b c h k = built (λ g i. Memᴰ-all _ g.scopes λ s j.
    Memᴰ-all _ g.paths λ p l. grants_subsume-cover a b g.repo s p h (subsume-at b c g s p k i j l))
  where
    built :
        ((g : Grant)
          → Memᴰ g c
          → all (λ scope. all (λ pattern. grants_cover a g.repo scope pattern) g.paths) g.scopes
            ≡ true)
        → grants_subsume a c ≡ true
    built f = unfold grants_subsume in Memᴰ-all _ c f
