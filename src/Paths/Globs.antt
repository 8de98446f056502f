-- ===== src/Paths/Globs.antt =====
-- What the path globs match.
use mathlib.Core.List.{append_assoc}
use thaddeus.Prelude.{
  ℕ, zero, suc, ◌-◌, ◌≡◌, refl, sym, ap, ◌∙◌, subst, ◌↔◌, true, false, ◌&&◌, not, [], ◌∷◌, ◌++◌,
  Str, text, ◌==◌, length, length-append, drop, take, arith, ◌⊎◌, inl, inr, Bool-cases,
}
use thaddeus.Identity.{starts_with}
use thaddeus.Paths.{ends_with, chop, has_dot_dot, match_glob}

-- `startsWith` holds exactly where there is a rest.
pub starts_with-rest : (s t : Str) → starts_with s t ≡ true → (rest : Str) × (s ≡ t ++ rest)
unfolding starts_with
starts_with-rest s [] h = (s, refl)
starts_with-rest [] (b ∷ t) h = absurd (ground arith)
starts_with-rest (a ∷ s) (b ∷ t) h =
    let (rest, e) = starts_with-rest s t (ground arith) in (rest, ground arith)

pub starts_with-append : (t rest : Str) → starts_with (t ++ rest) t ≡ true
unfolding starts_with
starts_with-append [] rest = refl
starts_with-append (b ∷ t) rest = ground (arith, starts_with-append t rest)

pub starts_with_trans :
    (s t u : Str) → starts_with s t ≡ true → starts_with t u ≡ true → starts_with s u ≡ true
unfolding starts_with
starts_with_trans s t [] h k = refl
starts_with_trans s [] (c ∷ u) h k = absurd (ground arith)
starts_with_trans [] (b ∷ t) (c ∷ u) h k = absurd (ground arith)
starts_with_trans (a ∷ s) (b ∷ t) (c ∷ u) h k = ground (arith, starts_with_trans s t u)

take-append : (s t : Str) → take (length s) (s ++ t) ≡ s
take-append [] t = refl
take-append (a ∷ s) t = cc (take-append s t)

drop-append : (s t : Str) → drop (length s) (s ++ t) ≡ t
drop-append [] t = refl
drop-append (a ∷ s) t = drop-append s t

length_before : (s t : Str) → length (s ++ t) - length t ≡ length s
length_before s t = omega (arith, length-append s t)

chop-append : (s t : Str) (n : ℕ) → length t ≡ n → chop n (s ++ t) ≡ s
unfolding chop
chop-append s t n e =
    let k : length (s ++ t) - n ≡ length s = omega (arith, length-append s t, e) in
    ap (λ k. take k (s ++ t)) k ∙ take-append s t

pub ends_with-append : (s t : Str) → ends_with (s ++ t) t ≡ true
unfolding ends_with
ends_with-append s t =
    let e : drop (length (s ++ t) - length t) (s ++ t) ≡ t =
      ap (λ k. drop k (s ++ t)) (length_before s t) ∙ drop-append s t in
    ground (arith, length-append s t)

take-drop : (n : ℕ) (s : Str) → take n s ++ drop n s ≡ s
take-drop zero s = refl
take-drop (suc n) [] = refl
take-drop (suc n) (a ∷ s) = cc (take-drop n s)

pub ends_with-rest : (s t : Str) → ends_with s t ≡ true → (p : Str) × (s ≡ p ++ t)
unfolding ends_with
ends_with-rest s t h =
    let e : drop (length s - length t) s ≡ t = ground arith in
    (
      take (length s - length t) s,
      sym (take-drop (length s - length t) s) ∙ ap (λ x. take (length s - length t) s ++ x) e,
    )

-- What a glob stands for.
abbrev pub Matches : Str → Str → Type 0
Matches glob path =
    (glob ≡ text "**")
    ⊎ (((p : Str) × (rest : Str) × (glob ≡ p ++ text "/**") × (path ≡ (p ++ text "/") ++ rest))
        ⊎ (glob ≡ path))

chop_glob : (p : Str) → chop 2 (p ++ text "/**") ≡ p ++ text "/"
chop_glob p =
    ap (chop 2) (sym (append_assoc p (text "/") (text "**")))
    ∙ chop-append (p ++ text "/") (text "**") 2 refl

longer : (p : Str) → ¬ (p ++ text "/**" ≡ text "**")
longer p e = absurd (omega (arith, sym (length-append p (text "/**")) ∙ ap length e))

match_under :
    (p path : Str)
    → match_glob (p ++ text "/**") path ≡ not (has_dot_dot path) && starts_with path (p ++ text "/")
unfolding match_glob
match_under p path =
    ground (arith, longer p, ends_with-append p (text "/**"), ap (starts_with path) (chop_glob p))

match_spelt :
    (glob path : Str)
    → has_dot_dot path ≡ false
    → ends_with glob (text "/**") ≡ false
    → glob ≡ path
    → match_glob glob path ≡ true
unfolding match_glob
match_spelt glob path d k e =
    let same : (glob == path) ≡ true = ground arith in
    elim (Bool-cases (glob == text "**")) [ inl star ↦ cc | inr star ↦ cc ]

match_itself : (glob : Str) → has_dot_dot glob ≡ false → match_glob glob glob ≡ true
match_itself glob d = elim (Bool-cases (ends_with glob (text "/**"))) [
  | inr k ↦ match_spelt glob glob d k refl
  | inl k ↦
      let (p, e) = ends_with-rest glob (text "/**") k in
      let both : match_glob (p ++ text "/**") (p ++ text "/**") ≡ true = ground (
        arith,
        match_under p (p ++ text "/**"),
        ap has_dot_dot e,
        ap (λ s. starts_with s (p ++ text "/")) (append_assoc p (text "/") (text "**")),
        starts_with-append (p ++ text "/") (text "**"),
      ) in
      subst (λ g. match_glob g g ≡ true) (sym e) both
]

Matches-match :
    (glob path : Str) → has_dot_dot path ≡ false → Matches glob path → match_glob glob path ≡ true
Matches-match glob path d (inl e) = unfold match_glob in ground arith
Matches-match glob path d (inr (inr e)) =
    subst (λ g. match_glob g path ≡ true) (sym e) (match_itself path d)
Matches-match glob path d (inr (inl (p, rest, e, q))) = ground (
  arith,
  ap (λ g. match_glob g path) e,
  match_under p path,
  ap (λ s. starts_with s (p ++ text "/")) q,
  starts_with-append (p ++ text "/") rest,
)

match-Matches :
    (glob path : Str) → match_glob glob path ≡ true → (has_dot_dot path ≡ false) × Matches glob path
match-Matches glob path m = elim (Bool-cases (ends_with glob (text "/**"))) [
  | inr k ↦ unfold match_glob in ground arith
  | inl k ↦
      let (p, e) = ends_with-rest glob (text "/**") k in
      let both = sym (ap (λ g. match_glob g path) e ∙ match_under p path) ∙ m in
      let (rest, q) = starts_with-rest path (p ++ text "/") (ground arith) in
      (ground arith, inr (inl (p, rest, e, q)))
]

-- A glob matches exactly the paths without a `..` segment that it stands for: `**` stands for every
-- path, `p/**` for the paths that start with `p/`, and any glob for the path that it spells.
pub match_glob_exact :
    (glob path : Str)
    → (match_glob glob path ≡ true) ↔ ((has_dot_dot path ≡ false) × Matches glob path)
match_glob_exact glob path = (match-Matches glob path, λ (d, m). Matches-match glob path d m)
