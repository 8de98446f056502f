-- ===== src/Paths.antt =====
-- The path globs of packages/platform/src/policy.ts and packages/agent/src/policy.ts (the matcher is
-- written out in both), and the text methods they use.
pub mod Globs
use thaddeus.Prelude.{
  ℕ, zero, suc, ◌+◌, ◌-◌, ◌≡◌, refl, sym, ap, ◌∙◌, subst, ◌↔◌, Bool, true, false, ◌&&◌, ◌||◌, not,
  List, [], ◌∷◌, ◌++◌, Str, text, ◌==◌, member, if◌then◌else◌, nat_eq, leb, length, length-append,
  drop, take, any, arith, inl, inr, Bool-cases,
}
use thaddeus.Identity.{starts_with}

-- `s.split('/')`: the last segment is the one that `acc` holds in reverse.
unfoldable pub split_slash : Str → List Str
split_slash [] = [] ∷ []
split_slash (c ∷ s) = elim (split_slash s) [
  | [] ↦ []
  | seg ∷ segs ↦ if nat_eq c b'/' then [] ∷ seg ∷ segs else (c ∷ seg) ∷ segs
]

-- `path.split('/').includes('..')`
unfoldable pub has_dot_dot : Str → Bool
unfolding split_slash member
has_dot_dot path = member (text "..") (split_slash path)

-- `s.endsWith(t)`
unfoldable pub ends_with : Str → Str → Bool
ends_with s t = leb (length t) (length s) && (drop (length s - length t) s == t)

-- `s.slice(0, -n)`
unfoldable pub chop : ℕ → Str → Str
chop n s = take (length s - n) s

-- `s.includes('*')`
unfoldable pub has_star : Str → Bool
has_star s = any (λ c. nat_eq c b'*') s

unfoldable pub match_glob : Str → Str → Bool
unfolding has_dot_dot ends_with chop starts_with
match_glob glob path =
    if has_dot_dot path
    then false
    else if glob == text "**"
    then true
    else if ends_with glob (text "/**")
    then starts_with path (chop 2 glob)
    else glob == path

is_empty_list : Str → Bool
is_empty_list [] = true
is_empty_list (c ∷ s) = false

-- Whether `assertSupportedPathGlob` returns.
unfoldable pub supported_path_glob : Str → Bool
unfolding has_star ends_with chop is_empty_list
supported_path_glob glob =
    not (has_star glob)
    || (glob == text "**")
    || ends_with glob (text "/**")
      && not (is_empty_list (chop 3 glob))
      && not (has_star (chop 3 glob))
