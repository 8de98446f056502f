-- ===== src/Authority.antt =====
-- packages/authority/src/scope.ts: grants, the path patterns they carry, and when one set of grants
-- covers another. Values are typed, so the tests of their runtime types are left out; the checks that
-- remain give `false` where the code throws an AuthorityError.
pub mod Covers
pub mod Wire
pub mod Proof
pub mod Token
pub mod TenantPolicy
pub mod ServiceHead
pub mod Service
use thaddeus.Prelude.{
  ℕ, ◌-◌, Bool, true, false, ◌&&◌, ◌||◌, not, Option, none, some, List, [], ◌∷◌, ◌++◌, Str, text,
  ◌==◌, if◌then◌else◌, ltb, leb, nat_eq, member, unique, sort, lt_str, length, any, all, map,
}
use thaddeus.Json.{Json, Jsons, Fields, str, arr, obj, nil, cons, end, field, strs, stringify}
use thaddeus.Identity.{starts_with}
use thaddeus.Paths.{split_slash, ends_with, chop, has_star}

pub record Grant : Type 0 where
  pub repo : Str
  pub scopes : List Str
  pub paths : List Str

abbrev pub all_scopes : List Str
all_scopes = text "read" ∷ text "edit" ∷ text "execute" ∷ text "review" ∷ text "integrate" ∷ []

-- /[\u0000-\u001f\u007f]/
unfoldable pub has_control : Str → Bool
has_control s = any (λ c. ltb c 32 || nat_eq c 127) s

-- Whether `assertName` returns.
unfoldable pub is_name : Str → Bool
unfolding has_control
is_name s = not (nat_eq (length s) 0) && leb (length s) 256 && not (has_control s)

unfoldable pub is_path : Str → Bool
unfolding has_control split_slash starts_with has_star
is_path path =
    not (nat_eq (length path) 0)
    && leb (length path) 4096
    && not (has_control path)
    && not (starts_with path (text "/"))
    && not (any (λ c. nat_eq c 92) path)
    && all
        (λ seg.
          not (nat_eq (length seg) 0)
          && not (seg == text ".")
          && not (seg == text "..")
          && not (has_star seg))
        (split_slash path)

-- Whether `assertPattern` returns.
unfoldable pub is_pattern : Str → Bool
unfolding is_path ends_with chop
is_pattern pattern =
    (pattern == text "**")
    || is_path (if ends_with pattern (text "/**") then chop 3 pattern else pattern)

-- `inner.endsWith('/**') ? inner.slice(0, -2) : inner`
unfoldable pub base : Str → Str
base inner = if ends_with inner (text "/**") then chop 2 inner else inner

unfoldable pub pattern_covers : Str → Str → Bool
unfolding base
pattern_covers outer inner =
    if outer == text "**"
    then true
    else if inner == text "**"
    then false
    else if ends_with outer (text "/**")
    then starts_with (base inner) (chop 2 outer)
    else outer == inner

unfoldable pub grant_covers : Str → Str → Str → Grant → Bool
grant_covers repo scope pattern g =
    (g.repo == repo) && member scope g.scopes && any (λ outer. pattern_covers outer pattern) g.paths

unfoldable pub grants_cover : List Grant → Str → Str → Str → Bool
grants_cover grants repo scope pattern = any (grant_covers repo scope pattern) grants

unfoldable pub grants_subsume : List Grant → List Grant → Bool
grants_subsume outer inner =
    all
      (λ g.
        all (λ scope. all (λ pattern. grants_cover outer g.repo scope pattern) g.paths) g.scopes)
      inner

-- The checks of one grant in `canonicalGrants`.
unfoldable pub is_grant : Grant → Bool
unfolding is_name is_pattern
is_grant g =
    is_name g.repo
    && not (nat_eq (length g.scopes) 0)
    && not (nat_eq (length g.paths) 0)
    && all (λ s. member s all_scopes) g.scopes
    && all is_pattern g.paths

unfoldable pub canonical_grant : Grant → Grant
canonical_grant g = record {
  repo = g.repo;
  scopes = sort (unique g.scopes);
  paths = sort (unique g.paths);
}

-- `JSON.stringify(grant)`
unfoldable pub grant_text : Grant → Str
grant_text g = stringify (
    obj (
      field (text "repo") (str g.repo) (
        field (text "scopes") (arr (strs g.scopes))
          (field (text "paths") (arr (strs g.paths)) end))))

unfoldable pub insert_grant : Grant → List Grant → List Grant
insert_grant g [] = g ∷ []
insert_grant g (h ∷ hs) =
    if lt_str (grant_text h) (grant_text g) then h ∷ insert_grant g hs else g ∷ h ∷ hs

unfoldable pub sort_grants : List Grant → List Grant
unfolding insert_grant
sort_grants [] = []
sort_grants (g ∷ gs) = insert_grant g (sort_grants gs)

-- `none` is the AuthorityError.
unfoldable pub canonical_grants : List Grant → Option (List Grant)
unfolding is_grant sort_grants canonical_grant
canonical_grants gs = if all is_grant gs then some (sort_grants (map canonical_grant gs)) else none
