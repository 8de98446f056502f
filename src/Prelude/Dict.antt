-- ===== src/Prelude/Dict.antt =====
-- JavaScript's `Map` with text keys: the entries in insertion order, one for each key. `set` on a
-- key that is there keeps its place.
pub mod Keys
use mathlib.Core.Path.{◌≡◌, refl}
use mathlib.Core.Bool.{Bool, true, false}
use mathlib.Core.List.{List, [], ◌∷◌}
use mathlib.Core.Option.{Option, none, some}
use native.Mathlib.Omega.{arith}
use thaddeus.Prelude.Tests.{if◌then◌else◌}
use thaddeus.Prelude.Texts.{Str, ◌==◌}

abbrev pub Dict {ℓ} : Type ℓ → Type ℓ
Dict V = List (Str × V)

module _ {ℓ} {V : Type ℓ} where
  unfoldable pub get : Dict V → Str → Option V
  get [] k = none
  get ((j, v) ∷ m) k = if j == k then some v else get m k

  unfoldable pub put : Dict V → Str → V → Dict V
  put [] k v = (k, v) ∷ []
  put ((j, w) ∷ m) k v = if j == k then (j, v) ∷ m else (j, w) ∷ put m k v

  unfoldable pub remove : Dict V → Str → Dict V
  remove [] k = []
  remove ((j, w) ∷ m) k = let rest = remove m k in if j == k then rest else (j, w) ∷ rest

  abbrev pub has : Dict V → Str → Bool
  has m k = elim (get m k) [ none ↦ false | some _ ↦ true ]

  unfoldable pub keys : Dict V → List Str
  keys [] = []
  keys ((j, w) ∷ m) = j ∷ keys m

  unfoldable pub values : Dict V → List V
  values [] = []
  values ((j, w) ∷ m) = w ∷ values m

  pub get-put :
      (m : Dict V) (k j : Str) (v : V) → get (put m k v) j ≡ (if k == j then some v else get m j)
  unfolding get put
  get-put [] k j v = refl
  get-put ((i, w) ∷ m) k j v = ground (arith, get-put m k j v)

  pub get-remove :
      (m : Dict V) (k j : Str) → get (remove m k) j ≡ (if k == j then none else get m j)
  unfolding get remove
  get-remove [] k j = ground arith
  get-remove ((i, w) ∷ m) k j = ground (arith, get-remove m k j)

  pub get-put_self : (m : Dict V) (k : Str) (v : V) → get (put m k v) k ≡ some v
  get-put_self m k v = ground (arith, get-put m k k v)

  pub get-put_fresh :
      (m : Dict V) (k j : Str) (v w : V)
      → has m k ≡ false
      → get m j ≡ some w
      → get (put m k v) j ≡ some w
  get-put_fresh m k j v w h g = ground (arith, get-put m k j v)

pub ruleset dict_laws = (get-put, get-remove)
