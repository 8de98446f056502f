-- ===== src/Prelude/Dict/Keys.antt =====
-- The keys of a map are distinct.
use mathlib.Core.Path.{◌≡◌, refl, ap}
use mathlib.Core.Logic.{inl, inr}
use mathlib.Core.Bool.{true, ◌||◌}
use mathlib.Core.List.{[], ◌∷◌}
use mathlib.Core.List.{Memᴰ}
use mathlib.Core.List.Memᴰ.{head, tail, not-nil}
use mathlib.Core.Option.{some}
use native.Mathlib.Omega.{arith}
use thaddeus.Prelude.Tests.{Bool-cases}
use thaddeus.Prelude.Texts.{Str, ◌==◌}
use thaddeus.Prelude.Sorting.{member, IsUnique}
use thaddeus.Prelude.Dict.{Dict, get, put, keys}

module _ {ℓ} {V : Type ℓ} where
  pub member-keys-put :
      (m : Dict V) (k z : Str) (v : V) → member z (keys (put m k v)) ≡ (k == z) || member z (keys m)
  unfolding keys put member
  member-keys-put [] k z v = refl
  member-keys-put ((j, x) ∷ m) k z v = ground (arith, member-keys-put m k z v)

  pub IsUnique-put :
      (m : Dict V) (k : Str) (v : V) → IsUnique (keys m) → IsUnique (keys (put m k v))
  unfolding keys put member
  IsUnique-put [] k v u = (refl, tt)
  IsUnique-put ((j, x) ∷ m) k v u = ground (arith, IsUnique-put m k v, member-keys-put m k j v)

  Memᴰ-keys : (m : Dict V) (k : Str) (v : V) → Memᴰ (k, v) m → member k (keys m) ≡ true
  unfolding keys member
  Memᴰ-keys [] k v i = absurd (not-nil i)
  Memᴰ-keys ((j, x) ∷ m) k v (head e) = ground (arith, ap (λ e. e.0) e)
  Memᴰ-keys ((j, x) ∷ m) k v (tail i) = ground (arith, Memᴰ-keys m k v i)

  -- An entry is what its key gives.
  pub Memᴰ-get :
      (m : Dict V) (k : Str) (v : V) → IsUnique (keys m) → Memᴰ (k, v) m → get m k ≡ some v
  unfolding keys get
  Memᴰ-get [] k v u i = absurd (not-nil i)
  Memᴰ-get ((j, x) ∷ m) k v u (head e) = ground (arith, ap (λ e. e.0) e, ap (λ e. e.1) e)
  Memᴰ-get ((j, x) ∷ m) k v u (tail i) = ground (arith, Memᴰ-get m k v u.1 i, Memᴰ-keys m k v i)

  pub get-Memᴰ : (m : Dict V) (k : Str) (v : V) → get m k ≡ some v → Memᴰ (k, v) m
  unfolding get
  get-Memᴰ [] k v h = absurd (ground arith)
  get-Memᴰ ((j, w) ∷ m) k v h = elim (Bool-cases (j == k)) [
    | inl q ↦ head (ground arith)
    | inr q ↦ tail (get-Memᴰ m k v (ground arith))
  ]
