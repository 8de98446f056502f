-- ===== src/Prelude/Texts.antt =====
-- Texts as JavaScript holds them: sequences of 16-bit code units, compared unit by unit.
use Prim.Native.Nat.{ℕ}
use Prim.Native.Char.{code}
use Prim.Native.String.{String}
use mathlib.Core.Path.{◌≡◌, refl}
use mathlib.Core.Logic.{inl, inr}
use mathlib.Core.Bool.{Bool, true, false, ◌&&◌}
use mathlib.Core.List.{List, [], ◌∷◌}
use native.Mathlib.Omega.{arith}
use thaddeus.Prelude.Tests.{ltb, nat_eq, if◌then◌else◌, Bool-cases}

abbrev pub Str : Type 0
Str = List ℕ

-- The code units of an ASCII literal.
abbrev pub text : String → Str
text String.[] = []
text (String.◌∷◌ c s) = code c ∷ text s

unfoldable pub eq_str : Str → Str → Bool
eq_str [] [] = true
eq_str [] (b ∷ t) = false
eq_str (a ∷ s) [] = false
eq_str (a ∷ s) (b ∷ t) = nat_eq a b && eq_str s t

pub eq_str→eq : (s t : Str) → eq_str s t ≡ true → s ≡ t
unfolding eq_str
eq_str→eq [] [] h = refl
eq_str→eq [] (b ∷ t) h = ground arith
eq_str→eq (a ∷ s) [] h = ground arith
eq_str→eq (a ∷ s) (b ∷ t) h = ground (arith, eq_str→eq s t)

pub eq_str_refl : (s : Str) → eq_str s s ≡ true
unfolding eq_str
eq_str_refl [] = refl
eq_str_refl (a ∷ s) = ground (arith, eq_str_refl s)

pub eq_str→ne : (s t : Str) → eq_str s t ≡ false → ¬ (s ≡ t)
eq_str→ne s t h e = ground (arith, eq_str_refl s)

unfoldable pub str_dec : Discrete Str
unfolding eq_str Bool-cases
str_dec s t = elim (Bool-cases (eq_str s t)) [
  | inl h ↦ yes (eq_str→eq s t h)
  | inr h ↦ no (eq_str→ne s t h)
]

-- `===` on texts. Tactics split on the decision and so get the equation, or its negation.
infix 50 ◌==◌
abbrev pub ◌==◌ : Str → Str → Bool
s == t = elim (str_dec s t) [ yes _ ↦ true | no _ ↦ false ]

-- `<` on texts.
unfoldable pub lt_str : Str → Str → Bool
lt_str [] [] = false
lt_str [] (b ∷ t) = true
lt_str (a ∷ s) [] = false
lt_str (a ∷ s) (b ∷ t) = if ltb a b then true else if ltb b a then false else lt_str s t

pub lt_str_irrefl : (s : Str) → lt_str s s ≡ false
unfolding lt_str
lt_str_irrefl [] = refl
lt_str_irrefl (a ∷ s) = ground (arith, lt_str_irrefl s)

pub lt_str_trans : (s t u : Str) → lt_str s t ≡ true → lt_str t u ≡ true → lt_str s u ≡ true
unfolding lt_str
lt_str_trans [] [] u h k = cc
lt_str_trans (a ∷ s) [] u h k = cc
lt_str_trans [] (b ∷ t) [] h k = cc
lt_str_trans [] (b ∷ t) (c ∷ u) h k = refl
lt_str_trans (a ∷ s) (b ∷ t) [] h k = cc
lt_str_trans (a ∷ s) (b ∷ t) (c ∷ u) h k = ground (arith, lt_str_trans s t u)

pub lt_str_total : (s t : Str) → lt_str s t ≡ false → lt_str t s ≡ false → s ≡ t
unfolding lt_str
lt_str_total [] [] h k = refl
lt_str_total [] (b ∷ t) h k = cc
lt_str_total (a ∷ s) [] h k = cc
lt_str_total (a ∷ s) (b ∷ t) h k = ground (arith, lt_str_total s t)
