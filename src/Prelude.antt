-- ===== src/Prelude.antt =====
-- The names that the other modules share.
pub mod Tests
pub mod Texts
pub mod Lists
pub mod Dict
pub mod Sorting
pub use Tests.{ltb, leb, nat_eq, if◌then◌else◌, ltb→lt, lt→ltb, leb→le, nat_eq→eq, nat_eq_refl}
unfoldable pub use Tests.{Bool-cases}
pub use Tests.{Option-cases, tests}
unfoldable pub use Texts.{Str, text, str_dec, eq_str, lt_str, ◌==◌}
pub use Texts.{lt_str_irrefl, lt_str_trans, lt_str_total}
unfoldable pub use Sorting.{member, unique, sort}
pub use Sorting.{member-append, member-reverse, member-cons_cases, member-append_cases, member-here}
pub use Sorting.{member-there, Memᴰ-member, member-Memᴰ}
pub use Lists.{length-reverse}
pub use Lists.{
  Memᴰ-append, Memᴰ-keep, keep-Memᴰ, any-false, any-true, Memᴰ-any, all-Memᴰ, Memᴰ-all, keep-empty,
}
pub use Lists.{length, get_elem?, get_last?, drop, take, any, all, find, keep, length-append}
pub use Prim.Native.Nat.{ℕ, zero, suc, ◌+◌, ◌-◌, ◌*◌, ◌/◌, ◌%◌, ◌^◌, ◌≤◌, ◌<◌}
pub use mathlib.Core.Path.{◌≡◌, refl, sym, ap, subst, fun_ext, ◌∙◌}
pub use mathlib.Core.Logic.{◌≢◌, ◌↔◌, ◌⊎◌, inl, inr}
pub use mathlib.Core.Bool.{Bool, true, false, not, ◌&&◌, ◌||◌}
pub use mathlib.Core.Option.{Option, none, some}
pub use mathlib.Core.List.{List, [], ◌∷◌, ◌++◌, map, reverse}
pub use native.Mathlib.Omega.{arith}
unfoldable pub use native.Mathlib.Decide.{dec_lt, dec_le, ℕ_discrete}
