-- ===== src/Platform/Repair.antt =====
-- The repair of projections in `openDurable` of packages/platform/src/platform.ts: the loop over the
-- signed views, given the log and the signed heads that were loaded.
use thaddeus.Prelude.{
  ◌≡◌, ◌≢◌, refl, sym, ap, ◌∙◌, subst, Bool, true, false, ◌&&◌, ◌||◌, not, none, some, List, [],
  ◌∷◌, Str, member, if◌then◌else◌, any, all, get_last?, arith, Bool-cases, Option-cases, inl, inr,
  ◌⊎◌,
}
use thaddeus.Prelude.Dict.{has, get-put}
use thaddeus.Prelude.Texts.{str_dec}
use thaddeus.Log.Head.{HeadRecord}
use thaddeus.Log.HeadStore.{HeadStore, history, views}
use thaddeus.Log.Head.Snapshot.Exact.{ids}
use thaddeus.Log.OpLog.{OpLog, view_heads, set_view, ordered}
use thaddeus.Platform.{same_heads}
use thaddeus.Platform.Land.Effect.{view_heads-other}

-- Whether a view follows some signed version, or is absent.
unfoldable pub is_behind : OpLog → Str → List HeadRecord → Bool
is_behind l view h = not (has l.views view) || any (λ r. same_heads r.heads (view_heads l view)) h

-- One turn of the loop.
unfoldable pub repair_view : OpLog → Str → List HeadRecord → OpLog
unfolding is_behind
repair_view l view h = elim (get_last? h) [
  | none ↦ l
  | some now ↦
      if all (λ id. member id (ids (ordered l))) now.heads && is_behind l view h
      then set_view l view now.heads
      else l
]

unfoldable pub repair_views : OpLog → HeadStore → List Str → OpLog
repair_views l s [] = l
repair_views l s (view ∷ vs) = repair_views (repair_view l view (history s view)) s vs

unfoldable pub repair : OpLog → HeadStore → OpLog
unfolding repair_views
repair l s = repair_views l s (views s)

-- What one turn does to the heads of the views: nothing, or it puts the newest signed heads in place
-- of those of a signed version or of an absent view.
repair_view-cases :
    (l : OpLog) (view : Str) (h : List HeadRecord)
    → (repair_view l view h ≡ l)
      ⊎ ((now : HeadRecord) × (get_last? h ≡ some now)
          × (is_behind l view h ≡ true)
          × (repair_view l view h ≡ set_view l view now.heads))
unfolding repair_view
repair_view-cases l view h = elim (Option-cases (get_last? h)) [
  | inl e ↦ inl (ground arith)
  | inr (now, e) ↦
      elim (Bool-cases (all (λ id. member id (ids (ordered l))) now.heads && is_behind l view h)) [
        | inl y ↦ inr (now, e, ground arith, ground arith)
        | inr n ↦ inl (ground arith)
      ]
]

repair_view-keeps :
    (l : OpLog) (view other : Str) (h : List HeadRecord)
    → other ≢ view
    → (view_heads (repair_view l view h) other ≡ view_heads l other)
      × (has (repair_view l view h).views other ≡ has l.views other)
unfolding repair_view set_view
repair_view-keeps l view other h n = elim (repair_view-cases l view h) [
  | inl e ↦ (ap (λ l. view_heads l other) e, ap (λ l. has l.views other) e)
  | inr (now, _, _, e) ↦ (
    ap (λ l. view_heads l other) e ∙ view_heads-other l view other now.heads n,
    ap (λ l. has l.views other) e ∙ ground (arith, get-put l.views view other now.heads),
  )
]

repair_view-local :
    (l : OpLog) (view : Str) (h : List HeadRecord)
    → is_behind l view h ≡ false
    → repair_view l view h ≡ l
repair_view-local l view h n = elim (repair_view-cases l view h) [
  | inl e ↦ e
  | inr (now, _, y, _) ↦ absurd (ground arith)
]

-- Work that is in no signed version is not touched: a view that the log has, with heads that no signed
-- version of it has, keeps its heads, whatever views are repaired.
pub repair_views-local :
    (l : OpLog) (s : HeadStore) (vs : List Str) (view : Str)
    → is_behind l view (history s view) ≡ false
    → view_heads (repair_views l s vs) view ≡ view_heads l view
unfolding repair_views
repair_views-local l s [] view n = refl
repair_views-local l s (v ∷ vs) view n = elim (str_dec view v) [
  | yes same ↦
      let kept : repair_view l v (history s v) ≡ l =
        repair_view-local l v (history s v)
          (subst (λ v. is_behind l v (history s v) ≡ false) same n) in
      subst (λ t. view_heads (repair_views t s vs) view ≡ view_heads l view) (sym kept)
        (repair_views-local l s vs view n)
  | no other ↦
      let (kept, known) = repair_view-keeps l v view (history s v) other in
      repair_views-local (repair_view l v (history s v)) s vs view (still kept known) ∙ kept
]
  where
    still :
        view_heads (repair_view l v (history s v)) view ≡ view_heads l view
        → has (repair_view l v (history s v)).views view ≡ has l.views view
        → is_behind (repair_view l v (history s v)) view (history s view) ≡ false
    still kept known =
        unfold is_behind in
        (ap
            (λ hs.
              not (has (repair_view l v (history s v)).views view)
              || any (λ r. same_heads r.heads hs) (history s view))
            kept
          ∙ ap (λ k. not k || any (λ r. same_heads r.heads (view_heads l view)) (history s view))
              known
          ∙ n)
