-- ===== src/Alerts/Listing.antt =====
-- What `list` and `list_by_status` of crates/alerts/src/lib.rs return.
use mathlib.Core.List.{Mem, Perm, Pairwise}
use mathlib.Core.List.Perm
use stellartrace.Prelude.{
  ◌≡◌, ◌↔◌, true, Bool, List, [], ◌∷◌, filter, filter-mem, mem-filter_of, nat_eq, inl, inr,
  Bool-cases,
}
use stellartrace.Prelude.Order.{Order}
use stellartrace.Prelude.Sort.{sort-perm, sort-IsSorted}
use stellartrace.Prelude.HashMap.{values}
use stellartrace.Platform.{Chrono, IsTimeline}
use stellartrace.Common.{Alert, InvestigationStatus, status_beq_iff}
use stellartrace.Alerts.Manager.{AlertManager, list, list_by_status, created_later}

filter-Pairwise :
    {A : Type 0} {R : A → A → Type 0} (p : A → Bool) (l : List A)
    → Pairwise R l
    → Pairwise R (filter p l)
filter-Pairwise p [] sorted = Pairwise.nil
filter-Pairwise p (x ∷ l) (Pairwise.cons before sorted) = elim (Bool-cases (p x)) [
  | inl e ↦
      rw e (
        Pairwise.cons (λ y inside. before y (filter-mem p l inside).0) (filter-Pairwise p l sorted))
  | inr e ↦ rw e (filter-Pairwise p l sorted)
]

module _ {F T : Type 0} ⦃chrono : Chrono T⦄ where
  -- the order in which `list` sorts
  abbrev pub newest_first : IsTimeline T → Order (Alert F T)
  newest_first timeline = record {
    le = created_later;
    le_total = λ a b. timeline.at_most_total b.created_at a.created_at;
    le_trans = λ a b c h k. timeline.at_most_trans c.created_at b.created_at a.created_at k h;
  }

  -- no earlier item is older than a later one
  abbrev pub IsNewestFirst : List (Alert F T) → Type 0
  IsNewestFirst = Pairwise (λ a b. chrono.at_most b.created_at a.created_at ≡ true)

  -- `list` returns every alert of the store once and no other, each before those created earlier.
  pub list-IsNewestFirst :
      IsTimeline T
      → (m : AlertManager F T) → Perm (list m) (values m.alerts) × IsNewestFirst (list m)
  unfolding list
  list-IsNewestFirst timeline m = (
    sort-perm ⦃o = newest_first timeline⦄ (values m.alerts),
    sort-IsSorted ⦃o = newest_first timeline⦄ (values m.alerts),
  )

  -- `list_by_status` returns just the stored alerts that have the status.
  pub list_by_status_iff :
      IsTimeline T
      → (m : AlertManager F T) (status : InvestigationStatus) (a : Alert F T)
      → Mem a (list_by_status m status) ↔ (Mem a (values m.alerts) × (a.status ≡ status))
  unfolding list_by_status
  list_by_status_iff timeline m status a =
      let listed = Perm.mem_iff {a = a} (list-IsNewestFirst timeline m).0 in
      (
        λ inside.
            let (all, has) = filter-mem _ (list m) inside in
            (listed.0 all, (status_beq_iff a.status status).0 has),
        λ (inside, has).
            mem-filter_of _ (list m) (listed.1 inside) ((status_beq_iff a.status status).1 has),
      )

  pub list_by_status-IsNewestFirst :
      IsTimeline T
      → (m : AlertManager F T) (status : InvestigationStatus)
      → IsNewestFirst (list_by_status m status)
  unfolding list_by_status
  list_by_status-IsNewestFirst timeline m status =
      filter-Pairwise _ (list m) (list-IsNewestFirst timeline m).1
