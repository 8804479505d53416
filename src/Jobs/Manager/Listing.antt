-- ===== src/Jobs/Manager/Listing.antt =====
-- Manager.List: the views of all jobs, newest first.
use matrix_runtime.Common.{◌≡◌, ◌∙◌, sym, Bool, List, map, count}
use matrix_runtime.Common.Newest.{
  newest_first, IsNewestFirst, newest_first-IsNewestFirst, count-newest_first, count-map,
  map-IsNewestFirst,
}
use matrix_runtime.Jobs.Job.{Job, Snapshot, snapshot}
use matrix_runtime.Jobs.Registry.{list_jobs}
use matrix_runtime.Jobs.Manager.{Manager}

-- sort.Slice by `CreatedAt.After`
unfoldable pub list_snapshots : Manager → List Snapshot
unfolding newest_first list_jobs snapshot
list_snapshots m = map snapshot (newest_first (λ (j : Job). j.created_at) (list_jobs m.registry))

-- The list has the views of the registered jobs, each as often as its job is registered, and no view is
-- older than one that follows it.
list_snapshots_lem :
    (m : Manager) (p : Snapshot → Bool)
    → IsNewestFirst (λ (s : Snapshot). s.created_at) (list_snapshots m)
      × (count p (list_snapshots m) ≡ count p (map snapshot (list_jobs m.registry)))
unfolding list_snapshots snapshot
list_snapshots_lem m p =
    let jobs = list_jobs m.registry in
    (
      map-IsNewestFirst snapshot (λ (s : Snapshot). s.created_at)
          (newest_first (λ (j : Job). j.created_at) jobs)
          (newest_first-IsNewestFirst (λ (j : Job). j.created_at) jobs),
      count-map snapshot p (newest_first (λ (j : Job). j.created_at) jobs)
          ∙ count-newest_first (λ (j : Job). j.created_at) (λ j. p (snapshot j)) jobs
          ∙ sym (count-map snapshot p jobs),
    )
