-- ===== src/Gitops/Reconcile/Again.antt =====
-- Planning again after a plan of src/pitwall/gitops was applied.
use pitwall_gpu_broker.Gitops.Schema.{Provider}
use pitwall_gpu_broker.Gitops.Differ.{
  planned_delete, upserts, deletes, current_snapshots, upsert_operations, delete_operations,
  key_leb, is_yaml_owned,
}
use pitwall_gpu_broker.Gitops.Snapshots.{CapabilitySnapshot, ProviderSnapshot, provider_kind}
use pitwall_gpu_broker.Gitops.Desired.{ReconcilePlan, plan_of}
use pitwall_gpu_broker.Gitops.Reconcile.{Registry}
use pitwall_gpu_broker.Gitops.Repository.{
  Repository, capability_repository, provider_repository, find,
}
use pitwall_gpu_broker.Gitops.Reconcile.Rows.{snapshot_of, lookup-snapshots, found_id}
use pitwall_gpu_broker.Gitops.Reconcile.Laws.{
  IsRepository, CapabilityFits, ProviderFits, capability-IsRepository, provider-IsRepository,
}
use pitwall_gpu_broker.Gitops.Reconcile.Settle.{IsDesired, Settled, at_found, find_each}
use pitwall_gpu_broker.Gitops.Reconcile.Converge.{Reconciled}
use pitwall_gpu_broker.Prelude.Dict.{Dict, lookup}
use pitwall_gpu_broker.Prelude.Sort.{sort, All-sort, All-of_sort}
use pitwall_gpu_broker.Prelude.{Distinct, All-imp}
use pitwall_gpu_broker.Prelude.{
  ℕ, String, ◌≡◌, refl, ap, ◌∙◌, ◌≢◌, inl, inr, true, false, not, ◌&&◌, Option, none, some, List,
  [], ◌∷◌, ◌++◌, arith, eq_iff, Bool-cases, is_some, All,
}

lookup_more :
    {V : Type 0} (j : String) (w : V) (d all : Dict V)
    → All (λ e. e.0 ≢ j) d
    → All (λ e. lookup e.0 all ≡ some e.1) d
    → All (λ e. lookup e.0 ((j, w) ∷ all) ≡ some e.1) d
lookup_more j w [] all ne h = tt
lookup_more j w ((k, v) ∷ d) all ne h =
    let differ = ne.0 in
    let here = h.0 in (ground (arith, differ, eq_iff j k), lookup_more j w d all ne.1 h.1)

lookup_each :
    {V : Type 0} (d : Dict V)
    → Distinct (λ (e : String × V). e.0) d
    → All (λ e. lookup e.0 d ≡ some e.1) d
lookup_each [] u = tt
lookup_each ((j, w) ∷ d) u =
    (ground (arith, eq_iff j j), lookup_more j w d d u.0 (lookup_each d u.1))

module _ {R S : Type 0} {repo : Repository R S} {Fits : Option R → S → Type 0}
    (law : IsRepository repo Fits) (now : ℕ) (desired : Dict S) (want : IsDesired repo desired)
    (rows after : List R) (done : Settled repo Fits now desired rows after) where
  open repo.kind use {row_id}

  no_upserts :
      (current : Dict S) (ds : List (String × S))
      → All (λ e. lookup e.0 current ≡ some e.1) ds
      → upserts repo.kind current ds ≡ []
  no_upserts current [] h = refl
  no_upserts current ((k, d) ∷ ds) h = rw (h.0, law.reflexive, no_upserts current ds h.1) refl

  nothing_to_write :
      ((k : String) (d : S) → lookup k desired ≡ some d → Fits (find repo k rows) d)
      → upsert_operations repo.kind desired after ≡ []
  unfolding upsert_operations
  nothing_to_write fits =
      let leb_ids = key_leb (λ (e : String × S). e.0) in
      no_upserts (current_snapshots repo.kind after) (sort leb_ids desired) (
        All-sort leb_ids
          (λ (e : String × S). lookup e.0 (current_snapshots repo.kind after) ≡ some e.1) desired
          (All-imp
            {Q = λ (e : String × S). lookup e.0 (current_snapshots repo.kind after) ≡ some e.1}
            (λ e here.
              lookup-snapshots repo law.snapshot_id after e.0 done.distinct
              ∙ done.declared e.0 e.1 here (fits e.0 e.1 here))
            desired (lookup_each desired want.unique)))

  -- A kind without deletions has no row that is owned by declarations and not declared.
  no_deletes :
      (current : Dict S) (rs : List R)
      → All (λ r. lookup (row_id r) current ≡ snapshot_of repo (some r)) rs
      → deletes repo.kind desired current rs ≡ []
      → All
          (λ r. is_some (lookup (row_id r) desired) ≡ false → is_yaml_owned repo.kind r ≡ false)
          rs
  no_deletes current [] there h = tt
  no_deletes current (r ∷ rs) there h =
      elim (Bool-cases (not (is_some (lookup (row_id r) desired)) && is_yaml_owned repo.kind r)) [
        | inl gone ↦
            let h' : planned_delete repo.kind (lookup (row_id r) current)
                  ++ deletes repo.kind desired current rs
                ≡ [] =
              rw gone at h in
            let here = there.0 in
            let h'' : planned_delete repo.kind (snapshot_of repo (some r))
                  ++ deletes repo.kind desired current rs
                ≡ [] =
              rw here at h' in
            cc h''
        | inr kept ↦
            let h' : deletes repo.kind desired current rs ≡ [] = rw kept at h in
            ((λ undeclared. ground arith), no_deletes current rs there.1 h')
      ]

  still_deletes :
      (k : String) (r : R)
      → lookup k desired ≡ none
      → find repo k rows ≡ some r
      → is_yaml_owned repo.kind r ≡ true
      → delete_operations repo.kind desired after ≢ []
  unfolding delete_operations
  still_deletes k r gone found owned none_planned =
      let leb_ids = key_leb row_id in
      let P = λ (q : R).
        is_some (lookup (row_id q) desired) ≡ false → is_yaml_owned repo.kind q ≡ false in
      let each =
        All-imp
          {Q = λ (q : R).
            lookup (row_id q) (current_snapshots repo.kind after) ≡ snapshot_of repo (some q)}
          (λ q here.
            lookup-snapshots repo law.snapshot_id after (row_id q) done.distinct
            ∙ ap (snapshot_of repo) here)
          after (find_each repo after done.distinct) in
      let free = All-of_sort leb_ids P after (
        no_deletes (current_snapshots repo.kind after) (sort leb_ids after)
          (All-sort leb_ids
            (λ (q : R).
              lookup (row_id q) (current_snapshots repo.kind after) ≡ snapshot_of repo (some q))
            after each)
          none_planned) in
      let now_there : find repo k after ≡ some (repo.toggled false now r) =
        done.undeclared k r gone found ∙ (rw owned refl) in
      let same = found_id repo k r rows found in
      let at_k : row_id (repo.toggled false now r) ≡ k = law.toggled_id false now r ∙ same in
      let undeclared : is_some (lookup (row_id (repo.toggled false now r)) desired) ≡ false =
        rw (at_k, gone) refl in
      let unowned = at_found repo P after k (repo.toggled false now r) free now_there undeclared in
      cc (unowned, law.toggled_owned false now r, owned)

-- After a plan was applied, so that both tables are settled, a second plan for the same desired
-- snapshots creates and updates nothing, where the stored form of every desired snapshot is the snapshot.
pub replan_writes_nothing :
    (actor : String) (now : ℕ) (c : Dict CapabilitySnapshot) (p : Dict ProviderSnapshot)
    (plan : ReconcilePlan) (g : Registry)
    → IsDesired capability_repository c
    → IsDesired provider_repository p
    → (r : Reconciled actor now c p plan g)
    → ((k : String) (d : CapabilitySnapshot)
        → lookup k c ≡ some d
        → CapabilityFits (find capability_repository k g.capabilities) d)
    → ((k : String) (d : ProviderSnapshot)
        → lookup k p ≡ some d
        → ProviderFits (find provider_repository k g.providers) d)
    → ((plan_of c p r.after.capabilities r.after.providers).capability_upserts ≡ [])
      × ((plan_of c p r.after.capabilities r.after.providers).provider_upserts ≡ [])
unfolding plan_of capability_repository provider_repository
replan_writes_nothing actor now c p plan g want_c want_p r fits_c fits_p = (
  nothing_to_write capability-IsRepository now c want_c g.capabilities r.after.capabilities
      r.capabilities_settled fits_c,
  nothing_to_write provider-IsRepository now p want_p g.providers r.after.providers
      r.providers_settled fits_p,
)

-- A provider row that is owned by declarations and not declared is still there after a plan was
-- applied, so the next plan for the same desired snapshots has deletions again.
pub deletion_never_ends :
    (actor : String) (now : ℕ) (c : Dict CapabilitySnapshot) (p : Dict ProviderSnapshot)
    (plan : ReconcilePlan) (g : Registry)
    → IsDesired provider_repository p
    → (r : Reconciled actor now c p plan g) → (k : String) (row : Provider) → lookup k p ≡ none
    → find provider_repository k g.providers ≡ some row
    → is_yaml_owned provider_kind row ≡ true
    → (plan_of c p r.after.capabilities r.after.providers).provider_deletes ≢ []
unfolding plan_of provider_repository
deletion_never_ends actor now c p plan g want r k row gone found owned =
    still_deletes provider-IsRepository now p want g.providers r.after.providers r.providers_settled
      k row gone found owned
