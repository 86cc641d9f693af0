-- ===== src/Gitops/Reconcile/Settle.antt =====
-- One table after the creations and updates, and then the deletions, of a plan of
-- src/pitwall/gitops/differ.py.
use pitwall_gpu_broker.Gitops.Differ.{
  current_snapshots, upsert_operations, delete_operations, key_leb, is_yaml_owned,
}
use pitwall_gpu_broker.Gitops.Repository.{Repository, find}
use pitwall_gpu_broker.Gitops.Reconcile.Rows.{snapshot_of, found_id, lookup-snapshots}
use pitwall_gpu_broker.Gitops.Reconcile.Laws.{IsRepository}
use pitwall_gpu_broker.Gitops.Reconcile.Upserts.{run_entities}
use pitwall_gpu_broker.Gitops.Reconcile.Loops.{
  all_upserted, Upserted, all_deleted, Deleted, retired, is_declared,
}
use pitwall_gpu_broker.Prelude.Dict.{Dict, lookup}
use pitwall_gpu_broker.Prelude.Sort.{sort, All-sort, All-of_sort, sort-Distinct}
use pitwall_gpu_broker.Prelude.{Distinct, All-imp}
use pitwall_gpu_broker.Prelude.{
  ℕ, String, ◌≡◌, refl, ap, ◌∙◌, subst, ◌≢◌, inl, inr, Bool, false, Option, none, some, List, [],
  ◌∷◌, arith, eq_iff, str_eq, if◌then◌else◌, Bool-cases, is_some, All, ok,
}

-- Desired snapshots by their ids, which differ.
pub record IsDesired {R S : Type 0} (repo : Repository R S) (desired : Dict S) : Type 0 where
  pub unique : Distinct (λ (e : String × S). e.0) desired
  pub named : All (λ (e : String × S). repo.kind.id e.1 ≡ e.0) desired

-- The table `after` is what the desired snapshots ask for, from `rows`: a declared entity is as
-- declared, where its stored form can be; a row that is not declared is retired if it is owned by
-- the declarations, and otherwise as it was; no other row appears.
pub record Settled {R S : Type 0} (repo : Repository R S) (Fits : Option R → S → Type 0) (now : ℕ)
    (desired : Dict S) (rows after : List R) : Type 0 where
  pub declared :
      (k : String) (d : S)
      → lookup k desired ≡ some d
      → Fits (find repo k rows) d
      → snapshot_of repo (find repo k after) ≡ some d
  pub undeclared :
      (k : String) (r : R)
      → lookup k desired ≡ none
      → find repo k rows ≡ some r
      → find repo k after ≡ some (if is_yaml_owned repo.kind r then repo.toggled false now r else r)
  pub absent :
      (k : String) → lookup k desired ≡ none → find repo k rows ≡ none → find repo k after ≡ none
  pub distinct : Distinct repo.kind.row_id after

-- A property of the entries holds at what a lookup finds.
pub at_lookup :
    {V : Type 0} (P : String → V → Type 0) (d : Dict V) (k : String) (v : V)
    → All (λ e. P e.0 e.1) d
    → lookup k d ≡ some v
    → P k v
at_lookup P [] k v h e = cc e
at_lookup P ((j, w) ∷ d) k v h e = elim (Bool-cases (str_eq j k)) [
  | inl same ↦
      let here : w ≡ v = ground arith in
      subst (P k) here (subst (λ x. P x w) ((eq_iff j k).0 same) h.0)
  | inr differ ↦ at_lookup P d k v h.1 (ground arith)
]

pub no_key : {V : Type 0} (d : Dict V) (k : String) → lookup k d ≡ none → All (λ e. e.0 ≢ k) d
no_key [] k h = tt
no_key ((j, w) ∷ d) k h = elim (Bool-cases (str_eq j k)) [
  | inl same ↦ absurd (ground arith)
  | inr differ ↦ (λ eq. let e = (eq_iff j k).1 eq in cc (differ, e), no_key d k (ground arith))
]

module _ {R S : Type 0} (repo : Repository R S) where
  open repo.kind use {row_id}

  with_more :
      (q : R) (rs all : List R)
      → All (λ r. row_id r ≢ row_id q) rs
      → All (λ r. find repo (row_id r) all ≡ some r) rs
      → All (λ r. find repo (row_id r) (q ∷ all) ≡ some r) rs
  with_more q [] all ne h = tt
  with_more q (r ∷ rs) all ne h =
      let differ = ne.0 in
      let here = h.0 in
      (ground (arith, differ, eq_iff (row_id q) (row_id r)), with_more q rs all ne.1 h.1)

  pub find_each :
      (rs : List R) → Distinct row_id rs → All (λ r. find repo (row_id r) rs ≡ some r) rs
  find_each [] d = tt
  find_each (r ∷ rs) d =
      (ground (arith, eq_iff (row_id r) (row_id r)), with_more r rs rs d.0 (find_each rs d.1))

  pub at_found :
      (P : R → Type 0) (rs : List R) (k : String) (r : R) → All P rs → find repo k rs ≡ some r → P r
  at_found P [] k r h e = cc e
  at_found P (q ∷ rs) k r h e = elim (Bool-cases (str_eq (row_id q) k)) [
    | inl same ↦ let here : q ≡ r = ground arith in subst P here h.0
    | inr differ ↦ at_found P rs k r h.1 (ground arith)
  ]

  pub no_row : (rs : List R) (k : String) → find repo k rs ≡ none → All (λ r. row_id r ≢ k) rs
  no_row [] k h = tt
  no_row (q ∷ rs) k h = elim (Bool-cases (str_eq (row_id q) k)) [
    | inl same ↦ absurd (ground arith)
    | inr differ ↦
        (λ eq. let e = (eq_iff (row_id q) k).1 eq in cc (differ, e), no_row rs k (ground arith))
  ]

module _ {R S : Type 0} {repo : Repository R S} {Fits : Option R → S → Type 0}
    (law : IsRepository repo Fits) (now : ℕ) (desired : Dict S) (want : IsDesired repo desired)
    (rows : List R) (unique : Distinct repo.kind.row_id rows) where
  open repo.kind use {row_id, id}

  abbrev current : Dict S
  current = current_snapshots repo.kind rows

  pub held : (k : String) → lookup k current ≡ snapshot_of repo (find repo k rows)
  held k = lookup-snapshots repo law.snapshot_id rows k unique

  abbrev entry_leb : String × S → String × S → Bool
  entry_leb = key_leb (λ (e : String × S). e.0)

  first : Upserted law now rows current held (sort entry_leb desired) rows
  first =
      let names = All-sort entry_leb (λ (e : String × S). id e.1 ≡ e.0) desired want.named in
      all_upserted law now rows current held (sort entry_leb desired) rows
        (sort-Distinct entry_leb (λ (e : String × S). e.0) desired want.unique) names
        (All-imp {Q = λ (e : String × S). find repo e.0 rows ≡ find repo e.0 rows} (λ e _. refl)
          (sort entry_leb desired) names)

  untouched : (k : String) → lookup k desired ≡ none → find repo k first.after ≡ find repo k rows
  untouched k h =
      first.spares k (All-sort entry_leb (λ (e : String × S). e.0 ≢ k) desired (no_key desired k h))

  none_of : (o : Option S) → is_some o ≡ false → o ≡ none
  none_of none h = refl
  none_of (some s) h = cc h

  then_deleted : Deleted law now rows current held desired (sort (key_leb row_id) rows) first.after
  then_deleted =
      all_deleted law now rows current held desired (sort (key_leb row_id) rows) first.after
        (sort-Distinct (key_leb row_id) row_id rows unique)
        (All-sort (key_leb row_id)
          (λ (r : R).
            (find repo (row_id r) rows ≡ some r)
            × (is_declared law now rows current held desired r ≡ false
                → find repo (row_id r) first.after ≡ some r))
          rows
          (All-imp
            {Q = λ (r : R).
              (find repo (row_id r) rows ≡ some r)
              × (is_declared law now rows current held desired r ≡ false
                  → find repo (row_id r) first.after ≡ some r)}
            (λ r here.
              (here, λ h. untouched (row_id r) (none_of (lookup (row_id r) desired) h) ∙ here))
            rows (find_each repo rows unique)))

  settled : Settled repo Fits now desired rows then_deleted.after
  settled = record {
    declared = λ k d at_k fits.
        ap (snapshot_of repo) (then_deleted.spares k (inl (ap is_some at_k)))
        ∙ at_lookup
            (λ (j : String) (e : S).
              Fits (find repo j rows) e → snapshot_of repo (find repo j first.after) ≡ some e)
            desired k d
            (All-of_sort entry_leb
              (λ (e : String × S).
                Fits (find repo e.0 rows) e.1
                → snapshot_of repo (find repo e.0 first.after) ≡ some e.1)
              desired first.reaches)
            at_k fits;
    undeclared = λ k r gone found.
        let P = λ (q : R).
          is_declared law now rows current held desired q ≡ false
          → find repo (row_id q) then_deleted.after ≡ some (retired law now rows current held q) in
        let at_r =
          at_found repo P rows k r (All-of_sort (key_leb row_id) P rows then_deleted.reaches)
            found in
        let same = found_id repo k r rows found in
        let at_k : lookup (row_id r) desired ≡ none = rw same gone in
        let got = at_r (ap is_some at_k) in rw same at got;
    absent = λ k gone missing.
        then_deleted.spares k (
          inr
            (All-sort (key_leb row_id) (λ (r : R). row_id r ≢ k) rows (no_row repo rows k missing)))
        ∙ untouched k gone
        ∙ missing;
    distinct = then_deleted.distinct (first.distinct unique);
  }

  -- Both runs end well, and what they leave is settled.
  pub record Settles : Type 0 where
    pub between : List R
    pub after : List R
    pub upserts_run :
        run_entities repo now (upsert_operations repo.kind desired rows) rows ≡ (ok tt, between)
    pub deletes_run :
        run_entities repo now (delete_operations repo.kind desired rows) between ≡ (ok tt, after)
    pub outcome : Settled repo Fits now desired rows after

  pub settles : Settles
  unfolding upsert_operations delete_operations
  settles = record {
    between = first.after;
    after = then_deleted.after;
    upserts_run = first.runs;
    deletes_run = then_deleted.runs;
    outcome = settled;
  }
