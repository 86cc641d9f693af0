-- ===== src/Gitops/Reconcile/Loops.antt =====
-- The loops over the operations of one kind, in src/pitwall/gitops/reconcile.py.
use pitwall_gpu_broker.Gitops.Differ.{
  PlanOperation, delete, operation, upsert_operation, upserts, deletes, is_yaml_owned,
}
use pitwall_gpu_broker.Gitops.Repository.{Repository, Ran, find, put, apply_entity}
use pitwall_gpu_broker.Gitops.Reconcile.Rows.{find-put_self, find-put_ne, snapshot_of, put-Distinct}
use pitwall_gpu_broker.Gitops.Reconcile.Laws.{IsRepository}
use pitwall_gpu_broker.Gitops.Reconcile.Upserts.{run_entities, then_run, upserted}
use pitwall_gpu_broker.Prelude.Dict.{Dict, lookup}
use pitwall_gpu_broker.Prelude.{Distinct, All-imp, both}
use pitwall_gpu_broker.Prelude.{
  ℕ, String, ◌≡◌, refl, sym, ap, ◌∙◌, subst, ◌≢◌, ◌⊎◌, inl, inr, Bool, true, false, not, ◌&&◌,
  Option, none, some, List, [], ◌∷◌, ◌++◌, arith, if◌then◌else◌, Bool-cases, is_some, All, ok, err,
}

-- A run that ends well goes on from the rows that it left.
go_on :
    {R : Type 0} (r : Ran R) (f g : List R → Ran R) (rows' : List R) (x : Ran R)
    → ((q : List R) → f q ≡ (ok tt, rows') → g q ≡ x)
    → then_run r f ≡ (ok tt, rows')
    → then_run r g ≡ x
go_on (err e, q) f g rows' x step h = cc h
go_on (ok _, q) f g rows' x step h = step q h

run-append :
    {R S : Type 0} (repo : Repository R S) (now : ℕ) (os ps : List (PlanOperation S))
    (rows rows' : List R)
    → run_entities repo now os rows ≡ (ok tt, rows')
    → run_entities repo now (os ++ ps) rows ≡ run_entities repo now ps rows'
run-append {R} repo now [] ps rows rows' h = ap (λ (r : Ran R). run_entities repo now ps r.1) h
run-append repo now (o ∷ os) ps rows rows' h =
    go_on (apply_entity repo o.action o now rows) (run_entities repo now os)
      (run_entities repo now (os ++ ps)) rows' (run_entities repo now ps rows')
      (λ q. run-append repo now os ps q rows') h

module _ {R S : Type 0} {repo : Repository R S} {Fits : Option R → S → Type 0}
    (law : IsRepository repo Fits) (now : ℕ) (rows0 : List R) (current : Dict S)
    (held : (k : String) → lookup k current ≡ snapshot_of repo (find repo k rows0)) where
  open repo.kind use {row_id, snapshot, id}
  open repo use {toggled}

  -- What the creations and updates do to a table.
  pub record Upserted (ds : List (String × S)) (rows : List R) : Type 0 where
    pub after : List R
    pub runs : run_entities repo now (upserts repo.kind current ds) rows ≡ (ok tt, after)
    pub reaches :
        All
          (λ e. Fits (find repo e.0 rows0) e.1 → snapshot_of repo (find repo e.0 after) ≡ some e.1)
          ds
    pub spares : (j : String) → All (λ e. e.0 ≢ j) ds → find repo j after ≡ find repo j rows
    pub distinct : Distinct row_id rows → Distinct row_id after

  pub all_upserted :
      (ds : List (String × S)) (rows : List R)
      → Distinct (λ (e : String × S). e.0) ds
      → All (λ e. id e.1 ≡ e.0) ds
      → All (λ e. find repo e.0 rows ≡ find repo e.0 rows0) ds
      → Upserted ds rows
  all_upserted [] rows unique named same = record {
    after = rows;
    runs = refl;
    reaches = tt;
    spares = λ j h. refl;
    distinct = λ h. h;
  }
  all_upserted ((k, d) ∷ ds) rows unique named same =
      let old = find repo k rows0 in
      let at_id : find repo (id d) rows ≡ old = rw named.0 same.0 in
      let first = upserted law now d rows old at_id in
      let ops = upsert_operation repo.kind d (snapshot_of repo old) in
      let apart =
        All-imp {Q = λ (e : String × S). id d ≢ e.0} (λ e ne eq. ne (sym eq ∙ named.0)) ds
          unique.0 in
      let still =
        both {T = λ (e : String × S). find repo e.0 first.after ≡ find repo e.0 rows0}
          (λ e ne eq. first.spares e.0 ne ∙ eq) ds apart same.1 in
      let rest = all_upserted ds first.after unique.1 named.1 still in
      record {
        after = rest.after;
        runs = rw (held k) (
            run-append repo now ops (upserts repo.kind current ds) rows first.after first.runs
            ∙ rest.runs);
        reaches = (
          λ f.
              ap (snapshot_of repo) (rest.spares k unique.0)
              ∙ (let got = first.reaches f in rw named.0 at got),
          rest.reaches,
        );
        spares = λ j h. rest.spares j h.1 ∙ first.spares j (λ eq. h.0 (sym named.0 ∙ eq));
        distinct = λ h. rest.distinct (first.distinct h);
      }

  abbrev pub is_declared : Dict S → R → Bool
  is_declared desired r = is_some (lookup (row_id r) desired)

  -- What becomes of a row that is not declared.
  abbrev pub retired : R → R
  retired r = if is_yaml_owned repo.kind r then toggled false now r else r

  pub record Deleted (desired : Dict S) (rs rows : List R) : Type 0 where
    pub after : List R
    pub runs : run_entities repo now (deletes repo.kind desired current rs) rows ≡ (ok tt, after)
    pub reaches :
        All (λ r. is_declared desired r ≡ false → find repo (row_id r) after ≡ some (retired r)) rs
    pub spares :
        (j : String)
        → (is_some (lookup j desired) ≡ true) ⊎ All (λ r. row_id r ≢ j) rs
        → find repo j after ≡ find repo j rows
    pub distinct : Distinct row_id rows → Distinct row_id after

  later :
      (desired : Dict S) (r : R) (rs : List R) (j : String)
      → (is_some (lookup j desired) ≡ true) ⊎ All (λ q. row_id q ≢ j) (r ∷ rs)
      → (is_some (lookup j desired) ≡ true) ⊎ All (λ q. row_id q ≢ j) rs
  later desired r rs j (inl h) = inl h
  later desired r rs j (inr h) = inr h.1

  elsewhere :
      (desired : Dict S) (r : R) (rs : List R) (j : String)
      → is_declared desired r ≡ false
      → (is_some (lookup j desired) ≡ true) ⊎ All (λ q. row_id q ≢ j) (r ∷ rs)
      → row_id r ≢ j
  elsewhere desired r rs j undeclared (inl h) eq =
      let h' : is_declared desired r ≡ true =
        subst (λ x. is_some (lookup x desired) ≡ true) (sym eq) h in
      cc (undeclared, h')
  elsewhere desired r rs j undeclared (inr h) eq = h.0 eq

  retained :
      (desired : Dict S) (r : R)
      → (not (is_declared desired r) && is_yaml_owned repo.kind r) ≡ false
      → is_declared desired r ≡ false
      → some r ≡ some (retired r)
  retained desired r kept undeclared = ground arith

  -- The other rows do not feel the deletion of one.
  still_there :
      (desired : Dict S) (r : R) (rs rows : List R)
      → Distinct row_id (r ∷ rs)
      → All
          (λ q.
            (find repo (row_id q) rows0 ≡ some q)
            × (is_declared desired q ≡ false → find repo (row_id q) rows ≡ some q))
          (r ∷ rs)
      → All
          (λ q.
            (find repo (row_id q) rows0 ≡ some q)
            × (is_declared desired q ≡ false
                → find repo (row_id q) (put repo (toggled false now r) rows) ≡ some q))
          rs
  still_there desired r rs rows unique there =
      both
        {T = λ (q : R).
          (find repo (row_id q) rows0 ≡ some q)
          × (is_declared desired q ≡ false
              → find repo (row_id q) (put repo (toggled false now r) rows) ≡ some q)}
        (λ q ne old. (
          old.0,
          λ undeclared.
              find-put_ne repo (row_id q) (toggled false now r) rows
                (λ eq. ne (sym eq ∙ law.toggled_id false now r))
              ∙ old.1 undeclared,
        ))
        rs unique.0 there.1

  dropped :
      (desired : Dict S) (r : R) (rs rows : List R)
      → Distinct row_id (r ∷ rs)
      → All
          (λ q.
            (find repo (row_id q) rows0 ≡ some q)
            × (is_declared desired q ≡ false → find repo (row_id q) rows ≡ some q))
          (r ∷ rs)
      → (not (is_declared desired r) && is_yaml_owned repo.kind r) ≡ true
      → Deleted desired rs (put repo (toggled false now r) rows)
      → Deleted desired (r ∷ rs) rows
  dropped desired r rs rows unique there gone rest =
      let undeclared : is_declared desired r ≡ false = ground arith in
      let owned : is_yaml_owned repo.kind r ≡ true = ground arith in
      let in_plan = held (row_id r) ∙ ap (snapshot_of repo) there.0.0 in
      let same = law.snapshot_id r in
      let here = there.0.1 undeclared in
      let o = operation repo.kind delete (snapshot r) (some (snapshot r)) none [] true in
      let applied : apply_entity repo delete o now rows
          ≡ (ok tt, put repo (toggled false now r) rows) =
        rw (same, here) refl in
      let first : run_entities repo now (o ∷ []) rows
          ≡ (ok tt, put repo (toggled false now r) rows) =
        ap (λ x. then_run x (λ q. (ok tt, q))) applied in
      record {
        after = rest.after;
        runs =
            rw (gone, in_plan)
              (run-append repo now (o ∷ []) (deletes repo.kind desired current rs) rows
                  (put repo (toggled false now r) rows) first
                ∙ rest.runs);
        reaches = (
          λ _.
              rest.spares (row_id r) (inr unique.0)
              ∙ find-put_self repo (row_id r) (toggled false now r) rows
                  (law.toggled_id false now r)
              ∙ (rw owned refl),
          rest.reaches,
        );
        spares = λ j h.
            rest.spares j (later desired r rs j h)
            ∙ find-put_ne repo j (toggled false now r) rows (λ eq.
              elsewhere desired r rs j undeclared h (sym (law.toggled_id false now r) ∙ eq));
        distinct = λ h. rest.distinct (put-Distinct repo (toggled false now r) rows h);
      }

  pub all_deleted :
      (desired : Dict S) (rs rows : List R)
      → Distinct row_id rs
      → All
          (λ r.
            (find repo (row_id r) rows0 ≡ some r)
            × (is_declared desired r ≡ false → find repo (row_id r) rows ≡ some r))
          rs
      → Deleted desired rs rows
  all_deleted desired [] rows unique there = record {
    after = rows;
    runs = refl;
    reaches = tt;
    spares = λ j h. refl;
    distinct = λ h. h;
  }
  all_deleted desired (r ∷ rs) rows unique there =
      elim (Bool-cases (not (is_declared desired r) && is_yaml_owned repo.kind r)) [
        | inl gone ↦ dropped desired r rs rows unique there gone (
            all_deleted desired rs (put repo (toggled false now r) rows) unique.1
              (still_there desired r rs rows unique there))
        | inr kept ↦
            let rest = all_deleted desired rs rows unique.1 there.1 in
            record {
              after = rest.after;
              runs = rw kept rest.runs;
              reaches = (
                λ undeclared.
                    rest.spares (row_id r) (inr unique.0)
                    ∙ there.0.1 undeclared
                    ∙ retained desired r kept undeclared,
                rest.reaches,
              );
              spares = λ j h. rest.spares j (later desired r rs j h);
              distinct = rest.distinct;
            }
      ]
