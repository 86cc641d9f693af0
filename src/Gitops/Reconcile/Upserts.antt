-- ===== src/Gitops/Reconcile/Upserts.antt =====
-- Creations and updates of src/pitwall/gitops/reconcile.py, one at a time and in a row.
use pitwall_gpu_broker.Prelude.{Distinct}
use pitwall_gpu_broker.Gitops.Differ.{
  PlanOperation, create, update, operation, update_if, upsert_operation,
}
use pitwall_gpu_broker.Gitops.Repository.{
  Repository, Ran, find, put, has_non_enabled_change, same_bool, apply_entity,
}
use pitwall_gpu_broker.Gitops.Reconcile.Rows.{
  find-put_self, find-put_ne, found_id, snapshot_of, put-Distinct,
}
use pitwall_gpu_broker.Gitops.Reconcile.Laws.{IsRepository}
use pitwall_gpu_broker.Prelude.{
  ℕ, String, ◌≡◌, refl, sym, ap, ◌∙◌, ◌≢◌, inl, inr, Bool, true, false, Option, none, some, List,
  [], ◌∷◌, Bool-cases, ok, err,
}

-- The operations on one table, until the first error.
abbrev pub then_run : {R : Type 0} → Ran R → (List R → Ran R) → Ran R
then_run (err e, rows) next = (err e, rows)
then_run (ok _, rows) next = next rows

abbrev pub run_entities :
    {R S : Type 0} → Repository R S → ℕ → List (PlanOperation S) → List R → Ran R
run_entities repo now [] rows = (ok tt, rows)
run_entities repo now (o ∷ os) rows =
    then_run (apply_entity repo o.action o now rows) (run_entities repo now os)

one :
    {R S : Type 0} (repo : Repository R S) (now : ℕ) (o : PlanOperation S) (rows rows' : List R)
    → apply_entity repo o.action o now rows ≡ (ok tt, rows')
    → run_entities repo now (o ∷ []) rows ≡ (ok tt, rows')
one repo now o rows rows' h = ap (λ r. then_run r (λ q. (ok tt, q))) h

same_bool_eq : (a b : Bool) → same_bool a b ≡ true → a ≡ b
same_bool_eq true b h = sym h
same_bool_eq false true h = cc h
same_bool_eq false false h = refl

module _ {R S : Type 0} {repo : Repository R S} {Fits : Option R → S → Type 0}
    (law : IsRepository repo Fits) (now : ℕ) where
  open repo.kind use {row_id, snapshot, id, changes}
  open repo use {row_enabled, wants_enabled, from_snapshot, inserted, merged, toggled}

  abbrev made : S → R
  made d = inserted (from_snapshot d now none)

  made_id : (d : S) → row_id (made d) ≡ id d
  made_id d = law.inserted_id (from_snapshot d now none) ∙ law.from_id d now none

  abbrev kept : R → S → R
  kept old d = merged old (from_snapshot d now (some old))

  kept_id : (old : R) (d : S) → row_id (kept old d) ≡ id d
  kept_id old d = law.merged_id old (from_snapshot d now (some old)) ∙ law.from_id d now (some old)

  toggled_row_id : (b : Bool) (r : R) (k : String) → row_id r ≡ k → row_id (toggled b now r) ≡ k
  toggled_row_id b r k e = law.toggled_id b now r ∙ e

  -- What one operation for the id of d does to the rows.
  pub record Does (ops : List (PlanOperation S)) (old : Option R) (d : S) (rows : List R)
      : Type 0 where
    pub after : List R
    pub runs : run_entities repo now ops rows ≡ (ok tt, after)
    pub reaches : Fits old d → snapshot_of repo (find repo (id d) after) ≡ some d
    pub spares : (j : String) → id d ≢ j → find repo j after ≡ find repo j rows
    pub distinct : Distinct row_id rows → Distinct row_id after

  module _ (d : S) (rows : List R) where
    -- One write of a row with the id.
    wrote :
        (o : PlanOperation S) (old : Option R) (r : R)
        → row_id r ≡ id d
        → apply_entity repo o.action o now rows ≡ (ok tt, put repo r rows)
        → (Fits old d → snapshot r ≡ d)
        → Does (o ∷ []) old d rows
    wrote o old r e ran fits = record {
      after = put repo r rows;
      runs = one repo now o rows (put repo r rows) ran;
      reaches = λ f. ap (snapshot_of repo) (find-put_self repo (id d) r rows e) ∙ ap some (fits f);
      spares = λ j ne. find-put_ne repo j r rows (λ same. ne (sym e ∙ same));
      distinct = put-Distinct repo r rows;
    }

    -- Two writes, the second on top of the first.
    wrote_twice :
        (o : PlanOperation S) (old : Option R) (q r : R)
        → row_id q ≡ id d
        → row_id r ≡ id d
        → apply_entity repo o.action o now rows ≡ (ok tt, put repo r (put repo q rows))
        → (Fits old d → snapshot r ≡ d)
        → Does (o ∷ []) old d rows
    wrote_twice o old q r eq e ran fits = record {
      after = put repo r (put repo q rows);
      runs = one repo now o rows (put repo r (put repo q rows)) ran;
      reaches = λ f.
          ap (snapshot_of repo) (find-put_self repo (id d) r (put repo q rows) e)
          ∙ ap some (fits f);
      spares = λ j ne.
          find-put_ne repo j r (put repo q rows) (λ same. ne (sym e ∙ same))
          ∙ find-put_ne repo j q rows (λ same. ne (sym eq ∙ same));
      distinct = λ h. put-Distinct repo r (put repo q rows) (put-Distinct repo q rows h);
    }

    creates : find repo (id d) rows ≡ none → Does (upsert_operation repo.kind d none) none d rows
    creates gone =
        let here = law.from_id d now none in
        let o = operation repo.kind create d none (some d) [] false in
        elim (Bool-cases (wants_enabled d)) [
          | inl on ↦
              wrote o none (made d) (made_id d) (rw (gone, here, gone, on) refl)
                (λ f. law.inserted_on d now f on)
          | inr off ↦
              let found = find-put_self repo (id d) (made d) rows (made_id d) in
              wrote_twice o none (made d) (toggled false now (made d)) (made_id d)
                (toggled_row_id false (made d) (id d) (made_id d))
                (rw (gone, here, gone, off, found) refl) (λ f. law.inserted_off d now f off)
        ]

    module _ (old : R) (found : find repo (id d) rows ≡ some old) where
      old_id : row_id old ≡ id d
      old_id = found_id repo (id d) old rows found

      module _ (s : S) (f : String) (fs : List String) where
        abbrev change : PlanOperation S
        change = operation repo.kind update d (some s) (some d) (f ∷ fs) false

        replaces : has_non_enabled_change (f ∷ fs) ≡ true → Does (change ∷ []) (some old) d rows
        replaces loud =
            let here = law.from_id d now (some old) in
            let r = kept old d in
            elim (Bool-cases (same_bool (wants_enabled d) (row_enabled old))) [
              | inl same ↦
                  wrote change (some old) r (kept_id old d)
                    (rw (found, loud, here, found, same) refl)
                    (λ h.
                      law.merged_same old d now h
                        (same_bool_eq (wants_enabled d) (row_enabled old) same))
              | inr flip ↦
                  let now_there = find-put_self repo (id d) r rows (kept_id old d) in
                  wrote_twice change (some old) r (toggled (wants_enabled d) now r) (kept_id old d)
                    (toggled_row_id (wants_enabled d) r (id d) (kept_id old d))
                    (rw (found, loud, here, found, flip, now_there) refl)
                    (λ h. law.merged_toggled old d now h)
            ]

        flips :
            has_non_enabled_change (f ∷ fs) ≡ false
            → has_non_enabled_change (changes (snapshot old) d) ≡ false
            → Does (change ∷ []) (some old) d rows
        flips silent still = elim (Bool-cases (same_bool (wants_enabled d) (row_enabled old))) [
          | inl same ↦ record {
            after = rows;
            runs = one repo now change rows rows (rw (found, silent, same) refl);
            reaches = λ h.
                ap (snapshot_of repo) found
                ∙ ap some (
                    law.quiet_same old d (same_bool_eq (wants_enabled d) (row_enabled old) same)
                      still);
            spares = λ j ne. refl;
            distinct = λ h. h;
          }
          | inr flip ↦
              wrote change (some old) (toggled (wants_enabled d) now old)
                (toggled_row_id (wants_enabled d) old (id d) old_id)
                (rw (found, silent, flip, found) refl) (λ h. law.quiet_toggled old d now still)
        ]

      updates : Does (upsert_operation repo.kind d (some (snapshot old))) (some old) d rows
      updates = go (changes (snapshot old) d) refl
        where
          go :
              (fs : List String)
              → changes (snapshot old) d ≡ fs
              → Does (update_if repo.kind (snapshot old) d fs) (some old) d rows
          go [] e = record {
            after = rows;
            runs = refl;
            reaches = λ h. ap (snapshot_of repo) found ∙ ap some (law.unchanged old d e);
            spares = λ j ne. refl;
            distinct = λ h. h;
          }
          go (f ∷ fs) e = elim (Bool-cases (has_non_enabled_change (f ∷ fs))) [
            | inl loud ↦ replaces (snapshot old) f fs loud
            | inr silent ↦ flips (snapshot old) f fs silent (ap has_non_enabled_change e ∙ silent)
          ]

    -- The operation for d, whatever the table holds under its id.
    pub upserted :
        (old : Option R)
        → find repo (id d) rows ≡ old
        → Does (upsert_operation repo.kind d (snapshot_of repo old)) old d rows
    upserted none gone = creates gone
    upserted (some old) found = updates old found
