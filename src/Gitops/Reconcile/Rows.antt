-- ===== src/Gitops/Reconcile/Rows.antt =====
-- The tables of src/pitwall/db/repository.py as lists of rows with distinct ids.
use pitwall_gpu_broker.Gitops.Differ.{index_onto, current_snapshots}
use pitwall_gpu_broker.Gitops.Repository.{Repository, find, put}
use pitwall_gpu_broker.Prelude.{Distinct}
use pitwall_gpu_broker.Prelude.Dict.{Dict, lookup, insert, lookup-insert}
use pitwall_gpu_broker.Prelude.{
  String, ◌≡◌, refl, sym, ap, ◌∙◌, subst, ◌≢◌, inl, inr, Option, none, some, List, [], ◌∷◌, map,
  arith, eq_iff, str_eq, if◌then◌else◌, Bool-cases, All,
}

module _ {R S : Type 0} (repo : Repository R S) where
  open repo.kind use {row_id, snapshot, id}

  pub find-put :
      (k : String) (r : R) (rows : List R)
      → find repo k (put repo r rows) ≡ (if str_eq (row_id r) k then some r else find repo k rows)
  find-put k r [] = refl
  find-put k r (q ∷ rows) = ground (
    arith,
    eq_iff (row_id q) (row_id r),
    eq_iff (row_id q) k,
    eq_iff (row_id r) k,
    find-put k r rows,
  )

  pub find-put_self :
      (k : String) (r : R) (rows : List R) → row_id r ≡ k → find repo k (put repo r rows) ≡ some r
  find-put_self k r rows e = ground (arith, find-put k r rows, eq_iff (row_id r) k)

  pub find-put_ne :
      (k : String) (r : R) (rows : List R)
      → row_id r ≢ k
      → find repo k (put repo r rows) ≡ find repo k rows
  find-put_ne k r rows e = ground (arith, find-put k r rows, eq_iff (row_id r) k)

  pub found_id : (k : String) (r : R) (rows : List R) → find repo k rows ≡ some r → row_id r ≡ k
  found_id k r [] h = cc h
  found_id k r (q ∷ rows) h = elim (Bool-cases (str_eq (row_id q) k)) [
    | inl e ↦ let same : q ≡ r = ground arith in ap row_id (sym same) ∙ (eq_iff (row_id q) k).0 e
    | inr e ↦ found_id k r rows (ground arith)
  ]

  -- A snapshot by id is that of the row with the id, where the ids differ.
  abbrev pub snapshot_of : Option R → Option S
  snapshot_of none = none
  snapshot_of (some r) = some (snapshot r)

  absent : (k : String) (rows : List R) → All (λ q. row_id q ≢ k) rows → find repo k rows ≡ none
  absent k [] h = refl
  absent k (q ∷ rows) h =
      let rest = absent k rows h.1 in let ne = h.0 in ground (arith, eq_iff (row_id q) k)

  abbrev or_else : Option S → Option S → Option S
  or_else none b = b
  or_else (some a) b = some a

  indexed :
      ((r : R) → id (snapshot r) ≡ row_id r)
      → (rows : List R) (d : Dict S) (k : String) → Distinct row_id rows
      → lookup k (index_onto id (map snapshot rows) d)
        ≡ or_else (snapshot_of (find repo k rows)) (lookup k d)
  indexed ids [] d k h = refl
  indexed ids (r ∷ rows) d k h =
      let rest = indexed ids rows (insert (id (snapshot r)) (snapshot r) d) k h.1 in
      let step = lookup-insert (id (snapshot r)) k (snapshot r) d in
      let same = ids r in
      elim (Bool-cases (str_eq (row_id r) k)) [
        | inl e ↦
            let here = (eq_iff (row_id r) k).0 e in
            let gone = absent k rows (subst (λ x. All (λ q. row_id q ≢ x) rows) here h.0) in
            rw e (rest ∙ rw (gone, step, same, e) refl)
        | inr e ↦ rw e (rest ∙ rw (step, same, e) refl)
      ]

  pub lookup-snapshots :
      ((r : R) → id (snapshot r) ≡ row_id r)
      → (rows : List R) (k : String) → Distinct row_id rows
      → lookup k (current_snapshots repo.kind rows) ≡ snapshot_of (find repo k rows)
  lookup-snapshots ids rows k h = indexed ids rows [] k h ∙ plain (snapshot_of (find repo k rows))
    where
      plain : (o : Option S) → or_else o none ≡ o
      plain none = refl
      plain (some s) = refl

  put-All : (P : R → Type 0) (r : R) (rows : List R) → P r → All P rows → All P (put repo r rows)
  put-All P r [] p h = (p, tt)
  put-All P r (q ∷ rows) p h = elim (Bool-cases (str_eq (row_id q) (row_id r))) [
    | inl e ↦ rw e (p, h.1)
    | inr e ↦ rw e (h.0, put-All P r rows p h.1)
  ]

  pub put-Distinct :
      (r : R) (rows : List R) → Distinct row_id rows → Distinct row_id (put repo r rows)
  put-Distinct r [] h = (tt, tt)
  put-Distinct r (q ∷ rows) h = elim (Bool-cases (str_eq (row_id q) (row_id r))) [
    | inl e ↦
        rw e
          (subst (λ x. All (λ y. row_id y ≢ x) rows) ((eq_iff (row_id q) (row_id r)).0 e) h.0, h.1)
    | inr e ↦ rw e (
      put-All (λ y. row_id y ≢ row_id q) r rows
          (λ same. let e' = (eq_iff (row_id q) (row_id r)).1 (sym same) in cc (e, e')) h.0,
      put-Distinct r rows h.1,
    )
  ]
