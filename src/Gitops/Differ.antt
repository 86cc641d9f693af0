-- ===== src/Gitops/Differ.antt =====
-- src/pitwall/gitops/differ.py: the operations of a plan, for each kind of entity.
-- `_id_from_name`, which asks `re` for a slug, is a function that the plan is given; none stands for
-- its error. The names and the two snapshots of a changed field are left out of an operation.
pub mod Changes
use pitwall_gpu_broker.Gitops.Snapshots.{EntityKind, is_yaml}
use pitwall_gpu_broker.Prelude.Dict.{Dict, lookup, insert}
use pitwall_gpu_broker.Prelude.Sort.{sort, text_leb}
use pitwall_gpu_broker.Prelude.{
  String, Bool, true, false, not, ◌&&◌, ◌||◌, Option, none, some, List, [], ◌∷◌, ◌++◌, map,
  if◌then◌else◌, is_some,
}

pub data PlanAction : Type 0 where
  create update delete : PlanAction

pub record PlanOperation (S : Type 0) : Type 0 where
  pub action : PlanAction
  pub entity_id : String
  pub name : String
  pub current : Option S
  pub desired : Option S
  pub changes : List String
  pub destructive : Bool

module _ {A : Type 0} (key : A → String) where
  -- `{key(x): x for x in xs}`, on top of what is there.
  abbrev pub index_onto : List A → Dict A → Dict A
  index_onto [] d = d
  index_onto (x ∷ xs) d = index_onto xs (insert (key x) x d)

  abbrev pub index_by : List A → Dict A
  index_by xs = index_onto xs []

  abbrev pub key_leb : A → A → Bool
  key_leb x y = text_leb (key x) (key y)

abbrev pub keys {ℓ} : {V : Type ℓ} → Dict V → List String
keys [] = []
keys ((k, v) ∷ d) = k ∷ keys d

module _ {R S : Type 0} (kind : EntityKind R S) where
  open kind use {row_id, source, yaml_hash, snapshot, id, name, changes}

  -- `_is_yaml_owned`
  abbrev pub is_yaml_owned : R → Bool
  is_yaml_owned r = is_yaml (source r) || is_some (yaml_hash r)

  -- `_operation`
  abbrev pub operation : PlanAction → S → Option S → Option S → List String → Bool → PlanOperation S
  operation action s current desired changed destructive = record {
    action = action;
    entity_id = id s;
    name = name s;
    current = current;
    desired = desired;
    changes = changed;
    destructive = destructive;
  }

  abbrev pub update_if : S → S → List String → List (PlanOperation S)
  update_if current desired [] = []
  update_if current desired (field ∷ fields) =
      operation update desired (some current) (some desired) (field ∷ fields) false ∷ []

  -- One turn of the loop over the desired ids.
  abbrev pub upsert_operation : S → Option S → List (PlanOperation S)
  upsert_operation desired none = operation create desired none (some desired) [] false ∷ []
  upsert_operation desired (some current) = update_if current desired (changes current desired)

  abbrev pub upserts : Dict S → List (String × S) → List (PlanOperation S)
  upserts current [] = []
  upserts current ((i, d) ∷ ds) = upsert_operation d (lookup i current) ++ upserts current ds

  -- Each row has a snapshot, so the second case does not occur.
  abbrev pub planned_delete : Option S → List (PlanOperation S)
  planned_delete (some s) = operation delete s (some s) none [] true ∷ []
  planned_delete none = []

  abbrev pub delete_operation : Dict S → R → List (PlanOperation S)
  delete_operation current r = planned_delete (lookup (row_id r) current)

  abbrev pub deletes : Dict S → Dict S → List R → List (PlanOperation S)
  deletes desired current [] = []
  deletes desired current (r ∷ rs) =
      if not (is_some (lookup (row_id r) desired)) && is_yaml_owned r
      then delete_operation current r ++ deletes desired current rs
      else deletes desired current rs

  abbrev pub current_snapshots : List R → Dict S
  current_snapshots rows = index_by id (map snapshot rows)

  -- The creations and updates of a kind, in the order of the ids; and its deletions.
  unfoldable pub upsert_operations : Dict S → List R → List (PlanOperation S)
  unfolding sort
  upsert_operations desired rows =
      upserts (current_snapshots rows) (sort (key_leb (λ (e : String × S). e.0)) desired)

  unfoldable pub delete_operations : Dict S → List R → List (PlanOperation S)
  unfolding sort
  delete_operations desired rows =
      deletes desired (current_snapshots rows) (sort (key_leb row_id) rows)
