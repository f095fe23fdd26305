-- ===== src/Storage.antt =====
-- web/src/features/judge/storage.ts: the object stores of the device and what the desk writes to
-- them. IndexedDB is a parameter: a table is a record of operations with their documented laws.
pub mod Rows
pub mod Guarded
pub mod Mirror
pub mod Pairs
pub mod Adoption
use platform_for_sudies.Common.{String, Bool, true, Option, none, some, List, ◌≡◌, ◌≢◌}

-- An object store: `get`, `put` and `delete` by primary key, and `index(…).getAll(token)`.
pub record Table (Key Row : Type 0) : Type 1 where
  pub Store : Type 0
  pub get : Key → Store → Option Row
  pub put : Key → Row → Store → Store
  pub delete : Key → Store → Store
  pub get_all : String → Store → List Row
  pub get_put_self : (k : Key) (r : Row) (s : Store) → get k (put k r s) ≡ some r
  pub get_put_ne : (k j : Key) (r : Row) (s : Store) → k ≢ j → get j (put k r s) ≡ get j s
  pub get_delete_self : (k : Key) (s : Store) → get k (delete k s) ≡ none
  pub get_delete_ne : (k j : Key) (s : Store) → k ≢ j → get j (delete k s) ≡ get j s

-- The primary key of a row: token, team and criterion.
pub record RowKey : Type 0 where
  pub k : String
  pub team_id : String
  pub criterion_id : String

-- The primary key of a comparison: token and pair.
pub record PairKey : Type 0 where
  pub k : String
  pub id : String
