-- ===== src/Store/Database.antt =====
-- github.com/syndtr/goleveldb, which is not part of the repository: the operations that the store
-- calls, and their documented behaviour over the contents of the database.
use mtlogin.Prelude.{String, ◌≡◌, Option, none, some, List, [], ◌∷◌, Exec, str_eq, if◌then◌else◌}
use mtlogin.Errors.{GoError}

-- The result of `Get`: a value, `ErrNotFound`, or another error.
pub data Read : Type 0 where
  found : String → Read
  not_found : Read
  failed : GoError → Read

-- The records of a `Batch`.
pub data BatchOp : Type 0 where
  put : String → String → BatchOp
  delete : String → BatchOp

-- One record, applied to the contents.
abbrev pub apply_op : BatchOp → (String → Option String) → String → Option String
apply_op (put k v) c j = if str_eq k j then some v else c j
apply_op (delete k) c j = if str_eq k j then none else c j

-- A batch is applied in sequence.
abbrev pub apply_batch : List BatchOp → (String → Option String) → String → Option String
apply_batch [] c = c
apply_batch (o ∷ os) c = apply_batch os (apply_op o c)

-- `contents` is what the database holds. Any call may fail, and then changes nothing: a batch is
-- written as a whole or not at all.
pub record LevelDb (D : Type 0) : Type 0 where
  pub get : String → Exec D Read
  pub write : List BatchOp → Exec D (Option GoError)
  pub put : String → String → Exec D (Option GoError)
  pub delete : String → Exec D (Option GoError)
  pub contents : D → String → Option String
  pub get_keeps : (k j : String) (d : D) → contents (get k d).1 j ≡ contents d j
  pub get_found : (k : String) (d : D) (v : String) → (get k d).0 ≡ found v → contents d k ≡ some v
  pub get_not_found : (k : String) (d : D) → (get k d).0 ≡ not_found → contents d k ≡ none
  pub write_done :
      (b : List BatchOp) (d : D) (j : String)
      → (write b d).0 ≡ none
      → contents (write b d).1 j ≡ apply_batch b (contents d) j
  pub write_failed :
      (b : List BatchOp) (d : D) (j : String) (e : GoError)
      → (write b d).0 ≡ some e
      → contents (write b d).1 j ≡ contents d j
  pub put_done :
      (k v : String) (d : D) (j : String)
      → (put k v d).0 ≡ none
      → contents (put k v d).1 j ≡ (if str_eq k j then some v else contents d j)
  pub put_failed :
      (k v : String) (d : D) (j : String) (e : GoError)
      → (put k v d).0 ≡ some e
      → contents (put k v d).1 j ≡ contents d j
  pub delete_done :
      (k : String) (d : D) (j : String)
      → (delete k d).0 ≡ none
      → contents (delete k d).1 j ≡ (if str_eq k j then none else contents d j)
  pub delete_failed :
      (k : String) (d : D) (j : String) (e : GoError)
      → (delete k d).0 ≡ some e
      → contents (delete k d).1 j ≡ contents d j
