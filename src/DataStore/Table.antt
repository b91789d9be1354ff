-- ===== src/DataStore/Table.antt =====
-- A table that meets the assumptions on LevelDB: an association list, the newest entry first.
use shifupool.Base.{
  ◌≡◌, refl, true, Option, none, some, List, [], ◌∷◌, map, Bytes, bytes_eq, bytes_eq_iff, arith,
  if◌then◌else◌,
}
use shifupool.DataStore.{LevelDb, IsReliable}

module _ {V : Type 0} where
  abbrev pub find : List (Bytes × V) → Bytes → Option V
  find [] k = none
  find ((j, v) ∷ d) k = if bytes_eq j k then some v else find d k

  abbrev pub remove : Bytes → List (Bytes × V) → List (Bytes × V)
  remove k [] = []
  remove k ((j, v) ∷ d) = if bytes_eq k j then remove k d else (j, v) ∷ remove k d

  pub find-remove :
      (k j : Bytes) (d : List (Bytes × V))
      → find (remove k d) j ≡ (if bytes_eq k j then none else find d j)
  find-remove k j [] = ground arith
  find-remove k j ((i, v) ∷ d) =
      ground (arith, find-remove k j d, bytes_eq_iff k i, bytes_eq_iff i j, bytes_eq_iff k j)

module _ (V : Type 0) where
  abbrev pub table : LevelDb (List (Bytes × V)) V
  table = record {
    get = find;
    put = λ d k v. ((k, v) ∷ d, true);
    delete = λ d k. (remove k d, true);
    keys = map (λ e. e.0);
  }

  pub table-IsReliable : IsReliable table
  table-IsReliable = record {
    put_ok = λ d k v. refl;
    get_put = λ d k j v. refl;
    delete_ok = λ d k. refl;
    get_delete = λ d k j. find-remove k j d;
  }
