-- ===== src/DataStore.antt =====
-- c++/src/server/data_store.cpp and the LevelDB that it opens, which is a parameter: an open database
-- `DB` whose keys are byte strings and whose values are of type `V`. Reading gives `none` where the
-- returned status is not ok; a write or a deletion returns the database and whether its status is ok.
pub mod Table
use shifupool.Base.{
  ℕ, ◌≡◌, Bool, true, Option, none, List, [], ◌∷◌, Bytes, bytes_eq, if◌then◌else◌, Result, returned,
  threw, Exception, Action, ◌>>=◌, ◌>>◌, pure,
}

pub record LevelDb (DB V : Type 0) : Type 0 where
  pub get : DB → Bytes → Option V
  pub put : DB → Bytes → V → DB × Bool
  pub delete : DB → Bytes → DB × Bool
  -- the keys in the order of an iterator
  pub keys : DB → List Bytes

-- LevelDB as documented, while its disk does not fail: writes succeed, and a read sees the last write
-- of its key.
pub record IsReliable {DB V : Type 0} (db : LevelDb DB V) : Type 0 where
  pub put_ok : (d : DB) (k : Bytes) (v : V) → (db.put d k v).1 ≡ true
  pub get_put :
      (d : DB) (k j : Bytes) (v : V)
      → db.get (db.put d k v).0 j ≡ (if bytes_eq k j then Option.some v else db.get d j)
  pub delete_ok : (d : DB) (k : Bytes) → (db.delete d k).1 ≡ true
  pub get_delete :
      (d : DB) (k j : Bytes)
      → db.get (db.delete d k).0 j ≡ (if bytes_eq k j then none else db.get d j)

-- A write whose status is checked.
abbrev pub checked : {DB : Type 0} → DB × Bool → Result (Unit {0}) × DB
checked (d, ok) = (if ok then returned tt else threw Exception.write_failed, d)

module _ {DB V : Type 0} (db : LevelDb DB V) where
  delete_all : List Bytes → Action DB (Unit {0})
  delete_all [] = pure tt
  delete_all (k ∷ ks) = (λ d. checked (db.delete d k)) >> delete_all ks

  -- `DataStore::clear`: the iterator reads a snapshot of the database.
  unfoldable pub clear : Action DB (Unit {0})
  unfolding delete_all
  clear d = delete_all (db.keys d) d
