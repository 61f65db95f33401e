-- ===== src/Datafeed/Store.antt =====
-- What datafeed/dbservice.cpp uses of leveldb, protobuf and grpc, as parameters, with the laws that
-- these libraries document.
use bftrader.Prelude.{
  Bool, true, Option, none, some, List, [], ◌∷◌, ◌≡◌, Text, QMap, find, text_eq, IsSorted, from_key,
  if◌then◌else◌,
}

-- An operation of a WriteBatch.
pub data Change : Type 0 where
  put : Text → Text → Change
  delete : Text → Change

-- `seek_next k` is what an iterator yields from Seek(k) by Next, `seek_prev k` by Prev.
pub record Leveldb (Db : Type 0) : Type 0 where
  pub get : Text → Db → Option Text
  pub write : List Change → Db → Db
  pub seek_next : Text → Db → QMap Text
  pub seek_prev : Text → Db → QMap Text

-- The value of a key after a batch, the later operations last.
unfoldable pub changed : Text → List Change → Option Text → Option Text
changed k [] old = old
changed k (put j v ∷ cs) old = changed k cs (if text_eq j k then some v else old)
changed k (delete j ∷ cs) old = changed k cs (if text_eq j k then none else old)

-- The laws: `entries` are the contents in the order of their keys.
pub record IsLeveldb {Db : Type 0} (ldb : Leveldb Db) : Type 0 where
  pub entries : Db → QMap Text
  pub sorted : (db : Db) → IsSorted (entries db)
  pub get_law : (k : Text) (db : Db) → ldb.get k db ≡ find k (entries db)
  pub write_law :
      (cs : List Change) (db : Db) (k : Text)
      → find k (entries (ldb.write cs db)) ≡ changed k cs (find k (entries db))
  pub seek_next_law : (k : Text) (db : Db) → ldb.seek_next k db ≡ from_key k (entries db)

-- The generated code of a message: SerializeToString (its result and its text) and ParseFromArray.
pub record Codec (M : Type 0) : Type 0 where
  pub serializes : M → Bool
  pub bytes : M → Text
  pub parse : Text → Option M

pub record IsCodec {M : Type 0} (c : Codec M) : Type 0 where
  pub serializes_law : (m : M) → c.serializes m ≡ true
  pub parse_law : (m : M) → c.parse (c.bytes m) ≡ some m
