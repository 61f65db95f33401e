-- ===== src/Datafeed/Memory.antt =====
-- A database in memory and an encoding of the messages, which satisfy the laws that the theorems on
-- datafeed/dbservice.cpp suppose of leveldb and of protobuf.
use mathlib.Core.Path.{subst}
use bftrader.Prelude.{
  true, some, List, [], ◌∷◌, ◌≡◌, refl, Text, QMap, find, find-remove, remove, text_eq, text_eq_iff,
  text_ltb, text_ltb_antisym, IsSorted, Above, Above-trans, from_key, if◌then◌else◌, arith,
  Bool-cases, inl, inr, if_both,
}
use bftrader.Datafeed.Store.{Leveldb, IsLeveldb, Change, put, delete, changed}

unfoldable pub place : Text → Text → QMap Text → QMap Text
place k v [] = (k, v) ∷ []
place k v ((j, w) ∷ m) =
    if text_eq j k
    then (k, v) ∷ m
    else if text_ltb k j
    then (k, v) ∷ (j, w) ∷ m
    else (j, w) ∷ place k v m

find-place :
    (k j v : Text) (m : QMap Text)
    → find j (place k v m) ≡ (if text_eq k j then some v else find j m)
unfolding find place
find-place k j v [] = refl
find-place k j v ((i, w) ∷ m) =
    ground (arith, find-place k j v m, text_eq_iff i k, text_eq_iff i j, text_eq_iff k j)

Above-place :
    (i k v : Text) (m : QMap Text) → text_ltb i k ≡ true → Above i m → Above i (place k v m)
unfolding place
Above-place i k v [] h a = (h, tt)
Above-place i k v ((j, w) ∷ m) h a =
    if_both (Above i) (text_eq j k) _ _ (h, a.1)
      (if_both (Above i) (text_ltb k j) _ _ (h, a) (a.0, Above-place i k v m h a.1))

pub IsSorted-place : (k v : Text) (m : QMap Text) → IsSorted m → IsSorted (place k v m)
unfolding place
IsSorted-place k v [] s = (tt, tt)
IsSorted-place k v ((j, w) ∷ m) s = elim (Bool-cases (text_eq j k)) [
  | inl e ↦ rw e (subst (λ x. Above x m) ((text_eq_iff j k).0 e) s.0, s.1)
  | inr e ↦ rw e (elim (Bool-cases (text_ltb k j)) [
    | inl l ↦ rw l ((l, Above-trans k j m l s.0), s)
    | inr l ↦ rw l (
      Above-place j k v m (ground (arith, text_ltb_antisym j k, text_eq_iff j k)) s.0,
      IsSorted-place k v m s.1,
    )
  ])
]

Above-remove : (i k : Text) (m : QMap Text) → Above i m → Above i (remove k m)
unfolding remove
Above-remove i k [] a = tt
Above-remove i k ((j, w) ∷ m) a =
    if_both (Above i) (text_eq j k) _ _ (Above-remove i k m a.1) (a.0, Above-remove i k m a.1)

pub IsSorted-remove : (k : Text) (m : QMap Text) → IsSorted m → IsSorted (remove k m)
unfolding remove
IsSorted-remove k [] s = tt
IsSorted-remove k ((j, w) ∷ m) s =
    if_both IsSorted (text_eq j k) _ _ (IsSorted-remove k m s.1)
      (Above-remove j k m s.0, IsSorted-remove k m s.1)

abbrev pub Memory : Type 0
Memory = (m : QMap Text) × IsSorted m

abbrev applied : List Change → Memory → Memory
applied [] db = db
applied (put k v ∷ cs) db = applied cs (place k v db.0, IsSorted-place k v db.0 db.1)
applied (delete k ∷ cs) db = applied cs (remove k db.0, IsSorted-remove k db.0 db.1)

-- Back from the first key that is at or past the given one.
abbrev back_from : Text → QMap Text → QMap Text → QMap Text
back_from k seen [] = []
back_from k seen ((j, v) ∷ m) =
    if text_ltb j k then back_from k ((j, v) ∷ seen) m else (j, v) ∷ seen

abbrev pub memory : Leveldb Memory
memory = record {
  get = λ k db. find k db.0;
  write = applied;
  seek_next = λ k db. from_key k db.0;
  seek_prev = λ k db. back_from k [] db.0;
}

pub find-applied :
    (cs : List Change) (db : Memory) (k : Text)
    → find k (applied cs db).0 ≡ changed k cs (find k db.0)
unfolding changed
find-applied [] db k = refl
find-applied (put j v ∷ cs) db k = rw (find-applied cs _ k) (rw (find-place j k v db.0) refl)
find-applied (delete j ∷ cs) db k = rw (find-applied cs _ k) (rw (find-remove j k db.0) refl)

abbrev pub memory_laws : IsLeveldb memory
memory_laws = record {
  entries = λ db. db.0;
  sorted = λ db. db.1;
  get_law = λ k db. refl;
  write_law = find-applied;
  seek_next_law = λ k db. refl;
}
