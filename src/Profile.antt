-- ===== src/Profile.antt =====
-- profile.cpp, which ctpgateway, btgateway, cta, datafeed and datarecorder share but for two paths:
-- the settings of a program, kept in a file as JSON.
use bftrader.Prelude.{
  ◌≡◌, refl, Bool, true, false, not, Option, none, some, List, [], ◌∷◌, if◌then◌else◌, Text, QMap,
  find, insert, arith,
}

-- `file` is what the file at path_ holds, `none` where it cannot be opened, and `changed` lists the
-- emitted signals, the newest first.
pub record Profile (V : Type 0) : Type 0 where
  pub store : QMap V
  pub dirty : Bool
  pub file : Option Text
  pub changed : List (Text × V)

-- The calls of Qt: QVariant's comparison, the text of a JSON object, and its reading, which fails
-- where the text is no object.
pub record Json (V : Type 0) : Type 0 where
  pub same : V → V → Bool
  pub to_json : QMap V → Text
  pub from_json : Text → Option (QMap V)

module _ {V : Type 0} (json : Json V) where
  unfoldable pub init : Profile V → Profile V
  init p = elim p.file [
    | none ↦ p
    | some text ↦ elim (json.from_json text) [ none ↦ p | some m ↦ record p { store = m } ]
  ]

  unfoldable pub get : Text → V → Profile V → V
  get k default_value p = elim (find k p.store) [ none ↦ default_value | some v ↦ v ]

  -- `invalid` is QVariant().
  unfoldable pub put : V → Text → V → Profile V → Profile V
  unfolding get
  put invalid k v p =
      let old = get k invalid p in
      record p {
        store = insert k v p.store;
        changed = if json.same old v then p.changed else (k, v) ∷ p.changed;
        dirty = true;
      }

  -- `writable` is the result of open().
  unfoldable pub commit : Bool → Profile V → Profile V
  commit writable p =
      if not p.dirty
      then p
      else if not writable
      then p
      else record p { file = some (json.to_json p.store); dirty = false }

  unfoldable pub shutdown : Bool → Profile V → Profile V
  unfolding commit
  shutdown writable p = commit writable p

  abbrev pub put_all : V → List (Text × V) → Profile V → Profile V
  put_all invalid [] p = p
  put_all invalid ((k, v) ∷ kvs) p = put_all invalid kvs (put invalid k v p)

  -- A file that is kept reads as the store unless something is to be written.
  abbrev IsSynced : Profile V → Type 0
  IsSynced p =
      (p.dirty ≡ false)
      → (text : Text) × (p.file ≡ some text) × (json.from_json text ≡ some p.store)

  put_all-IsSynced :
      (invalid : V) (kvs : List (Text × V)) (p : Profile V)
      → IsSynced p
      → IsSynced (put_all invalid kvs p)
  unfolding put
  put_all-IsSynced invalid [] p s = s
  put_all-IsSynced invalid ((k, v) ∷ kvs) p s =
      put_all-IsSynced invalid kvs (put invalid k v p) (λ e. cc)

  module _ (read_law : (m : QMap V) → json.from_json (json.to_json m) ≡ some m) where
    commit-reads :
        (m : QMap V) (d : Bool) (f : Option Text) (c : List (Text × V))
        → let p : Profile V = record { store = m; dirty = d; file = f; changed = c } in
          IsSynced p
          → (text : Text) × ((commit true p).file ≡ some text) × (json.from_json text ≡ some m)
    unfolding commit
    commit-reads m true f c s = (json.to_json m, refl, read_law m)
    commit-reads m false f c s = s refl

    init-file :
        (s : QMap V) (d : Bool) (f : Option Text) (c : List (Text × V)) (text : Text) (m : QMap V)
        → f ≡ some text
        → json.from_json text ≡ some m
        → (init (record { store = s; dirty = d; file = f; changed = c })).store ≡ m
    unfolding init
    init-file s d none c text m e e' = cc
    init-file s d (some x) c text m e e' = ground (arith, e, e')

    -- A program that starts anew reads the settings that the last one has put.
    pub init-shutdown :
        (invalid : V) (kvs : List (Text × V)) (p : Profile V)
        → IsSynced p
        → let q = put_all invalid kvs p in
          (init (record {
            store = [];
            dirty = false;
            file = (shutdown true q).file;
            changed = [];
          })).store
          ≡ q.store
    unfolding shutdown
    init-shutdown invalid kvs p s =
        let q = put_all invalid kvs p in
        let (text, e, r) =
          commit-reads q.store q.dirty q.file q.changed (put_all-IsSynced invalid kvs p s) in
        init-file [] false (shutdown true q).file [] text q.store e r
