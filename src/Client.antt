-- ===== src/Client.antt =====
-- The S3 client library (minio-go) is not part of the repository: this is what the program asks of
-- it, as operations on a state of the bucket, and what its documentation says of them.
use pmoxs3backuproxy.Prelude.{
  Bool, true, false, Option, List, [], ◌∷◌, ◌≡◌, ◌≢◌, refl, sym, ap, inl, inr, map, Elem, All,
  Result,
}
use pmoxs3backuproxy.Prelude.Maps.{Map}
use pmoxs3backuproxy.Prelude.Strings.{Bytes, has_prefix}
use pmoxs3backuproxy.Objects.{Error, ObjectInfo}

pub record Client (State : Type 0) : Type 0 where
  -- ListObjects, recursive under a prefix: the objects that the channel delivers, an error as an
  -- object with `error`
  pub list_objects : State → Bytes → List ObjectInfo
  -- RemoveObjects: the state left, and an error for each object that could not be removed
  pub remove_objects : State → List ObjectInfo → State × List (Bytes × Error)
  -- PutObject of a small object
  pub put_object : State → Bytes → Bytes → State × Option Error
  -- GetObject and a read to the end; Stat of the reader afterwards; StatObject
  pub read_object : State → Bytes → Result Error Bytes
  pub stat_reader : State → Bytes → Result Error ObjectInfo
  pub stat_object : State → Bytes → Result Error ObjectInfo
  -- GetObjectTagging
  pub get_object_tagging : State → Bytes → Result Error (Map Bytes)

abbrev pub keys : List ObjectInfo → List Bytes
keys = map (λ o. o.key)

-- What the program relies on: `has` tells the keys in the bucket. A listing stays under its
-- prefix; removing objects takes away no other key, adds none, and takes all of them away unless
-- it reports an error; writing an object takes away no key and adds no other.
pub record Documented {State : Type 0} (client : Client State) (has : State → Bytes → Bool)
    : Type 0 where
  pub lists_prefix :
      (s : State) (prefix : Bytes)
      → All (λ o. has_prefix o.key prefix ≡ true) (client.list_objects s prefix)
  pub removes_only :
      (s : State) (objects : List ObjectInfo) (key : Bytes)
      → ¬ Elem key (keys objects)
      → has s key ≡ true
      → has (client.remove_objects s objects).0 key ≡ true
  pub removes_all :
      (s : State) (objects : List ObjectInfo) (key : Bytes)
      → (client.remove_objects s objects).1 ≡ []
      → Elem key (keys objects)
      → has (client.remove_objects s objects).0 key ≡ false
  pub removes_adds_none :
      (s : State) (objects : List ObjectInfo) (key : Bytes)
      → has (client.remove_objects s objects).0 key ≡ true
      → has s key ≡ true
  pub put_keeps :
      (s : State) (name body key : Bytes)
      → has s key ≡ true
      → has (client.put_object s name body).0 key ≡ true
  pub put_adds_only :
      (s : State) (name body key : Bytes)
      → key ≢ name
      → has (client.put_object s name body).0 key ≡ true
      → has s key ≡ true

pub keys-Elem :
    (key : Bytes) (objects : List ObjectInfo)
    → Elem key (keys objects)
    → (o : ObjectInfo) × Elem o objects × (o.key ≡ key)
keys-Elem key [] h = elim h [ ]
keys-Elem key (o ∷ objects) (inl e) = (o, inl refl, sym e)
keys-Elem key (o ∷ objects) (inr h) =
    let (found, m, e) = keys-Elem key objects h in (found, inr m, e)

pub Elem-keys :
    (o : ObjectInfo) (objects : List ObjectInfo) → Elem o objects → Elem o.key (keys objects)
Elem-keys o [] h = elim h [ ]
Elem-keys o (p ∷ objects) (inl e) = inl (ap (λ (x : ObjectInfo). x.key) e)
Elem-keys o (p ∷ objects) (inr h) = inr (Elem-keys o objects h)
