-- ===== src/Tests/Bucket.antt =====
-- A bucket of a few objects, and a client that does with it what is documented.
use pmoxs3backuproxy.Prelude.{
  Bool, true, false, ◌&&◌, ◌||◌, not, none, List, [], ◌∷◌, ◌≡◌, refl, sym, inl, inr, arith, Elem,
  All, any, Elem-any, any-Elem, ok, err, if◌then◌else◌, Bool-cases, subst, and-true,
}
use pmoxs3backuproxy.Prelude.Strings.{
  Bytes, bytes_eq, bytes_eq_iff, bytes_eq_refl, eq_of_bytes_eq, has_prefix,
}
use pmoxs3backuproxy.Client.{Client, keys, Documented}
use pmoxs3backuproxy.Snapshots.Delete.Whole.{ListsAll}
use pmoxs3backuproxy.Objects.{from_store, ObjectInfo}

-- The keys that are there.
abbrev pub Bucket : Type 0
Bucket = Bytes → Bool

-- The objects of the universe that are there, under a prefix.
abbrev pub listing : List ObjectInfo → Bucket → Bytes → List ObjectInfo
listing [] s prefix = []
listing (o ∷ objects) s prefix =
    let rest = listing objects s prefix in
    if s o.key && has_prefix o.key prefix then o ∷ rest else rest

listing-prefix :
    (objects : List ObjectInfo) (s : Bucket) (prefix : Bytes)
    → All (λ o. has_prefix o.key prefix ≡ true) (listing objects s prefix)
listing-prefix [] s prefix = tt
listing-prefix (o ∷ objects) s prefix =
    let rest = listing-prefix objects s prefix in
    elim (Bool-cases (s o.key && has_prefix o.key prefix)) [
      | inl t ↦ rw t (ground arith, rest)
      | inr f ↦ rw f rest
    ]

abbrev pub client : List ObjectInfo → Client Bucket
client universe = record {
  list_objects = λ s prefix. listing universe s prefix;
  remove_objects = λ s objects. ((λ key. s key && not (any (bytes_eq key) (keys objects))), []);
  put_object = λ s name body. ((λ key. bytes_eq key name || s key), none);
  read_object = λ s key. err (from_store 404);
  stat_reader = λ s key. err (from_store 404);
  stat_object = λ s key. err (from_store 404);
  get_object_tagging = λ s key. ok [];
}

abbrev pub has : Bucket → Bytes → Bool
has s key = s key

unlisted : (key : Bytes) (names : List Bytes) → ¬ Elem key names → any (bytes_eq key) names ≡ false
unlisted key names n = elim (Bool-cases (any (bytes_eq key) names)) [
  | inl t ↦
      let (name, m, e) = any-Elem (bytes_eq key) names t in
      absurd (n (subst (λ k. Elem k names) (sym (eq_of_bytes_eq key name e)) m))
  | inr f ↦ f
]

pub documented : (universe : List ObjectInfo) → Documented (client universe) has
documented universe = record {
  lists_prefix = λ s prefix. listing-prefix universe s prefix;
  removes_only = λ s objects key n h. rw (h, unlisted key (keys objects) n) refl;
  removes_all = λ s objects key none m.
      rw (Elem-any (bytes_eq key) (keys objects) key m (bytes_eq_refl key)) (ground arith);
  removes_adds_none = λ s objects key h. ground arith;
  put_keeps = λ s name body key h. rw h (ground arith);
  put_adds_only = λ s name body key n h. ground (arith, bytes_eq_iff key name);
}

-- The keys that are there, of objects of the universe.
abbrev pub holds : List ObjectInfo → Bucket → Bytes → Bool
holds universe s key = s key && any (bytes_eq key) (keys universe)

pub documented_holds : (universe : List ObjectInfo) → Documented (client universe) (holds universe)
documented_holds universe = record {
  lists_prefix = λ s prefix. listing-prefix universe s prefix;
  removes_only = λ s objects key n h.
      let (there, known) = and-true (s key) (any (bytes_eq key) (keys universe)) h in
      rw (there, known, unlisted key (keys objects) n) refl;
  removes_all = λ s objects key none m.
      rw (Elem-any (bytes_eq key) (keys objects) key m (bytes_eq_refl key)) (ground arith);
  removes_adds_none = λ s objects key h. ground arith;
  put_keeps = λ s name body key h. ground arith;
  put_adds_only = λ s name body key n h. ground (arith, bytes_eq_iff key name);
}

Elem-listing :
    (objects : List ObjectInfo) (s : Bucket) (prefix key : Bytes)
    → Elem key (keys objects)
    → s key ≡ true
    → has_prefix key prefix ≡ true
    → Elem key (keys (listing objects s prefix))
Elem-listing [] s prefix key m there under = elim m [ ]
Elem-listing (o ∷ objects) s prefix key (inl e) there under =
    let here : (s o.key && has_prefix o.key prefix) ≡ true = rw (← e) (rw (there, under) refl) in
    rw here (inl e)
Elem-listing (o ∷ objects) s prefix key (inr m) there under =
    let rest = Elem-listing objects s prefix key m there under in
    elim (Bool-cases (s o.key && has_prefix o.key prefix)) [
      | inl t ↦ rw t (inr rest)
      | inr f ↦ rw f rest
    ]

pub lists_all : (universe : List ObjectInfo) → ListsAll (client universe) (holds universe)
lists_all universe s prefix key clean under h =
    let (there, known) = and-true (s key) (any (bytes_eq key) (keys universe)) h in
    let (k, m, e) = any-Elem (bytes_eq key) (keys universe) known in
    Elem-listing universe s prefix key
      (subst (λ x. Elem x (keys universe)) (sym (eq_of_bytes_eq key k e)) m) there under
