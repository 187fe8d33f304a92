-- ===== src/Snapshots/Delete/Whole.antt =====
-- What a deletion that reports no error has done (internal/s3pmoxcommon/s3pmoxcommon.go).
use mathlib.Core.Bool.{true≢false}
use pmoxs3backuproxy.Prelude.{
  Bool, true, false, none, List, [], ◌∷◌, ◌≡◌, ◌⊎◌, ◌∙◌, refl, sym, ap, subst, arith, inl, inr,
  Bool-cases, Option-cases, All, Elem, any, Elem-any, any-Elem, map, Result, ok, err, ok-injective,
  >>=-eq-ok, if◌then◌else◌,
}
use pmoxs3backuproxy.Prelude.Strings.{Bytes, bytes_eq, bytes_eq_iff, bytes_eq_refl, has_prefix}
use pmoxs3backuproxy.Client.{Client, Documented, keys}
use pmoxs3backuproxy.Objects.{Error, ObjectInfo}
use pmoxs3backuproxy.Snapshots.{Snapshot}
use pmoxs3backuproxy.Snapshots.Delete.{
  delete, delete-has, deletion_prefix, listed_objects, delete_listed,
}

-- A listing without an error holds each key that is there under its prefix.
abbrev pub ListsAll : {State : Type 0} → Client State → (State → Bytes → Bool) → Type 0
ListsAll {State} client has =
    (s : State) (prefix key : Bytes)
    → All (λ o. o.error ≡ none) (client.list_objects s prefix)
    → has_prefix key prefix ≡ true
    → has s key ≡ true
    → Elem key (keys (client.list_objects s prefix))

-- A listing that is accepted has no error and is taken as it is.
listed_objects-whole :
    (listing objects : List ObjectInfo)
    → listed_objects listing ≡ ok objects
    → (objects ≡ listing) × All (λ o. o.error ≡ none) listing
unfolding listed_objects
listed_objects-whole [] objects e = (sym (ok-injective e), tt)
listed_objects-whole (o ∷ listing) objects e = elim (Option-cases o.error) [
  | inl fine ↦
      let (rest, f, same) =
        >>=-eq-ok (listed_objects listing) (λ objects. ok (o ∷ objects)) (rw fine at e) in
      let (whole, clean) = listed_objects-whole listing rest f in
      (sym (ok-injective same) ∙ ap (◌∷◌ o) whole, (fine, clean))
  | inr (x, there) ↦
      let failed : err x ≡ ok objects = rw there at e in absurd (ground (arith, failed))
]

Elem-or-not : (key : Bytes) (ks : List Bytes) → (Elem key ks) ⊎ (¬ Elem key ks)
Elem-or-not key ks = elim (Bool-cases (any (bytes_eq key) ks)) [
  | inl t ↦
      let (k, m, same) = any-Elem (bytes_eq key) ks t in inl (rw ((bytes_eq_iff key k).0 same) m)
  | inr f ↦ inr (λ m. true≢false (sym (Elem-any (bytes_eq key) ks key m (bytes_eq_refl key)) ∙ f))
]

map-nil : (results : List (Bytes × Error)) → map (λ r. r.1) results ≡ [] → results ≡ []
map-nil [] h = refl
map-nil (r ∷ results) h = cc

module _ {State : Type 0} (client : Client State) (has : State → Bytes → Bool)
    (documented : Documented client has) (lists_all : ListsAll client has) where
  remove_objects-gone :
      (s : State) (objects : List ObjectInfo) (key : Bytes)
      → (client.remove_objects s objects).1 ≡ []
      → (has s key ≡ true → Elem key (keys objects))
      → has (client.remove_objects s objects).0 key ≡ false
  remove_objects-gone s objects key none_failed listed = elim (Elem-or-not key (keys objects)) [
    | inl m ↦ documented.removes_all s objects key none_failed m
    | inr absent ↦ elim (Bool-cases (has (client.remove_objects s objects).0 key)) [
      | inr gone ↦ gone
      | inl there ↦ absurd (absent (listed (documented.removes_adds_none s objects key there)))
    ]
  ]

  delete_listed-gone :
      (s : State) (prefix key : Bytes) (r : Result Error (List ObjectInfo))
      → listed_objects (client.list_objects s prefix) ≡ r
      → (delete_listed client s r).1 ≡ []
      → has_prefix key prefix ≡ true
      → has (delete_listed client s r).0 key ≡ false
  unfolding delete_listed
  delete_listed-gone s prefix key (err e) h none_failed under = cc
  delete_listed-gone s prefix key (ok objects) h none_failed under =
      let (whole, clean) = listed_objects-whole (client.list_objects s prefix) objects h in
      remove_objects-gone s objects key (map-nil (client.remove_objects s objects).1 none_failed)
        (λ there.
          subst (λ l. Elem key (keys l)) (sym whole) (lists_all s prefix key clean under there))

  delete_listed-adds_none :
      (s : State) (key : Bytes) (r : Result Error (List ObjectInfo))
      → has s key ≡ false
      → has (delete_listed client s r).0 key ≡ false
  unfolding delete_listed
  delete_listed-adds_none s key (err e) absent = absent
  delete_listed-adds_none s key (ok objects) absent =
      elim (Bool-cases (has (client.remove_objects s objects).0 key)) [
        | inr gone ↦ gone
        | inl there ↦
            absurd (true≢false (sym (documented.removes_adds_none s objects key there) ∙ absent))
      ]

  -- A deletion without errors leaves no object under the prefix of the snapshot, and the others as
  -- they were.
  pub delete-exact :
      (s : State) (snapshot : Snapshot) (key : Bytes)
      → (delete client s snapshot).1 ≡ []
      → has (delete client s snapshot).0 key
        ≡ (if has_prefix key (deletion_prefix snapshot) then false else has s key)
  unfolding delete
  delete-exact s snapshot key none_failed =
      elim (Bool-cases (has_prefix key (deletion_prefix snapshot))) [
        | inl under ↦
            rw under (delete_listed-gone s (deletion_prefix snapshot) key _ refl none_failed under)
        | inr outside ↦ rw outside (elim (Bool-cases (has s key)) [
          | inl there ↦ delete-has client has documented s snapshot key outside there ∙ sym there
          | inr absent ↦ delete_listed-adds_none s key _ absent ∙ sym absent
        ])
      ]
