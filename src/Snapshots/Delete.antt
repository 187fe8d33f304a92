-- ===== src/Snapshots/Delete.antt =====
-- The deletion of a snapshot (internal/s3pmoxcommon/s3pmoxcommon.go), as it follows an incomplete
-- backup or a request.
pub mod Whole
use pmoxs3backuproxy.Prelude.{
  Bool, true, false, none, some, List, [], ◌∷◌, ◌++◌, map, ◌≡◌, refl, arith, All, All-Elem, Result,
  ok, err, ◌>>=◌,
}
use mathlib.Core.Bool.{true≢false}
use pmoxs3backuproxy.Prelude.{sym, Option-cases, inl, inr, ◌∙◌, subst, ok-injective, >>=-eq-ok}
use pmoxs3backuproxy.Prelude.Strings.{Bytes, has_prefix}
use pmoxs3backuproxy.Client.{Client, Documented, keys-Elem}
use pmoxs3backuproxy.Objects.{Error, ObjectInfo}
use pmoxs3backuproxy.Snapshots.{Snapshot, s3_prefix}

-- The loop over the listing.
unfoldable pub listed_objects : List ObjectInfo → Result Error (List ObjectInfo)
listed_objects [] = ok []
listed_objects (object ∷ rest) = elim object.error [
  | some e ↦ err e
  | none ↦ do objects ← listed_objects rest; ok (object ∷ objects)
]

-- `S.S3Prefix() + "/"`
abbrev pub deletion_prefix : Snapshot → Bytes
deletion_prefix s = s3_prefix s ++ b'/' ∷ []

module _ {State : Type 0} (client : Client State) where
  -- The deletion of the listed objects, with the joined errors.
  delete_listed : State → Result Error (List ObjectInfo) → State × List Error
  delete_listed bucket (err e) = (bucket, e ∷ [])
  delete_listed bucket (ok objects) =
      let (bucket', results) = client.remove_objects bucket objects in
      (bucket', map (λ r. r.1) results)

  -- (*Snapshot).Delete: the bucket left, and the errors, none of them for nil.
  unfoldable pub delete : State → Snapshot → State × List Error
  unfolding delete_listed
  delete bucket s =
      delete_listed bucket (listed_objects (client.list_objects bucket (deletion_prefix s)))

-- What holds of the listing holds of the objects taken from it.
listed_objects-All :
    (P : ObjectInfo → Type 0) (listing objects : List ObjectInfo)
    → listed_objects listing ≡ ok objects
    → All P listing
    → All P objects
unfolding listed_objects
listed_objects-All P [] objects e h = rw (← ok-injective e) tt
listed_objects-All P (o ∷ listing) objects e h = elim (Option-cases o.error) [
  | inl none_there ↦
      let (rest, f, same) =
        >>=-eq-ok (listed_objects listing) (λ objects. ok (o ∷ objects)) (rw none_there at e) in
      rw (← ok-injective same) (h.0, listed_objects-All P listing rest f h.1)
  | inr (x, there) ↦
      let failed : err x ≡ ok objects = rw there at e in absurd (ground (arith, failed))
]

module _ {State : Type 0} (client : Client State) (has : State → Bytes → Bool)
    (documented : Documented client has) where
  delete_listed-has :
      (bucket : State) (prefix key : Bytes) (r : Result Error (List ObjectInfo))
      → ((objects : List ObjectInfo)
          → r ≡ ok objects
          → All (λ o. has_prefix o.key prefix ≡ true) objects)
      → has_prefix key prefix ≡ false
      → has bucket key ≡ true
      → has (delete_listed client bucket r).0 key ≡ true
  unfolding delete_listed
  delete_listed-has bucket prefix key (err e) under outside h = h
  delete_listed-has bucket prefix key (ok objects) under outside h =
      documented.removes_only bucket objects key
        (λ m.
          let (o, e, same) = keys-Elem key objects m in
          let inside = All-Elem _ objects o (under objects refl) e in
          true≢false (sym (subst (λ k. has_prefix k prefix ≡ true) same inside) ∙ outside))
        h

  -- With a client that does as documented, the deletion of a snapshot leaves each object whose key is
  -- not under the prefix of the snapshot, whatever fails.
  pub delete-has :
      (bucket : State) (s : Snapshot) (key : Bytes)
      → has_prefix key (deletion_prefix s) ≡ false
      → has bucket key ≡ true
      → has (delete client bucket s).0 key ≡ true
  unfolding delete
  delete-has bucket s key outside h =
      delete_listed-has bucket (deletion_prefix s) key _
        (λ objects e.
          listed_objects-All _ (client.list_objects bucket (deletion_prefix s)) objects e
            (documented.lists_prefix bucket (deletion_prefix s)))
        outside h
