-- ===== src/Gc/Plan/References.antt =====
-- The references that retained indexes leave in the plan, and what they do to the orphans.
use pmoxs3backuproxy.Prelude.{
  false, some, List, [], ◌∷◌, ◌++◌, ◌≡◌, refl, ◌⊎◌, inl, inr, arith, Result, ok, Bool-cases, Elem,
  Elem-append_left, Elem-append_right, All,
}
use pmoxs3backuproxy.Prelude.Maps.{Map, lookup, insert, value_or, lookup-insert}
use pmoxs3backuproxy.Prelude.Strings.{Bytes, bytes_eq, bytes_eq_iff, bytes_eq_refl}
use pmoxs3backuproxy.Gc.Plan.{add_references}
use pmoxs3backuproxy.Index.{ParsedIndex, is_index}
use pmoxs3backuproxy.Objects.{Error, ObjectInfo}

-- The digest is listed, with this index among its references.
abbrev pub Referenced : Map (List Bytes) → Bytes → Bytes → Type 0
Referenced known digest key =
    (refs : List Bytes) × (lookup known digest ≡ some refs) × Elem key refs

abbrev add_reference : Bytes → Map (List Bytes) → Bytes → Map (List Bytes)
add_reference key known digest = insert known digest (value_or (lookup known digest) [] ++ key ∷ [])

add_reference-Referenced :
    (key : Bytes) (known : Map (List Bytes)) (new digest k : Bytes)
    → Referenced known digest k
    → Referenced (add_reference key known new) digest k
add_reference-Referenced key known new digest k (refs, found, m) =
    elim (Bool-cases (bytes_eq new digest)) [
      | inl same ↦ (
        refs ++ key ∷ [],
        rw lookup-insert (ground (arith, bytes_eq_iff new digest)),
        Elem-append_left k refs (key ∷ []) m,
      )
      | inr other ↦ (refs, rw (lookup-insert, other) found, m)
    ]

add_reference-new :
    (key : Bytes) (known : Map (List Bytes)) (digest : Bytes)
    → Referenced (add_reference key known digest) digest key
add_reference-new key known digest = (
  value_or (lookup known digest) [] ++ key ∷ [],
  rw (lookup-insert, bytes_eq_refl),
  Elem-append_right key (value_or (lookup known digest) []) (key ∷ []) (inl refl),
)

pub add_references-Referenced :
    (key : Bytes) (known : Map (List Bytes)) (digests : List Bytes) (digest k : Bytes)
    → Referenced known digest k
    → Referenced (add_references key known digests) digest k
unfolding add_references
add_references-Referenced key known [] digest k r = r
add_references-Referenced key known (d ∷ digests) digest k r =
    add_references-Referenced key (add_reference key known d) digests digest k
      (add_reference-Referenced key known d digest k r)

pub add_references-new :
    (key : Bytes) (known : Map (List Bytes)) (digests : List Bytes)
    → All (λ digest. Referenced (add_references key known digests) digest key) digests
unfolding add_references
add_references-new key known [] = tt
add_references-new key known (d ∷ digests) = (
  add_references-Referenced key (add_reference key known d) digests d key
      (add_reference-new key known d),
  add_references-new key (add_reference key known d) digests,
)

-- What the second loop leaves of a backup object that it does not condemn: nothing if it is no
-- index, otherwise every digest of the index with a reference to it.
abbrev pub Traced : (ObjectInfo → Result Error ParsedIndex) → ObjectInfo → Map (List Bytes) → Type 0
Traced load_index b known =
    (is_index b.key ≡ false)
    ⊎ ((index : ParsedIndex) × (load_index b ≡ ok index)
        × All (λ digest. Referenced known digest b.key) index.digests)
