-- ===== src/Gc/Plan/Known.antt =====
-- The references that the loop over the backup objects records, against their specification.
use mathlib.Core.List.{append_assoc, append-nil}
use pmoxs3backuproxy.Prelude.{
  Bool, some, List, [], ◌∷◌, ◌++◌, map, ◌≡◌, refl, ap, ◌∙◌, inl, inr, Result, ok, for_each,
  for_each-cons, for_each-nil, Bool-cases, keep_if, if◌then◌else◌,
}
use pmoxs3backuproxy.Prelude.Maps.{Map, lookup, insert, value_or, lookup-insert}
use pmoxs3backuproxy.Prelude.Strings.{Bytes, bytes_eq, bytes_eq_iff}
use pmoxs3backuproxy.Gc.Plan.{Marking, record_index, mark_backup, add_references}
use pmoxs3backuproxy.Gc.Plan.Backups.{condemned, Round, Round-prefixes, mark_backup-Round}
use pmoxs3backuproxy.Gc.Plan.Spec.{refers, references, listed}
use pmoxs3backuproxy.Index.{ParsedIndex}
use pmoxs3backuproxy.Objects.{Error, ObjectInfo}

listed-snoc :
    (refs : List Bytes) (key : Bytes) → some (refs ++ key ∷ []) ≡ listed (refs ++ key ∷ [])
listed-snoc [] key = refl
listed-snoc (r ∷ refs) key = refl

listed-value : (refs : List Bytes) → value_or (listed refs) [] ≡ refs
listed-value [] = refl
listed-value (r ∷ refs) = refl

add_reference-listed :
    (key : Bytes) (known : Map (List Bytes)) (new digest : Bytes) (refs : List Bytes)
    → lookup known digest ≡ listed refs
    → lookup (insert known new (value_or (lookup known new) [] ++ key ∷ [])) digest
      ≡ listed (refs ++ (if bytes_eq new digest then key ∷ [] else []))
add_reference-listed key known new digest refs h =
    let put = lookup-insert known new digest (value_or (lookup known new) [] ++ key ∷ []) in
    elim (Bool-cases (bytes_eq new digest)) [
      | inr f ↦ put ∙ rw (f, append-nil refs) h
      | inl t ↦
          let same : new ≡ digest = (bytes_eq_iff new digest).0 t in
          let before : value_or (lookup known new) [] ≡ refs =
            ap (λ d. value_or (lookup known d) []) same
            ∙ ap (λ o. value_or o []) h
            ∙ listed-value refs in
          put ∙ rw (t, before) (listed-snoc refs key)
    ]

keep_if-head :
    (key d digest : Bytes) (digests : List Bytes)
    → (if bytes_eq d digest then key ∷ [] else [])
        ++ map (λ x. key) (keep_if (λ x. bytes_eq x digest) digests)
      ≡ map (λ x. key) (keep_if (λ x. bytes_eq x digest) (d ∷ digests))
unfolding keep_if
keep_if-head key d digest digests = elim (Bool-cases (bytes_eq d digest)) [
  | inl t ↦ rw t refl
  | inr f ↦ rw f refl
]

add_references-listed :
    (key : Bytes) (known : Map (List Bytes)) (digests : List Bytes) (digest : Bytes)
    (refs : List Bytes)
    → lookup known digest ≡ listed refs
    → lookup (add_references key known digests) digest
      ≡ listed (refs ++ map (λ x. key) (keep_if (λ x. bytes_eq x digest) digests))
unfolding add_references keep_if lookup
add_references-listed key known [] digest refs h = rw (append-nil refs) h
add_references-listed key known (d ∷ digests) digest refs h =
    add_references-listed key (insert known d (value_or (lookup known d) [] ++ key ∷ [])) digests
      digest (refs ++ (if bytes_eq d digest then key ∷ [] else []))
      (add_reference-listed key known d digest refs h)
    ∙ ap listed (
        append_assoc refs (if bytes_eq d digest then key ∷ [] else []) _
        ∙ ap (λ l. refs ++ l) (keep_if-head key d digest digests))

module _ (load_index : ObjectInfo → Result Error ParsedIndex) (expired : Map Bool)
    (digest : Bytes) where
  Round-listed :
      (m : Marking) (b : ObjectInfo) (t : Marking) (refs : List Bytes)
      → Round load_index expired m b t
      → lookup m.plan.known_chunks digest ≡ listed refs
      → lookup t.plan.known_chunks digest
        ≡ listed (refs ++ refers load_index (condemned load_index expired) digest b)
  unfolding Round record_index refers
  Round-listed m b t refs (inl (c, q)) h = rw (q, c, append-nil refs) h
  Round-listed m b t refs (inr (inl (c, i, q))) h = rw (q, c, i, append-nil refs) h
  Round-listed m b t refs (inr (inr (c, i, (index, e, q)))) h =
      rw (q, c, i, e) (add_references-listed b.key m.plan.known_chunks index.digests digest refs h)

  pub mark_backups-listed :
      (m : Marking) (backups : List ObjectInfo) (t : Marking) (refs : List Bytes)
      → m.expired_prefixes ≡ expired
      → for_each (mark_backup load_index) m backups ≡ ok t
      → lookup m.plan.known_chunks digest ≡ listed refs
      → lookup t.plan.known_chunks digest
        ≡ listed (refs ++ references load_index (condemned load_index expired) backups digest)
  unfolding references
  mark_backups-listed m [] t refs inv h k =
      rw (append-nil refs, ← for_each-nil (mark_backup load_index) m h) k
  mark_backups-listed m (b ∷ backups) t refs inv h k =
      let (s, here, rest) = for_each-cons (mark_backup load_index) m b backups h in
      let r = mark_backup-Round load_index expired m b s inv here in
      let own = refers load_index (condemned load_index expired) digest b in
      mark_backups-listed s backups t (refs ++ own)
        (Round-prefixes load_index expired m b s r ∙ inv) rest (Round-listed m b s refs r k)
      ∙ ap listed (append_assoc refs own _)
