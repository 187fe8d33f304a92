-- ===== src/Gc/Plan/Backups.antt =====
-- One round of the loop over the backup objects, by cases, and the loop against its specification.
use mathlib.Core.List.{append_assoc, append-nil}
use pmoxs3backuproxy.Prelude.{
  Bool, true, false, ◌||◌, List, [], ◌∷◌, ◌++◌, ◌≡◌, refl, sym, ◌∙◌, ◌⊎◌, inl, inr, arith, Result,
  ok, err, ◌>>=◌, >>=-eq-ok, for_each, for_each-cons, for_each-nil, for_each_establishes,
  ok-injective, Bool-cases, Elem, All-map, keep_if, keep_if-cons, any,
}
use pmoxs3backuproxy.Prelude.Maps.{Map, is_set, lookup-insert}
use pmoxs3backuproxy.Prelude.Strings.{Bytes, bytes_eq_iff}
use pmoxs3backuproxy.Gc.Keys.{snapshot_prefix_for_object}
use pmoxs3backuproxy.Gc.Plan.{Marking, record_index, mark_backup}
use pmoxs3backuproxy.Gc.Plan.References.{
  Traced, Referenced, add_references-Referenced, add_references-new,
}
use pmoxs3backuproxy.Gc.Plan.Spec.{passes, keeps_hash}
use pmoxs3backuproxy.Index.{ParsedIndex, is_index}
use pmoxs3backuproxy.Objects.{Error, ObjectInfo}

module _ (load_index : ObjectInfo → Result Error ParsedIndex) (expired : Map Bool) where
  abbrev pub condemned : ObjectInfo → Bool
  condemned b = passes (is_set expired) (snapshot_prefix_for_object b.key)

  abbrev pub Handled : ObjectInfo → Marking → Type 0
  Handled b m = (condemned b ≡ true) ⊎ Traced load_index b m.plan.known_chunks

  -- What a round of the loop does, by cases.
  unfoldable pub Round : Marking → ObjectInfo → Marking → Type 0
  Round m b t =
      ((condemned b ≡ true)
        × (t ≡ record m {
          plan = record m.plan { backup_objects = m.plan.backup_objects ++ b ∷ [] };
        }))
      ⊎ ((condemned b ≡ false) × (is_index b.key ≡ false) × (t ≡ m))
      ⊎ ((condemned b ≡ false)
          × (is_index b.key ≡ true)
          × ((index : ParsedIndex) × (load_index b ≡ ok index) × (t ≡ record_index m b index)))

  round-loaded :
      (m : Marking) (b : ObjectInfo) (t : Marking) (loaded : Result Error ParsedIndex)
      → load_index b ≡ loaded
      → (loaded >>= λ index. ok (record_index m b index)) ≡ ok t
      → (index : ParsedIndex) × (load_index b ≡ ok index) × (t ≡ record_index m b index)
  round-loaded m b t (ok index) e h = (index, e, sym (ok-injective h))
  round-loaded m b t (err x) e h = cc

  pub mark_backup-Round :
      (m : Marking) (b : ObjectInfo) (t : Marking)
      → m.expired_prefixes ≡ expired
      → mark_backup load_index m b ≡ ok t
      → Round m b t
  unfolding mark_backup Round
  mark_backup-Round m b t inv h =
      let (prefix, e, step) = >>=-eq-ok (snapshot_prefix_for_object b.key) _ h in
      elim (Bool-cases (is_set m.expired_prefixes prefix)) [
        | inl gone ↦ inl (ground arith, ground arith)
        | inr stays ↦ elim (Bool-cases (is_index b.key)) [
          | inl index ↦
              inr (inr (ground arith, index, round-loaded m b t (load_index b) refl (ground arith)))
          | inr other ↦ inr (inl (ground arith, other, ground arith))
        ]
      ]

  pub Round-prefixes :
      (m : Marking) (b : ObjectInfo) (t : Marking)
      → Round m b t
      → t.expired_prefixes ≡ m.expired_prefixes
  unfolding Round record_index
  Round-prefixes m b t r = ground arith

  Round-Handled : (m : Marking) (b : ObjectInfo) (t : Marking) → Round m b t → Handled b t
  unfolding Round record_index
  Round-Handled m b t (inl r) = inl r.0
  Round-Handled m b t (inr (inl r)) = inr (inl r.1)
  Round-Handled m b t (inr (inr (c, i, (index, e, q)))) =
      rw q (inr (inr (index, e, add_references-new b.key m.plan.known_chunks index.digests)))

  Round-Traced :
      (a : ObjectInfo) (m : Marking) (b : ObjectInfo) (t : Marking)
      → Round m b t
      → Traced load_index a m.plan.known_chunks
      → Traced load_index a t.plan.known_chunks
  unfolding Round record_index
  Round-Traced a m b t (inl r) h = rw r.1 h
  Round-Traced a m b t (inr (inl r)) h = rw r.2 h
  Round-Traced a m b t (inr (inr (c, i, (index, e, q)))) (inl other) = inl other
  Round-Traced a m b t (inr (inr (c, i, (index, e, q)))) (inr (own, loaded, refs)) = rw q (
      inr (
        own,
        loaded,
        All-map (λ d. Referenced m.plan.known_chunks d a.key) _
            (λ d. add_references-Referenced b.key m.plan.known_chunks index.digests d a.key)
            own.digests refs,
      ))

  Round-keeps :
      (a : ObjectInfo) (m : Marking) (b : ObjectInfo) (t : Marking)
      → Round m b t
      → Handled a m
      → Handled a t
  Round-keeps a m b t r (inl gone) = inl gone
  Round-keeps a m b t r (inr h) = inr (Round-Traced a m b t r h)

  -- Every backup object is condemned, or no index, or traced in `knownChunks`.
  pub mark_backups-Handled :
      (m : Marking) (backups : List ObjectInfo) (t : Marking)
      → m.expired_prefixes ≡ expired
      → for_each (mark_backup load_index) m backups ≡ ok t
      → (b : ObjectInfo) → Elem b backups
      → Handled b t
  mark_backups-Handled m backups t inv h =
      for_each_establishes (mark_backup load_index) (λ s. s.expired_prefixes ≡ expired) Handled
        (λ s x u p st. Round-prefixes s x u (mark_backup-Round s x u p st) ∙ p)
        (λ s x u p st. Round-Handled s x u (mark_backup-Round s x u p st))
        (λ a s x u p q st. Round-keeps a s x u (mark_backup-Round s x u p st) q) m backups t inv h

  -- What the loop has done to the plan and to the set of checksums.
  pub record Retained (m : Marking) (objects : List ObjectInfo) (t : Marking) : Type 0 where
    pub prefixes : t.expired_prefixes ≡ m.expired_prefixes
    pub chunks : t.plan.chunk_objects ≡ m.plan.chunk_objects
    pub indexed : t.plan.indexed_objects ≡ m.plan.indexed_objects
    pub snapshots : t.plan.expired_snapshots ≡ m.plan.expired_snapshots
    pub grace : t.plan.protected_by_grace ≡ m.plan.protected_by_grace
    pub existing : t.plan.existing_chunks ≡ m.plan.existing_chunks
    pub backups : t.plan.backup_objects ≡ m.plan.backup_objects ++ keep_if condemned objects
    pub hashes :
        (checksum : Bytes)
        → is_set t.known_hashes checksum ≡ (
            is_set m.known_hashes checksum
            || any (keeps_hash load_index condemned checksum) objects)

  Round-hashes :
      (m : Marking) (b : ObjectInfo) (t : Marking) (checksum : Bytes)
      → Round m b t
      → is_set t.known_hashes checksum
        ≡ (is_set m.known_hashes checksum || keeps_hash load_index condemned checksum b)
  unfolding Round record_index keeps_hash is_index
  Round-hashes m b t checksum (inl (c, q)) = ground arith
  Round-hashes m b t checksum (inr (inl (c, i, q))) = ground arith
  Round-hashes m b t checksum (inr (inr (c, i, (index, e, q)))) = ground (
    arith,
    lookup-insert m.known_hashes index.checksum checksum true,
    bytes_eq_iff index.checksum checksum,
  )

  Round-Retained :
      (m : Marking) (b : ObjectInfo) (t : Marking) → Round m b t → Retained m (b ∷ []) t
  unfolding Round record_index keep_if any
  Round-Retained m b t r = record {
    prefixes = ground arith;
    chunks = ground arith;
    indexed = ground arith;
    snapshots = ground arith;
    grace = ground arith;
    existing = ground arith;
    backups = ground (arith, append-nil m.plan.backup_objects);
    hashes = λ checksum. ground (arith, Round-hashes m b t checksum r);
  }

  Retained-trans :
      {m s t : Marking} (b : ObjectInfo) (objects : List ObjectInfo)
      → Retained m (b ∷ []) s
      → Retained s objects t
      → Retained m (b ∷ objects) t
  unfolding any
  Retained-trans b objects x y = record {
    prefixes = y.prefixes ∙ x.prefixes;
    chunks = y.chunks ∙ x.chunks;
    indexed = y.indexed ∙ x.indexed;
    snapshots = y.snapshots ∙ x.snapshots;
    grace = y.grace ∙ x.grace;
    existing = y.existing ∙ x.existing;
    backups = rw (y.backups, x.backups, keep_if-cons _ b objects, append_assoc);
    hashes = λ checksum. ground (arith, x.hashes checksum, y.hashes checksum);
  }

  pub mark_backups-Retained :
      (m : Marking) (backups : List ObjectInfo) (t : Marking)
      → m.expired_prefixes ≡ expired
      → for_each (mark_backup load_index) m backups ≡ ok t
      → Retained m backups t
  unfolding keep_if any
  mark_backups-Retained m [] t inv h =
      let e = for_each-nil (mark_backup load_index) m h in
      record {
        prefixes = ground arith;
        chunks = ground arith;
        indexed = ground arith;
        snapshots = ground arith;
        grace = ground arith;
        existing = ground arith;
        backups = ground (arith, append-nil m.plan.backup_objects);
        hashes = λ checksum. ground arith;
      }
  mark_backups-Retained m (b ∷ backups) t inv h =
      let (s, here, rest) = for_each-cons (mark_backup load_index) m b backups h in
      let r = mark_backup-Round m b s inv here in
      Retained-trans b backups (Round-Retained m b s r)
        (mark_backups-Retained s backups t (Round-prefixes m b s r ∙ inv) rest)
