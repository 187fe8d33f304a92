-- ===== src/Gc/Plan/Safety.antt =====
-- The chunks and the backup objects that a plan holds.
use pmoxs3backuproxy.Prelude.{
  ℕ, true, false, ◌&&◌, not, none, List, ◌≡◌, ◌≢◌, sym, ap, ◌∙◌, and-true, inl, inr, arith, Result,
  ok, Elem, All, All-Elem, Elem-keep_if, keep_if-Elem, any-Elem, subst, keep_if,
}
use pmoxs3backuproxy.Prelude.Int.{ℤ}
use pmoxs3backuproxy.Prelude.Maps.{lookup}
use pmoxs3backuproxy.Prelude.Strings.{Bytes, eq_of_bytes_eq}
use pmoxs3backuproxy.Gc.Expiry.{snapshot_expired}
use pmoxs3backuproxy.Gc.Keys.{snapshot_prefix_for_object, chunk_digest_from_key}
use pmoxs3backuproxy.Gc.Plan.{GcPlan, build_gc_plan}
use pmoxs3backuproxy.Gc.Plan.Outcome.{backup_objects-keep_if, chunk_objects-keep_if, traced}
use pmoxs3backuproxy.Gc.Plan.References.{Referenced}
use pmoxs3backuproxy.Gc.Plan.Spec.{passes, passes-ok, is_condemned, condemns, is_orphan}
use pmoxs3backuproxy.Index.{ParsedIndex, is_index}
use pmoxs3backuproxy.Objects.{Error, ObjectInfo}
use pmoxs3backuproxy.Snapshots.{Snapshot, s3_prefix}

condemning :
    (now : ℤ) (days : ℕ) (prefix : Bytes) (s : Snapshot)
    → condemns now days prefix s ≡ true
    → (prefix ≡ s3_prefix s) × (s.protected ≡ false) × (snapshot_expired s now days ≡ ok true)
unfolding condemns
condemning now days prefix s h =
    let (a, b) =
      and-true (passes (λ expired. expired && not s.protected) (snapshot_expired s now days)) _ h in
    let (expired, e, t) = passes-ok _ (snapshot_expired s now days) a in
    (sym (eq_of_bytes_eq (s3_prefix s) prefix b), ground arith, ground arith)

-- The snapshot that condemns an object.
condemning_snapshot :
    (now : ℤ) (days : ℕ) (snapshots : List Snapshot) (o : ObjectInfo)
    → is_condemned now days snapshots o ≡ true
    → (s : Snapshot) × Elem s snapshots
      × (snapshot_prefix_for_object o.key ≡ ok (s3_prefix s))
      × (s.protected ≡ false)
      × (snapshot_expired s now days ≡ ok true)
unfolding is_condemned
condemning_snapshot now days snapshots o h =
    let (prefix, e, found) = passes-ok _ (snapshot_prefix_for_object o.key) h in
    let (s, m, c) = any-Elem _ snapshots found in
    let (same, unprotected, expired) = condemning now days prefix s c in
    (s, m, e ∙ ap ok same, unprotected, expired)

module _ (snapshots : List Snapshot) (backups indexed chunks : List ObjectInfo) (now : ℤ)
    (retention_days : ℕ) (grace : ℤ) (load_index : ObjectInfo → Result Error ParsedIndex)
    (load_checksum : ObjectInfo → Result Error Bytes) (plan : GcPlan)
    (built : build_gc_plan snapshots backups indexed chunks now retention_days grace load_index
        load_checksum
      ≡ ok plan) where
  -- An index that is not to go has been read, and each of its digests has it as a reference.
  pub retained_index-Referenced :
      (b : ObjectInfo)
      → Elem b backups
      → ¬ Elem b plan.backup_objects
      → is_index b.key ≡ true
      → (index : ParsedIndex) × (load_index b ≡ ok index)
        × All (λ digest. Referenced plan.known_chunks digest b.key) index.digests
  retained_index-Referenced b m stays i =
      elim (traced snapshots backups indexed chunks now retention_days grace load_index
        load_checksum plan built b m) [
          | inl gone ↦ absurd (
              stays (
                subst (Elem b)
                  (sym (
                    backup_objects-keep_if snapshots backups indexed chunks now retention_days grace
                      load_index load_checksum plan built))
                  (keep_if-Elem _ backups b m gone)))
          | inr (inl other) ↦ cc
          | inr (inr t) ↦ t
        ]

  orphan_unreferenced :
      (o : ObjectInfo) (digest : Bytes)
      → Elem o plan.chunk_objects
      → chunk_digest_from_key o.key ≡ ok digest
      → lookup plan.known_chunks digest ≡ none
  unfolding is_orphan
  orphan_unreferenced o digest m e =
      let listed : Elem o (keep_if (is_orphan plan.known_chunks now grace) chunks) =
        subst (Elem o)
          (chunk_objects-keep_if snapshots backups indexed chunks now retention_days grace
            load_index load_checksum plan built)
          m in
      let (member, orphan) = Elem-keep_if _ chunks o listed in ground arith

  -- In a plan that was built, each index under backups/ that is not to go was read, and none of its
  -- digests is the digest of a chunk that is to go.
  pub retained_digest-not-planned :
      (b : ObjectInfo)
      → Elem b backups
      → ¬ Elem b plan.backup_objects
      → is_index b.key ≡ true
      → (index : ParsedIndex) × (load_index b ≡ ok index)
        × ((digest : Bytes) (o : ObjectInfo)
            → Elem digest index.digests
            → Elem o plan.chunk_objects
            → chunk_digest_from_key o.key ≢ ok digest)
  retained_digest-not-planned b m stays i =
      let (index, loaded, all) = retained_index-Referenced b m stays i in
      (
        index,
        loaded,
        λ digest o d planned e.
            let (refs, found, _) =
              All-Elem (λ d. Referenced plan.known_chunks d b.key) index.digests digest all d in
            let gone = orphan_unreferenced o digest planned e in cc,
      )

  -- In a plan that was built, an object under backups/ that is to go has the prefix of a listed
  -- snapshot that has expired and is not protected.
  pub planned_backup-expired :
      (o : ObjectInfo)
      → Elem o plan.backup_objects
      → (s : Snapshot) × Elem s snapshots
        × (s.protected ≡ false)
        × (snapshot_expired s now retention_days ≡ ok true)
        × (snapshot_prefix_for_object o.key ≡ ok (s3_prefix s))
  planned_backup-expired o m =
      let listed : Elem o (keep_if (is_condemned now retention_days snapshots) backups) =
        subst (Elem o)
          (backup_objects-keep_if snapshots backups indexed chunks now retention_days grace
            load_index load_checksum plan built)
          m in
      let (member, condemned) = Elem-keep_if _ backups o listed in
      let (s, listed_snapshot, prefix, unprotected, expired) =
        condemning_snapshot now retention_days snapshots o condemned in
      (s, listed_snapshot, unprotected, expired, prefix)
