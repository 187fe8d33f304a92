-- ===== src/Gc/Plan/ChunkKeys.antt =====
-- The chunk keys in the lists of a plan.
use pmoxs3backuproxy.Prelude.{
  ℕ, true, false, List, ◌≡◌, sym, ◌∙◌, arith, Result, ok, Elem, All, All-Elem, Elem-keep_if, subst,
  Bool-cases, inl, inr, ok-injective,
}
use pmoxs3backuproxy.Prelude.Int.{ℤ}
use pmoxs3backuproxy.Prelude.Strings.{Bytes, codes, has_prefix}
use pmoxs3backuproxy.Client.{keys, keys-Elem}
use pmoxs3backuproxy.Gc.Keys.{is_digest, chunk_object_name, snapshot_prefix_for_object}
use pmoxs3backuproxy.Gc.Keys.RoundTrip.{chunk_digest_from_key-chunk_object_name}
use pmoxs3backuproxy.Gc.Plan.{GcPlan, build_gc_plan}
use pmoxs3backuproxy.Gc.Plan.Outcome.{indexed_objects-keep_if}
use pmoxs3backuproxy.Gc.Plan.Safety.{retained_digest-not-planned, planned_backup-expired}
use pmoxs3backuproxy.Index.{ParsedIndex, is_index}
use pmoxs3backuproxy.Objects.{Error, ObjectInfo}
use pmoxs3backuproxy.Snapshots.{Snapshot}

-- Chunk keys lie outside the two other prefixes.
chunk_key_prefix :
    (digest key : Bytes)
    → chunk_object_name digest ≡ ok key
    → (has_prefix key (codes "backups/") ≡ false) × (has_prefix key (codes "indexed/") ≡ false)
unfolding chunk_object_name has_prefix codes
chunk_key_prefix digest key h = elim (Bool-cases (is_digest digest)) [
  | inl d ↦ ground arith
  | inr n ↦ ground arith
]

prefix_of_backup :
    (key prefix : Bytes)
    → snapshot_prefix_for_object key ≡ ok prefix
    → has_prefix key (codes "backups/") ≡ true
unfolding snapshot_prefix_for_object
prefix_of_backup key prefix h = ground arith

module _ (snapshots : List Snapshot) (backups indexed chunks : List ObjectInfo) (now : ℤ)
    (retention_days : ℕ) (grace : ℤ) (load_index : ObjectInfo → Result Error ParsedIndex)
    (load_checksum : ObjectInfo → Result Error Bytes) (plan : GcPlan)
    (built : build_gc_plan snapshots backups indexed chunks now retention_days grace load_index
        load_checksum
      ≡ ok plan)
    (digest key : Bytes) (named : chunk_object_name digest ≡ ok key) where
  pub chunk_key-not-backup : ¬ Elem key (keys plan.backup_objects)
  chunk_key-not-backup m =
      let (o, planned, e) = keys-Elem key plan.backup_objects m in
      let (s, _, _, _, prefix) =
        planned_backup-expired snapshots backups indexed chunks now retention_days grace load_index
          load_checksum plan built o planned in
      let p : has_prefix key (codes "backups/") ≡ true =
        rw (← e) (prefix_of_backup o.key _ prefix) in
      cc ((chunk_key_prefix digest key named).0)

  pub chunk_key-not-indexed :
      All (λ o. has_prefix o.key (codes "indexed/") ≡ true) indexed
      → ¬ Elem key (keys plan.indexed_objects)
  chunk_key-not-indexed all m =
      let (o, planned, e) = keys-Elem key plan.indexed_objects m in
      let listed = Elem-keep_if _ indexed o (
        subst (Elem o)
          (indexed_objects-keep_if snapshots backups indexed chunks now retention_days grace
            load_index load_checksum plan built)
          planned) in
      let p : has_prefix key (codes "indexed/") ≡ true =
        rw (← e)
          (All-Elem (λ o. has_prefix o.key (codes "indexed/") ≡ true) indexed o all listed.0) in
      cc ((chunk_key_prefix digest key named).1)

  pub chunk_key-not-planned :
      (b : ObjectInfo) (index : ParsedIndex)
      → Elem b backups
      → ¬ Elem b plan.backup_objects
      → is_index b.key ≡ true
      → load_index b ≡ ok index
      → Elem digest index.digests
      → ¬ Elem key (keys plan.chunk_objects)
  chunk_key-not-planned b index m stays i loaded d planned =
      let (o, listed, e) = keys-Elem key plan.chunk_objects planned in
      let (own, found, safe) =
        retained_digest-not-planned snapshots backups indexed chunks now retention_days grace
          load_index load_checksum plan built b m stays i in
      let same : own ≡ index = ok-injective (sym found ∙ loaded) in
      safe digest o (rw same d) listed
        (rw e (chunk_digest_from_key-chunk_object_name digest key named))
