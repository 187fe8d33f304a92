-- ===== src/Gc/Plan/Outcome.antt =====
-- What a plan that buildGCPlan returns holds, said of the listings.
use pmoxs3backuproxy.Prelude.{
  ℕ, true, false, Option, none, some, List, [], ◌≡◌, refl, sym, ap, ◌∙◌, fun_ext, ◌⊎◌, arith,
  Result, ok, err, >>=-eq-ok, if◌then◌else◌, for_each, ok-injective, Elem, keep_if, any, length,
}
use pmoxs3backuproxy.Prelude.Int.{ℤ}
use pmoxs3backuproxy.Prelude.Maps.{lookup, is_set}
use pmoxs3backuproxy.Prelude.Strings.{Bytes}
use pmoxs3backuproxy.Gc.Keys.{snapshot_prefix_for_object}
use pmoxs3backuproxy.Gc.Plan.{
  GcPlan, Marking, initial, mark_snapshot, mark_backup, mark_indexed, mark_chunk, missing_of,
  build_gc_plan,
}
use pmoxs3backuproxy.Gc.Plan.Backups.{
  Retained, condemned, mark_backups-Handled, mark_backups-Retained,
}
use pmoxs3backuproxy.Gc.Plan.Chunks.{
  Placed, mark_chunks-Placed, mark_chunks-existing, lookup-missing_of,
}
use pmoxs3backuproxy.Gc.Plan.Ends.{Expired, Copied, mark_snapshots-Expired, mark_indexed_all-Copied}
use pmoxs3backuproxy.Gc.Plan.References.{Traced}
use pmoxs3backuproxy.Gc.Plan.Spec.{
  passes, is_none, is_condemned, keeps_hash, is_stale_copy, is_orphan, is_young, is_chunk_of,
  condemns, references, listed, is_unneeded,
}
use pmoxs3backuproxy.Gc.Plan.Known.{mark_backups-listed}
use pmoxs3backuproxy.Index.{ParsedIndex}
use pmoxs3backuproxy.Objects.{Error, ObjectInfo}
use pmoxs3backuproxy.Snapshots.{Snapshot}

module _ (snapshots : List Snapshot) (backups indexed chunks : List ObjectInfo) (now : ℤ)
    (retention_days : ℕ) (grace : ℤ) (load_index : ObjectInfo → Result Error ParsedIndex)
    (load_checksum : ObjectInfo → Result Error Bytes) (plan : GcPlan)
    (built : build_gc_plan snapshots backups indexed chunks now retention_days grace load_index
        load_checksum
      ≡ ok plan) where
  -- The states between the loops.
  record Stages : Type 0 where
    expired : Marking
    marked : Marking
    swept : Marking
    placed : GcPlan
    first : for_each (mark_snapshot now retention_days) initial snapshots ≡ ok expired
    second : for_each (mark_backup load_index) expired backups ≡ ok marked
    third : for_each (mark_indexed load_checksum) marked indexed ≡ ok swept
    fourth : for_each (mark_chunk now grace) swept.plan chunks ≡ ok placed
    last :
        record placed { missing_chunks = missing_of placed.existing_chunks placed.known_chunks }
        ≡ plan

  stages : Stages
  unfolding build_gc_plan
  stages =
      let (expired, first, h1) =
        >>=-eq-ok (for_each (mark_snapshot now retention_days) initial snapshots) _ built in
      let (marked, second, h2) =
        >>=-eq-ok (for_each (mark_backup load_index) expired backups) _ h1 in
      let (swept, third, h3) =
        >>=-eq-ok (for_each (mark_indexed load_checksum) marked indexed) _ h2 in
      let (placed, fourth, h4) =
        >>=-eq-ok (for_each (mark_chunk now grace) swept.plan chunks) _ h3 in
      record {
        expired = expired;
        marked = marked;
        swept = swept;
        placed = placed;
        first = first;
        second = second;
        third = third;
        fourth = fourth;
        last = ok-injective h4;
      }

  -- The set that the first loop builds, at any prefix.
  condemned_lem :
      (s : Stages) (b : ObjectInfo)
      → condemned load_index s.expired.expired_prefixes b
        ≡ is_condemned now retention_days snapshots b
  unfolding is_condemned lookup
  condemned_lem s b = go (snapshot_prefix_for_object b.key)
    where
      go :
          (r : Result Error Bytes)
          → passes (is_set s.expired.expired_prefixes) r
            ≡ passes (λ prefix. any (condemns now retention_days prefix) snapshots) r
      go (ok prefix) =
          (mark_snapshots-Expired now retention_days initial snapshots s.expired s.first).prefixes
            prefix
      go (err e) = refl

  snapshots_loop : (s : Stages) → Expired now retention_days initial snapshots s.expired
  snapshots_loop s = mark_snapshots-Expired now retention_days initial snapshots s.expired s.first

  backups_loop :
      (s : Stages) → Retained load_index s.expired.expired_prefixes s.expired backups s.marked
  backups_loop s =
      mark_backups-Retained load_index s.expired.expired_prefixes s.expired backups s.marked refl
        s.second

  indexed_loop : (s : Stages) → Copied load_checksum s.marked indexed s.swept
  indexed_loop s = mark_indexed_all-Copied load_checksum s.marked indexed s.swept s.third

  chunks_loop : (s : Stages) → Placed now grace s.swept.plan chunks s.placed
  chunks_loop s = mark_chunks-Placed now grace s.swept.plan chunks s.placed s.fourth

  known_eq : (s : Stages) → plan.known_chunks ≡ s.marked.plan.known_chunks
  known_eq s =
      ap (λ (p : GcPlan). p.known_chunks) (sym s.last)
      ∙ (chunks_loop s).known
      ∙ ap (λ (p : GcPlan). p.known_chunks) (indexed_loop s).plan

  known_eq_swept : (s : Stages) → plan.known_chunks ≡ s.swept.plan.known_chunks
  known_eq_swept s = ap (λ (p : GcPlan). p.known_chunks) (sym s.last) ∙ (chunks_loop s).known

  -- The same as functions.
  condemned_eq :
      (s : Stages)
      → condemned load_index s.expired.expired_prefixes ≡ is_condemned now retention_days snapshots
  condemned_eq s = fun_ext (condemned_lem s)

  -- The set of checksums that the second loop builds.
  hashes_eq :
      (s : Stages)
      → is_set s.marked.known_hashes
        ≡ (λ c. any (keeps_hash load_index (is_condemned now retention_days snapshots) c) backups)
  unfolding lookup
  hashes_eq s =
      fun_ext λ c. (backups_loop s).hashes c ∙ rw ((snapshots_loop s).hashes, condemned_eq s) refl

  -- In a plan that was built, the backup objects that are to go are exactly the listed ones of
  -- expired, unprotected snapshots, in the order of the listing.
  pub backup_objects-keep_if :
      plan.backup_objects ≡ keep_if (is_condemned now retention_days snapshots) backups
  backup_objects-keep_if =
      let s = stages in
      ap (λ (p : GcPlan). p.backup_objects) (sym s.last)
      ∙ (chunks_loop s).backups
      ∙ ap (λ (p : GcPlan). p.backup_objects) (indexed_loop s).plan
      ∙ (backups_loop s).backups
      ∙ rw (condemned_eq s, (snapshots_loop s).plan) refl

  -- In a plan that was built, the copied indexes that are to go are exactly those of which no
  -- retained fixed index has the checksum, in the order of the listing.
  pub indexed_objects-keep_if :
      plan.indexed_objects
      ≡ keep_if
          (is_stale_copy load_checksum (λ c.
            any (keeps_hash load_index (is_condemned now retention_days snapshots) c) backups))
          indexed
  indexed_objects-keep_if =
      let s = stages in
      ap (λ (p : GcPlan). p.indexed_objects) (sym s.last)
      ∙ (chunks_loop s).indexed
      ∙ (indexed_loop s).stale
      ∙ rw (hashes_eq s, (backups_loop s).indexed, (snapshots_loop s).plan) refl

  -- In a plan that was built, the chunks that are to go are exactly the listed ones that are
  -- unreferenced and outside the grace period, in the order of the listing.
  pub chunk_objects-keep_if :
      plan.chunk_objects ≡ keep_if (is_orphan plan.known_chunks now grace) chunks
  chunk_objects-keep_if =
      let s = stages in
      ap (λ (p : GcPlan). p.chunk_objects) (sym s.last)
      ∙ (chunks_loop s).orphans
      ∙ rw
          (
            known_eq_swept s,
            ap (λ (p : GcPlan). p.chunk_objects) (indexed_loop s).plan,
            (backups_loop s).chunks,
            (snapshots_loop s).plan,
          )
          refl

  -- In a plan that was built, the counter of protected chunks is the number of listed chunks that
  -- are unreferenced and within the grace period.
  pub protected_by_grace-length :
      plan.protected_by_grace ≡ length (keep_if (is_young plan.known_chunks now grace) chunks)
  protected_by_grace-length =
      let s = stages in
      ap (λ (p : GcPlan). p.protected_by_grace) (sym s.last)
      ∙ (chunks_loop s).young
      ∙ rw
          (
            known_eq_swept s,
            ap (λ (p : GcPlan). p.protected_by_grace) (indexed_loop s).plan,
            (backups_loop s).grace,
            (snapshots_loop s).plan,
          )
          (omega arith)

  nothing_exists : (s : Stages) → s.swept.plan.existing_chunks ≡ []
  nothing_exists s =
      ap (λ (p : GcPlan). p.existing_chunks) (indexed_loop s).plan
      ∙ (backups_loop s).existing
      ∙ ap (λ (p : GcPlan). p.existing_chunks) (snapshots_loop s).plan

  missing_by_existing :
      (s : Stages) (digest : Bytes)
      → lookup plan.missing_chunks digest
        ≡ (if is_set s.placed.existing_chunks digest then none else lookup plan.known_chunks digest)
  missing_by_existing s digest =
      ap (λ (p : GcPlan). lookup p.missing_chunks digest) (sym s.last)
      ∙ lookup-missing_of s.placed.existing_chunks s.placed.known_chunks digest
      ∙ rw (known_eq_swept s, (chunks_loop s).known) refl

  missing_at :
      (s : Stages) (digest : Bytes) (o : Option (List Bytes))
      → lookup plan.known_chunks digest ≡ o
      → lookup plan.missing_chunks digest
        ≡ (if any (is_chunk_of digest) chunks then none else lookup plan.known_chunks digest)
  unfolding lookup
  missing_at s digest none e = ground (arith, missing_by_existing s digest)
  missing_at s digest (some refs) e =
      let known : is_none (lookup s.swept.plan.known_chunks digest) ≡ false =
        rw (← known_eq_swept s, e) refl in
      let exists =
        mark_chunks-existing now grace s.swept.plan chunks s.placed digest s.fourth known in
      missing_by_existing s digest ∙ rw (exists, nothing_exists s) refl

  -- In a plan that was built, the missing chunks are exactly the referenced digests of which no chunk
  -- is listed, each with its references.
  pub missing_chunks-lookup :
      (digest : Bytes)
      → lookup plan.missing_chunks digest
        ≡ (if any (is_chunk_of digest) chunks then none else lookup plan.known_chunks digest)
  missing_chunks-lookup digest = missing_at stages digest _ refl

  -- The references that the plan knows are those of the retained indexes of the listing.
  known_chunks-lookup :
      (digest : Bytes)
      → lookup plan.known_chunks digest
        ≡ listed (references load_index (is_condemned now retention_days snapshots) backups digest)
  unfolding lookup
  known_chunks-lookup digest =
      let s = stages in
      let start : lookup s.expired.plan.known_chunks digest ≡ listed [] =
        ap (λ (p : GcPlan). lookup p.known_chunks digest) (snapshots_loop s).plan in
      ap (λ k. lookup k digest) (known_eq s)
      ∙ mark_backups-listed load_index s.expired.expired_prefixes digest s.expired backups s.marked
          [] refl s.second start
      ∙ ap (λ c. listed (references load_index c backups digest)) (condemned_eq s)

  orphans_by_references :
      is_orphan plan.known_chunks now grace
      ≡ is_unneeded
          (λ d.
            listed (references load_index (is_condemned now retention_days snapshots) backups d))
          now
          grace
  unfolding is_orphan is_unneeded
  orphans_by_references = ap (λ f. is_unneeded f now grace) (fun_ext known_chunks-lookup)

  -- In a plan that was built: the backup objects that are to go are exactly the listed ones of
  -- expired, unprotected snapshots; the copied indexes exactly those of which no retained fixed index
  -- has the checksum; the chunks exactly those outside the grace period whose digest no retained index
  -- lists; each in the order of its listing. The missing chunks are exactly the digests that retained
  -- indexes list and of which no chunk is listed, each with the keys of these indexes, in their order.
  pub build_gc_plan-exact :
      (digest : Bytes)
      → (plan.backup_objects ≡ keep_if (is_condemned now retention_days snapshots) backups)
        × (plan.indexed_objects
            ≡ keep_if
                (is_stale_copy load_checksum (λ c.
                  any
                    (keeps_hash load_index (is_condemned now retention_days snapshots) c)
                    backups))
                indexed)
        × (plan.chunk_objects
            ≡ keep_if
                (is_unneeded
                  (λ d.
                    listed
                      (references load_index (is_condemned now retention_days snapshots) backups d))
                  now
                  grace)
                chunks)
        × (lookup plan.missing_chunks digest ≡ (
            if any (is_chunk_of digest) chunks
            then none
            else listed
                (references load_index (is_condemned now retention_days snapshots) backups digest)))
  build_gc_plan-exact digest = (
    backup_objects-keep_if,
    indexed_objects-keep_if,
    chunk_objects-keep_if ∙ ap (λ p. keep_if p chunks) orphans_by_references,
    missing_chunks-lookup digest
        ∙ ap (λ r. if any (is_chunk_of digest) chunks then none else r)
            (known_chunks-lookup digest),
  )

  -- Every object under backups/ is condemned, or no index, or each of its digests has it as a reference.
  pub traced :
      (b : ObjectInfo)
      → Elem b backups
      → (is_condemned now retention_days snapshots b ≡ true) ⊎ Traced load_index b plan.known_chunks
  traced b m =
      let s = stages in
      rw (known_eq s, ← condemned_lem s b)
        (mark_backups-Handled load_index s.expired.expired_prefixes s.expired backups s.marked refl
          s.second b m)
