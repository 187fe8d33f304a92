-- ===== src/Gc/Sweep/Survival.antt =====
-- The indexes that are in the bucket after a run, and their chunks.
use mathlib.Core.Bool.{true≢false}
use pmoxs3backuproxy.Prelude.{
  ℕ, Bool, true, false, Option, none, List, [], ◌∷◌, ◌++◌, ◌≡◌, refl, sym, ◌∙◌, map, Result, ok,
  Elem, All, Elem-keep_if, keep_if-Elem, subst, Bool-cases, inl, inr,
}
use pmoxs3backuproxy.Prelude.Int.{ℤ}
use pmoxs3backuproxy.Prelude.Strings.{Bytes, codes, has_prefix}
use pmoxs3backuproxy.Client.{Client, Documented, keys, Elem-keys}
use pmoxs3backuproxy.Gc.Keys.{chunk_object_name}
use pmoxs3backuproxy.Gc.Plan.{GcPlan, build_gc_plan}
use pmoxs3backuproxy.Gc.Plan.Outcome.{backup_objects-keep_if}
use pmoxs3backuproxy.Gc.Plan.Spec.{is_condemned}
use pmoxs3backuproxy.Gc.Plan.ChunkKeys.{
  chunk_key-not-backup, chunk_key-not-indexed, chunk_key-not-planned,
}
use pmoxs3backuproxy.Gc.Sweep.{
  background, SweepError, snapshot_objects, copied_indexes, orphaned_chunks, remove_objects_fully,
  then_sweep, sweep_indexes, sweep_chunks, execute_gc_plan,
}
use pmoxs3backuproxy.Gc.Sweep.Safety.{execute_gc_plan-has, remove_objects_fully-has}
use pmoxs3backuproxy.Index.{ParsedIndex, is_index}
use pmoxs3backuproxy.Objects.{Error, ObjectInfo}
use pmoxs3backuproxy.Snapshots.{Snapshot}

module _ {State : Type 0} (client : Client State) (has : State → Bytes → Bool)
    (documented : Documented client has) where
  remove_objects_fully-all :
      (s : State) (objects : List ObjectInfo) (key : Bytes)
      → (remove_objects_fully client background s objects).1 ≡ []
      → Elem key (keys objects)
      → has (remove_objects_fully client background s objects).0 key ≡ false
  unfolding remove_objects_fully
  remove_objects_fully-all s [] key h m = elim m [ ]
  remove_objects_fully-all s (o ∷ objects) key h m =
      documented.removes_all s (o ∷ objects) key (no_results _ h) m
    where
      no_results : (rs : List (Bytes × Error)) → map (λ r. r.1) rs ++ [] ≡ [] → rs ≡ []
      no_results [] e = refl
      no_results (r ∷ rs) e = cc

  remove_objects_fully-adds_none :
      (s : State) (objects : List ObjectInfo) (key : Bytes)
      → has (remove_objects_fully client background s objects).0 key ≡ true
      → has s key ≡ true
  unfolding remove_objects_fully
  remove_objects_fully-adds_none s [] key h = h
  remove_objects_fully-adds_none s (o ∷ objects) key h =
      documented.removes_adds_none s (o ∷ objects) key h

  then_sweep-adds_none :
      (stage : List Error → SweepError) (next : State → State × Option SweepError)
      (r : State × List Error) (key : Bytes)
      → ((s : State) → has (next s).0 key ≡ true → has s key ≡ true)
      → has (then_sweep client stage next r).0 key ≡ true
      → has r.0 key ≡ true
  unfolding then_sweep
  then_sweep-adds_none stage next (s, []) key step h = step s h
  then_sweep-adds_none stage next (s, e ∷ errors) key step h = h

  sweep_indexes-adds_none :
      (plan : GcPlan) (key : Bytes) (s : State)
      → has (sweep_indexes client background plan s).0 key ≡ true
      → has s key ≡ true
  unfolding sweep_indexes sweep_chunks
  sweep_indexes-adds_none plan key s h = remove_objects_fully-adds_none s plan.indexed_objects key (
      then_sweep-adds_none copied_indexes (sweep_chunks client background plan)
        (remove_objects_fully client background s plan.indexed_objects) key
        (λ s2 h2. remove_objects_fully-adds_none s2 plan.chunk_objects key (
          then_sweep-adds_none orphaned_chunks (λ s3. (s3, none))
            (remove_objects_fully client background s2 plan.chunk_objects) key (λ s3 h3. h3) h2))
        h)

  -- If a planned backup object is left, its deletion failed, and the sweep stopped there.
  stopped_first :
      (plan : GcPlan) (name : Bytes) (r : State × List Error)
      → (r.1 ≡ [] → has r.0 name ≡ false)
      → has (then_sweep client snapshot_objects (sweep_indexes client background plan) r).0 name
        ≡ true
      → (then_sweep client snapshot_objects (sweep_indexes client background plan) r).0 ≡ r.0
  unfolding then_sweep
  stopped_first plan name (s, []) gone left =
      absurd (true≢false (sym (sweep_indexes-adds_none plan name s left) ∙ gone refl))
  stopped_first plan name (s, e ∷ errors) gone left = refl

  module _ (snapshots : List Snapshot) (backups indexed chunks : List ObjectInfo) (now : ℤ)
      (retention_days : ℕ) (grace : ℤ) (load_index : ObjectInfo → Result Error ParsedIndex)
      (load_checksum : ObjectInfo → Result Error Bytes) (plan : GcPlan)
      (built : build_gc_plan snapshots backups indexed chunks now retention_days grace load_index
          load_checksum
        ≡ ok plan)
      (copies : All (λ o. has_prefix o.key (codes "indexed/") ≡ true) indexed) where
    -- If the uncancelled sweep of a plan that was built leaves an index under backups/, which the plan
    -- read, it leaves each chunk that this index lists and that was there before. The copied indexes
    -- stand under indexed/, the client does as documented.
    pub execute_gc_plan-surviving_index :
        (s : State) (b : ObjectInfo) (index : ParsedIndex) (digest key : Bytes)
        → Elem b backups
        → is_index b.key ≡ true
        → load_index b ≡ ok index
        → Elem digest index.digests
        → chunk_object_name digest ≡ ok key
        → has s key ≡ true
        → has (execute_gc_plan client background s plan).0 b.key ≡ true
        → has (execute_gc_plan client background s plan).0 key ≡ true
    unfolding execute_gc_plan
    execute_gc_plan-surviving_index s b index digest key m i loaded d named before left =
        let nb =
          chunk_key-not-backup snapshots backups indexed chunks now retention_days grace load_index
            load_checksum plan built digest key named in
        let planned =
          backup_objects-keep_if snapshots backups indexed chunks now retention_days grace
            load_index load_checksum plan built in
        elim (Bool-cases (is_condemned now retention_days snapshots b)) [
          | inl gone ↦
              let listed : Elem b plan.backup_objects =
                subst (Elem b) (sym planned) (keep_if-Elem _ backups b m gone) in
              let stopped =
                stopped_first plan b.key
                  (remove_objects_fully client background s plan.backup_objects)
                  (λ e.
                    remove_objects_fully-all s plan.backup_objects b.key e
                      (Elem-keys b plan.backup_objects listed))
                  left in
              subst (λ t. has t key ≡ true) (sym stopped)
                (remove_objects_fully-has client has documented background key s plan.backup_objects
                  nb before)
          | inr stays ↦
              execute_gc_plan-has client has documented background key s plan nb
                (chunk_key-not-indexed snapshots backups indexed chunks now retention_days grace
                  load_index load_checksum plan built digest key named copies)
                (chunk_key-not-planned snapshots backups indexed chunks now retention_days grace
                  load_index load_checksum plan built digest key named b index m
                  (λ x.
                    true≢false
                      (sym (Elem-keep_if _ backups b (subst (Elem b) planned x)).1 ∙ stays))
                  i loaded d)
                before
        ]
