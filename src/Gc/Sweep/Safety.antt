-- ===== src/Gc/Sweep/Safety.antt =====
-- What the sweep leaves in the bucket, whatever fails on the way.
use pmoxs3backuproxy.Prelude.{
  ℕ, zero, suc, Bool, true, Option, none, some, List, [], ◌∷◌, ◌≡◌, ◌⊎◌, take, Elem, inl, inr,
  Option-cases,
}
use pmoxs3backuproxy.Prelude.Strings.{Bytes}
use pmoxs3backuproxy.Client.{Client, Documented, keys}
use pmoxs3backuproxy.Gc.Plan.{GcPlan}
use pmoxs3backuproxy.Gc.Sweep.{
  Context, sent, SweepError, snapshot_objects, copied_indexes, orphaned_chunks,
  remove_objects_fully, execute_gc_plan, sweep_indexes, sweep_chunks, then_sweep,
}
use pmoxs3backuproxy.Objects.{Error, ObjectInfo}

Elem-take :
    (key : Bytes) (n : ℕ) (objects : List ObjectInfo)
    → Elem key (keys (take n objects))
    → Elem key (keys objects)
Elem-take key zero objects h = elim h [ ]
Elem-take key (suc n) [] h = elim h [ ]
Elem-take key (suc n) (o ∷ objects) (inl e) = inl e
Elem-take key (suc n) (o ∷ objects) (inr h) = inr (Elem-take key n objects h)

Elem-sent :
    (ctx : Context) (key : Bytes) (objects : List ObjectInfo)
    → Elem key (keys (sent ctx objects))
    → Elem key (keys objects)
Elem-sent ctx key objects h = elim (Option-cases ctx.error) [
  | inl e ↦ rw e at h
  | inr (x, e) ↦ Elem-take key ctx.delivered objects (rw e at h)
]

-- The sweep stopped before the chunks.
abbrev pub StoppedEarly : Option SweepError → Type 0
StoppedEarly o =
    (errors : List Error) × ((o ≡ some (snapshot_objects errors))
      ⊎ (o ≡ some (copied_indexes errors)))

module _ {State : Type 0} (client : Client State) (has : State → Bytes → Bool)
    (documented : Documented client has) (ctx : Context) (key : Bytes) where
  pub remove_objects_fully-has :
      (s : State) (objects : List ObjectInfo)
      → ¬ Elem key (keys objects)
      → has s key ≡ true
      → has (remove_objects_fully client ctx s objects).0 key ≡ true
  unfolding remove_objects_fully
  remove_objects_fully-has s [] n h = h
  remove_objects_fully-has s (o ∷ objects) n h =
      documented.removes_only s (sent ctx (o ∷ objects)) key
        (λ m. n (Elem-sent ctx key (o ∷ objects) m)) h

  abbrev Has : State → Type 0
  Has s = has s key ≡ true

  then_sweep-Has :
      (stage : List Error → SweepError) (next : State → State × Option SweepError)
      (r : State × List Error)
      → Has r.0
      → ((s : State) → Has s → Has (next s).0)
      → Has (then_sweep client stage next r).0
  unfolding then_sweep
  then_sweep-Has stage next (s, []) h step = step s h
  then_sweep-Has stage next (s, e ∷ errors) h step = h

  then_sweep-early :
      (stage : List Error → SweepError) (next : State → State × Option SweepError)
      (r : State × List Error)
      → Has r.0
      → ((s : State) → Has s → StoppedEarly (next s).1 → Has (next s).0)
      → StoppedEarly (then_sweep client stage next r).1
      → Has (then_sweep client stage next r).0
  unfolding then_sweep
  then_sweep-early stage next (s, []) h step early = step s h early
  then_sweep-early stage next (s, e ∷ errors) h step early = h

  chunks_not_early :
      (r : State × List Error)
      → StoppedEarly (then_sweep client orphaned_chunks (λ s. (s, none)) r).1
      → ⊥
  unfolding then_sweep
  chunks_not_early (s, []) (errors, inl e) = cc
  chunks_not_early (s, []) (errors, inr e) = cc
  chunks_not_early (s, x ∷ errors) (_, inl e) = cc
  chunks_not_early (s, x ∷ errors) (_, inr e) = cc

  -- An object that no list of the plan names is left, also where a deletion fails.
  pub execute_gc_plan-has :
      (s : State) (plan : GcPlan)
      → ¬ Elem key (keys plan.backup_objects)
      → ¬ Elem key (keys plan.indexed_objects)
      → ¬ Elem key (keys plan.chunk_objects)
      → has s key ≡ true
      → has (execute_gc_plan client ctx s plan).0 key ≡ true
  unfolding execute_gc_plan
  execute_gc_plan-has s plan nb ni nc h =
      then_sweep-Has snapshot_objects (sweep_indexes client ctx plan)
        (remove_objects_fully client ctx s plan.backup_objects)
        (remove_objects_fully-has s plan.backup_objects nb h)
        λ s1 h1.
          then_sweep-Has copied_indexes (sweep_chunks client ctx plan)
            (remove_objects_fully client ctx s1 plan.indexed_objects)
            (remove_objects_fully-has s1 plan.indexed_objects ni h1)
            λ s2 h2.
              then_sweep-Has orphaned_chunks (λ s. (s, none))
                (remove_objects_fully client ctx s2 plan.chunk_objects)
                (remove_objects_fully-has s2 plan.chunk_objects nc h2) (λ s3 h3. h3)

  -- With a client that does as documented, a sweep that stops with a failure on snapshot objects or
  -- copied indexes leaves each object that was there and that the first two lists do not name.
  pub execute_gc_plan-chunks_last :
      (s : State) (plan : GcPlan)
      → ¬ Elem key (keys plan.backup_objects)
      → ¬ Elem key (keys plan.indexed_objects)
      → has s key ≡ true
      → StoppedEarly (execute_gc_plan client ctx s plan).1
      → has (execute_gc_plan client ctx s plan).0 key ≡ true
  unfolding execute_gc_plan
  execute_gc_plan-chunks_last s plan nb ni h early =
      then_sweep-early snapshot_objects (sweep_indexes client ctx plan)
        (remove_objects_fully client ctx s plan.backup_objects)
        (remove_objects_fully-has s plan.backup_objects nb h)
        (λ s1 h1.
          then_sweep-early copied_indexes (sweep_chunks client ctx plan)
            (remove_objects_fully client ctx s1 plan.indexed_objects)
            (remove_objects_fully-has s1 plan.indexed_objects ni h1)
            λ s2 h2 early2.
              absurd
                (chunks_not_early (remove_objects_fully client ctx s2 plan.chunk_objects) early2))
        early
