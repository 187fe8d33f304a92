-- ===== src/Gc/Run/FailClosed.antt =====
-- Runs of the collector (cmd/garbagecollector/main.go) that do not reach the sweep.
use pmoxs3backuproxy.Prelude.{
  Bool, true, Option, none, some, List, [], ◌∷◌, ◌≡◌, Result, ok, err, arith,
}
use pmoxs3backuproxy.Prelude.Int.{ℤ}
use pmoxs3backuproxy.Prelude.Maps.{Map}
use pmoxs3backuproxy.Prelude.Strings.{Bytes, codes}
use pmoxs3backuproxy.Client.{Client, Documented}
use pmoxs3backuproxy.Gc.Loaders.{refresh_expired_snapshot_protection}
use pmoxs3backuproxy.Gc.Plan.{GcPlan}
use pmoxs3backuproxy.Gc.Run.{
  Settings, World, Outcome, finished, sweep_failed, corrupted_key, mark_reference, mark_references,
  mark_missing, after_marking, after_sweep, carry_out, planned, plan_of, refreshed, listed,
  parsed_snapshots, inventory, collect_garbage,
}
use pmoxs3backuproxy.Gc.Sweep.{SweepError, background, list_objects_fully}
use pmoxs3backuproxy.Objects.{Error, ObjectInfo}
use pmoxs3backuproxy.Snapshots.{Snapshot, snapshots_from_objects}

-- The run ended before the sweep.
abbrev pub NotSwept : Outcome → Type 0
NotSwept finished = ⊥
NotSwept (sweep_failed e) = ⊥
NotSwept _ = Unit

module _ {State : Type 0} (client : Client State) (has : State → Bytes → Bool)
    (documented : Documented client has) (key : Bytes) where
  abbrev Has : World State → Type 0
  Has w = has w.bucket key ≡ true

  mark_reference-Has :
      (w : World State) (name : Bytes) → Has w → Has (mark_reference client w name).0
  unfolding mark_reference
  mark_reference-Has w name h =
      ground (arith, documented.put_keeps w.bucket (corrupted_key name) (codes "CORRUPTED") key h)

  mark_references-Has :
      (w : World State) (names : List Bytes) → Has w → Has (mark_references client w names).0
  unfolding mark_references
  mark_references-Has w [] h = h
  mark_references-Has w (name ∷ names) h =
      let h' = mark_reference-Has w name h in
      ground (arith, h', mark_references-Has (mark_reference client w name).0 names h')

  mark_missing-Has :
      (w : World State) (missing : Map (List Bytes)) → Has w → Has (mark_missing client w missing).0
  unfolding mark_missing
  mark_missing-Has w [] h = h
  mark_missing-Has w ((digest, references) ∷ missing) h =
      let h' = mark_references-Has w references h in
      ground (arith, h', mark_missing-Has (mark_references client w references).0 missing h')

  after_marking-Has :
      (missing : Map (List Bytes)) (r : World State × Option Error)
      → Has r.0
      → Has (after_marking client missing r).0
  unfolding after_marking
  after_marking-Has missing (w, none) h = h
  after_marking-Has missing (w, some e) h = h

  after_sweep-swept :
      (cfg : Settings) (now : ℤ) (plan : GcPlan) (r : World State × Option SweepError)
      → NotSwept (after_sweep client cfg now plan r).1
      → ⊥
  unfolding after_sweep
  after_sweep-swept cfg now plan (w, none) n = n
  after_sweep-swept cfg now plan (w, some e) n = n

  module _ (cfg : Settings) (now : ℤ) (w : World State) (h : Has w) where
    carry_out-Has :
        (plan : GcPlan) (missing : Map (List Bytes))
        → NotSwept (carry_out client cfg now w plan missing).1
        → Has (carry_out client cfg now w plan missing).0
    unfolding carry_out
    carry_out-Has plan [] n = absurd (after_sweep-swept cfg now plan _ n)
    carry_out-Has plan (m ∷ missing) n =
        after_marking-Has (m ∷ missing) (mark_missing client w (m ∷ missing))
          (mark_missing-Has w (m ∷ missing) h)

    planned-Has :
        (r : Result Error GcPlan)
        → NotSwept (planned client cfg now w r).1
        → Has (planned client cfg now w r).0
    unfolding planned
    planned-Has (err e) n = h
    planned-Has (ok plan) n = carry_out-Has plan plan.missing_chunks n

    refreshed-Has :
        (backups indexed chunks : List ObjectInfo) (r : Result Error (List Snapshot))
        → NotSwept (refreshed client cfg now w backups indexed chunks r).1
        → Has (refreshed client cfg now w backups indexed chunks r).0
    unfolding refreshed
    refreshed-Has backups indexed chunks (err e) n = h
    refreshed-Has backups indexed chunks (ok snapshots) n =
        planned-Has (plan_of client cfg now w.bucket snapshots backups indexed chunks) n

    listed-Has :
        (snapshots : List Snapshot) (backups : List ObjectInfo)
        (indexed chunks : Result Error (List ObjectInfo))
        → NotSwept (listed client cfg now w snapshots backups indexed chunks).1
        → Has (listed client cfg now w snapshots backups indexed chunks).0
    unfolding listed
    listed-Has [] backups indexed chunks n = h
    listed-Has (s ∷ snapshots) backups (err e) chunks n = h
    listed-Has (s ∷ snapshots) backups (ok indexed) (err e) n = h
    listed-Has (s ∷ snapshots) backups (ok indexed) (ok chunks) n =
        refreshed-Has backups indexed chunks
          (refresh_expired_snapshot_protection client w.bucket (s ∷ snapshots) backups now
            cfg.retention_days)
          n

    parsed_snapshots-Has :
        (backups : List ObjectInfo) (r : Result Error (List Snapshot))
        → NotSwept (parsed_snapshots client cfg now w backups r).1
        → Has (parsed_snapshots client cfg now w backups r).0
    unfolding parsed_snapshots
    parsed_snapshots-Has backups (err e) n = h
    parsed_snapshots-Has backups (ok snapshots) n = listed-Has snapshots backups _ _ n

    inventory-Has :
        (r : Result Error (List ObjectInfo))
        → NotSwept (inventory client cfg now w r).1
        → Has (inventory client cfg now w r).0
    unfolding inventory
    inventory-Has (err e) n = h
    inventory-Has (ok backups) n =
        parsed_snapshots-Has backups
          (snapshots_from_objects cfg.decode_note backups cfg.bucket true) n

    -- With a client that does as documented, a run that ends in anything but a sweep, complete or
    -- failed, leaves in place each object that was there.
    pub collect_garbage-NotSwept :
        NotSwept (collect_garbage client cfg now w).1 → Has (collect_garbage client cfg now w).0
    unfolding collect_garbage
    collect_garbage-NotSwept n =
        inventory-Has (list_objects_fully client background w.bucket (codes "backups/")) n
