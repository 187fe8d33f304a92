-- ===== src/Gc/Sweep.antt =====
-- Listing and deleting (cmd/garbagecollector/gc.go): isDirectoryMarker, listObjectsFully,
-- removeObjectsFully and executeGCPlan.
pub mod Safety
pub mod Survival
use pmoxs3backuproxy.Prelude.{
  ℕ, Bool, true, false, ◌&&◌, Option, none, some, List, [], ◌∷◌, ◌++◌, map, take, Result, ok, err,
  ◌>>=◌, if◌then◌else◌,
}
use pmoxs3backuproxy.Prelude.Int.{ℤ, pos, negsuc}
use pmoxs3backuproxy.Prelude.Strings.{Bytes, codes, has_suffix}
use pmoxs3backuproxy.Client.{Client}
use pmoxs3backuproxy.Gc.Plan.{GcPlan}
use pmoxs3backuproxy.Objects.{Error, ObjectInfo}

is_zero : ℤ → Bool
is_zero (pos ℕ.zero) = true
is_zero (pos (ℕ.suc n)) = false
is_zero (negsuc n) = false

-- isDirectoryMarker
unfoldable pub is_directory_marker : ObjectInfo → Bool
unfolding is_zero
is_directory_marker object = is_zero object.size && has_suffix object.key (codes "/")

-- A context: its error once it is cancelled, with the number of objects that the sending side of
-- a channel had delivered by then.
pub record Context : Type 0 where
  pub error : Option Error
  pub delivered : ℕ

abbrev pub background : Context
background = record { error = none; delivered = 0 }

-- The loop of listObjectsFully over the channel.
unfoldable pub collect_objects : List ObjectInfo → Result Error (List ObjectInfo)
collect_objects [] = ok []
collect_objects (object ∷ rest) =
    let others = collect_objects rest in
    elim object.error [
      | some e ↦ err e
      | none ↦
          if is_directory_marker object then others else do objects ← others; ok (object ∷ objects)
    ]

unless_cancelled {ℓ} : {A : Type ℓ} → Context → A → Result Error A
unless_cancelled ctx a = elim ctx.error [ none ↦ ok a | some e ↦ err e ]

-- The objects that reach RemoveObjects.
abbrev pub sent : Context → List ObjectInfo → List ObjectInfo
sent ctx objects = elim ctx.error [ none ↦ objects | some e ↦ take ctx.delivered objects ]

abbrev context_errors : Context → List Error
context_errors ctx = elim ctx.error [ none ↦ [] | some e ↦ e ∷ [] ]

-- Which deletion failed, with the errors that were joined.
pub data SweepError : Type 0 where
  snapshot_objects copied_indexes orphaned_chunks : List Error → SweepError

module _ {State : Type 0} (client : Client State) where
  -- listObjectsFully
  unfoldable pub list_objects_fully : Context → State → Bytes → Result Error (List ObjectInfo)
  unfolding unless_cancelled
  list_objects_fully ctx s prefix = do
    objects ← collect_objects (client.list_objects s prefix)
    unless_cancelled ctx objects

  -- removeObjectsFully: the state left, and the joined errors, none of them for nil.
  unfoldable pub remove_objects_fully : Context → State → List ObjectInfo → State × List Error
  remove_objects_fully ctx s [] = (s, [])
  remove_objects_fully ctx s (o ∷ objects) =
      let (s', results) = client.remove_objects s (sent ctx (o ∷ objects)) in
      (s', map (λ r. r.1) results ++ context_errors ctx)

  -- `if err := …; err != nil { return … }`, else the next step
  then_sweep :
      (List Error → SweepError)
      → (State → State × Option SweepError)
      → State × List Error
      → State × Option SweepError
  then_sweep stage next (s, []) = next s
  then_sweep stage next (s, e ∷ errors) = (s, some (stage (e ∷ errors)))

  -- executeGCPlan, from its last step to its first
  sweep_chunks : Context → GcPlan → State → State × Option SweepError
  unfolding then_sweep
  sweep_chunks ctx plan s =
      then_sweep orphaned_chunks (λ s'. (s', none)) (remove_objects_fully ctx s plan.chunk_objects)

  sweep_indexes : Context → GcPlan → State → State × Option SweepError
  unfolding then_sweep
  sweep_indexes ctx plan s =
      then_sweep copied_indexes (sweep_chunks ctx plan)
        (remove_objects_fully ctx s plan.indexed_objects)

  unfoldable pub execute_gc_plan : Context → State → GcPlan → State × Option SweepError
  unfolding then_sweep sweep_indexes sweep_chunks
  execute_gc_plan ctx s plan =
      then_sweep snapshot_objects (sweep_indexes ctx plan)
        (remove_objects_fully ctx s plan.backup_objects)
