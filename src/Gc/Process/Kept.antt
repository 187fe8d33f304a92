-- ===== src/Gc/Process/Kept.antt =====
-- What a process of the collector (main of cmd/garbagecollector/main.go) does to the bucket.
use pmoxs3backuproxy.Prelude.{
  Bool, true, false, Option, none, some, ◌≡◌, ◌⊎◌, inl, inr, refl, Result, ok, err, if◌then◌else◌,
}
use pmoxs3backuproxy.Prelude.Int.{ℤ}
use pmoxs3backuproxy.Prelude.Strings.{Bytes}
use pmoxs3backuproxy.Client.{Client, Documented}
use pmoxs3backuproxy.Gc.Expiry.{hours_duration}
use pmoxs3backuproxy.Gc.Process.{
  Flags, Environment, Ending, ran, version_printed, usage_printed, is_incomplete, get_lookup_type,
  settings_of, run, on_bucket, locked, with_client, with_secret, with_grace, collect,
}
use pmoxs3backuproxy.Gc.Run.{
  World, Outcome, unsafe, no_snapshots, marking_failed, chunks_missing, sweep_failed, finished,
  collect_garbage,
}
use pmoxs3backuproxy.Gc.Run.FailClosed.{NotSwept, collect_garbage-NotSwept}
use pmoxs3backuproxy.Gc.Sweep.{SweepError}
use pmoxs3backuproxy.Objects.{Error}
use pmoxs3backuproxy.Proxy.Invalidation.TokenFiles.{datastore_lock_name}

-- The run swept, to the end or to a failure.
abbrev pub Swept : Outcome → Type 0
Swept outcome = (outcome ≡ finished) ⊎ ((e : SweepError) × (outcome ≡ sweep_failed e))

Swept-cases : (outcome : Outcome) → Swept outcome ⊎ NotSwept outcome
Swept-cases finished = inl (inl refl)
Swept-cases (sweep_failed e) = inl (inr (e, refl))
Swept-cases (unsafe e) = inr tt
Swept-cases no_snapshots = inr tt
Swept-cases (marking_failed e) = inr tt
Swept-cases (chunks_missing m) = inr tt

module _ {State : Type 0} (env : Environment State) (has : State → Bytes → Bool) (flags : Flags)
    (now : ℤ) (w : World State) where
  -- The process changed nothing; or it held the lock of an existing bucket, and its run swept or
  -- left the key.
  abbrev pub Guarded : Bytes → World State × Ending → Type 0
  Guarded key end =
      (end.0 ≡ w)
      ⊎ ((env.acquire (datastore_lock_name env.sha256 flags.endpoint flags.bucket) ≡ true)
          × (env.bucket_exists w.bucket flags.bucket ≡ ok true)
          × (outcome : Outcome) × (end.1 ≡ ran outcome)
          × (Swept outcome ⊎ (has end.0.bucket key ≡ true)))

  module _ (key : Bytes) (there : has w.bucket key ≡ true) where
    if-Guarded :
        (b : Bool) (x y : World State × Ending)
        → Guarded key x
        → Guarded key y
        → Guarded key (if b then x else y)
    if-Guarded true x y gx gy = gx
    if-Guarded false x y gx gy = gy

    run-kept :
        (grace : ℤ) (client : Client State)
        → Documented client has
        → Swept (collect_garbage client (settings_of env flags now w grace) now w).1
          ⊎ (has (run env flags now w grace client).0.bucket key ≡ true)
    unfolding run
    run-kept grace client documented =
        let cfg = settings_of env flags now w grace in
        elim (Swept-cases (collect_garbage client cfg now w).1) [
          | inl swept ↦ inl swept
          | inr not_swept ↦
              inr (collect_garbage-NotSwept client has documented key cfg now w there not_swept)
        ]

    on_bucket-Guarded :
        (grace : ℤ) (client : Client State) (exists : Result Error Bool)
        → Documented client has
        → env.acquire (datastore_lock_name env.sha256 flags.endpoint flags.bucket) ≡ true
        → env.bucket_exists w.bucket flags.bucket ≡ exists
        → Guarded key (on_bucket env flags now w grace client exists)
    unfolding on_bucket run
    on_bucket-Guarded grace client (err e) documented held found = inl refl
    on_bucket-Guarded grace client (ok false) documented held found = inl refl
    on_bucket-Guarded grace client (ok true) documented held found =
        inr (held, found, _, refl, run-kept grace client documented)

    locked-Guarded :
        (grace : ℤ) (client : Client State) (acquired : Bool)
        → Documented client has
        → env.acquire (datastore_lock_name env.sha256 flags.endpoint flags.bucket) ≡ acquired
        → Guarded key (locked env flags now w grace client acquired)
    unfolding locked
    locked-Guarded grace client false documented held = inl refl
    locked-Guarded grace client true documented held =
        on_bucket-Guarded grace client _ documented held refl

    module _
        (clients : (endpoint user secret : Bytes) (secure : Bool) (client : Client State)
          → env.new_client endpoint user secret secure (get_lookup_type flags.lookup_type)
            ≡ some client
          → Documented client has) where
      with_client-Guarded :
          (grace : ℤ) (made : Option (Client State))
          → ((client : Client State) → made ≡ some client → Documented client has)
          → Guarded key (with_client env flags now w grace made)
      unfolding with_client
      with_client-Guarded grace none documented = inl refl
      with_client-Guarded grace (some client) documented =
          locked-Guarded grace client _ (documented client refl) refl

      with_secret-Guarded :
          (grace : ℤ) (secret : Option Bytes)
          → Guarded key (with_secret env flags now w grace secret)
      unfolding with_secret
      with_secret-Guarded grace none = inl refl
      with_secret-Guarded grace (some secret) =
          with_client-Guarded grace _ (clients flags.endpoint flags.access_key secret flags.secure)

      with_grace-Guarded : (grace : Result Error ℤ) → Guarded key (with_grace env flags now w grace)
      unfolding with_grace
      with_grace-Guarded (err e) = inl refl
      with_grace-Guarded (ok grace) = with_secret-Guarded grace _

      -- If every client that is made does as documented: a collector process leaves the bucket and the
      -- published notifications as they were, or it held the lock of a bucket that exists, and its run
      -- swept, to the end or to a failure, or left the object that was there.
      pub collect-Guarded : Guarded key (collect env flags now w)
      unfolding collect
      collect-Guarded =
          if-Guarded flags.print_version (w, version_printed) _ (inl refl)
            (if-Guarded (is_incomplete flags) (w, usage_printed) _ (inl refl)
              (with_grace-Guarded (hours_duration flags.chunk_grace_hours)))
