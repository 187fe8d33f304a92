-- ===== src/Proxy/Backups/Ended.antt =====
-- How a backup session leaves the bucket and the locks.
use pmoxs3backuproxy.Prelude.{
  ℕ, ◌+◌, ◌<◌, Bool, true, false, List, ◌∷◌, ◌≡◌, ◌⊎◌, inl, inr, ap, arith, length, Result, ok, err,
}
use pmoxs3backuproxy.Prelude.Strings.{Bytes, bytes_eq_refl, has_prefix}
use pmoxs3backuproxy.Prelude.Words.{two64}
use pmoxs3backuproxy.Client.{Client, Documented}
use pmoxs3backuproxy.Snapshots.{s3_prefix}
use pmoxs3backuproxy.Snapshots.Delete.{deletion_prefix, delete-has}
use pmoxs3backuproxy.Proxy.Sessions.{Locks, begin_datastore_session}
use pmoxs3backuproxy.Proxy.Sessions.Refinement.{
  Represents, Begun, open_of, close_one, begin_datastore_session-Represents,
  end_datastore_session-Represents,
}
use pmoxs3backuproxy.Proxy.Backups.{
  World, Session, remove_incomplete, backup, backup_from, backup_begun,
}

module _ {Bucket : Type 0} (client : Client Bucket) (has : Bucket → Bytes → Bool)
    (documented : Documented client has) where
  remove_incomplete-has :
      (session : Session) (finished : Bool) (bucket : Bucket) (key : Bytes)
      → (finished ≡ true) ⊎ (has_prefix key (deletion_prefix session.snapshot) ≡ false)
      → has bucket key ≡ true
      → has (remove_incomplete client session finished bucket) key ≡ true
  unfolding remove_incomplete s3_prefix
  remove_incomplete-has session true bucket key kept h = h
  remove_incomplete-has session false bucket key (inl e) h = absurd (ground (arith, e))
  remove_incomplete-has session false bucket key (inr outside) h =
      delete-has client has documented bucket
        (record (session.snapshot) { datastore = session.datastore }) key outside h

-- The world in which the requests of a session are served.
abbrev pub started : {Bucket : Type 0} → Session → World Bucket → World Bucket
started session world = record world {
  locks = (begin_datastore_session session.acquired session.lock_name world.locks).0;
}

-- While a session is served, others begin and end, but it stays open itself.
abbrev pub StaysOpen : {Bucket : Type 0} → (World Bucket → World Bucket × Bool) → Bytes → Type 0
StaysOpen {Bucket} serve name =
    (world : World Bucket) (running : List Bytes)
    → Represents world.locks running
    → 0 < open_of name running
    → (running' : List Bytes) × Represents (serve world).0.locks running'
      × (0 < open_of name running')

-- What a session leaves: nothing has changed if it did not begin; otherwise the locks stand for the
-- sessions without this one, and the object is there.
unfoldable pub Left :
    {Bucket : Type 0}
    → (Bucket → Bytes → Bool)
    → Session
    → Bytes
    → (served before after : World Bucket) → Type 0
Left has session key served before after =
    ((e : ℕ) × (session.acquired ≡ err e) × (after ≡ before))
    ⊎ ((running : List Bytes) × Represents served.locks running
        × Represents after.locks (close_one session.lock_name running)
        × (has after.bucket key ≡ true))

opened : (name : Bytes) (running : List Bytes) → 0 < open_of name (name ∷ running)
unfolding open_of
opened name running = rw (open_of, bytes_eq_refl name) (omega arith)

module _ {Bucket : Type 0} (client : Client Bucket) (has : Bucket → Bytes → Bool)
    (documented : Documented client has) (serve : World Bucket → World Bucket × Bool) where
  backup_from-Left :
      (session : Session) (world : World Bucket) (running : List Bytes) (key : Bytes)
      (begun : Locks × Result ℕ Bytes)
      → StaysOpen serve session.lock_name
      → Begun session.acquired session.lock_name world.locks running begun
      → let (served, finished) = serve (record world { locks = begun.0 }) in
        (finished ≡ true) ⊎ (has_prefix key (deletion_prefix session.snapshot) ≡ false)
        → has served.bucket key ≡ true
        → Left has session key served world (backup_from client serve session world begun)
  unfolding backup_from backup_begun Left Begun
  backup_from-Left session world running key (locks, err e) stays (failed, closed, same) kept
        there =
      inl (e, failed, ap (λ l. record world { locks = l }) same)
  backup_from-Left session world running key (locks, ok name) stays (named, standing) kept there =
      let (served, finished) = serve (record world { locks = locks }) in
      let (running', standing', still) =
        stays (record world { locks = locks }) (session.lock_name ∷ running) standing
          (opened session.lock_name running) in
      inr (
        running',
        standing',
        rw named (
            (end_datastore_session-Represents session.lock_name served.locks running' standing'
              still).0),
        remove_incomplete-has client has documented session finished served.bucket key kept there,
      )

  -- With a client that does as documented, and locks that stand for the open sessions, fewer than
  -- 2 ^ 64 - 1, a backup session that does not begin changes nothing. One that begins is closed at
  -- its end, if it was open while it was served; and an object that is there when serving ends is
  -- there afterwards, if the backup was finished or the object is not under the prefix of its
  -- snapshot.
  pub backup-Left :
      (session : Session) (world : World Bucket) (running : List Bytes) (key : Bytes)
      → StaysOpen serve session.lock_name
      → Represents world.locks running
      → length running + 1 < two64
      → let (served, finished) = serve (started session world) in
        (finished ≡ true) ⊎ (has_prefix key (deletion_prefix session.snapshot) ≡ false)
        → has served.bucket key ≡ true
        → Left has session key served world (backup client serve session world)
  unfolding backup
  backup-Left session world running key stays standing few kept there =
      backup_from-Left session world running key
        (begin_datastore_session session.acquired session.lock_name world.locks) stays
        (begin_datastore_session-Represents session.acquired session.lock_name world.locks running
          standing few)
        kept there
