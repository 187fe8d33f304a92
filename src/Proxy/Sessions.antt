-- ===== src/Proxy/Sessions.antt =====
-- The datastore sessions of the proxy (cmd/pmoxs3backuproxy/http2.go): one inter-process lock for
-- each endpoint and bucket, with a count of the sessions that share it. Both operations run under
-- SessionsMutex, so each is one step.
pub mod Refinement
use pmoxs3backuproxy.Prelude.{
  ℕ, ◌-◌, Bool, true, false, Option, none, some, ◌==◌, Result, ok, err, if◌then◌else◌,
}
use pmoxs3backuproxy.Prelude.Maps.{Map, lookup, insert, remove}
use pmoxs3backuproxy.Prelude.Strings.{Bytes}
use pmoxs3backuproxy.Prelude.Words.{two64, add64}

-- `releaser` names the mutex.Releaser that the acquisition returned.
pub record SessionLock : Type 0 where
  pub count : ℕ
  pub releaser : ℕ

-- The fields SessionLocks and Sessions of the server.
pub record Locks : Type 0 where
  pub session_locks : Map SessionLock
  pub sessions : ℕ

-- `entry.count++; s.Sessions++`
join_lock : Bytes → SessionLock → Locks → Locks
join_lock name l s = record s {
  session_locks = insert s.session_locks name (record l { count = add64 l.count 1 });
  sessions = add64 s.sessions 1;
}

begin_with : Option SessionLock → Result ℕ ℕ → Bytes → Locks → Locks × Result ℕ Bytes
begin_with (some l) acquire name s = (join_lock name l s, ok name)
begin_with none (err e) name s = (s, err e)
begin_with none (ok releaser) name s =
    (join_lock name (record { count = 0; releaser = releaser }) s, ok name)

-- beginDataStoreSession, for a lock name; `acquire` is what acquiring the process mutex returns,
-- which is done when there is no entry.
unfoldable pub begin_datastore_session : Result ℕ ℕ → Bytes → Locks → Locks × Result ℕ Bytes
unfolding begin_with join_lock
begin_datastore_session acquire name s = begin_with (lookup s.session_locks name) acquire name s

-- The entry with one session less, and the releaser that is called when it was the last.
leave_lock : Bytes → SessionLock → Locks → Locks × Option ℕ
leave_lock name l s =
    if l.count - 1 == 0
    then (
      record { session_locks = remove s.session_locks name; sessions = s.sessions - 1 },
      some l.releaser,
    )
    else (
      record {
        session_locks = insert s.session_locks name (record l { count = l.count - 1 });
        sessions = s.sessions - 1;
      },
      none,
    )

end_with : Option SessionLock → Bytes → Locks → Locks × Option ℕ
end_with none name s = (s, none)
end_with (some l) name s = if l.count == 0 then (s, none) else leave_lock name l s

-- endDataStoreSession. `s.Sessions--` is written for a number of sessions that is not 0.
unfoldable pub end_datastore_session : Bytes → Locks → Locks × Option ℕ
unfolding end_with leave_lock
end_datastore_session name s = end_with (lookup s.session_locks name) name s

-- activeSessions
unfoldable pub active_sessions : Locks → ℕ
active_sessions s = s.sessions
