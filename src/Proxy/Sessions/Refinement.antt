-- ===== src/Proxy/Sessions/Refinement.antt =====
-- The session counts stand for the collection of the running sessions.
use pmoxs3backuproxy.Prelude.{
  ℕ, ◌+◌, ◌-◌, ◌≤◌, ◌<◌, false, Option, none, some, List, [], ◌∷◌, ◌==◌, ◌≡◌, ◌↔◌, refl, sym, arith,
  Result, ok, err, length, if◌then◌else◌,
}
use pmoxs3backuproxy.Prelude.Maps.{lookup, lookup-insert, lookup-remove}
use pmoxs3backuproxy.Prelude.Strings.{Bytes, bytes_eq, bytes_eq_iff}
use pmoxs3backuproxy.Prelude.Words.{two64, add64}
use pmoxs3backuproxy.Proxy.Sessions.{
  SessionLock, Locks, begin_with, end_with, join_lock, leave_lock, begin_datastore_session,
  end_datastore_session, active_sessions,
}

-- The number of running sessions of a lock name, and the collection without one of them.
unfoldable pub open_of : Bytes → List Bytes → ℕ
open_of name [] = 0
open_of name (s ∷ running) = (if bytes_eq s name then 1 else 0) + open_of name running

unfoldable pub close_one : Bytes → List Bytes → List Bytes
close_one name [] = []
close_one name (s ∷ running) =
    let rest = close_one name running in if bytes_eq s name then running else s ∷ rest

open_of-close_one :
    (running : List Bytes) (name other : Bytes)
    → 0 < open_of name running
    → open_of other (close_one name running) + (if bytes_eq name other then 1 else 0)
      ≡ open_of other running
unfolding open_of close_one
open_of-close_one [] name other h = ground arith
open_of-close_one (s ∷ running) name other h = ground (
  arith,
  bytes_eq_iff s name,
  bytes_eq_iff s other,
  bytes_eq_iff name other,
  open_of-close_one running name other,
)

length-close_one :
    (running : List Bytes) (name : Bytes)
    → 0 < open_of name running
    → length (close_one name running) + 1 ≡ length running
unfolding open_of close_one
length-close_one [] name h = ground arith
length-close_one (s ∷ running) name h = ground (arith, length-close_one running name)

open_of_le : (running : List Bytes) (name : Bytes) → open_of name running ≤ length running
unfolding open_of
open_of_le [] name = omega arith
open_of_le (s ∷ running) name = ground (arith, open_of_le running name)

-- The entry of a name when `n` sessions are running under it.
IsEntry : Option SessionLock → ℕ → Type 0
IsEntry none n = n ≡ 0
IsEntry (some l) n = (l.count ≡ n) × (0 < n)

-- `s` stands for the running sessions: it counts them all, and those of each lock name, and has an
-- entry for a name exactly if a session is running under it.
unfoldable pub Represents : Locks → List Bytes → Type 0
unfolding IsEntry
Represents s running =
    (active_sessions s ≡ length running)
    × ((name : Bytes) → IsEntry (lookup s.session_locks name) (open_of name running))

join_lock-Represents :
    (name : Bytes) (l : SessionLock) (s : Locks) (running : List Bytes)
    → Represents s running
    → length running + 1 < two64
    → l.count ≡ open_of name running
    → Represents (join_lock name l s) (name ∷ running)
unfolding join_lock Represents IsEntry open_of active_sessions
join_lock-Represents name l s running (total, entries) b e = (
  omega (arith, total),
  λ other. ground (
    arith,
    lookup-insert s.session_locks name other (record l { count = add64 l.count 1 }),
    entries other,
    open_of_le running name,
    bytes_eq_iff name other,
    e,
  ),
)

leave_lock-Represents :
    (name : Bytes) (l : SessionLock) (s : Locks) (running : List Bytes)
    → Represents s running
    → l.count ≡ open_of name running
    → 0 < open_of name running
    → Represents (leave_lock name l s).0 (close_one name running)
      × (((leave_lock name l s).1 ≡ none) ↔ (1 < open_of name running))
unfolding leave_lock Represents IsEntry active_sessions
leave_lock-Represents name l s running (total, entries) e h = (
  (
    ground (arith, total, length-close_one running name h),
    λ other. ground (
      arith,
      lookup-insert s.session_locks name other (record l { count = l.count - 1 }),
      lookup-remove s.session_locks name other,
      entries other,
      e,
      open_of-close_one running name other h,
      bytes_eq_iff name other,
    ),
  ),
  ground arith,
)

-- What a session that begins leaves behind.
unfoldable pub Begun : Result ℕ ℕ → Bytes → Locks → List Bytes → Locks × Result ℕ Bytes → Type 0
Begun acquire name s running (s', ok n) = (n ≡ name) × Represents s' (name ∷ running)
Begun acquire name s running (s', err e) = (acquire ≡ err e) × (open_of name running ≡ 0) × (s' ≡ s)

begin_with-Represents :
    (o : Option SessionLock) (acquire : Result ℕ ℕ) (name : Bytes) (s : Locks)
    (running : List Bytes)
    → Represents s running
    → length running + 1 < two64
    → IsEntry o (open_of name running)
    → Begun acquire name s running (begin_with o acquire name s)
unfolding begin_with Begun IsEntry
begin_with-Represents (some l) acquire name s running r b (e, h) =
    (refl, join_lock-Represents name l s running r b e)
begin_with-Represents none (err x) name s running r b e = (refl, e, refl)
begin_with-Represents none (ok releaser) name s running r b e =
    (refl, join_lock-Represents name _ s running r b (sym e))

end_with-Represents :
    (o : Option SessionLock) (name : Bytes) (s : Locks) (running : List Bytes)
    → Represents s running
    → 0 < open_of name running
    → IsEntry o (open_of name running)
    → Represents (end_with o name s).0 (close_one name running)
      × (((end_with o name s).1 ≡ none) ↔ (1 < open_of name running))
unfolding end_with IsEntry
end_with-Represents none name s running r h e = absurd (omega arith)
end_with-Represents (some l) name s running r h (e, p) =
    rw test (leave_lock-Represents name l s running r e h)
  where
    test : (l.count == 0) ≡ false
    test = ground arith

-- If the locks stand for fewer than 2 ^ 64 - 1 open sessions, a session that begins joins them; if
-- it does not begin, acquiring the mutex failed, no session was open under the name, and nothing
-- has changed.
pub begin_datastore_session-Represents :
    (acquire : Result ℕ ℕ) (name : Bytes) (s : Locks) (running : List Bytes)
    → Represents s running
    → length running + 1 < two64
    → Begun acquire name s running (begin_datastore_session acquire name s)
unfolding begin_datastore_session Represents
begin_datastore_session-Represents acquire name s running (total, entries) b =
    begin_with-Represents (lookup s.session_locks name) acquire name s running (total, entries) b
      (entries name)

-- If the locks stand for a collection of open sessions with one under the name, ending it leaves
-- locks that stand for the collection without it, and the process mutex is released exactly if it
-- was the last one under its name.
pub end_datastore_session-Represents :
    (name : Bytes) (s : Locks) (running : List Bytes)
    → Represents s running
    → 0 < open_of name running
    → Represents (end_datastore_session name s).0 (close_one name running)
      × (((end_datastore_session name s).1 ≡ none) ↔ (1 < open_of name running))
unfolding end_datastore_session Represents
end_datastore_session-Represents name s running (total, entries) h =
    end_with-Represents (lookup s.session_locks name) name s running (total, entries) h
      (entries name)
