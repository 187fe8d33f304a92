-- ===== src/Proxy/Flights.antt =====
-- The flight group (chunkFlightGroup of cmd/pmoxs3backuproxy/chunk_upload.go), which joins
-- concurrent uploads of one chunk. What Do does between two waits is one event; the events of the
-- requests interleave as they like.
pub mod Phases
pub mod Begin
pub mod End
pub mod Invariant
use pmoxs3backuproxy.Prelude.{
  ℕ, suc, Bool, true, false, Option, none, some, [], ◌==◌, ◌≡◌, Result, ok, err, if◌then◌else◌,
}
use pmoxs3backuproxy.Prelude.Maps.{Map, lookup, insert, remove}
use pmoxs3backuproxy.Prelude.Strings.{Bytes}

module _ (E : Type 0) where
  -- How the function of a leader ends.
  pub data Ending : Type 0 where
    returned : Result E Bool → Ending
    recovered : E → Ending

  -- The state of one call of Do: not called, running the leader's function on a flight, draining
  -- its body or waiting for a flight, or ended.
  pub data Phase : Type 0 where
    idle : Phase
    leading draining waiting : Bytes → ℕ → Phase
    led : Bytes → ℕ → Ending → Phase
    followed : Bytes → ℕ → Result E Bool → Phase

  -- What happens to a call next.
  pub data Event : Type 0 where
    call : Bytes → Event
    end_leader : Ending → Event
    end_drain : Option E → Event
    wake : Event
    cancel : E → Event

  -- The flights have numbers, in place of addresses. A flight is `none` until its channel is closed,
  -- and has its error from then on. `fresh` is the number of the next.
  pub record Group : Type 0 where
    pub calls : Map ℕ
    pub flights : ℕ → Option (Option E)
    pub fresh : ℕ

-- A function changed at one number.
unfoldable pub update {ℓ} : {A : Type ℓ} → (ℕ → A) → ℕ → A → ℕ → A
update f n a m = if m == n then a else f m

module _ {E : Type 0} where
  -- call.err
  abbrev pub failure_of : Ending E → Option E
  failure_of (returned (ok known)) = none
  failure_of (returned (err e)) = some e
  failure_of (recovered e) = some e

  unfoldable pub enter : Group E → Bytes → Group E × Phase E
  enter group key = elim (lookup group.calls key) [
    | some flight ↦ (group, draining key flight)
    | none ↦ (
      record group { calls = insert group.calls key group.fresh; fresh = suc group.fresh },
      leading key group.fresh,
    )
  ]

  unfoldable pub finish : Group E → Bytes → ℕ → Option E → Group E
  unfolding update
  finish group key flight e = record group {
    flights = update group.flights flight (some e);
    calls = elim (lookup group.calls key) [
      | none ↦ group.calls
      | some other ↦ if other == flight then remove group.calls key else group.calls
    ];
  }

  -- The receive from call.done: not before it is closed.
  unfoldable pub receive : Group E → Bytes → ℕ → Option (Phase E)
  receive group key flight = elim (group.flights flight) [
    | none ↦ none
    | some none ↦ some (followed key flight (ok true))
    | some (some e) ↦ some (followed key flight (err e))
  ]

  -- One event of a call; `none` if the call does not wait for it.
  unfoldable pub next : Group E → Phase E → Event E → Option (Group E × Phase E)
  unfolding enter finish receive
  next group idle (call key) = some (enter group key)
  next group (leading key flight) (end_leader ending) =
      some (finish group key flight (failure_of ending), led key flight ending)
  next group (draining key flight) (end_drain none) = some (group, waiting key flight)
  next group (draining key flight) (end_drain (some e)) = some (group, followed key flight (err e))
  next group (waiting key flight) wake = elim (receive group key flight) [
    | none ↦ none
    | some phase ↦ some (group, phase)
  ]
  next group (waiting key flight) (cancel e) = some (group, followed key flight (err e))
  next group _ _ = none

module _ (E : Type 0) where
  -- The group and the calls of Do, by number.
  pub record State : Type 0 where
    pub group : Group E
    pub phases : ℕ → Phase E

  unfoldable pub start : State
  start = record {
    group = record { calls = []; flights = λ flight. none; fresh = 0 };
    phases = λ caller. idle;
  }

  -- Any call may be the next to proceed.
  pub data Reachable : State → Type 0 where
    at_start : Reachable start
    after :
        (s : State) (caller : ℕ) (event : Event E) (group : Group E) (phase : Phase E)
        → Reachable s
        → next s.group (s.phases caller) event ≡ some (group, phase)
        → Reachable (record { group = group; phases = update s.phases caller phase })
