-- ===== src/Tests/Flights.antt =====
-- The flight group on a concrete run: two calls for one chunk, of which the second waits.
use pmoxs3backuproxy.Prelude.{ℕ, Bool, true, false, none, some, [], ◌∷◌, ◌≡◌, ◌⊎◌, refl, ok}
use pmoxs3backuproxy.Prelude.Maps.{lookup, insert, remove}
use pmoxs3backuproxy.Prelude.Strings.{Bytes, bytes_eq}
use pmoxs3backuproxy.Proxy.Flights.{
  Group, Phase, State, Ending, leading, draining, waiting, led, followed, returned, call, end_drain,
  end_leader, wake, next, enter, finish, receive, update, failure_of, start, Reachable, at_start,
  after,
}
use pmoxs3backuproxy.Proxy.Flights.Invariant.{leading_unique, followed-led, waiting-led}

abbrev key : Bytes
key = 1 ∷ []

abbrev joined : Group ℕ
unfolding start insert
joined = record (start ℕ).group { calls = insert [] key 0; fresh = 1 }

abbrev s1 : State ℕ
unfolding joined start
s1 = record { group = joined; phases = update (start ℕ).phases 0 (leading key 0) }

abbrev s2 : State ℕ
unfolding s1
s2 = record { group = joined; phases = update s1.phases 1 (draining key 0) }

abbrev s3 : State ℕ
unfolding s2
s3 = record { group = joined; phases = update s2.phases 1 (waiting key 0) }

abbrev landed : Group ℕ
unfolding joined finish
landed = finish joined key 0 none

abbrev s4 : State ℕ
unfolding s3
s4 = record { group = landed; phases = update s3.phases 0 (led key 0 (returned (ok false))) }

abbrev s5 : State ℕ
unfolding s4
s5 = record { group = landed; phases = update s4.phases 1 (followed key 0 (ok true)) }

reach3 : Reachable ℕ s3
unfolding start next enter lookup insert update s1 s2 s3 joined bytes_eq
reach3 =
    after s2 1 (end_drain none) joined (waiting key 0)
      (after s1 1 (call key) joined (draining key 0)
        (after (start ℕ) 0 (call key) joined (leading key 0) at_start refl) refl)
      refl

reach5 : Reachable ℕ s5
unfolding start next enter finish receive lookup insert remove update s1 s2 s3 s4 s5 joined landed
    bytes_eq
reach5 =
    after s4 1 wake landed (followed key 0 (ok true))
      (after s3 0 (end_leader (returned (ok false))) landed (led key 0 (returned (ok false))) reach3
        refl)
      refl

leads : s3.phases 0 ≡ leading key 0
unfolding update s3
leads = refl

waits : s3.phases 1 ≡ waiting key 0
unfolding update s3
waits = refl

follows : s5.phases 1 ≡ followed key 0 (ok true)
unfolding update s5
follows = refl

leading_unique_example : ◌≡◌ {A = ℕ} 0 0
leading_unique_example = leading_unique s3 0 0 key 0 0 reach3 leads leads

followed-led_example :
    (true ≡ true) × (r' : ℕ) × (found : Bool) × (s5.phases r' ≡ led key 0 (returned (ok found)))
followed-led_example = followed-led s5 1 key 0 true reach5 follows

waiting-led_example :
    ((phase : Phase ℕ) × (next s3.group (waiting key 0) wake ≡ some (s3.group, phase)))
    ⊎ ((r' : ℕ) × (s3.phases r' ≡ leading key 0)
        × ((ending : Ending ℕ)
            → let group = finish s3.group key 0 (failure_of ending) in
              (phase : Phase ℕ) × (next group (waiting key 0) wake ≡ some (group, phase))))
waiting-led_example = waiting-led s3 1 key 0 reach3 waits
