-- ===== src/Proxy/Signals.antt =====
-- The handling of signals (cmd/pmoxs3backuproxy/signal.go): when the process exits, and with which
-- status.
use pmoxs3backuproxy.Prelude.{
  ℕ, zero, suc, ◌+◌, ◌<◌, ◌&&◌, Option, none, some, List, [], ◌∷◌, ltb, ◌≡◌, ◌⊎◌, inl, inr, refl,
  ◌∙◌, arith, if◌then◌else◌,
}

pub data Signal : Type 0 where
  sigint sigterm sigusr1 : Signal

-- Whether the process goes on, with the number of signals it has skipped, or has exited.
pub data Process : Type 0 where
  serving exited : ℕ → Process

-- A signal that asks the process to stop.
stop : ℕ → ℕ → Process
stop active_sessions skipped =
    if ltb 0 active_sessions && ltb skipped 1
    then serving (suc skipped)
    else if ltb 0 active_sessions
    then exited 1
    else exited 0

-- One round of the loop, on a signal and the number of sessions at that time.
unfoldable pub handle_signal : ℕ → Signal → ℕ → Process
unfolding stop
handle_signal skipped sigint active_sessions = stop active_sessions skipped
handle_signal skipped sigterm active_sessions = stop active_sessions skipped
handle_signal skipped sigusr1 active_sessions = serving skipped

-- The loop, on the signals that it receives from the channel.
unfoldable pub handle_signals : ℕ → List (Signal × ℕ) → Process
handle_signals skipped [] = serving skipped
handle_signals skipped ((signal, active_sessions) ∷ signals) =
    elim (handle_signal skipped signal active_sessions) [
      | serving skipped' ↦ handle_signals skipped' signals
      | exited status ↦ exited status
    ]

-- What happens to the channel: the system sends a signal, or the loop asks for one, at a time with so
-- many sessions.
pub data Event : Type 0 where
  sent : Signal → Event
  asked : ℕ → Event

-- The signals that the loop receives over the channel of one place. signal.Notify drops a signal that
-- finds it full, and the loop waits while it is empty.
unfoldable pub received : Option Signal → List Event → List (Signal × ℕ)
received slot [] = []
received none (sent signal ∷ events) = received (some signal) events
received (some held) (sent signal ∷ events) = received (some held) events
received none (asked active_sessions ∷ events) = received none events
received (some held) (asked active_sessions ∷ events) =
    (held, active_sessions) ∷ received none events

-- The handler, from the empty channel on.
unfoldable pub handle_events : List Event → Process
handle_events events = handle_signals 0 (received none events)

-- Signals that ask the process to stop while sessions are active.
unfoldable pub refusable : List (Signal × ℕ) → ℕ
refusable [] = 0
refusable ((sigusr1, active_sessions) ∷ signals) = refusable signals
refusable ((_, active_sessions) ∷ signals) =
    let rest = refusable signals in if ltb 0 active_sessions then suc rest else rest

-- Signals that ask the process to stop.
unfoldable pub stop_signals : List (Signal × ℕ) → ℕ
stop_signals [] = 0
stop_signals ((sigusr1, active_sessions) ∷ signals) = stop_signals signals
stop_signals ((_, active_sessions) ∷ signals) = suc (stop_signals signals)

-- How a process that has skipped so many signals ends.
Ends : ℕ → List (Signal × ℕ) → Type 0
Ends skipped signals =
    (handle_signals skipped signals ≡ exited 0)
    ⊎ ((handle_signals skipped signals ≡ exited 1) × (1 < skipped + refusable signals))

stop_idle : (skipped : ℕ) → stop 0 skipped ≡ exited 0
unfolding stop
stop_idle skipped = ground arith

stop_first : (n : ℕ) → stop (suc n) 0 ≡ serving 1
unfolding stop
stop_first n = ground arith

stop_again : (n skipped : ℕ) → stop (suc n) (suc skipped) ≡ exited 1
unfolding stop
stop_again n skipped = ground arith

handle_signals-serving :
    (skipped next n : ℕ) (signal : Signal) (signals : List (Signal × ℕ))
    → handle_signal skipped signal n ≡ serving next
    → handle_signals skipped ((signal, n) ∷ signals) ≡ handle_signals next signals
unfolding handle_signals
handle_signals-serving skipped next n signal signals e = rw (e, handle_signals) refl

handle_signals-exit :
    (skipped status n : ℕ) (signal : Signal) (signals : List (Signal × ℕ))
    → handle_signal skipped signal n ≡ exited status
    → handle_signals skipped ((signal, n) ∷ signals) ≡ exited status
unfolding handle_signals
handle_signals-exit skipped status n signal signals e = rw (e, handle_signals) refl

-- A signal to stop, before signals after which the process ends as it should.
stop-Ends :
    (signal : Signal) (n skipped : ℕ) (signals : List (Signal × ℕ))
    → handle_signal skipped signal n ≡ stop n skipped
    → refusable ((signal, n) ∷ signals)
      ≡ (if ltb 0 n then suc (refusable signals) else refusable signals)
    → (skipped ≡ 0 → Ends 1 signals)
    → Ends skipped ((signal, n) ∷ signals)
unfolding Ends
stop-Ends signal zero skipped signals e r later =
    inl (handle_signals-exit skipped 0 zero signal signals (e ∙ stop_idle skipped))
stop-Ends signal (suc n) (suc k) signals e r later =
    inr
      (handle_signals-exit (suc k) 1 (suc n) signal signals (e ∙ stop_again n k), ground (arith, r))
stop-Ends signal (suc n) zero signals e r later =
    let step = handle_signals-serving 0 1 (suc n) signal signals (e ∙ stop_first n) in
    elim (later refl) [
      | inl done ↦ inl (step ∙ done)
      | inr (forced, twice) ↦ inr (step ∙ forced, ground (arith, r, twice))
    ]

usr1-Ends :
    (n skipped : ℕ) (signals : List (Signal × ℕ))
    → Ends skipped signals
    → Ends skipped ((sigusr1, n) ∷ signals)
unfolding Ends refusable handle_signals handle_signal
usr1-Ends n skipped signals ends = ends

handle_signals-Ends :
    (signals : List (Signal × ℕ)) (skipped : ℕ)
    → 1 < skipped + stop_signals signals
    → skipped < 2
    → Ends skipped signals
unfolding stop_signals refusable handle_signal
handle_signals-Ends [] skipped h few = absurd (omega arith)
handle_signals-Ends ((sigusr1, n) ∷ signals) skipped h few =
    usr1-Ends n skipped signals (handle_signals-Ends signals skipped h few)
handle_signals-Ends ((sigint, n) ∷ signals) skipped h few =
    stop-Ends sigint n skipped signals refl refl
      (λ e. handle_signals-Ends signals 1 (omega arith) (omega arith))
handle_signals-Ends ((sigterm, n) ∷ signals) skipped h few =
    stop-Ends sigterm n skipped signals refl refl
      (λ e. handle_signals-Ends signals 1 (omega arith) (omega arith))

-- A process that receives two signals to stop exits, with status 0, or with status 1 after at least
-- two such signals that found active sessions. Signals that find the channel full are not received.
pub handle_signals-exited :
    (events : List Event)
    → 1 < stop_signals (received none events)
    → (handle_events events ≡ exited 0)
      ⊎ ((handle_events events ≡ exited 1) × (1 < refusable (received none events)))
unfolding Ends handle_events
handle_signals-exited events h =
    elim (handle_signals-Ends (received none events) 0 (omega arith) (omega arith)) [
      | inl done ↦ inl done
      | inr (forced, twice) ↦ inr (forced, omega arith)
    ]
