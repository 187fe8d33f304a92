-- ===== src/Proxy/Flights/Invariant.antt =====
-- What holds of the flight group in every reachable state.
use pmoxs3backuproxy.Prelude.{
  ℕ, Bool, true, false, Option, none, some, ◌==◌, ◌≡◌, ◌⊎◌, inl, inr, refl, sym, ap, ◌∙◌, subst,
  arith, ok, err, Option-cases, ==_iff,
}
use pmoxs3backuproxy.Prelude.Maps.{lookup}
use pmoxs3backuproxy.Prelude.Strings.{Bytes}
use pmoxs3backuproxy.Proxy.Flights.{
  Ending, returned, recovered, Phase, idle, leading, draining, waiting, led, followed, Event, call,
  end_leader, end_drain, wake, cancel, Group, failure_of, enter, finish, receive, next, State,
  Reachable, at_start, after,
}
use pmoxs3backuproxy.Proxy.Flights.Phases.{
  Served, Good, Inv, leads, moved, update-same, start-Inv, follow-Inv, leading-Good,
}
use pmoxs3backuproxy.Proxy.Flights.Begin.{begun, begin-Inv}
use pmoxs3backuproxy.Proxy.Flights.End.{ended, end-Inv}

some-injective : {A : Type 0} {a b : A} → some a ≡ some b → a ≡ b
some-injective e = cc

some-subst : {A : Type 0} (P : A → Type 0) {a b : A} → some a ≡ some b → P a → P b
some-subst P e h = subst P (some-injective e) h

module _ {E : Type 0} where
  failure_of-none :
      (ending : Ending E)
      → failure_of ending ≡ none
      → (known : Bool) × (ending ≡ returned (ok known))
  failure_of-none (returned (ok known)) e = (known, refl)
  failure_of-none (returned (err x)) e = absurd (ground (arith, e))
  failure_of-none (recovered x) e = absurd (ground (arith, e))

  -- A flight that has ended without an error was led to a success.
  closed-led :
      (s : State E) (key : Bytes) (flight : ℕ)
      → Inv s
      → Served s key flight
      → s.group.flights flight ≡ some none
      → (r : ℕ) × (found : Bool) × (s.phases r ≡ led key flight (returned (ok found)))
  unfolding Served Good
  closed-led s key flight inv (r, inl e) closed =
      let open_yet = (leading-Good s r key flight inv e).1 in
      absurd (ground (arith, closed, open_yet))
  closed-led s key flight inv (r, inr (ending, e)) closed =
      let ends : s.group.flights flight ≡ some (failure_of ending) =
        subst (Good s) e (inv.good r) in
      let (found, eq) = failure_of-none ending (some-injective (sym ends ∙ closed)) in
      (r, found, e ∙ ap (led key flight) eq)

  finish-ended :
      (group : Group E) (key : Bytes) (flight : ℕ) (e : Option E)
      → lookup group.calls key ≡ some flight
      → finish group key flight e ≡ ended group key flight e
  unfolding finish ended
  finish-ended group key flight e found =
      let same : (flight == flight) ≡ true = (==_iff flight flight).1 refl in rw (found, same) refl

  follows :
      (s : State E) (c : ℕ) (p : Phase E)
      → s.phases c ≡ p
      → leads p ≡ false
      → leads (s.phases c) ≡ false
  follows s c p e h = ap leads e ∙ h

  enter-Inv :
      (s : State E) (c : ℕ) (key : Bytes)
      → Inv s
      → leads (s.phases c) ≡ false
      → Inv (moved s c (enter s.group key).0 (enter s.group key).1)
  unfolding enter Good leads Served begun
  enter-Inv s c key inv h = elim (Option-cases (lookup s.group.calls key)) [
    | inl free ↦ rw (enter, free) (begin-Inv s c key inv h free)
    | inr (flight, found) ↦
        let (r, e) = inv.led_by key flight found in
        rw (enter, found) (follow-Inv s c (draining key flight) inv h refl (r, inl e))
  ]

  receive-Inv :
      (s : State E) (c : ℕ) (key : Bytes) (flight : ℕ) (q : Phase E)
      → Inv s
      → s.phases c ≡ waiting key flight
      → receive s.group key flight ≡ some q
      → Inv (moved s c s.group q)
  unfolding receive Good leads
  receive-Inv s c key flight q inv at e = elim (Option-cases (s.group.flights flight)) [
    | inl open_yet ↦ absurd (ground (arith, e, open_yet))
    | inr (none, closed) ↦
        let (r, found, e') = closed-led s key flight inv (subst (Good s) at (inv.good c)) closed in
        follow-keep (followed key flight (ok true)) (rw (receive, closed) at e) refl
          (refl, r, found, e')
    | inr (some x, closed) ↦
        follow-keep (followed key flight (err x)) (rw (receive, closed) at e) refl tt
  ]
    where
      follow-keep :
          (p : Phase E) → some p ≡ some q → leads p ≡ false → Good s p → Inv (moved s c s.group q)
      follow-keep p e h g =
          some-subst (λ q. Inv (moved s c s.group q)) e
            (follow-Inv s c p inv (follows s c (waiting key flight) at refl) h g)

  next-Inv :
      (s : State E) (c : ℕ) (p : Phase E) (event : Event E) (group : Group E) (q : Phase E)
      → Inv s
      → s.phases c ≡ p
      → next s.group p event ≡ some (group, q)
      → Inv (moved s c group q)
  unfolding next Good leads
  next-Inv s c idle (call key) group q inv at e =
      some-subst (λ x. Inv (moved s c x.0 x.1)) e (enter-Inv s c key inv (follows s c idle at refl))
  next-Inv s c (leading key flight) (end_leader ending) group q inv at e =
      some-subst (λ x. Inv (moved s c x.0 x.1)) e
        (subst (λ g. Inv (moved s c g (led key flight ending)))
          (sym (
            finish-ended s.group key flight (failure_of ending)
              (leading-Good s c key flight inv at).0))
          (end-Inv s c key flight ending inv at))
  next-Inv s c (draining key flight) (end_drain none) group q inv at e =
      some-subst (λ x. Inv (moved s c x.0 x.1)) e
        (follow-Inv s c (waiting key flight) inv (follows s c (draining key flight) at refl) refl
          (subst (Good s) at (inv.good c)))
  next-Inv s c (draining key flight) (end_drain (some x)) group q inv at e =
      some-subst (λ x. Inv (moved s c x.0 x.1)) e
        (follow-Inv s c (followed key flight (err x)) inv
          (follows s c (draining key flight) at refl) refl tt)
  next-Inv s c (waiting key flight) wake group q inv at e =
      elim (Option-cases (receive s.group key flight)) [
        | inl early ↦ absurd (ground (arith, e, early))
        | inr (phase, got) ↦
            some-subst (λ x. Inv (moved s c x.0 x.1)) (rw (next, got) at e)
              (receive-Inv s c key flight phase inv at got)
      ]
  next-Inv s c (waiting key flight) (cancel x) group q inv at e =
      some-subst (λ x. Inv (moved s c x.0 x.1)) e
        (follow-Inv s c (followed key flight (err x)) inv (follows s c (waiting key flight) at refl)
          refl tt)
  next-Inv s c _ _ group q inv at e = absurd (ground (arith, e))

  Reachable-Inv : (s : State E) → Reachable E s → Inv s
  unfolding moved
  Reachable-Inv s at_start = start-Inv
  Reachable-Inv s (after s' c event group phase before e) =
      next-Inv s' c (s'.phases c) event group phase (Reachable-Inv s' before) refl e

  -- In every reachable state, at most one call leads a flight for a key.
  pub leading_unique :
      (s : State E) (r r' : ℕ) (key : Bytes) (flight flight' : ℕ)
      → Reachable E s
      → s.phases r ≡ leading key flight
      → s.phases r' ≡ leading key flight'
      → r ≡ r'
  leading_unique s r r' key flight flight' before e e' =
      let inv = Reachable-Inv s before in
      let one = (leading-Good s r key flight inv e).0 in
      let two = (leading-Good s r' key flight' inv e').0 in
      let same : flight' ≡ flight = some-injective (sym two ∙ one) in
      inv.alone r r' flight key key e (e' ∙ ap (leading key) same)

  -- In every reachable state, a call that followed a flight to a success was told that the chunk is
  -- known, and a leader of that flight for the same key has returned a success.
  pub followed-led :
      (s : State E) (r : ℕ) (key : Bytes) (flight : ℕ) (known : Bool)
      → Reachable E s
      → s.phases r ≡ followed key flight (ok known)
      → (known ≡ true)
        × (r' : ℕ) × (found : Bool) × (s.phases r' ≡ led key flight (returned (ok found)))
  unfolding Good
  followed-led s r key flight known before e = subst (Good s) e ((Reachable-Inv s before).good r)

  -- A call that waits for a closed flight can go on.
  closed-wakes :
      (group : Group E) (key : Bytes) (flight : ℕ) (f : Option E)
      → group.flights flight ≡ some f
      → (phase : Phase E) × (next group (waiting key flight) wake ≡ some (group, phase))
  unfolding next receive
  closed-wakes group key flight none e = (followed key flight (ok true), rw (next, receive, e) refl)
  closed-wakes group key flight (some x) e =
      (followed key flight (err x), rw (next, receive, e) refl)

  -- In every reachable state, a call that waits for a flight can go on, or another call leads that
  -- flight and the call can go on once its leader has ended, in whichever way.
  pub waiting-led :
      (s : State E) (r : ℕ) (key : Bytes) (flight : ℕ)
      → Reachable E s
      → s.phases r ≡ waiting key flight
      → ((phase : Phase E) × (next s.group (waiting key flight) wake ≡ some (s.group, phase)))
        ⊎ ((r' : ℕ) × (s.phases r' ≡ leading key flight)
            × ((ending : Ending E)
                → let group = finish s.group key flight (failure_of ending) in
                  (phase : Phase E) × (next group (waiting key flight) wake ≡ some (group, phase))))
  unfolding Good Served finish
  waiting-led s r key flight before e =
      let inv = Reachable-Inv s before in
      let (r', served) = subst (Good s) e (inv.good r) in
      elim served [
        | inl e' ↦ inr (
          r',
          e',
          λ ending.
              closed-wakes (finish s.group key flight (failure_of ending)) key flight
                (failure_of ending) (update-same s.group.flights flight (some (failure_of ending))),
        )
        | inr (ending, e') ↦
            inl (
              closed-wakes s.group key flight (failure_of ending) (subst (Good s) e' (inv.good r')))
      ]
