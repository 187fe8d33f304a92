-- ===== src/Proxy/Flights/Phases.antt =====
-- What the calls on a flight group know in each phase, and that a call which follows keeps it so.
use pmoxs3backuproxy.Prelude.{
  ℕ, ◌≤◌, ◌<◌, Bool, true, false, none, some, ◌≡◌, ◌≢◌, ◌⊎◌, inl, inr, refl, sym, ap, ◌∙◌, subst,
  arith, ok, err, ==_iff,
}
use pmoxs3backuproxy.Prelude.Maps.{lookup}
use pmoxs3backuproxy.Prelude.Strings.{Bytes}
use pmoxs3backuproxy.Proxy.Flights.{
  Ending, returned, Phase, idle, leading, draining, waiting, led, followed, Group, failure_of,
  update, State, start,
}

pub equal_or_not : (a b : ℕ) → (a ≡ b) ⊎ (a ≢ b)
equal_or_not a b = ground (arith, ==_iff a b)

pub update-same {ℓ} : {A : Type ℓ} (f : ℕ → A) (n : ℕ) (a : A) → update f n a n ≡ a
unfolding update
update-same f n a = ground arith

pub update-other {ℓ} :
    {A : Type ℓ} (f : ℕ → A) (n : ℕ) (a : A) (m : ℕ) → m ≢ n → update f n a m ≡ f m
unfolding update
update-other f n a m h = ground (arith, h)

module _ {E : Type 0} where
  -- A call leads the flight, or has led it.
  unfoldable pub Served : State E → Bytes → ℕ → Type 0
  Served s key flight =
      (r : ℕ) × ((s.phases r ≡ leading key flight)
        ⊎ ((ending : Ending E) × (s.phases r ≡ led key flight ending)))

  -- What a call knows in a phase.
  unfoldable pub Good : State E → Phase E → Type 0
  Good s idle = Unit
  Good s (leading key flight) =
      (lookup s.group.calls key ≡ some flight) × (s.group.flights flight ≡ none)
  Good s (draining key flight) = Served s key flight
  Good s (waiting key flight) = Served s key flight
  Good s (led key flight ending) = s.group.flights flight ≡ some (failure_of ending)
  Good s (followed key flight (ok known)) =
      (known ≡ true)
      × (r : ℕ) × (found : Bool) × (s.phases r ≡ led key flight (returned (ok found)))
  Good s (followed key flight (err e)) = Unit

  pub record Inv (s : State E) : Type 0 where
    pub good : (r : ℕ) → Good s (s.phases r)
    pub led_by :
        (key : Bytes) (flight : ℕ)
        → lookup s.group.calls key ≡ some flight
        → (r : ℕ) × (s.phases r ≡ leading key flight)
    pub numbered :
        (key : Bytes) (flight : ℕ) → lookup s.group.calls key ≡ some flight → flight < s.group.fresh
    pub unborn : (flight : ℕ) → s.group.fresh ≤ flight → s.group.flights flight ≡ none
    pub alone :
        (r r' flight : ℕ) (key key' : Bytes)
        → s.phases r ≡ leading key flight
        → s.phases r' ≡ leading key' flight
        → r ≡ r'

  pub start-Inv : Inv (start E)
  unfolding start Good lookup
  start-Inv = record {
    good = λ r. tt;
    led_by = λ key flight e. absurd (ground (arith, e));
    numbered = λ key flight e. absurd (ground (arith, e));
    unborn = λ flight h. refl;
    alone = λ r r' flight key key' e e'. absurd (ground (arith, e));
  }

  -- Leaders lead on or have led, and who has led has led.
  pub record Keeps (s t : State E) : Type 0 where
    pub leader :
        (r : ℕ) (key : Bytes) (flight : ℕ)
        → s.phases r ≡ leading key flight
        → (t.phases r ≡ leading key flight)
          ⊎ ((ending : Ending E) × (t.phases r ≡ led key flight ending))
    pub former :
        (r : ℕ) (key : Bytes) (flight : ℕ) (ending : Ending E)
        → s.phases r ≡ led key flight ending
        → t.phases r ≡ led key flight ending

  pub Served-Keeps :
      (s t : State E) (key : Bytes) (flight : ℕ)
      → Keeps s t
      → Served s key flight
      → Served t key flight
  unfolding Served
  Served-Keeps s t key flight keeps (r, inl e) = (r, keeps.leader r key flight e)
  Served-Keeps s t key flight keeps (r, inr (ending, e)) =
      (r, inr (ending, keeps.former r key flight ending e))

  unfoldable pub leads : Phase E → Bool
  leads (leading key flight) = true
  leads (led key flight ending) = true
  leads _ = false

  pub Good-Keeps : (s t : State E) (p : Phase E) → Keeps s t → leads p ≡ false → Good s p → Good t p
  unfolding Good leads
  Good-Keeps s t idle keeps h g = tt
  Good-Keeps s t (leading key flight) keeps h g = absurd (ground (arith, h))
  Good-Keeps s t (draining key flight) keeps h g = Served-Keeps s t key flight keeps g
  Good-Keeps s t (waiting key flight) keeps h g = Served-Keeps s t key flight keeps g
  Good-Keeps s t (led key flight ending) keeps h g = absurd (ground (arith, h))
  Good-Keeps s t (followed key flight (ok known)) keeps h (k, r, found, e) =
      (k, r, found, keeps.former r key flight (returned (ok found)) e)
  Good-Keeps s t (followed key flight (err e)) keeps h g = tt

  -- One call goes to another phase.
  unfoldable pub moved : State E → ℕ → Group E → Phase E → State E
  moved s c group p = record { group = group; phases = update s.phases c p }

  module _ (s : State E) (c : ℕ) (group : Group E) (p : Phase E) where
    pub moved-same : (moved s c group p).phases c ≡ p
    unfolding moved
    moved-same = update-same s.phases c p

    pub moved-other : (r : ℕ) → r ≢ c → (moved s c group p).phases r ≡ s.phases r
    unfolding moved
    moved-other r h = update-other s.phases c p r h

    -- A call that follows, or begins, takes nothing away.
    pub Keeps-moved : leads (s.phases c) ≡ false → Keeps s (moved s c group p)
    unfolding leads
    Keeps-moved h = record {
      leader = λ r key flight e. elim (equal_or_not r c) [
        | inl same ↦ absurd (ground (arith, h, e, ap s.phases same))
        | inr other ↦ inl (moved-other r other ∙ e)
      ];
      former = λ r key flight ending e. elim (equal_or_not r c) [
        | inl same ↦ absurd (ground (arith, h, e, ap s.phases same))
        | inr other ↦ moved-other r other ∙ e
      ];
    }

  pub Good-moved :
      (s : State E) (c : ℕ) (p q : Phase E)
      → Keeps s (moved s c s.group p)
      → Good s q
      → Good (moved s c s.group p) q
  unfolding Good leads moved
  Good-moved s c p idle keeps g = tt
  Good-moved s c p (leading key flight) keeps g = g
  Good-moved s c p (draining key flight) keeps g = Served-Keeps s _ key flight keeps g
  Good-moved s c p (waiting key flight) keeps g = Served-Keeps s _ key flight keeps g
  Good-moved s c p (led key flight ending) keeps g = g
  Good-moved s c p (followed key flight result) keeps g =
      Good-Keeps s _ (followed key flight result) keeps refl g

  pub leads-other :
      (s : State E) (r c : ℕ) (key : Bytes) (flight : ℕ)
      → leads (s.phases c) ≡ false
      → s.phases r ≡ leading key flight
      → r ≢ c
  unfolding leads
  leads-other s r c key flight h e same = ground (arith, h, e, ap s.phases same)

  -- A call that follows, and goes on following, in an unchanged group.
  pub follow-Inv :
      (s : State E) (c : ℕ) (p : Phase E)
      → Inv s
      → leads (s.phases c) ≡ false
      → leads p ≡ false
      → Good s p
      → Inv (moved s c s.group p)
  unfolding leads moved
  follow-Inv s c p inv h h' g =
      let t = moved s c s.group p in
      let keeps = Keeps-moved s c s.group p h in
      let stays : (r : ℕ) (key : Bytes) (flight : ℕ)
          → t.phases r ≡ leading key flight
          → s.phases r ≡ leading key flight =
        λ r key flight e. elim (equal_or_not r c) [
          | inl same ↦
              absurd (ground (arith, h', sym (moved-same s c s.group p), e, ap t.phases same))
          | inr other ↦ sym (moved-other s c s.group p r other) ∙ e
        ] in
      record {
        good = λ r. elim (equal_or_not r c) [
          | inl same ↦
              subst (Good t) (sym (ap t.phases same ∙ moved-same s c s.group p))
                (Good-moved s c p p keeps g)
          | inr other ↦
              subst (Good t) (sym (moved-other s c s.group p r other))
                (Good-moved s c p (s.phases r) keeps (inv.good r))
        ];
        led_by = λ key flight e.
            let (r, e') = inv.led_by key flight e in
            (r, moved-other s c s.group p r (leads-other s r c key flight h e') ∙ e');
        numbered = inv.numbered;
        unborn = inv.unborn;
        alone = λ r r' flight key key' e e'.
            inv.alone r r' flight key key' (stays r key flight e) (stays r' key' flight e');
      }

  pub leading-Good :
      (s : State E) (r : ℕ) (key : Bytes) (flight : ℕ)
      → Inv s
      → s.phases r ≡ leading key flight
      → (lookup s.group.calls key ≡ some flight) × (s.group.flights flight ≡ none)
  unfolding Good
  leading-Good s r key flight inv e = subst (Good s) e (inv.good r)
