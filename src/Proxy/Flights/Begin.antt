-- ===== src/Proxy/Flights/Begin.antt =====
-- A call that begins a flight keeps what the calls know.
use pmoxs3backuproxy.Prelude.{
  ℕ, suc, false, none, some, ◌≡◌, ◌⊎◌, inl, inr, refl, sym, ap, ◌∙◌, subst, arith, Bool-cases,
}
use pmoxs3backuproxy.Prelude.Maps.{lookup, insert, lookup-insert}
use pmoxs3backuproxy.Prelude.Strings.{Bytes, bytes_eq, bytes_eq_iff, bytes_eq_refl, eq_of_bytes_eq}
use pmoxs3backuproxy.Proxy.Flights.{
  Phase, idle, leading, draining, waiting, led, followed, Group, State,
}
use pmoxs3backuproxy.Proxy.Flights.Phases.{
  Good, Inv, Keeps, leads, moved, equal_or_not, Served-Keeps, Good-Keeps, moved-same, moved-other,
  Keeps-moved, leads-other, leading-Good,
}

module _ {E : Type 0} where
  -- A new flight, for a key that has none.
  unfoldable pub begun : Group E → Bytes → Group E
  begun group key = record group {
    calls = insert group.calls key group.fresh;
    fresh = suc group.fresh;
  }

  begun-found :
      (group : Group E) (key k : Bytes) (flight : ℕ)
      → lookup (begun group key).calls k ≡ some flight
      → ((key ≡ k) × (flight ≡ group.fresh)) ⊎ (lookup group.calls k ≡ some flight)
  unfolding begun
  begun-found group key k flight e =
      ground (arith, e, lookup-insert group.calls key k group.fresh, bytes_eq_iff key k)

  begun-kept :
      (group : Group E) (key k : Bytes) (flight : ℕ)
      → lookup group.calls key ≡ none
      → lookup group.calls k ≡ some flight
      → lookup (begun group key).calls k ≡ some flight
  unfolding begun
  begun-kept group key k flight free e = elim (Bool-cases (bytes_eq key k)) [
    | inl same ↦
        let eq = ap (lookup group.calls) (eq_of_bytes_eq key k same) in
        absurd (ground (arith, free, e, eq))
    | inr other ↦ rw (lookup-insert group.calls key k group.fresh, other) e
  ]

  pub begin-Inv :
      (s : State E) (c : ℕ) (key : Bytes)
      → Inv s
      → leads (s.phases c) ≡ false
      → lookup s.group.calls key ≡ none
      → Inv (moved s c (begun s.group key) (leading key s.group.fresh))
  unfolding leads moved begun Good
  begin-Inv s c key inv h free =
      let p = leading key s.group.fresh in
      let group = begun s.group key in
      let t = moved s c group p in
      let keeps = Keeps-moved s c group p h in
      record {
        good = λ r. elim (equal_or_not r c) [
          | inl same ↦ subst (Good t) (sym (ap t.phases same ∙ moved-same s c group p)) (
            rw (lookup-insert s.group.calls key key s.group.fresh, bytes_eq_refl key) refl,
            inv.unborn s.group.fresh (omega arith),
          )
          | inr other ↦
              subst (Good t) (sym (moved-other s c group p r other))
                (Good-begun (s.phases r) keeps (inv.good r))
        ];
        led_by = λ k flight e. elim (begun-found s.group key k flight e) [
          | inl (same, fresh) ↦ (c, moved-same s c group p ∙ cc)
          | inr e ↦
              let (r, e') = inv.led_by k flight e in
              (r, moved-other s c group p r (leads-other s r c k flight h e') ∙ e')
        ];
        numbered = λ k flight e. elim (begun-found s.group key k flight e) [
          | inl (same, fresh) ↦ omega (arith, fresh)
          | inr e ↦ omega (arith, inv.numbered k flight e)
        ];
        unborn = λ flight h. inv.unborn flight (omega (arith, h));
        alone = λ r r' flight k k' e e'. elim (equal_or_not r c) [
          | inl here ↦ elim (equal_or_not r' c) [
            | inl here' ↦ here ∙ sym here'
            | inr there' ↦ absurd (
                too_late r' flight k k' (sym (moved-same s c group p) ∙ ap t.phases (sym here) ∙ e)
                  (sym (moved-other s c group p r' there') ∙ e'))
          ]
          | inr there ↦ elim (equal_or_not r' c) [
            | inl here' ↦ absurd (
                too_late r flight k' k (sym (moved-same s c group p) ∙ ap t.phases (sym here') ∙ e')
                  (sym (moved-other s c group p r there) ∙ e))
            | inr there' ↦
                inv.alone r r' flight k k' (sym (moved-other s c group p r there) ∙ e)
                  (sym (moved-other s c group p r' there') ∙ e')
          ]
        ];
      }
    where
      Good-begun :
          (q : Phase E)
          → Keeps s (moved s c (begun s.group key) (leading key s.group.fresh))
          → Good s q
          → Good (moved s c (begun s.group key) (leading key s.group.fresh)) q
      Good-begun idle keeps g = tt
      Good-begun (leading k flight) keeps (e, open_yet) =
          (begun-kept s.group key k flight free e, open_yet)
      Good-begun (draining k flight) keeps g = Served-Keeps s _ k flight keeps g
      Good-begun (waiting k flight) keeps g = Served-Keeps s _ k flight keeps g
      Good-begun (led k flight ending) keeps g = g
      Good-begun (followed k flight result) keeps g =
          Good-Keeps s _ (followed k flight result) keeps refl g

      too_late :
          (r flight : ℕ) (k k' : Bytes)
          → ◌≡◌ {A = Phase E} (leading key s.group.fresh) (leading k flight)
          → s.phases r ≡ leading k' flight
          → ⊥
      too_late r flight k k' e e' =
          let fresh : s.group.fresh ≡ flight = cc in
          omega (arith, fresh, inv.numbered k' flight (leading-Good s r k' flight inv e').0)
