-- ===== src/Proxy/Flights/End.antt =====
-- A leader that ends keeps what the calls know.
use pmoxs3backuproxy.Prelude.{
  ℕ, true, false, Option, some, ◌≡◌, ◌≢◌, inl, inr, refl, sym, ap, ◌∙◌, subst, arith, Bool-cases,
}
use pmoxs3backuproxy.Prelude.Maps.{lookup, remove, lookup-remove}
use pmoxs3backuproxy.Prelude.Strings.{Bytes, bytes_eq, bytes_eq_refl, eq_of_bytes_eq}
use pmoxs3backuproxy.Proxy.Flights.{
  Ending, Phase, idle, leading, draining, waiting, led, followed, Group, failure_of, update, State,
}
use pmoxs3backuproxy.Proxy.Flights.Phases.{
  Good, Inv, Keeps, leads, moved, equal_or_not, update-same, update-other, Served-Keeps, Good-Keeps,
  moved-same, moved-other, leading-Good,
}

module _ {E : Type 0} where
  -- The flight of a leader ends.
  unfoldable pub ended : Group E → Bytes → ℕ → Option E → Group E
  ended group key flight e = record group {
    flights = update group.flights flight (some e);
    calls = remove group.calls key;
  }

  ended-found :
      (group : Group E) (key k : Bytes) (flight flight' : ℕ) (f : Option E)
      → lookup (ended group key flight f).calls k ≡ some flight'
      → (bytes_eq key k ≡ false) × (lookup group.calls k ≡ some flight')
  unfolding ended
  ended-found group key k flight flight' f e = ground (arith, e, lookup-remove group.calls key k)

  -- Another leader has another key and another flight.
  leaders-apart :
      (s : State E) (r c : ℕ) (key k : Bytes) (flight flight' : ℕ)
      → Inv s
      → r ≢ c
      → s.phases c ≡ leading key flight
      → s.phases r ≡ leading k flight'
      → (flight' ≢ flight) × (bytes_eq key k ≡ false)
  leaders-apart s r c key k flight flight' inv other e e' =
      let apart : flight' ≢ flight =
        λ same. other (inv.alone r c flight k key (e' ∙ ap (leading k) same) e) in
      (
        apart,
        elim (Bool-cases (bytes_eq key k)) [
          | inr different ↦ different
          | inl same ↦
              let one = (leading-Good s c key flight inv e).0 in
              let two = (leading-Good s r k flight' inv e').0 in
              let same_key = ap (lookup s.group.calls) (eq_of_bytes_eq key k same) in
              absurd (apart (some-injective (sym two ∙ sym same_key ∙ one)))
        ],
      )
    where
      some-injective : {a b : ℕ} → some a ≡ some b → a ≡ b
      some-injective p = cc

  pub end-Inv :
      (s : State E) (c : ℕ) (key : Bytes) (flight : ℕ) (ending : Ending E)
      → Inv s
      → s.phases c ≡ leading key flight
      → Inv (moved s c (ended s.group key flight (failure_of ending)) (led key flight ending))
  unfolding leads moved ended Good
  end-Inv s c key flight ending inv leader_c =
      let p = led key flight ending in
      let group = ended s.group key flight (failure_of ending) in
      let t = moved s c group p in
      let (found, open_yet) = leading-Good s c key flight inv leader_c in
      let keeps : Keeps s t = record {
        leader = λ r k flight' e. elim (equal_or_not r c) [
          | inl same ↦ inr (
            ending,
            ap t.phases same
                ∙ moved-same s c group p
                ∙ led_same k flight' (sym leader_c ∙ ap s.phases (sym same) ∙ e),
          )
          | inr other ↦ inl (moved-other s c group p r other ∙ e)
        ];
        former = λ r k flight' ending' e. elim (equal_or_not r c) [
          | inl same ↦
              absurd (leading_not_led k flight' ending' (sym leader_c ∙ ap s.phases (sym same) ∙ e))
          | inr other ↦ moved-other s c group p r other ∙ e
        ];
      } in
      let stays : (r flight' : ℕ) (k : Bytes)
          → t.phases r ≡ leading k flight'
          → s.phases r ≡ leading k flight' =
        λ r flight' k e. elim (equal_or_not r c) [
          | inl same ↦ absurd (
              led_not_leading k flight' (sym (moved-same s c group p) ∙ ap t.phases (sym same) ∙ e))
          | inr other ↦ sym (moved-other s c group p r other) ∙ e
        ] in
      record {
        good = λ r. elim (equal_or_not r c) [
          | inl same ↦
              subst (Good t) (sym (ap t.phases same ∙ moved-same s c group p))
                (update-same s.group.flights flight (some (failure_of ending)))
          | inr other ↦
              subst (Good t) (sym (moved-other s c group p r other))
                (Good-ended r other (s.phases r) refl keeps (inv.good r))
        ];
        led_by = λ k flight' e.
            let (different, e') = ended-found s.group key k flight flight' (failure_of ending) e in
            let (r, e'') = inv.led_by k flight' e' in
            (r, moved-other s c group p r (other_key r k flight' different e'') ∙ e'');
        numbered = λ k flight' e.
            inv.numbered k flight'
              (ended-found s.group key k flight flight' (failure_of ending) e).1;
        unborn = λ flight' h.
            update-other s.group.flights flight (some (failure_of ending)) flight'
              (λ same. omega (arith, h, same, inv.numbered key flight found))
            ∙ inv.unborn flight' h;
        alone = λ r r' flight' k k' e e'.
            inv.alone r r' flight' k k' (stays r flight' k e) (stays r' flight' k' e');
      }
    where
      led_same :
          (k : Bytes) (flight' : ℕ)
          → ◌≡◌ {A = Phase E} (leading key flight) (leading k flight')
          → ◌≡◌ {A = Phase E} (led key flight ending) (led k flight' ending)
      led_same k flight' e = cc

      leading_not_led :
          (k : Bytes) (flight' : ℕ) (ending' : Ending E)
          → ◌≡◌ {A = Phase E} (leading key flight) (led k flight' ending')
          → ⊥
      leading_not_led k flight' ending' e = cc

      led_not_leading :
          (k : Bytes) (flight' : ℕ)
          → ◌≡◌ {A = Phase E} (led key flight ending) (leading k flight')
          → ⊥
      led_not_leading k flight' e = cc

      same_keys :
          (k : Bytes) (flight' : ℕ)
          → ◌≡◌ {A = Phase E} (leading key flight) (leading k flight')
          → key ≡ k
      same_keys k flight' e = cc

      other_key :
          (r : ℕ) (k : Bytes) (flight' : ℕ)
          → bytes_eq key k ≡ false
          → s.phases r ≡ leading k flight'
          → r ≢ c
      other_key r k flight' different e same =
          let eq = same_keys k flight' (sym leader_c ∙ ap s.phases (sym same) ∙ e) in
          let yes : bytes_eq key k ≡ true = rw (← eq) (bytes_eq_refl key) in
          absurd (ground (arith, yes, different))

      Good-ended :
          (r : ℕ)
          → r ≢ c
          → (q : Phase E) → s.phases r ≡ q
          → Keeps s
              (moved s c (ended s.group key flight (failure_of ending)) (led key flight ending))
          → Good s q
          → Good
              (moved s c (ended s.group key flight (failure_of ending)) (led key flight ending))
              q
      Good-ended r other idle eq keeps g = tt
      Good-ended r other (leading k flight') eq keeps (e, open_yet) =
          let (apart, different) = leaders-apart s r c key k flight flight' inv other leader_c eq in
          (
            rw (lookup-remove s.group.calls key k, different) e,
            update-other s.group.flights flight (some (failure_of ending)) flight' apart ∙ open_yet,
          )
      Good-ended r other (draining k flight') eq keeps g = Served-Keeps s _ k flight' keeps g
      Good-ended r other (waiting k flight') eq keeps g = Served-Keeps s _ k flight' keeps g
      Good-ended r other (led k flight' ending') eq keeps g =
          let open_yet = (leading-Good s c key flight inv leader_c).1 in
          update-other s.group.flights flight (some (failure_of ending)) flight'
            (λ same. absurd (ground (arith, sym (ap s.group.flights same) ∙ g, open_yet)))
          ∙ g
      Good-ended r other (followed k flight' result) eq keeps g =
          Good-Keeps s _ (followed k flight' result) keeps refl g
