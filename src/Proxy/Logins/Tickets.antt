-- ===== src/Proxy/Logins/Tickets.antt =====
-- The maps of tickets and connections (ticketGC in cmd/pmoxs3backuproxy/main.go).
use pmoxs3backuproxy.Prelude.{
  ℕ, suc, ◌≤◌, true, false, some, List, [], ◌∷◌, ltb, ◌≡◌, ◌⊎◌, ◌∙◌, refl, sym, ap, inl, inr, arith,
  Bool-cases, Option-cases, Elem, Result, ok, err,
}
use pmoxs3backuproxy.Prelude.Maps.{Map, lookup, insert, remove, lookup-insert, lookup-remove}
use pmoxs3backuproxy.Prelude.Strings.{Bytes, bytes_eq, bytes_eq_refl, eq_of_bytes_eq}
use pmoxs3backuproxy.Proxy.Logins.{TicketEntry, expire_tickets}

some-injective : {A : Type 0} {a b : A} → some a ≡ some b → a ≡ b
some-injective p = cc

ltb-false : (a b : ℕ) → ltb a b ≡ false → b ≤ a
ltb-false a b h = ground arith

pub Result-cases : {A : Type 0} (r : Result ℕ A) → ((a : A) × (r ≡ ok a)) ⊎ ((e : ℕ) × (r ≡ err e))
Result-cases (ok a) = inl (a, refl)
Result-cases (err e) = inr (e, refl)

module _ {A : Type 0} where
  -- A lookup in a changed map, by cases.
  pub lookup-insert_cases :
      (m : Map A) (k j : Bytes) (v w : A)
      → lookup (insert m k v) j ≡ some w
      → ((k ≡ j) × (v ≡ w)) ⊎ (lookup m j ≡ some w)
  lookup-insert_cases m k j v w e = elim (Bool-cases (bytes_eq k j)) [
    | inl t ↦ inl (eq_of_bytes_eq k j t, some-injective (rw t at (sym (lookup-insert m k j v) ∙ e)))
    | inr f ↦ inr (rw f at (sym (lookup-insert m k j v) ∙ e))
  ]

  pub remove-lookup :
      (m : Map A) (k j : Bytes) (w : A)
      → lookup (remove m k) j ≡ some w
      → (lookup m j ≡ some w) × (bytes_eq k j ≡ false)
  remove-lookup m k j w e = ground (arith, lookup-remove m k j, e)

-- After a round, a ticket that is there was there before, and was not expired if it was visited.
pub expire_tickets-lookup :
    {Connection : Type 0} (now : ℕ) (tickets : List Bytes) (auth : Map (TicketEntry Connection))
    (count : ℕ) (ticket : Bytes) (entry : TicketEntry Connection)
    → lookup (expire_tickets now tickets (auth, count)).0 ticket ≡ some entry
    → (lookup auth ticket ≡ some entry) × (Elem ticket tickets → now ≤ entry.expire)
unfolding expire_tickets
expire_tickets-lookup now [] auth count ticket entry e = (e, λ m. elim m [ ])
expire_tickets-lookup now (t ∷ tickets) auth count ticket entry e =
    elim (Option-cases (lookup auth t)) [
      | inl gone ↦
          let (before, kept) =
            expire_tickets-lookup now tickets auth count ticket entry
              (rw (expire_tickets, gone) at e) in
          (
            before,
            λ m. elim m [
              | inl same ↦ absurd (ground (arith, sym (ap (lookup auth) same) ∙ before, gone))
              | inr later ↦ kept later
            ],
          )
      | inr (entry', there) ↦ elim (Bool-cases (ltb entry'.expire now)) [
        | inl over ↦
            let (after, kept) =
              expire_tickets-lookup now tickets (remove auth t) (suc count) ticket entry
                (rw (expire_tickets, there, over) at e) in
            let (before, other) = remove-lookup auth t ticket entry after in
            (
              before,
              λ m. elim m [
                | inl same ↦
                    let self : bytes_eq t ticket ≡ true = rw same (bytes_eq_refl t) in
                    absurd (ground (arith, self, other))
                | inr later ↦ kept later
              ],
            )
        | inr fresh ↦
            let (before, kept) =
              expire_tickets-lookup now tickets auth count ticket entry
                (rw (expire_tickets, there, fresh) at e) in
            (
              before,
              λ m. elim m [
                | inl same ↦
                    let eq : entry' ≡ entry =
                      some-injective (sym there ∙ sym (ap (lookup auth) same) ∙ before) in
                    ltb-false entry.expire now (rw (← eq) fresh)
                | inr later ↦ kept later
              ],
            )
      ]
    ]
