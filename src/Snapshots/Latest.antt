-- ===== src/Snapshots/Latest.antt =====
-- The snapshot that GetLatestSnapshot finds.
use pmoxs3backuproxy.Prelude.{
  ℕ, ◌≤◌, ◌<◌, Option, none, some, List, [], ◌∷◌, ◌≡◌, ◌≢◌, ◌⊎◌, inl, inr, refl, arith, Elem, Never,
}
use pmoxs3backuproxy.Prelude.Strings.{Bytes, bytes_eq_iff}
use pmoxs3backuproxy.Snapshots.{Snapshot, later, more_recent, latest_of}

module _ (id : Bytes) (time : ℕ) where
  -- A snapshot of the backup, other than the one of this time.
  abbrev pub IsEarlier : Snapshot → Type 0
  IsEarlier t = (t.backup_id ≡ id) × (t.backup_time ≢ time)

  -- The answer is the newest of the snapshots that `P` has and that count, and there is an answer
  -- if any of them counts.
  abbrev pub IsLatest : (Snapshot → Type 0) → Option Snapshot → Type 0
  IsLatest P none = (t : Snapshot) → P t → IsEarlier t → ⊥
  IsLatest P (some s) =
      P s × IsEarlier s × ((t : Snapshot) → P t → IsEarlier t → t.backup_time ≤ s.backup_time)

  -- A step from nothing keeps nothing or takes `s`, which then counts.
  more_recent-none :
      (s : Snapshot)
      → ((more_recent id time none s ≡ none) × ¬ IsEarlier s)
        ⊎ ((more_recent id time none s ≡ some s) × IsEarlier s)
  unfolding more_recent later
  more_recent-none s = ground (arith, bytes_eq_iff s.backup_id id, bytes_eq_iff id s.backup_id)

  -- A step from `m` keeps it or takes `s`, which then counts and is newer.
  more_recent-some :
      (m s : Snapshot)
      → ((more_recent id time (some m) s ≡ some m) × (IsEarlier s → s.backup_time ≤ m.backup_time))
        ⊎ ((more_recent id time (some m) s ≡ some s)
            × IsEarlier s
            × (m.backup_time < s.backup_time))
  unfolding more_recent later
  more_recent-some m s = ground (arith, bytes_eq_iff s.backup_id id, bytes_eq_iff id s.backup_id)

  more_recent-IsLatest :
      (P : Snapshot → Type 0) (a : Option Snapshot) (s : Snapshot)
      → IsLatest P a
      → IsLatest (λ t. P t ⊎ (t ≡ s)) (more_recent id time a s)
  more_recent-IsLatest P none s h = elim (more_recent-none s) [
    | inl (kept, out) ↦ rw kept (λ t p e. elim p [ inl q ↦ h t q e | inr q ↦ out (rw (← q) e) ])
    | inr (taken, e) ↦
        rw taken
          (inr refl, e, λ t p e'. elim p [ inl q ↦ absurd (h t q e') | inr q ↦ rw q (omega arith) ])
  ]
  more_recent-IsLatest P (some m) s (p, e, newest) = elim (more_recent-some m s) [
    | inl (kept, below) ↦
        rw kept (
          inl p,
          e,
          λ t q e'. elim q [ inl r ↦ newest t r e' | inr r ↦ rw r (below (rw (← r) e')) ],
        )
    | inr (taken, es, above) ↦ rw taken (
      inr refl,
      es,
      λ t q e'. elim q [
        | inl r ↦ let b = newest t r e' in omega arith
        | inr r ↦ rw r (omega arith)
      ],
    )
  ]

  -- The same answer for a predicate that has the same snapshots.
  IsLatest-subst :
      (P Q : Snapshot → Type 0) (a : Option Snapshot)
      → ((t : Snapshot) → P t → Q t)
      → ((t : Snapshot) → Q t → P t)
      → IsLatest P a
      → IsLatest Q a
  IsLatest-subst P Q none f g h = λ t q. h t (g t q)
  IsLatest-subst P Q (some s) f g (p, e, newest) = (f s p, e, λ t q. newest t (g t q))

  latest_of-IsLatest_from :
      (P : Snapshot → Type 0) (a : Option Snapshot) (snapshots : List Snapshot)
      → IsLatest P a
      → IsLatest (λ t. P t ⊎ Elem t snapshots) (latest_of id time a snapshots)
  unfolding latest_of
  latest_of-IsLatest_from P a [] h =
      IsLatest-subst P _ a (λ t p. inl p) (λ t p. elim p [ inl q ↦ q | inr n ↦ elim n [ ] ]) h
  latest_of-IsLatest_from P a (s ∷ snapshots) h =
      IsLatest-subst (λ t. (P t ⊎ (t ≡ s)) ⊎ Elem t snapshots) _ _ from to
        (latest_of-IsLatest_from (λ t. P t ⊎ (t ≡ s)) (more_recent id time a s) snapshots
          (more_recent-IsLatest P a s h))
    where
      from : (t : Snapshot) → (P t ⊎ (t ≡ s)) ⊎ Elem t snapshots → P t ⊎ Elem t (s ∷ snapshots)
      from t (inl (inl p)) = inl p
      from t (inl (inr e)) = inr (inl e)
      from t (inr m) = inr (inr m)

      to : (t : Snapshot) → P t ⊎ Elem t (s ∷ snapshots) → (P t ⊎ (t ≡ s)) ⊎ Elem t snapshots
      to t (inl p) = inl (inl p)
      to t (inr (inl e)) = inl (inr e)
      to t (inr (inr m)) = inr m

-- The loop of GetLatestSnapshot finds, among the listed snapshots with this backup id and with a time
-- other than this one, one with the greatest time, and finds none only if there is none.
pub latest_of-IsLatest :
    (id : Bytes) (time : ℕ) (snapshots : List Snapshot)
    → IsLatest id time (λ t. Elem t snapshots) (latest_of id time none snapshots)
latest_of-IsLatest id time snapshots =
    IsLatest-subst id time _ _ _ (λ t p. elim p [ inl n ↦ elim n [ ] | inr m ↦ m ]) (λ t m. inr m)
      (latest_of-IsLatest_from id time (λ t. Never) none snapshots (λ t n. elim n [ ]))
