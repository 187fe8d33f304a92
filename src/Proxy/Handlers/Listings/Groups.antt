-- ===== src/Proxy/Handlers/Listings/Groups.antt =====
-- What the listings of groups and the status tell.
use pmoxs3backuproxy.Prelude.{
  ℕ, suc, ◌+◌, ◌<◌, Bool, true, false, ◌&&◌, List, [], ◌∷◌, ◌++◌, map, ◌≡◌, ◌∙◌, refl, sym, ap,
  arith, inl, inr, Bool-cases, length, and-true, keep_if, if◌then◌else◌,
}
use pmoxs3backuproxy.Prelude.Strings.{Bytes, bytes_eq, bytes_eq_iff, bytes_eq_refl, eq_of_bytes_eq}
use pmoxs3backuproxy.Prelude.Words.{two64, add64}
use pmoxs3backuproxy.Snapshots.{Snapshot}
use pmoxs3backuproxy.Proxy.Handlers.Listings.{
  Group, same_group, new_group, update_groups, add_snapshot, groups_of,
}

-- The counts and times of the groups of one type and id.
unfoldable pub summary : Bytes → Bytes → List Group → List (ℕ × ℕ)
summary kind id [] = []
summary kind id (g ∷ groups) =
    let rest = summary kind id groups in
    if same_group kind id g then (g.count, g.backup_time) ∷ rest else rest

-- A snapshot of the type and id.
unfoldable pub belongs : Bytes → Bytes → Snapshot → Bool
belongs kind id snap = bytes_eq snap.backup_type kind && bytes_eq snap.backup_id id

last_time : ℕ → List Snapshot → ℕ
last_time time [] = time
last_time time (s ∷ snapshots) = last_time s.backup_time snapshots

-- The number of snapshots with the time of the last of them, if there are any.
unfoldable pub described : List Snapshot → List (ℕ × ℕ)
unfolding last_time
described [] = []
described (s ∷ snapshots) = (suc (length snapshots), last_time s.backup_time snapshots) ∷ []

one_more : ℕ → ℕ × ℕ → ℕ × ℕ
one_more time p = (add64 p.0 1, time)

-- What a snapshot does to the groups of its type and id.
bump : ℕ → List (ℕ × ℕ) → List (ℕ × ℕ)
bump time [] = (1, time) ∷ []
bump time (p ∷ ps) = map (one_more time) (p ∷ ps)

some_there : List (ℕ × ℕ) → Bool
some_there [] = false
some_there (p ∷ ps) = true

same_group-counted :
    (kind id : Bytes) (g : Group) (count time : ℕ)
    → same_group kind id (record g { count = count; backup_time = time }) ≡ same_group kind id g
unfolding same_group
same_group-counted kind id g count time = refl

-- A group of one snapshot is no group of another type or id.
same_group-other :
    (kind id kind' id' : Bytes) (g : Group)
    → same_group kind' id' g ≡ true
    → (bytes_eq kind' kind && bytes_eq id' id) ≡ false
    → same_group kind id g ≡ false
unfolding same_group
same_group-other kind id kind' id' g t h = ground (
  arith,
  bytes_eq_iff g.backup_type kind',
  bytes_eq_iff g.backup_id id',
  bytes_eq_iff g.backup_type kind,
  bytes_eq_iff g.backup_id id,
  bytes_eq_iff kind' kind,
  bytes_eq_iff id' id,
)

module _ (snap : Snapshot) where
  abbrev own : List Group → List (ℕ × ℕ)
  own groups = summary snap.backup_type snap.backup_id groups

  update_groups-own :
      (groups : List Group)
      → (own (update_groups snap groups).0 ≡ map (one_more snap.backup_time) (own groups))
        × ((update_groups snap groups).1 ≡ some_there (own groups))
  unfolding update_groups summary one_more some_there
  update_groups-own [] = (refl, refl)
  update_groups-own (g ∷ groups) =
      let (e, f) = update_groups-own groups in
      elim (Bool-cases (same_group snap.backup_type snap.backup_id g)) [
        | inl t ↦
            let t' =
              same_group-counted snap.backup_type snap.backup_id g (add64 g.count 1)
                snap.backup_time in
            (rw (t, t', t, e) refl, rw t refl)
        | inr n ↦ (rw (n, n, e) refl, rw (n, f) refl)
      ]

  update_groups-other :
      (kind id : Bytes) (groups : List Group)
      → belongs kind id snap ≡ false
      → summary kind id (update_groups snap groups).0 ≡ summary kind id groups
  unfolding update_groups summary belongs
  update_groups-other kind id [] h = refl
  update_groups-other kind id (g ∷ groups) h =
      let e = update_groups-other kind id groups h in
      elim (Bool-cases (same_group snap.backup_type snap.backup_id g)) [
        | inl t ↦
            let other = same_group-other kind id snap.backup_type snap.backup_id g t h in
            let other' = same_group-counted kind id g (add64 g.count 1) snap.backup_time in
            rw (t, other', other, e) refl
        | inr n ↦ rw (n, e) refl
      ]

summary-append :
    (kind id : Bytes) (groups others : List Group)
    → summary kind id (groups ++ others) ≡ summary kind id groups ++ summary kind id others
unfolding summary
summary-append kind id [] others = refl
summary-append kind id (g ∷ groups) others = ground (arith, summary-append kind id groups others)

-- The new group of a snapshot.
summary-new_group :
    (owner : Bytes) (snap : Snapshot)
    → summary snap.backup_type snap.backup_id (new_group owner snap ∷ [])
      ≡ (1, snap.backup_time) ∷ []
unfolding summary new_group same_group
summary-new_group owner snap =
    rw (bytes_eq_refl snap.backup_type, bytes_eq_refl snap.backup_id) refl

bump-map :
    (time : ℕ) (l : List (ℕ × ℕ))
    → (some_there l ≡ true → map (one_more time) l ≡ bump time l)
      × (some_there l ≡ false → map (one_more time) l ++ (1, time) ∷ [] ≡ bump time l)
unfolding bump some_there
bump-map time [] = (λ e. absurd (ground (arith, e)), λ e. refl)
bump-map time (p ∷ ps) = (λ e. refl, λ e. absurd (ground (arith, e)))

add_snapshot-own :
    (owner : Bytes) (snap : Snapshot) (groups : List Group)
    → own snap (add_snapshot owner groups snap) ≡ bump snap.backup_time (own snap groups)
unfolding add_snapshot
add_snapshot-own owner snap groups =
    let (e, f) = update_groups-own snap groups in
    let (there, missing) = bump-map snap.backup_time (own snap groups) in
    let updated = (update_groups snap groups).0 in
    elim (Bool-cases (update_groups snap groups).1) [
      | inl t ↦ rw t (e ∙ there (sym f ∙ t))
      | inr n ↦ rw n (
          summary-append snap.backup_type snap.backup_id updated (new_group owner snap ∷ [])
          ∙ rw (e, summary-new_group owner snap) (missing (sym f ∙ n)))
    ]

belongs-eq :
    (kind id : Bytes) (snap : Snapshot)
    → belongs kind id snap ≡ true
    → (snap.backup_type ≡ kind) × (snap.backup_id ≡ id)
unfolding belongs
belongs-eq kind id snap t =
    let (k, i) = and-true (bytes_eq snap.backup_type kind) (bytes_eq snap.backup_id id) t in
    (eq_of_bytes_eq snap.backup_type kind k, eq_of_bytes_eq snap.backup_id id i)

append-nil : (l : List (ℕ × ℕ)) → l ++ [] ≡ l
append-nil [] = refl
append-nil (p ∷ l) = ap (◌∷◌ p) (append-nil l)

add_snapshot-other :
    (owner kind id : Bytes) (snap : Snapshot) (groups : List Group)
    → belongs kind id snap ≡ false
    → summary kind id (add_snapshot owner groups snap) ≡ summary kind id groups
unfolding add_snapshot summary new_group same_group belongs
add_snapshot-other owner kind id snap groups n =
    let e = update_groups-other snap kind id groups n in
    elim (Bool-cases (update_groups snap groups).1) [
      | inl t ↦ rw t e
      | inr f ↦ rw f (
          summary-append kind id (update_groups snap groups).0 (new_group owner snap ∷ [])
          ∙ rw (e, summary, n) (append-nil (summary kind id groups)))
    ]

add_snapshot-summary :
    (owner kind id : Bytes) (snap : Snapshot) (groups : List Group)
    → summary kind id (add_snapshot owner groups snap) ≡ (
        if belongs kind id snap
        then bump snap.backup_time (summary kind id groups)
        else summary kind id groups)
unfolding add_snapshot
add_snapshot-summary owner kind id snap groups = elim (Bool-cases (belongs kind id snap)) [
  | inl t ↦
      let (k, i) = belongs-eq kind id snap t in
      rw t (rw (← k, ← i) (add_snapshot-own owner snap groups))
  | inr n ↦ rw n (add_snapshot-other owner kind id snap groups n)
]

bumps : List (ℕ × ℕ) → List Snapshot → List (ℕ × ℕ)
bumps seen [] = seen
bumps seen (s ∷ snapshots) = bumps (bump s.backup_time seen) snapshots

groups_of-bumps :
    (owner kind id : Bytes) (groups : List Group) (snapshots : List Snapshot)
    → summary kind id (groups_of owner groups snapshots)
      ≡ bumps (summary kind id groups) (keep_if (belongs kind id) snapshots)
unfolding groups_of bumps keep_if
groups_of-bumps owner kind id groups [] = refl
groups_of-bumps owner kind id groups (s ∷ snapshots) =
    let step = add_snapshot-summary owner kind id s groups in
    groups_of-bumps owner kind id (add_snapshot owner groups s) snapshots
    ∙ elim (Bool-cases (belongs kind id s)) [
      | inl t ↦ rw (step, t) refl
      | inr n ↦ rw (step, n) refl
    ]

bumps-one :
    (n time : ℕ) (snapshots : List Snapshot)
    → n + length snapshots < two64
    → bumps ((n, time) ∷ []) snapshots ≡ (n + length snapshots, last_time time snapshots) ∷ []
unfolding bumps bump one_more last_time
bumps-one n time [] h = let e : n + 0 ≡ n = omega arith in rw e refl
bumps-one n time (s ∷ snapshots) h =
    let e : add64 n 1 ≡ n + 1 = omega arith in
    let e' : n + 1 + length snapshots ≡ n + suc (length snapshots) = omega arith in
    ap (λ k. bumps ((k, s.backup_time) ∷ []) snapshots) e
    ∙ bumps-one (n + 1) s.backup_time snapshots (omega arith)
    ∙ ap (λ k. (k, last_time s.backup_time snapshots) ∷ []) e'

bumps-described : (l : List Snapshot) → length l < two64 → bumps [] l ≡ described l
unfolding bumps bump described
bumps-described [] h = refl
bumps-described (s ∷ snapshots) h =
    bumps-one 1 s.backup_time snapshots (omega arith)
    ∙ ap (λ k. (k, last_time s.backup_time snapshots) ∷ []) (omega arith)

-- The groups of fewer than 2 ^ 64 snapshots have, for each backup type and id, one entry if there is
-- a snapshot of them, with the number of those snapshots and the time of the one listed last, and
-- none otherwise.
pub groups_of-described :
    (owner kind id : Bytes) (snapshots : List Snapshot)
    → length (keep_if (belongs kind id) snapshots) < two64
    → summary kind id (groups_of owner [] snapshots)
      ≡ described (keep_if (belongs kind id) snapshots)
unfolding summary
groups_of-described owner kind id snapshots h =
    groups_of-bumps owner kind id [] snapshots
    ∙ bumps-described (keep_if (belongs kind id) snapshots) h
