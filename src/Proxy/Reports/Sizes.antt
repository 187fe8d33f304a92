-- ===== src/Proxy/Reports/Sizes.antt =====
-- FillArchiveSizes (cmd/pmoxs3backuproxy/sizes.go) under different orders of its workers.
use pmoxs3backuproxy.Prelude.{
  ℕ, suc, true, false, List, [], ◌∷◌, ◌++◌, map, ◌==◌, ==_iff, if◌then◌else◌, ◌≡◌, ◌≢◌, ◌∙◌, refl,
  sym, ap, subst, arith, inl, inr, Bool-cases, Elem, All, All-map,
}
use pmoxs3backuproxy.Prelude.Maps.{Map, lookup, insert, lookup-insert}
use pmoxs3backuproxy.Prelude.Strings.{Bytes, bytes_eq_iff}
use pmoxs3backuproxy.Prelude.Words.{add64}
use pmoxs3backuproxy.Index.{is_index}
use pmoxs3backuproxy.Snapshots.{Snapshot, SnapshotFile}
use pmoxs3backuproxy.Proxy.Cache.{Entry, entry}
use pmoxs3backuproxy.Proxy.Reports.{
  Job, job_of, file_jobs, jobs_of, indexed, size_key, add_size, add_sizes, found_size, Lookups,
  look_up, work, work_all, fill_jobs, fill_archive_sizes,
}

-- No element stands twice.
abbrev pub Distinct {ℓ} : {A : Type ℓ} → List A → Type ℓ
Distinct [] = Unit
Distinct (x ∷ xs) = (¬ Elem x xs) × Distinct xs

abbrev pub place : ℕ × Job → ℕ
place p = p.0

abbrev pub place_key : ℕ × Job → Bytes
place_key p = size_key p.1

-- An order in which the workers may take the jobs: it holds each, no place twice and no key twice.
abbrev pub IsOrder : List (ℕ × Job) → List (ℕ × Job) → Type 0
IsOrder jobs order =
    All (λ p. Elem p order) jobs × Distinct (map place order) × Distinct (map place_key order)

entry-insert :
    (cache : Map (Entry ℕ)) (key other : Bytes) (e : Entry ℕ)
    → key ≢ other
    → entry (insert cache key e) other ≡ entry cache other
unfolding entry
entry-insert cache key other e differ =
    let kept : lookup (insert cache key e) other ≡ lookup cache other =
      lookup-insert cache key other e ∙ ground (arith, bytes_eq_iff key other, differ) in
    rw kept refl

map-Elem {ℓ κ} :
    {A : Type ℓ} {B : Type κ} (f : A → B) (x : A) (xs : List A) → Elem x xs → Elem (f x) (map f xs)
map-Elem f x [] h = elim h [ ]
map-Elem f x (y ∷ xs) (inl e) = inl (ap f e)
map-Elem f x (y ∷ xs) (inr h) = inr (map-Elem f x xs h)

module _ (lookups : Lookups) where
  -- The size that the lookup of a job finds in the cache.
  unfoldable pub size_in : Map (Entry ℕ) → Job → ℕ
  size_in cache j = found_size (look_up lookups j (entry cache (size_key j))).1

  -- A place that is not among those of the jobs keeps its result.
  work_all-other :
      (cache : Map (Entry ℕ)) (sizes : ℕ → ℕ) (order : List (ℕ × Job)) (n : ℕ)
      → ¬ Elem n (map place order)
      → (work_all lookups (cache, sizes) order).1 n ≡ sizes n
  unfolding work_all work
  work_all-other cache sizes [] n h = refl
  work_all-other cache sizes ((m, j) ∷ order) n h =
      let (cache', sizes') = work lookups (cache, sizes) (m, j) in
      let here : (n == m) ≡ false = elim (Bool-cases (n == m)) [
        | inl t ↦ absurd (h (inl ((==_iff n m).0 t)))
        | inr f ↦ f
      ] in
      work_all-other cache' sizes' order n (λ k. h (inr k)) ∙ rw here refl

  -- The result of a job is what its lookup finds in the cache as it was before.
  work_all-Elem :
      (cache : Map (Entry ℕ)) (sizes : ℕ → ℕ) (order : List (ℕ × Job))
      → Distinct (map place order)
      → Distinct (map place_key order)
      → (p : ℕ × Job) → Elem p order
      → (work_all lookups (cache, sizes) order).1 p.0 ≡ size_in cache p.1
  unfolding work_all work size_in
  work_all-Elem cache sizes [] d k p h = elim h [ ]
  work_all-Elem cache sizes ((m, j) ∷ order) d k p (inl e) =
      let (cache', sizes') = work lookups (cache, sizes) (m, j) in
      let same : (m == m) ≡ true = (==_iff m m).1 refl in
      rw e (work_all-other cache' sizes' order m d.0 ∙ rw same refl)
  work_all-Elem cache sizes ((m, j) ∷ order) d k p (inr h) =
      let (cache', sizes') = work lookups (cache, sizes) (m, j) in
      work_all-Elem cache' sizes' order d.1 k.1 p h
      ∙ ap (λ e. found_size (look_up lookups p.1 e).1)
          (entry-insert cache (size_key j) (size_key p.1)
            (look_up lookups j (entry cache (size_key j))).0
            (λ same. k.0 (
              subst (λ x. Elem x (map place_key order)) (sym same) (map-Elem place_key p order h))))

-- The sizes of the archives among some files of a snapshot, added up.
unfoldable pub with_archives : (Job → ℕ) → Snapshot → List SnapshotFile → ℕ → ℕ
unfolding job_of
with_archives size s [] total = total
with_archives size s (f ∷ files) total =
    with_archives size s files
      (if is_index f.filename then add64 total (size (job_of 0 s f)) else total)

-- A snapshot with the sizes of its archives.
unfoldable pub with_sizes : (Job → ℕ) → Snapshot → Snapshot
with_sizes size s = record s { size = with_archives size s s.files s.size }

add_jobs : (Job → ℕ) → List Job → List Snapshot → List Snapshot
add_jobs size [] snapshots = snapshots
add_jobs size (j ∷ jobs) snapshots = add_jobs size jobs (add_size j.snapshot (size j) snapshots)

add_sizes-agree :
    (f g : ℕ × Job → ℕ) (jobs : List (ℕ × Job)) (snapshots : List Snapshot)
    → All (λ p. f p ≡ g p) jobs
    → add_sizes f jobs snapshots ≡ add_sizes g jobs snapshots
unfolding add_sizes
add_sizes-agree f g [] snapshots h = refl
add_sizes-agree f g ((n, j) ∷ jobs) snapshots h =
    rw h.0 (add_sizes-agree f g jobs (add_size j.snapshot (g (n, j)) snapshots) h.1)

add_sizes-indexed :
    (size : Job → ℕ) (n : ℕ) (jobs : List Job) (snapshots : List Snapshot)
    → add_sizes (λ p. size p.1) (indexed n jobs) snapshots ≡ add_jobs size jobs snapshots
unfolding add_sizes indexed add_jobs
add_sizes-indexed size n [] snapshots = refl
add_sizes-indexed size n (j ∷ jobs) snapshots =
    add_sizes-indexed size (suc n) jobs (add_size j.snapshot (size j) snapshots)

module _ (size : Job → ℕ)
    (placeless : (i : ℕ) (s : Snapshot) (f : SnapshotFile)
      → size (job_of i s f) ≡ size (job_of 0 s f)) where
  add_jobs-append :
      (xs ys : List Job) (snapshots : List Snapshot)
      → add_jobs size (xs ++ ys) snapshots ≡ add_jobs size ys (add_jobs size xs snapshots)
  unfolding add_jobs
  add_jobs-append [] ys snapshots = refl
  add_jobs-append (j ∷ xs) ys snapshots =
      add_jobs-append xs ys (add_size j.snapshot (size j) snapshots)

  add_jobs-file_jobs :
      (s t : Snapshot) (files : List SnapshotFile) (snapshots : List Snapshot)
      → add_jobs size (file_jobs 0 s files) (t ∷ snapshots)
        ≡ record t { size = with_archives size s files t.size } ∷ snapshots
  unfolding add_jobs file_jobs with_archives add_size
  add_jobs-file_jobs s t [] snapshots = refl
  add_jobs-file_jobs s t (f ∷ files) snapshots = elim (Bool-cases (is_index f.filename)) [
    | inl e ↦ rw e (
        add_jobs-file_jobs s (record t { size = add64 t.size (size (job_of 0 s f)) }) files
          snapshots)
    | inr e ↦ rw e (add_jobs-file_jobs s t files snapshots)
  ]

  -- The jobs of later snapshots leave the first alone.
  file_jobs-later :
      (i : ℕ) (s t : Snapshot) (files : List SnapshotFile) (snapshots : List Snapshot)
      → add_jobs size (file_jobs (suc i) s files) (t ∷ snapshots)
        ≡ t ∷ add_jobs size (file_jobs i s files) snapshots
  unfolding add_jobs file_jobs add_size job_of
  file_jobs-later i s t [] snapshots = refl
  file_jobs-later i s t (f ∷ files) snapshots = elim (Bool-cases (is_index f.filename)) [
    | inl e ↦
        let moved : size (job_of (suc i) s f) ≡ size (job_of i s f) =
          placeless (suc i) s f ∙ sym (placeless i s f) in
        rw e (
          ap (λ z. add_jobs size (file_jobs (suc i) s files) (t ∷ add_size i z snapshots)) moved
          ∙ file_jobs-later i s t files (add_size i (size (job_of i s f)) snapshots))
    | inr e ↦ rw e (file_jobs-later i s t files snapshots)
  ]

  jobs_of-later :
      (i : ℕ) (later : List Snapshot) (t : Snapshot) (snapshots : List Snapshot)
      → add_jobs size (jobs_of (suc i) later) (t ∷ snapshots)
        ≡ t ∷ add_jobs size (jobs_of i later) snapshots
  unfolding jobs_of add_jobs
  jobs_of-later i [] t snapshots = refl
  jobs_of-later i (s ∷ later) t snapshots =
      add_jobs-append (file_jobs (suc i) s s.files) (jobs_of (suc (suc i)) later) (t ∷ snapshots)
      ∙ ap (add_jobs size (jobs_of (suc (suc i)) later)) (file_jobs-later i s t s.files snapshots)
      ∙ jobs_of-later (suc i) later t (add_jobs size (file_jobs i s s.files) snapshots)
      ∙ ap (◌∷◌ t) (sym (add_jobs-append (file_jobs i s s.files) (jobs_of (suc i) later) snapshots))

  -- Each snapshot gets the sizes of its own archives.
  add_jobs-jobs_of :
      (snapshots : List Snapshot)
      → add_jobs size (jobs_of 0 snapshots) snapshots ≡ map (with_sizes size) snapshots
  unfolding jobs_of add_jobs with_sizes
  add_jobs-jobs_of [] = refl
  add_jobs-jobs_of (s ∷ snapshots) =
      add_jobs-append (file_jobs 0 s s.files) (jobs_of 1 snapshots) (s ∷ snapshots)
      ∙ ap (add_jobs size (jobs_of 1 snapshots)) (add_jobs-file_jobs s s s.files snapshots)
      ∙ jobs_of-later 0 snapshots (with_sizes size s) snapshots
      ∙ ap (◌∷◌ (with_sizes size s)) (add_jobs-jobs_of snapshots)

module _ (lookups : Lookups) where
  size_in-placeless :
      (cache : Map (Entry ℕ)) (i : ℕ) (s : Snapshot) (f : SnapshotFile)
      → size_in lookups cache (job_of i s f) ≡ size_in lookups cache (job_of 0 s f)
  unfolding size_in look_up size_key job_of
  size_in-placeless cache i s f = refl

  fill_jobs-add_jobs :
      (order : List (ℕ × Job)) (cache : Map (Entry ℕ)) (snapshots : List Snapshot)
      (jobs : List (ℕ × Job))
      → All (λ p. Elem p order) jobs
      → Distinct (map place order)
      → Distinct (map place_key order)
      → (fill_jobs lookups order cache snapshots jobs).1
        ≡ add_sizes (λ p. size_in lookups cache p.1) jobs snapshots
  unfolding fill_jobs add_sizes
  fill_jobs-add_jobs order cache snapshots [] held places place_keys = refl
  fill_jobs-add_jobs order cache snapshots (job ∷ jobs) held places place_keys =
      add_sizes-agree _ _ (job ∷ jobs) snapshots (
        All-map _ _ (work_all-Elem lookups cache (λ i. 0) order places place_keys) (job ∷ jobs)
          held)

-- With an order in which the workers take each archive of the listing once, and no archive listed
-- twice, the size of each snapshot grows by what the lookups of its own archives find in the cache
-- as it was before, and nothing else of the listing changes.
pub fill_archive_sizes-with_sizes :
    (lookups : Lookups) (order : List (ℕ × Job)) (cache : Map (Entry ℕ)) (snapshots : List Snapshot)
    → IsOrder (indexed 0 (jobs_of 0 snapshots)) order
    → (fill_archive_sizes lookups order cache snapshots).1
      ≡ map (with_sizes (size_in lookups cache)) snapshots
unfolding fill_archive_sizes
fill_archive_sizes-with_sizes lookups order cache snapshots (held, places, place_keys) =
    fill_jobs-add_jobs lookups order cache snapshots (indexed 0 (jobs_of 0 snapshots)) held places
      place_keys
    ∙ add_sizes-indexed (size_in lookups cache) 0 (jobs_of 0 snapshots) snapshots
    ∙ add_jobs-jobs_of (size_in lookups cache) (size_in-placeless lookups cache) snapshots
