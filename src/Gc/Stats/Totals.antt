-- ===== src/Gc/Stats/Totals.antt =====
-- The sums of the usage report.
use pmoxs3backuproxy.Prelude.{
  ℕ, ◌+◌, ◌*◌, ◌≤◌, ◌<◌, Bool, true, false, List, [], ◌∷◌, ◌≡◌, refl, ◌∙◌, ap, arith, length, ◌==◌,
  any, Bool-cases, inl, inr,
}
use pmoxs3backuproxy.Prelude.Int.{ℤ}
use pmoxs3backuproxy.Prelude.Maps.{Map, lookup, value_or}
use pmoxs3backuproxy.Prelude.Strings.{Bytes, bytes_eq}
use pmoxs3backuproxy.Prelude.Words.{two64}
use pmoxs3backuproxy.Gc.Stats.{
  SnapshotUsage, no_usage, modify, add_logical, add_archives, owners_of, add_chunk, add_owners,
  Counting, count_chunk, count_chunks, place_usage, sort_usages, compute_usage_stats,
  snapshot_of_index,
}

-- The sum of a figure over the snapshots.
unfoldable pub total : (SnapshotUsage → ℕ) → List SnapshotUsage → ℕ
total f [] = 0
total f (u ∷ us) = f u + total f us

abbrev pub exclusive : SnapshotUsage → ℕ
exclusive u = u.exclusive_bytes

abbrev pub referenced : SnapshotUsage → ℕ
referenced u = u.referenced_bytes

total-place_usage :
    (f : SnapshotUsage → ℕ) (u : SnapshotUsage) (us : List SnapshotUsage)
    → total f (place_usage u us) ≡ f u + total f us
unfolding total place_usage
total-place_usage f u [] = refl
total-place_usage f u (v ∷ vs) = ground (arith, total-place_usage f u vs)

total-sort_usages :
    (f : SnapshotUsage → ℕ) (us : List SnapshotUsage) → total f (sort_usages us) ≡ total f us
unfolding total sort_usages
total-sort_usages f [] = refl
total-sort_usages f (u ∷ us) =
    total-place_usage f u (sort_usages us) ∙ ap (λ t. f u + t) (total-sort_usages f us)

-- A change that adds `a` to a figure adds it to the sum, if the sum stays below 2 ^ 64.
total-modify :
    (f : SnapshotUsage → ℕ) (g : SnapshotUsage → SnapshotUsage) (a : ℕ)
    → ((u : SnapshotUsage) → f u + a < two64 → f (g u) ≡ f u + a)
    → ((name : Bytes) → f (no_usage name) ≡ 0)
    → (us : List SnapshotUsage) (name : Bytes) → total f us + a < two64
    → total f (modify us name g) ≡ total f us + a
unfolding total modify
total-modify f g a adds zero [] name h = ground (arith, adds (no_usage name), zero name)
total-modify f g a adds zero (u ∷ us) name h =
    ground (arith, adds u, total-modify f g a adds zero us name)

total-add_owners :
    (f : SnapshotUsage → ℕ) (size a : ℕ) (alone : Bool)
    → ((u : SnapshotUsage) → f u + a < two64 → f (add_chunk size alone u) ≡ f u + a)
    → ((name : Bytes) → f (no_usage name) ≡ 0)
    → (owners : List Bytes) (us : List SnapshotUsage) → total f us + length owners * a < two64
    → total f (add_owners size alone owners us) ≡ total f us + length owners * a
unfolding add_owners
total-add_owners f size a alone adds zero [] us h = omega arith
total-add_owners f size a alone adds zero (o ∷ owners) us h =
    let now : total f us + a < two64 = grind arith in
    let step = total-modify f (add_chunk size alone) a adds zero us o now in
    let rest =
      total-add_owners f size a alone adds zero owners (modify us o (add_chunk size alone))
        (grind (arith, step)) in
    grind (arith, step, rest)

total-add_archives :
    (f : SnapshotUsage → ℕ)
    → ((size : ℕ) (u : SnapshotUsage) → f (add_logical size u) ≡ f u)
    → ((name : Bytes) → f (no_usage name) ≡ 0)
    → (sizes : Map ℕ) (us : List SnapshotUsage) → total f us ≡ 0
    → total f (add_archives sizes us) ≡ 0
unfolding add_archives total
total-add_archives f same zero [] us h = h
total-add_archives f same zero ((key, size) ∷ sizes) us h =
    let name = snapshot_of_index key in
    let step : total f (modify us name (add_logical size)) ≡ total f us + 0 =
      total-modify f (add_logical size) 0 (λ u _. omega (arith, same size u)) zero us name
        (omega arith) in
    total-add_archives f same zero sizes (modify us name (add_logical size)) (omega arith)

length_of_any : (p : Bytes → Bool) (xs : List Bytes) → any p xs ≡ true → 0 < length xs
unfolding any
length_of_any p [] h = cc
length_of_any p (x ∷ xs) h = omega arith

length-owners_of : (key : Bytes) (keys : List Bytes) → 0 < length (owners_of (key ∷ keys))
unfolding owners_of
length-owners_of key keys =
    ground (arith, length_of_any (bytes_eq (snapshot_of_index key)) (owners_of keys))

-- The bytes of all chunks, and of all chunks once for each of their owners.
unfoldable pub chunk_total : Map ℕ → Map (List Bytes) → ℕ
chunk_total sizes [] = 0
chunk_total sizes ((digest, indexes) ∷ known) =
    value_or (lookup sizes digest) 0 + chunk_total sizes known

unfoldable pub reference_total : Map ℕ → Map (List Bytes) → ℕ
reference_total sizes [] = 0
reference_total sizes ((digest, indexes) ∷ known) =
    length (owners_of indexes) * value_or (lookup sizes digest) 0 + reference_total sizes known

-- Every chunk has an index that refers to it.
abbrev pub IsReferenced : Map (List Bytes) → Type 0
IsReferenced [] = Unit
IsReferenced ((digest, []) ∷ known) = ⊥
IsReferenced ((digest, key ∷ keys) ∷ known) = IsReferenced known

-- A chunk adds its size to the exclusive bytes if it has one owner, and nothing otherwise.
count_chunk-exclusive :
    (c : Counting) (size : ℕ) (owners : List Bytes)
    → total exclusive c.per_snapshot + size < two64
    → total exclusive (count_chunk c size owners).per_snapshot
      ≤ total exclusive c.per_snapshot + size
unfolding count_chunk
count_chunk-exclusive c size owners h = elim (Bool-cases (length owners == 1)) [
  | inl one ↦
      let e : length owners ≡ 1 = ground arith in
      let step : total exclusive (add_owners size true owners c.per_snapshot)
          ≡ total exclusive c.per_snapshot + length owners * size =
        total-add_owners exclusive size size true (λ u k. omega arith) (λ n. refl) owners
          c.per_snapshot (rw e (omega arith)) in
      rw (one, step, e) (omega arith)
  | inr many ↦
      let step : total exclusive (add_owners size false owners c.per_snapshot)
          ≡ total exclusive c.per_snapshot + length owners * 0 =
        total-add_owners exclusive size 0 false (λ u k. omega arith) (λ n. refl) owners
          c.per_snapshot (omega arith) in
      rw (many, step) (omega arith)
]

count_chunk-referenced :
    (c : Counting) (size : ℕ) (owners : List Bytes)
    → total referenced c.per_snapshot + length owners * size < two64
    → total referenced (count_chunk c size owners).per_snapshot
      ≡ total referenced c.per_snapshot + length owners * size
unfolding count_chunk
count_chunk-referenced c size owners h =
    total-add_owners referenced size size (length owners == 1) (λ u k. omega arith) (λ n. refl)
      owners c.per_snapshot h

chunk_bytes-count_chunk :
    (c : Counting) (size : ℕ) (owners : List Bytes)
    → c.chunk_bytes + size < two64
    → (count_chunk c size owners).chunk_bytes ≡ c.chunk_bytes + size
unfolding count_chunk
chunk_bytes-count_chunk c size owners h = omega arith

-- What holds of the counts at every round.
record Counted (c : Counting) : Type 0 where
  least : total exclusive c.per_snapshot ≤ c.chunk_bytes
  most : c.chunk_bytes ≤ total referenced c.per_snapshot

count_chunks-Counted :
    (sizes : Map ℕ) (known : Map (List Bytes)) (c : Counting)
    → IsReferenced known
    → total referenced c.per_snapshot + reference_total sizes known < two64
    → Counted c
    → Counted (count_chunks sizes known c)
      × ((count_chunks sizes known c).chunk_bytes ≡ c.chunk_bytes + chunk_total sizes known)
      × (total referenced (count_chunks sizes known c).per_snapshot
          ≡ total referenced c.per_snapshot + reference_total sizes known)
unfolding count_chunks chunk_total reference_total
count_chunks-Counted sizes [] c r h k = (k, omega arith, omega arith)
count_chunks-Counted sizes ((digest, []) ∷ known) c r h k = absurd r
count_chunks-Counted sizes ((digest, key ∷ keys) ∷ known) c r h k =
    let size : ℕ = value_or (lookup sizes digest) 0 in
    let owners = owners_of (key ∷ keys) in
    let c' = count_chunk c size owners in
    let some_owner : 0 < length owners = length-owners_of key keys in
    let covered : size ≤ length owners * size = grind arith in
    let x : total exclusive c'.per_snapshot ≤ total exclusive c.per_snapshot + size =
      count_chunk-exclusive c size owners (omega arith) in
    let y : total referenced c'.per_snapshot
        ≡ total referenced c.per_snapshot + length owners * size =
      count_chunk-referenced c size owners (omega arith) in
    let z : c'.chunk_bytes ≡ c.chunk_bytes + size =
      chunk_bytes-count_chunk c size owners (omega arith) in
    let (counted, bytes, refs) =
      count_chunks-Counted sizes known c' r (omega arith)
        (record { least = omega arith; most = omega arith }) in
    (counted, omega arith, omega arith)

-- If every chunk has a reference and the references do not pass 2 ^ 64 bytes, the chunk bytes are the
-- sum over the chunks, the referenced bytes of the snapshots add up to the sum over the chunks and
-- their owners, and the exclusive bytes are at most the former, those at most the latter.
pub compute_usage_stats_totals :
    (known : Map (List Bytes)) (sizes archives : Map ℕ) (now : ℤ)
    → IsReferenced known
    → reference_total sizes known < two64
    → let stats = compute_usage_stats known sizes archives now in
      (stats.chunk_bytes ≡ chunk_total sizes known)
      × (total referenced stats.snapshots ≡ reference_total sizes known)
      × (total exclusive stats.snapshots ≤ stats.chunk_bytes)
      × (stats.chunk_bytes ≤ total referenced stats.snapshots)
unfolding compute_usage_stats total
compute_usage_stats_totals known sizes archives now r h =
    let start : Counting = record {
      chunk_bytes = 0;
      chunks = 0;
      per_snapshot = add_archives archives [];
    } in
    let e : total exclusive start.per_snapshot ≡ 0 =
      total-add_archives exclusive (λ s u. refl) (λ n. refl) archives [] refl in
    let f : total referenced start.per_snapshot ≡ 0 =
      total-add_archives referenced (λ s u. refl) (λ n. refl) archives [] refl in
    let (counted, bytes, refs) =
      count_chunks-Counted sizes known start r (omega arith)
        (record { least = omega arith; most = omega arith }) in
    let us = (count_chunks sizes known start).per_snapshot in
    let sorted_e = total-sort_usages exclusive us in
    let sorted_r = total-sort_usages referenced us in
    (omega arith, omega arith, omega arith, omega arith)
