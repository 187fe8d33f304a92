-- ===== src/Proxy/Sizes/Walk.antt =====
-- The figures of a walk over a bucket.
use pmoxs3backuproxy.Prelude.{
  ℕ, ◌+◌, ◌≤◌, ◌<◌, List, [], ◌∷◌, ◌≡◌, arith, length, ok, ok-injective, >>=-eq-ok, if◌then◌else◌,
}
use pmoxs3backuproxy.Prelude.Words.{two64, to_uint64}
use pmoxs3backuproxy.Objects.{ObjectInfo}
use pmoxs3backuproxy.Proxy.Sizes.{
  DataStoreUsage, Walking, nothing_walked, is_chunk_key, walk_object, walk_objects,
  walk_datastore_usage,
}

-- The sizes of the objects, and those of the chunks among them.
unfoldable pub size_total : List ObjectInfo → ℕ
size_total [] = 0
size_total (o ∷ objects) = to_uint64 o.size + size_total objects

unfoldable pub chunk_size_total : List ObjectInfo → ℕ
unfolding is_chunk_key
chunk_size_total [] = 0
chunk_size_total (o ∷ objects) =
    (if is_chunk_key o.key then to_uint64 o.size else 0) + chunk_size_total objects

chunk_size_total_le : (objects : List ObjectInfo) → chunk_size_total objects ≤ size_total objects
unfolding chunk_size_total size_total
chunk_size_total_le [] = omega arith
chunk_size_total_le (o ∷ objects) = ground (arith, chunk_size_total_le objects)

-- What a walk adds to the figures that it starts from.
IsWalked : Walking → List ObjectInfo → Walking → Type 0
IsWalked w objects w' =
    (w'.usage.bytes ≡ w.usage.bytes + size_total objects)
    × (w'.usage.chunk_bytes ≡ w.usage.chunk_bytes + chunk_size_total objects)
    × (w'.usage.objects ≡ w.usage.objects + length objects)

walk_objects-IsWalked :
    (objects : List ObjectInfo) (w w' : Walking)
    → walk_objects w objects ≡ ok w'
    → w.usage.bytes + size_total objects < two64
    → w.usage.chunk_bytes + chunk_size_total objects < two64
    → w.usage.objects + length objects < two64
    → IsWalked w objects w'
unfolding walk_objects walk_object size_total chunk_size_total IsWalked
walk_objects-IsWalked [] w w' e a b c =
    rw (← ok-injective e) (omega arith, omega arith, omega arith)
walk_objects-IsWalked (o ∷ objects) w w' e a b c =
    ground (arith, walk_objects-IsWalked objects (walk_object w o) w')

-- A walk that meets no error, over objects whose number and sizes do not pass 2 ^ 64, reports their number,
-- the sum of their sizes and that of the chunks, which is at most the former.
pub walk_datastore_usage-exact :
    (listing : List ObjectInfo) (usage : DataStoreUsage)
    → walk_datastore_usage listing ≡ ok usage
    → size_total listing < two64
    → length listing < two64
    → (usage.bytes ≡ size_total listing)
      × (usage.chunk_bytes ≡ chunk_size_total listing)
      × (usage.objects ≡ length listing)
      × (usage.chunk_bytes ≤ usage.bytes)
unfolding walk_datastore_usage IsWalked
walk_datastore_usage-exact listing usage e a b =
    let (w, walked, done) = >>=-eq-ok (walk_objects nothing_walked listing) _ e in
    let least = chunk_size_total_le listing in
    let (x, y, z) =
      walk_objects-IsWalked listing nothing_walked w walked (omega arith) (omega arith)
        (omega arith) in
    rw (← ok-injective done) (omega arith, omega arith, omega arith, omega arith)
