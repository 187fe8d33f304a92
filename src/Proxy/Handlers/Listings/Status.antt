-- ===== src/Proxy/Handlers/Listings/Status.antt =====
-- What the status of a datastore tells (cmd/pmoxs3backuproxy/main.go).
use pmoxs3backuproxy.Prelude.{
  ℕ, ◌-◌, ◌^◌, ◌≤◌, ◌<◌, Option, some, ◌≡◌, refl, arith, inl, inr, Bool-cases, ltb, lt→ltb,
}
use pmoxs3backuproxy.Prelude.Int.{pos}
use pmoxs3backuproxy.Prelude.Words.{add64}
use pmoxs3backuproxy.Proxy.Handlers.Listings.{datastore_status, available, int64_of}
use pmoxs3backuproxy.Proxy.Sizes.{DataStoreUsage}

int64_of-small : (n : ℕ) → n < 2 ^ 63 → int64_of n ≡ pos n
unfolding int64_of
int64_of-small n h = rw (lt→ltb n (2 ^ 63) h) refl

available-within :
    (capacity bytes : ℕ)
    → 0 < capacity
    → bytes ≤ capacity
    → available capacity bytes ≡ capacity - bytes
unfolding available
available-within capacity bytes h within = elim (Bool-cases (ltb bytes capacity)) [
  | inl t ↦ rw t refl
  | inr f ↦ rw (f, lt→ltb 0 capacity h) (ground (arith, f))
]

-- The status of a datastore within its capacity, which is below 2 ^ 63: what is available and what
-- is used make up the capacity.
pub datastore_status-capacity :
    (capacity : ℕ) (usage : DataStoreUsage) (cached : Option ℕ)
    → 0 < capacity
    → capacity < 2 ^ 63
    → usage.bytes ≤ capacity
    → let status = datastore_status capacity (some usage) cached in
      (status.used ≡ pos usage.bytes)
      × (status.avail ≡ pos (capacity - usage.bytes))
      × (status.total ≡ pos capacity)
unfolding datastore_status
datastore_status-capacity capacity usage cached h small within =
    let avail = available-within capacity usage.bytes h within in
    let sum : add64 usage.bytes (capacity - usage.bytes) ≡ capacity = omega arith in
    (
      int64_of-small usage.bytes (omega arith),
      rw avail (int64_of-small (capacity - usage.bytes) (omega arith)),
      rw (avail, sum) (int64_of-small capacity small),
    )
