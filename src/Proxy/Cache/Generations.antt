-- ===== src/Proxy/Cache/Generations.antt =====
-- Background refreshes and the mutations of an entry (cmd/pmoxs3backuproxy/cache.go).
use pmoxs3backuproxy.Prelude.{ℕ, ◌+◌, ◌<◌, false, some, List, [], ◌∷◌, ◌≡◌, arith, Result}
use pmoxs3backuproxy.Prelude.Int.{ℤ}
use pmoxs3backuproxy.Prelude.Words.{two64}
use pmoxs3backuproxy.Proxy.Cache.{Entry, get, get_async, end_refresh, store, invalidate, expire}

-- What can happen to an entry while a refresh is in flight.
pub data Event (T : Type 0) : Type 0 where
  got : ℤ → Result ℕ T → ℤ → Event T
  got_async : ℤ → Event T
  stored : T → ℤ → Event T
  invalidated expired : Event T

module _ {T : Type 0} (ttl : ℤ) where
  unfoldable pub happen : Event T → Entry T → Entry T
  happen (got now fetch after) e = (get ttl now fetch after e).0
  happen (got_async now) e = (get_async ttl now e).0
  happen (stored v now) e = store v now e
  happen invalidated e = invalidate e
  happen expired e = expire e

  unfoldable pub happen_all : List (Event T) → Entry T → Entry T
  happen_all [] e = e
  happen_all (x ∷ xs) e = happen_all xs (happen x e)

module _ {T : Type 0} where
  -- The number of events that record a mutation.
  is_mutation : Event T → ℕ
  is_mutation (got now fetch after) = 0
  is_mutation (got_async now) = 0
  is_mutation _ = 1

  unfoldable pub mutations : List (Event T) → ℕ
  unfolding is_mutation
  mutations [] = 0
  mutations (x ∷ xs) = is_mutation x + mutations xs

module _ {T : Type 0} (ttl : ℤ) where
  happen-generation :
      (x : Event T) (e : Entry T)
      → e.generation + is_mutation x < two64
      → (happen ttl x e).generation ≡ e.generation + is_mutation x
  unfolding happen is_mutation get get_async store invalidate expire
  happen-generation (got now fetch after) e h = ground arith
  happen-generation (got_async now) e h = ground arith
  happen-generation (stored v now) e h = omega arith
  happen-generation invalidated e h = omega arith
  happen-generation expired e h = omega arith

  happen_all-generation :
      (xs : List (Event T)) (e : Entry T)
      → e.generation + mutations xs < two64
      → (happen_all ttl xs e).generation ≡ e.generation + mutations xs
  unfolding happen_all mutations
  happen_all-generation [] e h = omega arith
  happen_all-generation (x ∷ xs) e h =
      let step : (happen ttl x e).generation ≡ e.generation + is_mutation x =
        happen-generation x e (omega arith) in
      omega (arith, step, happen_all-generation xs (happen ttl x e) (omega arith))

  get_async-generation : (e : Entry T) (now : ℤ) → (get_async ttl now e).0.generation ≡ e.generation
  unfolding get_async
  get_async-generation e now = ground arith

  get_async-remembers :
      (e : Entry T) (now : ℤ) (generation : ℕ)
      → (get_async ttl now e).2 ≡ some generation
      → generation ≡ e.generation
  unfolding get_async
  get_async-remembers e now generation s = ground arith

  -- A refresh that was started on `e` and ends after events with at least one mutation among them, and
  -- fewer than the counter holds, leaves value, age and validity as the events left them, whatever
  -- it fetched, and clears the mark of a running refresh.
  pub end_refresh-outdated :
      (e : Entry T) (xs : List (Event T)) (started ended : ℤ) (generation : ℕ)
      (fetched : Result ℕ T)
      → (get_async ttl started e).2 ≡ some generation
      → 0 < mutations xs
      → e.generation + mutations xs < two64
      → let now = happen_all ttl xs (get_async ttl started e).0 in
        let e' = end_refresh generation fetched ended now in
        (e'.value ≡ now.value)
        × (e'.fetched ≡ now.fetched)
        × (e'.valid ≡ now.valid)
        × (e'.refreshing ≡ false)
  unfolding get_async end_refresh
  end_refresh-outdated e xs started ended generation fetched s m b =
      let g0 : (get_async ttl started e).0.generation ≡ e.generation =
        get_async-generation e started in
      let g : generation ≡ e.generation = get_async-remembers e started generation s in
      let last : (happen_all ttl xs (get_async ttl started e).0).generation
          ≡ e.generation + mutations xs =
        omega
          (arith, g0, happen_all-generation xs (get_async ttl started e).0 (omega (arith, g0))) in
      ground (arith, g, last)
