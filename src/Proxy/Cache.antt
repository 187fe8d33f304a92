-- ===== src/Proxy/Cache.antt =====
-- The cache of upstream results (cmd/pmoxs3backuproxy/cache.go). The mutex of an entry makes each
-- method one step on it; GetAsync is two steps, the call and the end of its background refresh.
pub mod Entries
pub mod Generations
use pmoxs3backuproxy.Prelude.{
  ℕ, Bool, true, false, ◌&&◌, not, Option, none, some, List, [], ◌∷◌, ◌==◌, Result, ok, err,
  if◌then◌else◌,
}
use pmoxs3backuproxy.Prelude.Int.{ℤ, ltb_ℤ, ◌-ℤ◌}
use pmoxs3backuproxy.Prelude.Maps.{Map, lookup, insert, value_or}
use pmoxs3backuproxy.Prelude.Strings.{Bytes, has_prefix}
use pmoxs3backuproxy.Prelude.Words.{add64}

-- `value` is `none` for the zero value before the first store, `fetched` for the zero time.
pub record Entry (T : Type 0) : Type 0 where
  pub value : Option T
  pub fetched : Option ℤ
  pub valid : Bool
  pub refreshing : Bool
  pub generation : ℕ

-- `time.Since(e.fetched) < c.ttl`; no duration is shorter than the time since the zero time.
unfoldable pub younger_than : ℤ → ℤ → Option ℤ → Bool
younger_than ttl now none = false
younger_than ttl now (some t) = ltb_ℤ (now -ℤ t) ttl

-- What Get returns: a cached value, a new one, or the error of a fetch with nothing cached.
pub data Answer (T : Type 0) : Type 0 where
  cached : Option T → Answer T
  fresh : T → Answer T
  failed : ℕ → Answer T

module _ {T : Type 0} where
  abbrev pub new_entry : Entry T
  new_entry = record {
    value = none;
    fetched = none;
    valid = false;
    refreshing = false;
    generation = 0;
  }

  -- `e.valid && time.Since(e.fetched) < c.ttl`
  unfoldable pub is_fresh : ℤ → ℤ → Entry T → Bool
  unfolding younger_than
  is_fresh ttl now e = e.valid && younger_than ttl now e.fetched

  -- `e.value = v; e.fetched = time.Now(); e.valid = true`
  abbrev filled : T → ℤ → Entry T → Entry T
  filled v now e = record e { value = some v; fetched = some now; valid = true }

  -- Get on an entry at the time `now`; `fetch` is what the call returns at the time `after`, if it
  -- is made.
  unfoldable pub get : ℤ → ℤ → Result ℕ T → ℤ → Entry T → Entry T × Answer T
  get ttl now fetch after e = if is_fresh ttl now e then (e, cached e.value) else elim fetch [
    | ok v ↦ (filled v after e, fresh v)
    | err x ↦ (e, if e.valid then cached e.value else failed x)
  ]

  -- The part of GetAsync up to its return: the entry, the value with its validity, and the
  -- generation that the background refresh remembers, if one is started.
  unfoldable pub get_async : ℤ → ℤ → Entry T → Entry T × (Option T × Bool) × Option ℕ
  get_async ttl now e = if is_fresh ttl now e then (e, (e.value, true), none) else (
    record e { refreshing = true },
    (e.value, e.valid),
    if e.refreshing then none else some e.generation,
  )

  -- The end of the background refresh that remembers `generation`.
  unfoldable pub end_refresh : ℕ → Result ℕ T → ℤ → Entry T → Entry T
  end_refresh generation fetched now e =
      let e' : Entry T = record e { refreshing = false } in
      if not (e.generation == generation)
      then e'
      else elim fetched [ ok v ↦ filled v now e' | err x ↦ e' ]

  -- Peek
  unfoldable pub peek : Entry T → Option T × Bool
  peek e = (e.value, e.valid)

  -- Store
  unfoldable pub store : T → ℤ → Entry T → Entry T
  store v now e = record (filled v now e) { generation = add64 e.generation 1 }

  -- Invalidate
  unfoldable pub invalidate : Entry T → Entry T
  invalidate e = record e { valid = false; generation = add64 e.generation 1 }

  -- Expire
  unfoldable pub expire : Entry T → Entry T
  expire e = record e {
    fetched = if e.valid then none else e.fetched;
    generation = add64 e.generation 1;
  }

  -- (*ttlCache).entry
  unfoldable pub entry : Map (Entry T) → Bytes → Entry T
  entry c key = value_or (lookup c key) new_entry

  -- A method on the entry of a key.
  unfoldable pub update : Map (Entry T) → Bytes → (Entry T → Entry T) → Map (Entry T)
  update c key f = insert c key (f (entry c key))

  -- InvalidatePrefix
  unfoldable pub invalidate_prefix : Map (Entry T) → Bytes → Map (Entry T)
  invalidate_prefix [] prefix = []
  invalidate_prefix ((key, e) ∷ c) prefix =
      (key, if has_prefix key prefix then invalidate e else e) ∷ invalidate_prefix c prefix
