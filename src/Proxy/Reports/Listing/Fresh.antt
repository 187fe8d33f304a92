-- ===== src/Proxy/Reports/Listing/Fresh.antt =====
-- A listing after an invalidation (listSnapshotsCached in cmd/pmoxs3backuproxy/main.go).
use pmoxs3backuproxy.Prelude.{
  ℕ, false, List, [], ◌≡◌, ◌∙◌, refl, ap, arith, inl, inr, Bool-cases, Result, ok, err,
}
use pmoxs3backuproxy.Prelude.Int.{ℤ}
use pmoxs3backuproxy.Prelude.Strings.{Bytes, bytes_eq}
use pmoxs3backuproxy.Objects.{Error}
use pmoxs3backuproxy.Snapshots.{Snapshot}
use pmoxs3backuproxy.Proxy.Cache.{Entry, entry, get, is_fresh, invalidate, update}
use pmoxs3backuproxy.Proxy.Cache.Entries.{entry-update}
use pmoxs3backuproxy.Proxy.Invalidation.{
  Caches, invalidate_datastore_caches_local, publish_datastore_cache_invalidation,
}
use pmoxs3backuproxy.Proxy.Reports.Listing.{
  Reporting, Times, answered, read_usage_stats, fill_encryption, fill_sizes, apply_sizes,
  apply_optional_snapshot_reports, list_snapshots, with_reports, fetch_listing, fetched_listing,
  list_snapshots_cached,
}

publish-snapshot_lists :
    (datastore : Bytes) (published : Result ℕ Bytes) (c : Caches)
    → (publish_datastore_cache_invalidation datastore published c).snapshot_lists
      ≡ update c.snapshot_lists datastore invalidate
unfolding publish_datastore_cache_invalidation invalidate_datastore_caches_local
publish-snapshot_lists datastore (err e) c = refl
publish-snapshot_lists datastore (ok token) c = elim (Bool-cases (bytes_eq token [])) [
  | inl t ↦ rw t refl
  | inr f ↦ rw f refl
]

publish-invalid :
    (datastore : Bytes) (published : Result ℕ Bytes) (c : Caches)
    → (entry
        (publish_datastore_cache_invalidation datastore published c).snapshot_lists
        datastore).valid
      ≡ false
unfolding invalidate
publish-invalid datastore published c = rw (publish-snapshot_lists datastore published c) (
    ap (λ (e : Entry (List Snapshot)). e.valid)
      (entry-update c.snapshot_lists datastore invalidate))

-- An entry that is not valid answers with what is fetched.
get-invalid :
    {T : Type 0} (zero_value : T) (ttl now after : ℤ) (fetched : Result ℕ T) (e : Entry T)
    → e.valid ≡ false
    → answered zero_value (get ttl now fetched after e).1 ≡ fetched
unfolding get is_fresh answered
get-invalid zero_value ttl now after (ok v) e h = rw h refl
get-invalid zero_value ttl now after (err x) e h = rw h refl

module _ {State : Type 0} (reporting : Reporting State) (s : State) (datastore : Bytes)
    (times : Times) where
  fill_encryption-snapshot_lists :
      (c : Caches) (snapshots : List Snapshot)
      → (fill_encryption reporting s datastore times (c, snapshots)).0.snapshot_lists
        ≡ c.snapshot_lists
  unfolding fill_encryption
  fill_encryption-snapshot_lists c snapshots = ground arith

  fill_sizes-snapshot_lists :
      (c : Caches) (snapshots : List Snapshot)
      → (fill_sizes reporting s datastore times (c, snapshots)).0.snapshot_lists ≡ c.snapshot_lists
  unfolding fill_sizes
  fill_sizes-snapshot_lists c snapshots = ground arith

  apply_sizes-snapshot_lists :
      (c : Caches) (snapshots : List Snapshot)
      → (apply_sizes reporting s datastore times (c, snapshots)).0.snapshot_lists ≡ c.snapshot_lists
  unfolding apply_sizes read_usage_stats
  apply_sizes-snapshot_lists c snapshots = ground arith

  with_reports-snapshot_lists :
      (c : Caches) (listing : Result Error (List Snapshot))
      → (with_reports reporting s datastore times c listing).0.snapshot_lists ≡ c.snapshot_lists
  unfolding with_reports apply_optional_snapshot_reports
  with_reports-snapshot_lists c (err e) = refl
  with_reports-snapshot_lists c (ok snapshots) =
      let (c1, s1) = fill_encryption reporting s datastore times (c, snapshots) in
      let (c2, s2) = fill_sizes reporting s datastore times (c1, s1) in
      apply_sizes-snapshot_lists c2 s2
      ∙ fill_sizes-snapshot_lists c1 s1
      ∙ fill_encryption-snapshot_lists c snapshots

  -- A listing without a valid entry answers with what fetching it returns.
  list_snapshots_cached-invalid :
      (c : Caches)
      → (entry c.snapshot_lists datastore).valid ≡ false
      → (list_snapshots_cached reporting s datastore times c).1
        ≡ (fetch_listing reporting s datastore times c).1
  unfolding list_snapshots_cached fetched_listing fetch_listing is_fresh
  list_snapshots_cached-invalid c h =
      let kept = with_reports-snapshot_lists c (list_snapshots reporting s datastore times) in
      let e : (entry (fetch_listing reporting s datastore times c).0.snapshot_lists datastore).valid
          ≡ false =
        rw kept h in
      rw h (
        get-invalid [] reporting.snapshots_ttl times.begins times.ends
          (fetch_listing reporting s datastore times c).1
          (entry (fetch_listing reporting s datastore times c).0.snapshot_lists datastore) e)

  -- After an invalidation was published, the next listing of the datastore is the one that the store
  -- gives then.
  pub list_snapshots_cached-publish :
      (published : Result ℕ Bytes) (c : Caches)
      → let c' = publish_datastore_cache_invalidation datastore published c in
        (list_snapshots_cached reporting s datastore times c').1
        ≡ (fetch_listing reporting s datastore times c').1
  list_snapshots_cached-publish published c =
      list_snapshots_cached-invalid (publish_datastore_cache_invalidation datastore published c)
        (publish-invalid datastore published c)
