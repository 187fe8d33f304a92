-- ===== src/Gc/Plan/Ends.antt =====
-- The loops over the snapshots and over the copied indexes, against their specification.
use mathlib.Core.List.{append_assoc, append-nil}
use pmoxs3backuproxy.Prelude.{
  ℕ, Bool, true, ◌||◌, List, [], ◌∷◌, ◌++◌, ◌≡◌, ap, ◌∙◌, arith, Result, ok, >>=-eq-ok, for_each,
  for_each-cons, for_each-nil, keep_if, keep_if-cons, any,
}
use pmoxs3backuproxy.Prelude.Int.{ℤ}
use pmoxs3backuproxy.Prelude.Maps.{is_set, lookup-insert}
use pmoxs3backuproxy.Prelude.Strings.{Bytes, bytes_eq_iff}
use pmoxs3backuproxy.Gc.Expiry.{snapshot_expired}
use pmoxs3backuproxy.Gc.Plan.{GcPlan, Marking, mark_snapshot, mark_indexed}
use pmoxs3backuproxy.Gc.Plan.Spec.{condemns, is_stale_copy}
use pmoxs3backuproxy.Objects.{Error, ObjectInfo}
use pmoxs3backuproxy.Snapshots.{Snapshot, s3_prefix}

-- The loop over the snapshots changes two things.
pub record Expired (now : ℤ) (days : ℕ) (m : Marking) (snapshots : List Snapshot) (t : Marking)
    : Type 0 where
  pub plan : t.plan ≡ record m.plan { expired_snapshots = t.plan.expired_snapshots }
  pub hashes : t.known_hashes ≡ m.known_hashes
  pub prefixes :
      (prefix : Bytes)
      → is_set t.expired_prefixes prefix
        ≡ (is_set m.expired_prefixes prefix || any (condemns now days prefix) snapshots)

mark_snapshot-Expired :
    (now : ℤ) (days : ℕ) (m : Marking) (s : Snapshot) (t : Marking) (expired : Bool)
    → snapshot_expired s now days ≡ ok expired
    → mark_snapshot now days m s ≡ ok t
    → Expired now days m (s ∷ []) t
unfolding mark_snapshot any condemns
mark_snapshot-Expired now days m s t expired e h = record {
  plan = ground arith;
  hashes = ground arith;
  prefixes = λ prefix. ground (
    arith,
    lookup-insert m.expired_prefixes (s3_prefix s) prefix true,
    bytes_eq_iff (s3_prefix s) prefix,
  );
}

pub mark_snapshots-Expired :
    (now : ℤ) (days : ℕ) (m : Marking) (snapshots : List Snapshot) (t : Marking)
    → for_each (mark_snapshot now days) m snapshots ≡ ok t
    → Expired now days m snapshots t
unfolding any mark_snapshot
mark_snapshots-Expired now days m [] t h =
    let e = for_each-nil (mark_snapshot now days) m h in
    record { plan = ground arith; hashes = ground arith; prefixes = λ prefix. ground arith }
mark_snapshots-Expired now days m (s ∷ snapshots) t h =
    let (q, here, rest) = for_each-cons (mark_snapshot now days) m s snapshots h in
    let (expired, e, step) = >>=-eq-ok (snapshot_expired s now days) _ here in
    let x = mark_snapshot-Expired now days m s q expired e here in
    let y = mark_snapshots-Expired now days q snapshots t rest in
    record {
      plan =
          y.plan
          ∙ ap (λ (p : GcPlan). record p { expired_snapshots = t.plan.expired_snapshots }) x.plan;
      hashes = y.hashes ∙ x.hashes;
      prefixes = λ prefix. ground (arith, x.prefixes prefix, y.prefixes prefix);
    }

-- The loop over the copied indexes appends the stale ones.
pub record Copied (load_checksum : ObjectInfo → Result Error Bytes) (m : Marking)
    (objects : List ObjectInfo) (t : Marking) : Type 0 where
  pub plan : t.plan ≡ record m.plan { indexed_objects = t.plan.indexed_objects }
  pub hashes : t.known_hashes ≡ m.known_hashes
  pub stale :
      t.plan.indexed_objects
      ≡ m.plan.indexed_objects
        ++ keep_if (is_stale_copy load_checksum (is_set m.known_hashes)) objects

module _ (load_checksum : ObjectInfo → Result Error Bytes) where
  mark_indexed-Copied :
      (m : Marking) (o : ObjectInfo) (t : Marking) (checksum : Bytes)
      → load_checksum o ≡ ok checksum
      → mark_indexed load_checksum m o ≡ ok t
      → Copied load_checksum m (o ∷ []) t
  unfolding mark_indexed keep_if is_stale_copy
  mark_indexed-Copied m o t checksum e h = record {
    plan = ground arith;
    hashes = ground arith;
    stale = ground (arith, append-nil m.plan.indexed_objects);
  }

  pub mark_indexed_all-Copied :
      (m : Marking) (objects : List ObjectInfo) (t : Marking)
      → for_each (mark_indexed load_checksum) m objects ≡ ok t
      → Copied load_checksum m objects t
  unfolding keep_if mark_indexed
  mark_indexed_all-Copied m [] t h =
      let e = for_each-nil (mark_indexed load_checksum) m h in
      record {
        plan = ground arith;
        hashes = ground arith;
        stale = ground (arith, append-nil m.plan.indexed_objects);
      }
  mark_indexed_all-Copied m (o ∷ objects) t h =
      let (q, here, rest) = for_each-cons (mark_indexed load_checksum) m o objects h in
      let (checksum, e, step) = >>=-eq-ok (load_checksum o) _ here in
      let x = mark_indexed-Copied m o q checksum e here in
      let y = mark_indexed_all-Copied q objects t rest in
      record {
        plan =
            y.plan
            ∙ ap (λ (p : GcPlan). record p { indexed_objects = t.plan.indexed_objects }) x.plan;
        hashes = y.hashes ∙ x.hashes;
        stale = rw (y.stale, x.stale, x.hashes, keep_if-cons _ o objects, append_assoc);
      }
