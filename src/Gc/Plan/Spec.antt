-- ===== src/Gc/Plan/Spec.antt =====
-- The specification of the mark phase: what the plan is to hold, said of the listings alone.
use pmoxs3backuproxy.Prelude.{
  ℕ, ◌≡◌, refl, Bool, true, false, ◌&&◌, ◌||◌, not, Option, none, some, List, [], ◌∷◌, ◌++◌, map,
  Result, ok, err, any, keep_if, if◌then◌else◌,
}
use pmoxs3backuproxy.Prelude.Int.{ℤ}
use pmoxs3backuproxy.Prelude.Maps.{Map, lookup}
use pmoxs3backuproxy.Prelude.Strings.{Bytes, codes, bytes_eq, has_suffix}
use pmoxs3backuproxy.Index.{ParsedIndex, is_index}
use pmoxs3backuproxy.Gc.Expiry.{snapshot_expired, within_grace_period}
use pmoxs3backuproxy.Gc.Keys.{snapshot_prefix_for_object, chunk_digest_from_key}
use pmoxs3backuproxy.Objects.{Error, ObjectInfo}
use pmoxs3backuproxy.Snapshots.{Snapshot, s3_prefix}

-- The value passes the test, if there is one.
abbrev pub passes {ℓ} : {E : Type 0} {A : Type ℓ} → (A → Bool) → Result E A → Bool
passes p (ok a) = p a
passes p (err e) = false

pub passes-ok {ℓ} :
    {E : Type 0} {A : Type ℓ} (p : A → Bool) (r : Result E A)
    → passes p r ≡ true
    → (a : A) × (r ≡ ok a) × (p a ≡ true)
passes-ok p (ok a) h = (a, refl, h)
passes-ok p (err e) h = cc

abbrev pub is_none {ℓ} : {A : Type ℓ} → Option A → Bool
is_none none = true
is_none (some a) = false

-- The snapshot has expired, is not protected, and has this prefix.
unfoldable pub condemns : ℤ → ℕ → Bytes → Snapshot → Bool
condemns now retention_days prefix s =
    passes (λ expired. expired && not s.protected) (snapshot_expired s now retention_days)
    && bytes_eq (s3_prefix s) prefix

-- An object of a snapshot that is to go.
unfoldable pub is_condemned : ℤ → ℕ → List Snapshot → ObjectInfo → Bool
is_condemned now retention_days snapshots object =
    passes (λ prefix. any (condemns now retention_days prefix) snapshots)
      (snapshot_prefix_for_object object.key)

-- A fixed index that stays, and has this checksum.
unfoldable pub keeps_hash :
    (ObjectInfo → Result Error ParsedIndex) → (ObjectInfo → Bool) → Bytes → ObjectInfo → Bool
keeps_hash load_index condemned checksum b =
    not (condemned b)
    && (has_suffix b.key (codes ".fidx")
        && passes (λ index. bytes_eq index.checksum checksum) (load_index b))

-- A copied index that no fixed index which stays has the checksum of.
unfoldable pub is_stale_copy :
    (ObjectInfo → Result Error Bytes) → (Bytes → Bool) → ObjectInfo → Bool
is_stale_copy load_checksum known object =
    passes (λ checksum. not (known checksum)) (load_checksum object)

-- An unreferenced chunk outside the grace period, and one inside it.
unfoldable pub is_orphan : Map (List Bytes) → ℤ → ℤ → ObjectInfo → Bool
is_orphan known now grace object =
    passes
      (λ digest.
        is_none (lookup known digest) && not (within_grace_period object.last_modified now grace))
      (chunk_digest_from_key object.key)

unfoldable pub is_young : Map (List Bytes) → ℤ → ℤ → ObjectInfo → Bool
is_young known now grace object =
    passes
      (λ digest.
        is_none (lookup known digest) && within_grace_period object.last_modified now grace)
      (chunk_digest_from_key object.key)

-- The object is the chunk of this digest.
unfoldable pub is_chunk_of : Bytes → ObjectInfo → Bool
is_chunk_of digest object = passes (λ d. bytes_eq d digest) (chunk_digest_from_key object.key)

-- The key of a retained index, for each place of it that lists the digest.
unfoldable pub refers :
    (ObjectInfo → Result Error ParsedIndex) → (ObjectInfo → Bool) → Bytes → ObjectInfo → List Bytes
refers load_index condemned digest b =
    if condemned b || not (is_index b.key) then [] else elim (load_index b) [
      | err e ↦ []
      | ok index ↦ map (λ d. b.key) (keep_if (λ d. bytes_eq d digest) index.digests)
    ]

-- The references of all retained indexes to a digest, in the order of the listing.
unfoldable pub references :
    (ObjectInfo → Result Error ParsedIndex)
    → (ObjectInfo → Bool)
    → List ObjectInfo
    → Bytes
    → List Bytes
references load_index condemned [] digest = []
references load_index condemned (b ∷ backups) digest =
    refers load_index condemned digest b ++ references load_index condemned backups digest

-- The references, if there are any.
abbrev pub listed : List Bytes → Option (List Bytes)
listed [] = none
listed (key ∷ refs) = some (key ∷ refs)

-- A chunk outside the grace period to which there is no reference.
unfoldable pub is_unneeded : (Bytes → Option (List Bytes)) → ℤ → ℤ → ObjectInfo → Bool
is_unneeded refs now grace object =
    passes
      (λ digest. is_none (refs digest) && not (within_grace_period object.last_modified now grace))
      (chunk_digest_from_key object.key)
