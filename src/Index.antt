-- ===== src/Index.antt =====
-- The index files of a backup: parseIndex and compareSum of cmd/garbagecollector, and the sizes
-- that internal/s3pmoxcommon/indexsize.go reads from a few of their bytes.
--   fixed index:   4096 bytes of header (size at 64), then digests of 32 bytes
--   dynamic index: 4096 bytes of header, then entries of an end offset and a digest
pub mod Dynamic
pub mod Fixed
pub mod Sizes
use pmoxs3backuproxy.Prelude.{
  ℕ, zero, suc, ◌+◌, ◌-◌, ◌/◌, ◌%◌, Bool, true, false, ◌&&◌, ◌||◌, not, List, [], ◌∷◌, ◌==◌, leb,
  ltb, length, take, drop, Result, ok, err, ◌>>=◌, ◌>>◌, guard, if◌then◌else◌,
}
use pmoxs3backuproxy.Prelude.Hex.{encode_to_string}
use pmoxs3backuproxy.Prelude.Int.{ℤ, pos, negsuc}
use pmoxs3backuproxy.Prelude.Strings.{Bytes, codes, bytes_eq, has_suffix}
use pmoxs3backuproxy.Prelude.Words.{uint64_of}
use pmoxs3backuproxy.Objects.{
  Error, index_too_small, corrupted_index, wrong_magic, not_aligned, unsupported_index,
  not_an_index, short_header, short_read,
}

-- PROXMOX_INDEX_MAGIC_DYNAMIC and PROXMOX_INDEX_MAGIC_FIXED
unfoldable pub index_magic_dynamic : Bytes
index_magic_dynamic = 28 ∷ 145 ∷ 78 ∷ 165 ∷ 25 ∷ 186 ∷ 179 ∷ 205 ∷ []

unfoldable pub index_magic_fixed : Bytes
index_magic_fixed = 47 ∷ 127 ∷ 65 ∷ 237 ∷ 145 ∷ 253 ∷ 15 ∷ 205 ∷ []

-- b[lo:hi]
abbrev pub slice : Bytes → ℕ → ℕ → Bytes
slice b lo hi = take (hi - lo) (drop lo b)

-- IsIndex
unfoldable pub is_index : Bytes → Bool
is_index name = has_suffix name (codes ".fidx") || has_suffix name (codes ".didx")

pub record ParsedIndex : Type 0 where
  pub checksum : Bytes
  pub digests : List Bytes
  pub logical_size : ℕ

-- The loop over the payload of a fixed index, `n` entries long.
unfoldable pub fixed_digests : ℕ → Bytes → List Bytes
fixed_digests zero payload = []
fixed_digests (suc n) payload =
    encode_to_string (take 32 payload) ∷ fixed_digests n (drop 32 payload)

-- The loop over the payload of a dynamic index; the size is the offset read last.
unfoldable pub dynamic_digests : ℕ → Bytes → List Bytes
dynamic_digests zero payload = []
dynamic_digests (suc n) payload =
    encode_to_string (slice payload 8 40) ∷ dynamic_digests n (drop 40 payload)

unfoldable pub dynamic_size : ℕ → ℕ → Bytes → ℕ
dynamic_size size zero payload = size
dynamic_size size (suc n) payload = dynamic_size (uint64_of (take 8 payload)) n (drop 40 payload)

-- crypto/sha256 is not computed here: any function stands for it.
module _ (sha256 : Bytes → Bytes) where
  -- compareSum
  unfoldable pub compare_sum : Bytes → Bytes → Bytes → Bytes → Result Error (Unit {0})
  compare_sum key csum index metadatasum =
      if not (bytes_eq (encode_to_string csum) (encode_to_string (sha256 index)))
        || not (bytes_eq (encode_to_string csum) metadatasum)
      then err (corrupted_index key)
      else ok tt

  fixed_record : Bytes → Bytes → Bytes → Bytes → Result Error ParsedIndex
  fixed_record key header payload checksum = do
    guard (bytes_eq (take 8 header) index_magic_fixed) (wrong_magic key)
    guard (length payload % 32 == 0) (not_aligned key)
    ok (record {
      checksum = checksum;
      digests = fixed_digests (length payload / 32) payload;
      logical_size = uint64_of (slice header 64 72);
    })

  dynamic_record : Bytes → Bytes → Bytes → Bytes → Result Error ParsedIndex
  dynamic_record key header payload checksum = do
    guard (bytes_eq (take 8 header) index_magic_dynamic) (wrong_magic key)
    guard (length payload % 40 == 0) (not_aligned key)
    ok (record {
      checksum = checksum;
      digests = dynamic_digests (length payload / 40) payload;
      logical_size = dynamic_size 0 (length payload / 40) payload;
    })

  -- the `switch` on the suffix of the key
  index_record : Bytes → Bytes → Bytes → Bytes → Result Error ParsedIndex
  unfolding fixed_record dynamic_record
  index_record key header payload checksum =
      if has_suffix key (codes ".fidx")
      then fixed_record key header payload checksum
      else if has_suffix key (codes ".didx")
      then dynamic_record key header payload checksum
      else err (unsupported_index key)

  -- parseIndex
  unfoldable pub parse_index : Bytes → Bytes → Bytes → Result Error ParsedIndex
  unfolding index_record compare_sum
  parse_index key contents metadata_checksum =
      if ltb (length contents) 4096 then err (index_too_small key) else do
        compare_sum key (slice contents 32 64) (drop 4096 contents) metadata_checksum
        index_record key contents (drop 4096 contents) metadata_checksum

-- The bytes of an object from one offset up to and with another, as GetObject returns them.
abbrev pub RangedGet : Type 0
RangedGet = Bytes → ℕ → ℕ → Result Error Bytes

module _ (get_range : RangedGet) where
  -- rangeRead. A body that ends early is no error; what it held is returned.
  unfoldable pub range_read : Bytes → ℕ → ℕ → Result Error Bytes
  range_read key start end = do body ← get_range key start end; ok (take (end - start + 1) body)

  -- fixedArchiveSize
  unfoldable pub fixed_archive_size : Bytes → Result Error ℕ
  unfolding range_read
  fixed_archive_size key = do
    head ← range_read key 0 79
    guard (not (ltb (length head) 80)) (short_header key)
    guard (bytes_eq (take 8 head) index_magic_fixed) (wrong_magic key)
    ok (uint64_of (slice head 64 72))

  -- dynamicArchiveSize, on an object size that is not negative
  sized_dynamic : Bytes → ℕ → Result Error ℕ
  unfolding range_read
  sized_dynamic key object_size =
      if leb object_size 4096
      then ok 0
      else if not ((object_size - 4096) % 40 == 0)
      then err (not_aligned key)
      else do
        tail ← range_read key (object_size - 40) (object_size - 1)
        guard (not (ltb (length tail) 8)) (short_read key)
        ok (uint64_of (take 8 tail))

  unfoldable pub dynamic_archive_size : Bytes → ℤ → Result Error ℕ
  unfolding sized_dynamic
  dynamic_archive_size key (negsuc n) = ok 0
  dynamic_archive_size key (pos n) = sized_dynamic key n

  -- ArchiveSize
  unfoldable pub archive_size : Bytes → ℤ → Result Error ℕ
  unfolding fixed_archive_size dynamic_archive_size
  archive_size key object_size =
      if has_suffix key (codes ".fidx")
      then fixed_archive_size key
      else if has_suffix key (codes ".didx")
      then dynamic_archive_size key object_size
      else err (not_an_index key)
