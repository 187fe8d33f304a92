-- ===== src/Proxy/Writers/Dynamic.antt =====
-- A dynamic index that the proxy writes, as the collector reads it.
use mathlib.Core.List.{append_assoc, Perm}
use pmoxs3backuproxy.Prelude.{
  ℕ, ◌+◌, ◌*◌, true, false, some, [], ◌∷◌, ◌++◌, map, ◌≡◌, refl, arith, ok, length, take, drop,
  replicate, All, Option-cases, inl, inr, subst, length-append, take-append_of_eq,
  drop-append_of_eq, length-replicate,
}
use pmoxs3backuproxy.Prelude.Hex.{encode_to_string, decode_string}
use pmoxs3backuproxy.Prelude.Maps.{Map, lookup, value_or}
use pmoxs3backuproxy.Prelude.Strings.{Bytes, codes, has_suffix}
use pmoxs3backuproxy.Prelude.Words.{add64, put_uint64, uint64_of-put_uint64, length-le_bytes}
use pmoxs3backuproxy.Index.{index_magic_dynamic, slice, dynamic_digests, dynamic_size, parse_index}
use pmoxs3backuproxy.Index.Dynamic.{parse_index-dynamic}
use pmoxs3backuproxy.Proxy.Writers.Ordered.{
  IsAscending, sorted_keys-All, sorted_keys-Perm, sorted_keys-IsAscending,
}
use pmoxs3backuproxy.Proxy.Writers.{
  Assignments, Writer, sorted_keys, dynamic_entries, dynamic_file, dynamic_close,
}

-- Every assigned digest is 32 bytes long.
abbrev pub HasDigests : Assignments → Type 0
HasDigests m = All (λ a. length a.1 ≡ 32) m

-- The end of the last chunk, as the sizes tell it; `size` for no chunk.
unfoldable pub last_end : Map ℕ → ℕ → Assignments → ℕ
last_end sizes size [] = size
last_end sizes size ((k, digest) ∷ m) =
    last_end sizes (add64 k (value_or (lookup sizes (encode_to_string digest)) 0)) m

-- One entry in front of others, taken apart.
entry-take :
    (x : ℕ) (digest entries : Bytes) → take 8 (put_uint64 x ++ (digest ++ entries)) ≡ put_uint64 x
entry-take x digest entries =
    take-append_of_eq 8 (put_uint64 x) (digest ++ entries) (length-le_bytes 8 x)

entry-slice :
    (x : ℕ) (digest entries : Bytes)
    → length digest ≡ 32
    → slice (put_uint64 x ++ (digest ++ entries)) 8 40 ≡ digest
entry-slice x digest entries h =
    rw (drop-append_of_eq 8 (put_uint64 x) (digest ++ entries) (length-le_bytes 8 x))
      (take-append_of_eq 32 digest entries h)

entry-drop :
    (x : ℕ) (digest entries : Bytes)
    → length digest ≡ 32
    → drop 40 (put_uint64 x ++ (digest ++ entries)) ≡ entries
entry-drop x digest entries h = rw (← append_assoc (put_uint64 x) digest entries) (
    drop-append_of_eq 40 (put_uint64 x ++ digest) entries
      (omega (arith, length-append (put_uint64 x) digest, length-le_bytes 8 x, h)))

-- The number of entries, their digests and the last of their ends.
IsWritten : Map ℕ → Assignments → Bytes → Type 0
IsWritten sizes m entries =
    (length entries ≡ 40 * length m)
    × (dynamic_digests (length m) entries ≡ map (λ a. encode_to_string a.1) m)
    × ((size : ℕ) → dynamic_size size (length m) entries ≡ last_end sizes size m)

IsWritten-cons :
    (sizes : Map ℕ) (k origsize : ℕ) (digest : Bytes) (m : Assignments) (entries : Bytes)
    → length digest ≡ 32
    → lookup sizes (encode_to_string digest) ≡ some origsize
    → IsWritten sizes m entries
    → IsWritten sizes ((k, digest) ∷ m) (put_uint64 (add64 k origsize) ++ (digest ++ entries))
unfolding IsWritten dynamic_digests dynamic_size last_end
IsWritten-cons sizes k origsize digest m entries h e (l, ds, last) =
    let x = add64 k origsize in
    let dropped = entry-drop x digest entries h in
    (
      omega (
        arith,
        length-append (put_uint64 x) (digest ++ entries),
        length-append digest entries,
        length-le_bytes 8 x,
        h,
        l,
      ),
      rw (entry-slice x digest entries h) (rw dropped (rw ds)),
      λ size.
          rw
            (
              dynamic_size,
              last_end,
              dropped,
              entry-take x digest entries,
              uint64_of-put_uint64 x (omega arith),
              e,
            )
            (last x),
    )

dynamic_entries-cons :
    (sizes : Map ℕ) (k : ℕ) (digest : Bytes) (m : Assignments) (entries : Bytes)
    → dynamic_entries sizes ((k, digest) ∷ m) ≡ some entries
    → (origsize : ℕ) × (rest : Bytes) × (lookup sizes (encode_to_string digest) ≡ some origsize)
      × (dynamic_entries sizes m ≡ some rest)
      × (put_uint64 (add64 k origsize) ++ (digest ++ rest) ≡ entries)
unfolding dynamic_entries
dynamic_entries-cons sizes k digest m entries e =
    elim (Option-cases (lookup sizes (encode_to_string digest))) [
      | inl n ↦ absurd (ground (arith, n, e))
      | inr (origsize, f) ↦ elim (Option-cases (dynamic_entries sizes m)) [
        | inl n ↦ absurd (ground (arith, n, f, e))
        | inr (rest, g) ↦ (origsize, rest, f, g, ground (arith, f, g, e))
      ]
    ]

dynamic_entries-IsWritten :
    (sizes : Map ℕ) (m : Assignments) (entries : Bytes)
    → HasDigests m
    → dynamic_entries sizes m ≡ some entries
    → IsWritten sizes m entries
unfolding dynamic_entries IsWritten dynamic_digests dynamic_size last_end
dynamic_entries-IsWritten sizes [] entries hs e =
    let nil : [] ≡ entries = ground (arith, e) in rw (← nil) (refl, refl, λ size. refl)
dynamic_entries-IsWritten sizes ((k, digest) ∷ m) entries (h, hs) e =
    let (origsize, rest, f, g, eq) = dynamic_entries-cons sizes k digest m entries e in
    subst (IsWritten sizes ((k, digest) ∷ m)) eq (
      IsWritten-cons sizes k origsize digest m rest h f
        (dynamic_entries-IsWritten sizes m rest hs g))

regroup : (a b c d : Bytes) → a ++ (b ++ (c ++ d)) ≡ (a ++ (b ++ c)) ++ d
regroup a b c d = rw (append_assoc a (b ++ c) d) (rw (append_assoc b c d) refl)

module _ (uuid : Bytes) (ctime : ℕ) (csum entries : Bytes) (lu : length uuid ≡ 16)
    (lc : length csum ≡ 32) where
  start : Bytes
  start = index_magic_dynamic ++ (uuid ++ put_uint64 ctime)

  length-start : length start ≡ 32
  unfolding start index_magic_dynamic
  length-start = omega (arith, lu, length-append uuid (put_uint64 ctime), length-le_bytes 8 ctime)

  dynamic_file-magic : take 8 (dynamic_file uuid ctime csum entries) ≡ index_magic_dynamic
  unfolding dynamic_file index_magic_dynamic
  dynamic_file-magic = refl

  dynamic_file-csum : slice (dynamic_file uuid ctime csum entries) 32 64 ≡ csum
  unfolding dynamic_file start
  dynamic_file-csum =
      rw (drop-append_of_eq 32 start (csum ++ (replicate 4032 0 ++ entries)) length-start)
        (take-append_of_eq 32 csum (replicate 4032 0 ++ entries) lc)

  dynamic_file-entries :
      (drop 4096 (dynamic_file uuid ctime csum entries) ≡ entries)
      × (length (dynamic_file uuid ctime csum entries) ≡ 4096 + length entries)
  unfolding dynamic_file start
  dynamic_file-entries =
      let zeros : Bytes = replicate 4032 0 in
      let header : length (start ++ (csum ++ zeros)) ≡ 4096 = omega (
        arith,
        length-append start (csum ++ zeros),
        length-append csum zeros,
        length-replicate {A = ℕ} 4032 0,
        lc,
        length-start,
      ) in
      rw (regroup start csum zeros entries) (
        drop-append_of_eq 4096 (start ++ (csum ++ zeros)) entries header,
        omega (arith, header, length-append (start ++ (csum ++ zeros)) entries),
      )

dynamic_close-cases :
    (uuid csum file : Bytes) (ctime : ℕ) (writer : Writer)
    → dynamic_close uuid ctime csum writer ≡ some file
    → (entries : Bytes) × (dynamic_entries writer.dynamic_chunk_sizes
          (sorted_keys writer.assignments)
        ≡ some entries)
      × (dynamic_file uuid ctime (decode_string csum).0 entries ≡ file)
unfolding dynamic_close
dynamic_close-cases uuid csum file ctime writer e =
    elim (Option-cases
      (dynamic_entries writer.dynamic_chunk_sizes (sorted_keys writer.assignments))) [
        | inl n ↦ absurd (ground (arith, n, e))
        | inr (entries, f) ↦ (entries, f, ground (arith, f, e))
      ]

-- parse_index accepts the file that dynamic_close puts under a name that ends in `.didx` and not in
-- `.fidx`, with the checksum text of the request as its metadata. It reads back the digests of all the
-- assignments in the ascending order of their offsets, and the end of the last chunk as the size. The
-- uuid has 16 bytes and each digest 32, and the checksum is that of the entries, written in 64
-- hexadecimal digits in lower case.
pub dynamic_close-parse_index :
    (sha256 : Bytes → Bytes) (key uuid csum file : Bytes) (ctime : ℕ) (writer : Writer)
    → HasDigests writer.assignments
    → length uuid ≡ 16
    → length (decode_string csum).0 ≡ 32
    → encode_to_string (decode_string csum).0 ≡ csum
    → dynamic_close uuid ctime csum writer ≡ some file
    → sha256 (drop 4096 file) ≡ (decode_string csum).0
    → has_suffix key (codes ".fidx") ≡ false
    → has_suffix key (codes ".didx") ≡ true
    → (entries : Assignments) × Perm entries writer.assignments
      × IsAscending entries
      × (parse_index sha256 key file csum
          ≡ ok (record {
            checksum = csum;
            digests = map (λ a. encode_to_string a.1) entries;
            logical_size = last_end writer.dynamic_chunk_sizes 0 entries;
          }))
unfolding IsWritten
dynamic_close-parse_index sha256 key uuid csum file ctime writer hs lu lc lower e sum nf d =
    let c = (decode_string csum).0 in
    let m = sorted_keys writer.assignments in
    let hs' = sorted_keys-All (λ a. length a.1 ≡ 32) writer.assignments hs in
    let (entries, f, same) = dynamic_close-cases uuid csum file ctime writer e in
    let (l, digests, last) = dynamic_entries-IsWritten writer.dynamic_chunk_sizes m entries hs' f in
    let (dropped, long) = dynamic_file-entries uuid ctime c entries lu lc in
    let sum' : sha256 entries ≡ c = rw dropped at (rw (← same) at sum) in
    let accepted : parse_index sha256 key file (encode_to_string c)
        ≡ ok (record {
          checksum = encode_to_string c;
          digests = map (λ (a : ℕ × Bytes). encode_to_string a.1) m;
          logical_size = last_end writer.dynamic_chunk_sizes 0 m;
        }) =
      rw (← same) (
        rw
          (
            parse_index-dynamic sha256 key (dynamic_file uuid ctime c entries) c entries (length m)
                nf d (omega (arith, long)) (dynamic_file-magic uuid ctime c entries lu lc)
                (dynamic_file-csum uuid ctime c entries lu lc) dropped sum' l,
            digests,
            last 0,
          )
          refl) in
    (
      m,
      sorted_keys-Perm writer.assignments,
      sorted_keys-IsAscending writer.assignments,
      subst
          (λ s.
            parse_index sha256 key file s
            ≡ ok (record {
              checksum = s;
              digests = map (λ (a : ℕ × Bytes). encode_to_string a.1) m;
              logical_size = last_end writer.dynamic_chunk_sizes 0 m;
            }))
          lower accepted,
    )
