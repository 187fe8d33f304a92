-- ===== src/Proxy/Writers.antt =====
-- The index writers of a backup session (cmd/pmoxs3backuproxy/main.go): the assignments of chunks
-- to offsets, and the index files that closing a writer builds.
pub mod Ordered
pub mod Dynamic
pub mod Fixed
use pmoxs3backuproxy.Prelude.{
  ℕ, zero, suc, ◌+◌, ◌-◌, ◌*◌, ◌%◌, Bool, true, false, ◌&&◌, ◌||◌, not, Option, none, some, List,
  [], ◌∷◌, ◌++◌, ◌==◌, ltb, leb, length, take, drop, replicate, if◌then◌else◌,
}
use pmoxs3backuproxy.Prelude.Hex.{encode_to_string, decode_string}
use pmoxs3backuproxy.Prelude.Maps.{Map, lookup}
use pmoxs3backuproxy.Prelude.Decimal.{parse_uint, parsed_value}
use pmoxs3backuproxy.Prelude.Strings.{Bytes, codes}
use pmoxs3backuproxy.Prelude.Words.{two64, add64, put_uint64}
use pmoxs3backuproxy.Index.{index_magic_dynamic, index_magic_fixed}

-- A `map[int64][]byte`. The keys are the offsets of the requests; their conversion to int64 and
-- back changes none, so they are written as the uint64 that they were.
abbrev pub Assignments : Type 0
Assignments = List (ℕ × Bytes)

unfoldable pub assign : Assignments → ℕ → Bytes → Assignments
assign [] offset digest = (offset, digest) ∷ []
assign ((o, d) ∷ m) offset digest =
    if o == offset then (offset, digest) ∷ m else (o, d) ∷ assign m offset digest

unfoldable pub assigned : Assignments → ℕ → Option Bytes
assigned [] offset = none
assigned ((o, d) ∷ m) offset = if o == offset then some d else assigned m offset

pub record Writer : Type 0 where
  pub fidx_name : Bytes
  pub assignments : Assignments
  pub dynamic_chunk_sizes : Map ℕ
  pub chunksize : ℕ
  pub size : ℕ
  pub reuse_csum : Bytes

-- How a PUT of assignments ends. `refused` tells that status 400 was written.
pub data Put : Type 0 where
  put refused panicked : Put

-- The loop over the digests. A digest that does not decode is answered with status 400, and the
-- bytes before the error are assigned all the same; more digests than offsets are a panic.
unfoldable pub assign_digests : Put → Assignments → List Bytes → List ℕ → Assignments × Put
assign_digests answer m [] offsets = (m, answer)
assign_digests answer m (d ∷ digests) [] = (m, panicked)
assign_digests answer m (d ∷ digests) (offset ∷ offsets) =
    assign_digests (if (decode_string d).1 then answer else refused)
      (assign m offset (decode_string d).0) digests offsets

-- PUT dynamic_index, from the decoded body on
unfoldable pub put_dynamic_index : Writer → List Bytes → List ℕ → Writer × Put
put_dynamic_index writer digests offsets =
    let (m, answer) = assign_digests put writer.assignments digests offsets in
    (record writer { assignments = m }, answer)

-- Every offset is a multiple of the chunk size.
unfoldable pub aligned : ℕ → List ℕ → Bool
aligned chunksize [] = true
aligned chunksize (offset ∷ offsets) = offset % chunksize == 0 && aligned chunksize offsets

-- PUT fixed_index, from the decoded body on. The remainder by a chunk size of 0 is a panic.
unfoldable pub put_fixed_index : Writer → List Bytes → List ℕ → Writer × Put
put_fixed_index writer digests offsets =
    if not (length digests == length offsets)
    then (writer, refused)
    else if writer.chunksize == 0 && not (length offsets == 0)
    then (writer, panicked)
    else if not (aligned writer.chunksize offsets)
    then (writer, refused)
    else let (m, answer) = assign_digests put writer.assignments digests offsets in
      (record writer { assignments = m }, answer)

-- The order of int64 on the offsets.
pub int64_leb : ℕ → ℕ → Bool
int64_leb a b = leb (add64 a 9223372036854775808) (add64 b 9223372036854775808)

unfoldable pub insert_key : ℕ → Bytes → Assignments → Assignments
insert_key offset digest [] = (offset, digest) ∷ []
insert_key offset digest ((o, d) ∷ m) =
    let rest = insert_key offset digest m in
    if int64_leb offset o then (offset, digest) ∷ ((o, d) ∷ m) else (o, d) ∷ rest

-- The assignments in the order of their sorted keys.
unfoldable pub sorted_keys : Assignments → Assignments
unfolding insert_key int64_leb
sorted_keys [] = []
sorted_keys ((o, d) ∷ m) = insert_key o d (sorted_keys m)

-- The entries of a dynamic index, each the end of its chunk and its digest; `none` stands for the
-- panic on a digest whose size is not known.
unfoldable pub dynamic_entries : Map ℕ → Assignments → Option Bytes
dynamic_entries sizes [] = some []
dynamic_entries sizes ((k, digest) ∷ m) = elim (lookup sizes (encode_to_string digest)) [
  | none ↦ none
  | some origsize ↦ elim (dynamic_entries sizes m) [
    | none ↦ none
    | some entries ↦ some (put_uint64 (add64 k origsize) ++ (digest ++ entries))
  ]
]

-- The header of a dynamic index with its entries.
unfoldable pub dynamic_file : Bytes → ℕ → Bytes → Bytes → Bytes
dynamic_file uuid ctime csum entries =
    (index_magic_dynamic ++ (uuid ++ put_uint64 ctime)) ++ (csum ++ (replicate 4032 0 ++ entries))

-- dynamic_close, up to the first PutObject: the file that is put, for a writer whose chunk sizes
-- include those that the server knows.
unfoldable pub dynamic_close : Bytes → ℕ → Bytes → Writer → Option Bytes
dynamic_close uuid ctime csum writer =
    elim (dynamic_entries writer.dynamic_chunk_sizes (sorted_keys writer.assignments)) [
      | none ↦ none
      | some entries ↦ some (dynamic_file uuid ctime (decode_string csum).0 entries)
    ]

-- POST fixed_index: the new writer, over what `Get` returns for a key of the query. An error in the
-- size is dropped.
unfoldable pub new_fixed_writer : (Bytes → Bytes) → Writer
new_fixed_writer query = record {
  fidx_name = query (codes "archive-name");
  assignments = [];
  dynamic_chunk_sizes = [];
  chunksize = 4194304;
  size = parsed_value (parse_uint (query (codes "size")));
  reuse_csum = query (codes "reuse-csum");
}

-- POST dynamic_index
unfoldable pub new_dynamic_writer : (Bytes → Bytes) → Writer
new_dynamic_writer query = record {
  fidx_name = query (codes "archive-name");
  assignments = [];
  dynamic_chunk_sizes = [];
  chunksize = 0;
  size = 0;
  reuse_csum = [];
}
