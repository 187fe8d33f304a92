-- ===== src/Tests/Proxy.antt =====
-- The proxy on concrete inputs: index files, uploads, sessions and caches.
use pmoxs3backuproxy.Prelude.{
  ℕ, ◌+◌, ◌<◌, Bool, true, false, none, some, [], ◌∷◌, ◌++◌, map, ◌≡◌, ◌↔◌, refl, inl, inr, arith,
  Bool-cases, ok, err, replicate, length, if◌then◌else◌,
}
use pmoxs3backuproxy.Prelude.Int.{pos}
use pmoxs3backuproxy.Prelude.Hex.{decode_string, encode_to_string, from_hex_char, hex_digit}
use pmoxs3backuproxy.Prelude.Maps.{Map, lookup}
use pmoxs3backuproxy.Prelude.Strings.{Bytes, codes, bytes_eq, has_suffix}
use pmoxs3backuproxy.Prelude.Words.{two64, le_bytes}
use pmoxs3backuproxy.Index.{ParsedIndex, RangedGet, slice, parse_index, archive_size}
use pmoxs3backuproxy.Index.Sizes.{archive_size-parse_index}
use pmoxs3backuproxy.Proxy.Cache.{Entry, is_fresh, new_entry, get_async, end_refresh}
use pmoxs3backuproxy.Proxy.Cache.Generations.{
  invalidated, happen_all, mutations, end_refresh-outdated,
}
use pmoxs3backuproxy.Proxy.Sessions.{
  Locks, active_sessions, begin_datastore_session, end_datastore_session,
}
use pmoxs3backuproxy.Proxy.Sessions.Refinement.{
  Represents, Begun, open_of, close_one, begin_datastore_session-Represents,
  end_datastore_session-Represents,
}
use pmoxs3backuproxy.Proxy.Upload.{ChunkRequest, Body, ChunkObjectStore, not_found, store_chunk}
use pmoxs3backuproxy.Proxy.Upload.Stored.{Documented, Stored, store_chunk-Stored}
use mathlib.Core.List.{Perm}
use pmoxs3backuproxy.Proxy.Writers.Ordered.{IsAscending}
use pmoxs3backuproxy.Proxy.Writers.{
  Assignments, Writer, sorted_keys, dynamic_entries, dynamic_close, dynamic_file,
}
use pmoxs3backuproxy.Proxy.Writers.Dynamic.{HasDigests, last_end, dynamic_close-parse_index}

-- A store that holds every object and takes every upload whole.
abbrev any_store : ChunkObjectStore Bool
any_store = record {
  stat = λ s name. if s then ok tt else err not_found;
  put = λ s name body size. (true, ok tt, length body.content);
}

any_store_documented : Documented any_store
unfolding Documented
any_store_documented = λ s name body size. (refl, omega arith)

abbrev request : ChunkRequest
request = record { digest = []; encoded_size = 3; size = 3; writer_id = 1; object_name = codes "c" }

abbrev three : Body
three = record { content = 1 ∷ 2 ∷ 3 ∷ []; failure = none }

uploaded_three : (store_chunk any_store request three false).1 ≡ ok false
unfolding store_chunk
uploaded_three = refl

store_chunk-Stored_example :
    Stored any_store request three (store_chunk any_store request three false).0
store_chunk-Stored_example =
    store_chunk-Stored any_store any_store_documented request three false false uploaded_three

abbrev no_locks : Locks
no_locks = record { session_locks = []; sessions = 0 }

abbrev one_lock : Locks
one_lock = record {
  session_locks = (codes "a", record { count = 1; releaser = 5 }) ∷ [];
  sessions = 1;
}

no_sessions : Represents no_locks []
unfolding Represents lookup open_of active_sessions
no_sessions = (refl, λ name. refl)

one_session : Represents one_lock (codes "a" ∷ [])
unfolding Represents lookup open_of active_sessions
one_session = (
  refl,
  λ name. elim (Bool-cases (bytes_eq (codes "a") name)) [
    | inl t ↦ rw t (refl, omega arith)
    | inr f ↦ rw f refl
  ],
)

begin_datastore_session-Represents_example :
    Begun (ok 5) (codes "a") no_locks [] (begin_datastore_session (ok 5) (codes "a") no_locks)
begin_datastore_session-Represents_example =
    begin_datastore_session-Represents (ok 5) (codes "a") no_locks [] no_sessions (omega arith)

a_is_open : 0 < open_of (codes "a") (codes "a" ∷ [])
unfolding open_of codes bytes_eq
a_is_open = omega arith

end_datastore_session-Represents_example :
    Represents
      (end_datastore_session (codes "a") one_lock).0
      (close_one (codes "a") (codes "a" ∷ []))
    × (((end_datastore_session (codes "a") one_lock).1 ≡ none)
        ↔ (1 < open_of (codes "a") (codes "a" ∷ [])))
end_datastore_session-Represents_example =
    end_datastore_session-Represents (codes "a") one_lock (codes "a" ∷ []) one_session a_is_open

-- The cache.
abbrev empty_entry : Entry ℕ
empty_entry = new_entry

abbrev one_entry : Map (Entry ℕ)
one_entry = (codes "ds/a", empty_entry) ∷ []

refresh_started : (get_async (pos 5) (pos 0) empty_entry).2 ≡ some 0
unfolding get_async is_fresh
refresh_started = refl

one_mutation : 0 < mutations {T = ℕ} (invalidated ∷ [])
unfolding mutations
one_mutation = omega arith

few_mutations : 0 + mutations {T = ℕ} (invalidated ∷ []) < two64
unfolding mutations
few_mutations = omega arith

end_refresh-outdated_example :
    let now = happen_all (pos 5) (invalidated ∷ []) (get_async (pos 5) (pos 0) empty_entry).0 in
    let e' = end_refresh 0 (ok 9) (pos 3) now in
    (e'.value ≡ now.value)
    × (e'.fetched ≡ now.fetched)
    × (e'.valid ≡ now.valid)
    × (e'.refreshing ≡ false)
end_refresh-outdated_example =
    end_refresh-outdated (pos 5) empty_entry (invalidated ∷ []) (pos 0) (pos 3) 0 (ok 9)
      refresh_started one_mutation few_mutations

-- A dynamic index with one chunk.
abbrev writer : Writer
writer = record {
  fidx_name = codes "a.didx";
  assignments = (0, replicate 32 7) ∷ [];
  dynamic_chunk_sizes = (encode_to_string (replicate 32 7), 100) ∷ [];
  chunksize = 0;
  size = 0;
  reuse_csum = [];
}

abbrev csum : Bytes
csum = replicate 64 b'1'

abbrev uuid : Bytes
uuid = replicate 16 1

-- A checksum function for which the entries have the checksum of the request.
abbrev checksum_of : Bytes → Bytes
checksum_of b = (decode_string csum).0

abbrev entries : Bytes
entries = (100 ∷ 0 ∷ 0 ∷ 0 ∷ 0 ∷ 0 ∷ 0 ∷ 0 ∷ []) ++ replicate 32 7

abbrev didx_file : Bytes
didx_file = dynamic_file uuid 1000 (decode_string csum).0 entries

has_digests : HasDigests writer.assignments
has_digests = (refl, tt)

csum_is_long : length (decode_string csum).0 ≡ 32
unfolding decode_string from_hex_char
csum_is_long = refl

csum_is_lower : encode_to_string (decode_string csum).0 ≡ csum
unfolding decode_string from_hex_char encode_to_string hex_digit
csum_is_lower = refl

closed : dynamic_close uuid 1000 csum writer ≡ some didx_file
unfolding dynamic_close dynamic_entries sorted_keys lookup bytes_eq encode_to_string hex_digit
    le_bytes
closed = refl

suffixes :
    (has_suffix (codes "a.didx") (codes ".fidx") ≡ false)
    × (has_suffix (codes "a.didx") (codes ".didx") ≡ true)
unfolding has_suffix codes bytes_eq
suffixes = (refl, refl)

abbrev parsed_with : Assignments → ParsedIndex
parsed_with entries = record {
  checksum = csum;
  digests = map (λ (a : ℕ × Bytes). encode_to_string a.1) entries;
  logical_size = last_end writer.dynamic_chunk_sizes 0 entries;
}

dynamic_close-parse_index_example :
    (entries : Assignments) × Perm entries writer.assignments
    × IsAscending entries
    × (parse_index checksum_of (codes "a.didx") didx_file csum ≡ ok (parsed_with entries))
dynamic_close-parse_index_example =
    dynamic_close-parse_index checksum_of (codes "a.didx") uuid csum didx_file 1000 writer
      has_digests refl csum_is_long csum_is_lower closed refl suffixes.0 suffixes.1

-- A store that serves the ranges of that file.
abbrev ranges : RangedGet
ranges key lo hi = ok (slice didx_file lo (hi + 1))

reading :
    (entries : Assignments) × Perm entries writer.assignments
    × IsAscending entries
    × (parse_index checksum_of (codes "a.didx") didx_file csum ≡ ok (parsed_with entries))
reading =
    dynamic_close-parse_index checksum_of (codes "a.didx") uuid csum didx_file 1000 writer
      has_digests refl csum_is_long csum_is_lower closed refl suffixes.0 suffixes.1

archive_size-parse_index_example :
    archive_size ranges (codes "a.didx") (pos (length didx_file))
    ≡ ok (parsed_with reading.0).logical_size
archive_size-parse_index_example =
    archive_size-parse_index checksum_of (codes "a.didx") didx_file csum (parsed_with reading.0)
      ranges (λ lo hi. refl) reading.3
