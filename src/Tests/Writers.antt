-- ===== src/Tests/Writers.antt =====
-- The index writers on concrete inputs.
use pmoxs3backuproxy.Prelude.{
  true, none, some, inl, List, [], ◌∷◌, ◌++◌, map, ◌≡◌, ◌≢◌, refl, arith, ok, take, replicate,
}
use pmoxs3backuproxy.Prelude.Hex.{encode_to_string}
use pmoxs3backuproxy.Prelude.Strings.{Bytes, codes, bytes_eq, has_suffix}
use pmoxs3backuproxy.Prelude.Words.{uint64_of}
use pmoxs3backuproxy.Index.{parse_index, slice}
use pmoxs3backuproxy.Proxy.Writers.{Writer, assigned, dynamic_close, new_dynamic_writer}
use pmoxs3backuproxy.Proxy.Chunks.Sized.{uploaded, assigned_to, play, play-dynamic_close}
use pmoxs3backuproxy.Proxy.Upload.{ChunkRequest}
use pmoxs3backuproxy.Proxy.Writers.Fixed.{Reused, closed, running, fixed_close, fixed_close_reusing}
use pmoxs3backuproxy.Proxy.Writers.Fixed.Fill.{values_at}
use pmoxs3backuproxy.Proxy.Writers.Fixed.RoundTrip.{fixed_close-parse_index}
use pmoxs3backuproxy.Proxy.Writers.Fixed.Termination.{
  fixed_close-ends, fixed_close_reusing-diverges,
}

-- A writer of six bytes in chunks of four; the second was assigned first.
abbrev writer : Writer
writer = record {
  fidx_name = codes "a.fidx";
  assignments = (4, replicate 32 2) ∷ (0, replicate 32 1) ∷ [];
  dynamic_chunk_sizes = [];
  chunksize = 4;
  size = 6;
  reuse_csum = [];
}

abbrev digests : List Bytes
digests = replicate 32 1 ∷ replicate 32 2 ∷ []

abbrev uuid : Bytes
uuid = replicate 16 9

abbrev csum : Bytes
csum = replicate 32 7

two_assigned : values_at writer.assignments 4 0 2 ≡ some digests
unfolding values_at assigned
two_assigned = refl

ends_in_fidx : has_suffix (codes "a.fidx") (codes ".fidx") ≡ true
unfolding has_suffix codes bytes_eq
ends_in_fidx = refl

fixed_close-parse_index_example :
    (file : Bytes) × (fixed_close 3 csum uuid 1000 writer ≡ closed file)
    × (parse_index (λ b. csum) (codes "a.fidx") file (encode_to_string (take 32 csum))
        ≡ ok (record {
          checksum = encode_to_string (take 32 csum);
          digests = map encode_to_string digests;
          logical_size = 6;
        }))
fixed_close-parse_index_example =
    fixed_close-parse_index (λ b. csum) (codes "a.fidx") 3 csum uuid 1000 writer digests
      (omega arith) two_assigned (omega arith) (omega arith) (omega arith) (omega arith)
      (refl, (refl, tt)) (omega arith) refl refl ends_in_fidx

fixed_close-ends_example : fixed_close 7 csum uuid 1000 writer ≢ running
fixed_close-ends_example = fixed_close-ends csum uuid 1000 writer (omega arith) (omega arith)

-- A header with a size of 6 and a chunk size of 0.
abbrev old : Reused
old = record { array = replicate 64 0 ++ (6 ∷ replicate 15 0); len = 80 }

no_chunk_size : (uint64_of (slice old.array 72 80) ≡ 0) × (uint64_of (slice old.array 64 72) ≡ 6)
unfolding uint64_of
no_chunk_size = (refl, refl)

abbrev nothing_assigned : Writer
nothing_assigned = record writer { assignments = [] }

none_at_zero : assigned nothing_assigned.assignments 0 ≡ none
unfolding assigned
none_at_zero = refl

fixed_close_reusing-diverges_example :
    fixed_close_reusing 100 csum uuid 1000 old nothing_assigned ≡ running
fixed_close_reusing-diverges_example =
    fixed_close_reusing-diverges csum uuid 1000 100 old nothing_assigned (omega arith)
      no_chunk_size.0 (omega (arith, no_chunk_size.1)) none_at_zero (omega arith)

-- A chunk that is uploaded and then assigned to the offset 0.
abbrev request : ChunkRequest
request = record {
  digest = encode_to_string (replicate 32 7);
  encoded_size = 3;
  size = 3;
  writer_id = 1;
  object_name = codes "c";
}

play-dynamic_close_example :
    (file : Bytes) × (dynamic_close uuid 1000 csum (
        play
          (new_dynamic_writer (λ key. key))
          (uploaded request ∷ assigned_to 0 (replicate 32 7) ∷ []))
      ≡ some file)
play-dynamic_close_example =
    play-dynamic_close (λ key. key) (uploaded request ∷ assigned_to 0 (replicate 32 7) ∷ []) uuid
      1000 csum (inl refl, tt)
