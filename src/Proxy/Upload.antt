-- ===== src/Proxy/Upload.antt =====
-- The upload of a chunk (cmd/pmoxs3backuproxy/chunk_upload.go): the request, and the way from the
-- body of the request to the object store.
pub mod Stored
use pmoxs3backuproxy.Prelude.{
  ℕ, zero, suc, ◌+◌, ◌-◌, ◌^◌, Bool, true, false, ◌&&◌, ◌||◌, not, Option, none, some, List, [],
  ◌∷◌, ◌==◌, ltb, leb, length, take, drop, Result, ok, err, ◌>>=◌, ◌>>◌, guard, if◌then◌else◌,
}
use pmoxs3backuproxy.Prelude.Decimal.{parse_uint, Parsed, parsed, failed}
use pmoxs3backuproxy.Prelude.Int.{ℤ, pos, negsuc}
use pmoxs3backuproxy.Prelude.Strings.{Bytes, codes}
use pmoxs3backuproxy.Gc.Keys.{chunk_object_name}

pub data UploadError : Type 0 where
  invalid_digest invalid_encoded_size size_mismatch invalid_size invalid_writer : UploadError
  read_failed drain_failed trailing_bytes stat_failed put_failed short_put : UploadError

pub record ChunkRequest : Type 0 where
  pub digest : Bytes
  pub encoded_size : ℕ
  pub size : ℕ
  pub writer_id : ℕ
  pub object_name : Bytes

-- What was parsed, if it is at most the largest signed integer of `bits` bits.
signed : ℕ → Parsed → Option ℕ
signed bits (parsed n) = if ltb n (2 ^ (bits - 1)) then some n else none
signed bits (failed e) = none

-- strconv.ParseInt(s, 10, bits) where its result is not negative, and `none` where it is or where
-- ParseInt fails: each of its callers here refuses both.
unfoldable pub parse_natural : ℕ → Bytes → Option ℕ
unfolding signed
parse_natural bits [] = none
parse_natural bits (c ∷ s) =
    if c == b'+'
    then signed bits (parse_uint s)
    else if c == b'-'
    then (elim (parse_uint s) [ parsed n ↦ if n == 0 then some 0 else none | failed e ↦ none ])
    else signed bits (parse_uint (c ∷ s))

-- `encodedSize <= 0` and `size == 0`
positive : UploadError → Option ℕ → Result UploadError ℕ
positive e (some (suc n)) = ok (suc n)
positive e _ = err e

writer_of : Option ℕ → Result UploadError ℕ
writer_of (some wid) = ok wid
writer_of none = err invalid_writer

name_of : {E : Type 0} → Result E Bytes → Result UploadError Bytes
name_of (ok name) = ok name
name_of (err e) = err invalid_digest

-- parseChunkRequest, over what `Get` returns for a key of the query; `content_length` is `none`
-- for a length that is not known (-1).
unfoldable pub parse_chunk_request : (Bytes → Bytes) → Option ℕ → Result UploadError ChunkRequest
unfolding positive writer_of name_of signed
parse_chunk_request get content_length = do
  name ← name_of (chunk_object_name (get (codes "digest")))
  encoded ← positive invalid_encoded_size (parse_natural 64 (get (codes "encoded-size")))
  guard (elim content_length [ some n ↦ n == encoded | none ↦ true ]) size_mismatch
  size ← positive invalid_size (signed 64 (parse_uint (get (codes "size"))))
  wid ← writer_of (parse_natural 32 (get (codes "wid")))
  ok (record {
    digest = get (codes "digest");
    encoded_size = encoded;
    size = size;
    writer_id = wid;
    object_name = name;
  })

-- What a reader still holds, and the error that it ends with instead of the end of the data.
pub record Body : Type 0 where
  pub content : Bytes
  pub failure : Option ℕ

-- The error of a StatObject, as isObjectNotFound tells them apart.
pub data StatFailure : Type 0 where
  not_found : StatFailure
  other : ℕ → StatFailure

-- chunkObjectStore over a store whose state is `S`. PutObject reads from a body; `put` also tells
-- how many bytes it took from it.
pub record ChunkObjectStore (S : Type 0) : Type 0 where
  pub stat : S → Bytes → Result StatFailure (Unit {0})
  pub put : S → Bytes → Body → ℕ → S × Result ℕ (Unit {0}) × ℕ

-- maxBufferedChunkBytes
abbrev max_buffered_chunk_bytes : ℕ
max_buffered_chunk_bytes = 16777216

-- io.Copy(io.Discard, body), which must find nothing
finished : Body → Result UploadError (Unit {0})
finished b = elim b.failure [
  | some e ↦ err drain_failed
  | none ↦ guard (length b.content == 0) trailing_bytes
]

-- drainChunkBody
drain_chunk_body : Body → ℕ → Result UploadError (Unit {0})
drain_chunk_body b expected = elim b.failure [
  | some e ↦ err drain_failed
  | none ↦ guard (length b.content == expected) trailing_bytes
]

-- The checks after a put that took `n` bytes of the body.
uploaded : ChunkRequest → Body → ℕ → Result UploadError Bool
unfolding finished
uploaded request body n = do
  guard (n == request.encoded_size) short_put
  finished (record body { content = drop n body.content })
  ok false

module _ {S : Type 0} (store : ChunkObjectStore S) where
  -- The end of the put of a buffered chunk.
  buffered_end : S × Result ℕ (Unit {0}) × ℕ → S × Result UploadError Bool
  buffered_end (s, ok u, n) = (s, ok false)
  buffered_end (s, err e, n) = (s, err put_failed)

  -- storeBufferedChunk
  store_buffered_chunk : ChunkRequest → Body → S → S × Result UploadError Bool
  unfolding buffered_end finished
  store_buffered_chunk request body s =
      if ltb (length body.content) request.encoded_size
      then (s, err read_failed)
      else elim (finished (record body { content = drop request.encoded_size body.content })) [
        | err e ↦ (s, err e)
        | ok u ↦ elim (store.stat s request.object_name) [
          | ok v ↦ (s, ok true)
          | err not_found ↦ buffered_end (
              store.put s request.object_name
                (record { content = take request.encoded_size body.content; failure = none })
                request.encoded_size)
          | err (other e) ↦ (s, err stat_failed)
        ]
      ]

  -- The end of the put of a streamed chunk.
  streamed_end : ChunkRequest → Body → S × Result ℕ (Unit {0}) × ℕ → S × Result UploadError Bool
  unfolding uploaded
  streamed_end request body (s, ok u, n) = (s, uploaded request body n)
  streamed_end request body (s, err e, n) = (s, err put_failed)

  -- storeStreamedChunk
  store_streamed_chunk : ChunkRequest → Body → S → S × Result UploadError Bool
  unfolding streamed_end drain_chunk_body
  store_streamed_chunk request body s = elim (store.stat s request.object_name) [
    | ok v ↦ (s, drain_chunk_body body request.encoded_size >> ok true)
    | err not_found ↦
        streamed_end request body (store.put s request.object_name body request.encoded_size)
    | err (other e) ↦ (s, err stat_failed)
  ]

  -- storeChunk
  unfoldable pub store_chunk : ChunkRequest → Body → S → S × Result UploadError Bool
  unfolding store_buffered_chunk store_streamed_chunk
  store_chunk request body s =
      if leb request.encoded_size max_buffered_chunk_bytes
      then store_buffered_chunk request body s
      else store_streamed_chunk request body s
