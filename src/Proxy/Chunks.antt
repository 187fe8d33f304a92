-- ===== src/Proxy/Chunks.antt =====
-- The handler of chunk uploads (POST fixed_chunk and dynamic_chunk in ServeHTTP,
-- cmd/pmoxs3backuproxy/main.go). The upload itself, chunkUploads.Do around storeChunk, is a
-- parameter here; Proxy.Upload and Proxy.Flights are about it.
pub mod Sized
use pmoxs3backuproxy.Prelude.{
  ℕ, Bool, true, false, Option, none, some, ◌==◌, Result, ok, err, if◌then◌else◌,
}
use pmoxs3backuproxy.Prelude.Maps.{Map, insert}
use pmoxs3backuproxy.Prelude.Strings.{Bytes}
use pmoxs3backuproxy.Proxy.Handlers.{Reply, reply, refused}
use pmoxs3backuproxy.Proxy.Upload.{ChunkRequest, UploadError}
use pmoxs3backuproxy.Proxy.Writers.{Writer}

pub record ChunkUploadInfo : Type 0 where
  pub digest : Bytes
  pub offset : ℕ
  pub size : ℕ
  pub known : Bool

-- What an upload leaves in its writer: the chunk size of the first one, and for a dynamic index the
-- size of the chunk.
unfoldable pub note_chunk : Bool → ChunkRequest → Writer → Writer
note_chunk dynamic request writer = record writer {
  chunksize = if writer.chunksize == 0 then request.size else writer.chunksize;
  dynamic_chunk_sizes =
      if dynamic
      then insert writer.dynamic_chunk_sizes request.digest request.size
      else writer.dynamic_chunk_sizes;
}

-- s.Writers, by number
abbrev pub Writers : Type 0
Writers = ℕ → Option Writer

abbrev set_writer : Writers → ℕ → Writer → Writers
set_writer writers wid writer n = if n == wid then some writer else writers n

module _ {State : Type 0} (upload : State → ChunkRequest → State × Result UploadError Bool) where
  uploaded :
      Writers
      → Bool
      → ChunkRequest
      → Writer
      → State × Result UploadError Bool
      → State × Writers × Reply ChunkUploadInfo
  uploaded writers dynamic request writer (s, err e) = (s, writers, refused 500)
  uploaded writers dynamic request writer (s, ok known) = (
    s,
    set_writer writers request.writer_id (note_chunk dynamic request writer),
    reply (record { digest = request.digest; offset = 0; size = request.size; known = known }),
  )

  -- From the parsed request on.
  with_request :
      State
      → Writers
      → Bool
      → Result UploadError ChunkRequest
      → State × Writers × Reply ChunkUploadInfo
  unfolding uploaded
  with_request s writers dynamic (err e) = (s, writers, refused 400)
  with_request s writers dynamic (ok request) = elim (writers request.writer_id) [
    | none ↦ (s, writers, refused 400)
    | some writer ↦ uploaded writers dynamic request writer (upload s request)
  ]

  -- The handler; `session` tells whether the request belongs to a backup session, `parsed` is what
  -- parseChunkRequest returns.
  unfoldable pub handle_chunk :
      State
      → Writers
      → Bool
      → Bool
      → Result UploadError ChunkRequest
      → State × Writers × Reply ChunkUploadInfo
  unfolding with_request
  handle_chunk s writers dynamic session parsed =
      if session then with_request s writers dynamic parsed else (s, writers, refused 401)
