-- ===== src/Proxy/Upload/Stored.antt =====
-- What a chunk request that is answered as stored means for the store.
use pmoxs3backuproxy.Prelude.{
  ℕ, ◌≤◌, Bool, true, none, ◌≡◌, arith, Result, ok, err, length, take, drop, length-drop, ◌>>◌,
}
use pmoxs3backuproxy.Prelude.Strings.{Bytes}
use pmoxs3backuproxy.Proxy.Upload.{
  ChunkRequest, Body, ChunkObjectStore, store_chunk, store_buffered_chunk, store_streamed_chunk,
  uploaded, finished, drain_chunk_body, buffered_end, streamed_end,
}

module _ {S : Type 0} (store : ChunkObjectStore S) where
  -- An object that was put is found by StatObject, and PutObject takes no more than a body holds.
  PutKept : Bytes → Body → S × Result ℕ (Unit {0}) × ℕ → Type 0
  PutKept name body (s', ok u, n) = (store.stat s' name ≡ ok tt) × (n ≤ length body.content)
  PutKept name body (s', err e, n) = Unit

  unfoldable pub Documented : Type 0
  unfolding PutKept
  Documented =
      (s : S) (name : Bytes) (body : Body) (size : ℕ)
      → PutKept name body (store.put s name body size)

  -- The body holds as many bytes as the request says, and ends there.
  IsExact : ChunkRequest → Body → Type 0
  IsExact request body = (length body.content ≡ request.encoded_size) × (body.failure ≡ none)

  finished-eq-ok :
      (body : Body) (n : ℕ)
      → finished (record body { content = drop n body.content }) ≡ ok tt
      → (length body.content ≤ n) × (body.failure ≡ none)
  unfolding finished
  finished-eq-ok body n h = ground (arith, length-drop n body.content)

  -- What the answer `known` of a request leaves in the store.
  pub Stored : ChunkRequest → Body → S → Type 0
  unfolding IsExact
  Stored request body s = (store.stat s request.object_name ≡ ok tt) × IsExact request body

  buffered_end-kept :
      (name : Bytes) (body : Body) (o : S × Result ℕ (Unit {0}) × ℕ) (known : Bool)
      → PutKept name body o
      → (buffered_end store o).1 ≡ ok known
      → store.stat (buffered_end store o).0 name ≡ ok tt
  unfolding PutKept buffered_end
  buffered_end-kept name body (s, ok u, n) known k h = k.0
  buffered_end-kept name body (s, err e, n) known k h = cc

  uploaded-eq-ok :
      (request : ChunkRequest) (body : Body) (n : ℕ) (known : Bool)
      → n ≤ length body.content
      → uploaded request body n ≡ ok known
      → IsExact request body
  unfolding uploaded finished IsExact
  uploaded-eq-ok request body n known b h = ground (arith, length-drop n body.content)

  streamed_end-kept :
      (request : ChunkRequest) (body : Body) (o : S × Result ℕ (Unit {0}) × ℕ) (known : Bool)
      → PutKept request.object_name body o
      → (streamed_end store request body o).1 ≡ ok known
      → Stored request body (streamed_end store request body o).0
  unfolding PutKept streamed_end Stored
  streamed_end-kept request body (s, ok u, n) known k h =
      (k.0, uploaded-eq-ok request body n known k.1 h)
  streamed_end-kept request body (s, err e, n) known k h = cc

  drain_chunk_body-eq-ok :
      (request : ChunkRequest) (body : Body) (known : Bool)
      → (drain_chunk_body body request.encoded_size >> ok true) ≡ ok known
      → IsExact request body
  unfolding drain_chunk_body IsExact
  drain_chunk_body-eq-ok request body known h = ground arith

  store_streamed_chunk-Stored :
      (documented : Documented) (request : ChunkRequest) (body : Body) (s : S) (known : Bool)
      → (store_streamed_chunk store request body s).1 ≡ ok known
      → Stored request body (store_streamed_chunk store request body s).0
  unfolding store_streamed_chunk Stored Documented
  store_streamed_chunk-Stored documented request body s known h =
      let o = store.put s request.object_name body request.encoded_size in
      ground (
        arith,
        drain_chunk_body-eq-ok request body known,
        streamed_end-kept request body o known
            (documented s request.object_name body request.encoded_size),
      )

  store_buffered_chunk-Stored :
      (documented : Documented) (request : ChunkRequest) (body : Body) (s : S) (known : Bool)
      → (store_buffered_chunk store request body s).1 ≡ ok known
      → Stored request body (store_buffered_chunk store request body s).0
  unfolding store_buffered_chunk Stored Documented finished IsExact
  store_buffered_chunk-Stored documented request body s known h =
      let payload : Body = record {
        content = take request.encoded_size body.content;
        failure = none;
      } in
      let o = store.put s request.object_name payload request.encoded_size in
      ground (
        arith,
        length-drop request.encoded_size body.content,
        buffered_end-kept request.object_name payload o known
            (documented s request.object_name payload request.encoded_size),
      )

  -- With a store that does as documented, a chunk request that is answered with success, whether the
  -- chunk is new or known, leaves its object in the store, and its body held exactly the bytes that
  -- it announced.
  pub store_chunk-Stored :
      (documented : Documented) (request : ChunkRequest) (body : Body) (s : S) (known : Bool)
      → (store_chunk store request body s).1 ≡ ok known
      → Stored request body (store_chunk store request body s).0
  unfolding store_chunk
  store_chunk-Stored documented request body s known h = ground (
    arith,
    store_buffered_chunk-Stored documented request body s known,
    store_streamed_chunk-Stored documented request body s known,
  )
