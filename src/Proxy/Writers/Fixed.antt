-- ===== src/Proxy/Writers/Fixed.antt =====
-- Closing the writer of a fixed index (cmd/pmoxs3backuproxy/main.go): the file that is put, new or
-- made from the index of an earlier backup.
pub mod Fill
pub mod RoundTrip
pub mod Termination
use pmoxs3backuproxy.Prelude.{
  ℕ, zero, suc, ◌+◌, ◌-◌, ◌*◌, ◌/◌, ◌%◌, Bool, true, false, ◌&&◌, Option, none, some, List, [], ◌∷◌,
  ◌++◌, ltb, leb, length, take, drop, replicate, if◌then◌else◌,
}
use pmoxs3backuproxy.Prelude.Hex.{decode_string}
use pmoxs3backuproxy.Prelude.Strings.{Bytes}
use pmoxs3backuproxy.Prelude.Words.{two64, add64, put_uint64, uint64_of}
use pmoxs3backuproxy.Index.{index_magic_fixed, slice}
use pmoxs3backuproxy.Proxy.Writers.{Assignments, Writer, assigned}

-- The bytes `s` written over those at `lo`.
unfoldable pub overwrite : ℕ → Bytes → Bytes → Bytes
overwrite lo s buffer = take lo buffer ++ (s ++ drop (lo + length s) buffer)

-- copy(buffer[lo:hi], src), where `buffer` is the whole array behind a slice; `none` stands for the
-- panic on bounds outside of it.
unfoldable pub copy_slice : ℕ → ℕ → Bytes → Bytes → Option Bytes
unfolding overwrite
copy_slice lo hi src buffer =
    if leb lo hi && leb hi (length buffer)
    then some (overwrite lo (take (hi - lo) src) buffer)
    else none

-- How closing ends: with the array, a hole in the index, a panic, or not yet.
pub data Closing : Type 0 where
  closed : Bytes → Closing
  hole panicked running : Closing

module _ (assignments : Assignments) (reuse : Bool) (chunksize size : ℕ) where
  -- The loop over the offsets, with fuel. `k` counts its rounds.
  unfoldable pub fill : ℕ → ℕ → ℕ → Bytes → Closing
  fill zero i k buffer = running
  fill (suc fuel) i k buffer =
      let next = add64 i chunksize in
      elim (ltb i size) [
        | false ↦ closed buffer
        | true ↦ elim (assigned assignments i) [
          | none ↦ elim reuse [ true ↦ fill fuel next (add64 k 1) buffer | false ↦ hole ]
          | some digest ↦
              elim (copy_slice ((4096 + 32 * k) % two64) ((4096 + 32 * k + 32) % two64) digest
                buffer) [ none ↦ panicked | some buffer' ↦ fill fuel next (add64 k 1) buffer' ]
        ]
      ]

-- Writes in order, the first panic ends them.
unfoldable pub copy_all : List (ℕ × ℕ × Bytes) → Bytes → Option Bytes
copy_all [] buffer = some buffer
copy_all ((lo, hi, src) ∷ writes) buffer = elim (copy_slice lo hi src buffer) [
  | none ↦ none
  | some buffer' ↦ copy_all writes buffer'
]

-- The array of a new index: header and room for the assigned digests.
unfoldable pub new_array : Writer → Option Bytes
new_array writer =
    copy_all
      ((0, 8, index_magic_fixed)
        ∷ (64, 72, put_uint64 writer.size)
        ∷ (72, 80, put_uint64 writer.chunksize)
        ∷ [])
      (replicate (4096 + 32 * length writer.assignments) 0)

-- The header fields of every index. `csum` is what the request's checksum decodes to, up to the
-- capacity of its slice.
unfoldable pub stamp : Bytes → Bytes → ℕ → Bytes → Option Bytes
stamp csum uuid ctime buffer =
    if ltb (length csum) 32
    then none
    else copy_all ((32, 64, take 32 csum) ∷ (8, 24, uuid) ∷ (24, 32, put_uint64 ctime) ∷ []) buffer

-- The index to be reused: its array and its length.
pub record Reused : Type 0 where
  pub array : Bytes
  pub len : ℕ

-- The size and the chunk size of a reused index. The proxy reads the latter in the order of bytes of
-- the machine, which is taken to be little-endian.
unfoldable pub reused_writer : Reused → Writer → Option Writer
reused_writer old writer =
    if ltb (length old.array) 80
    then none
    else some (record writer {
      size = uint64_of (slice old.array 64 72);
      chunksize = uint64_of (slice old.array 72 80);
    })

module _ (fuel : ℕ) (csum uuid : Bytes) (ctime : ℕ) where
  -- From the array of the index on: the bytes that are put.
  close_with : Writer → Bool → ℕ → Option Bytes → Closing
  close_with writer reuse len none = panicked
  close_with writer reuse len (some buffer) = elim (stamp csum uuid ctime buffer) [
    | none ↦ panicked
    | some buffer' ↦
        elim (fill writer.assignments reuse writer.chunksize writer.size fuel 0 0 buffer') [
          | closed buffer'' ↦ closed (take len buffer'')
          | hole ↦ hole
          | panicked ↦ panicked
          | running ↦ running
        ]
  ]

  -- fixed_close up to PutObject, without an index to reuse
  unfoldable pub fixed_close : Writer → Closing
  unfolding close_with
  fixed_close writer =
      close_with writer false (4096 + 32 * length writer.assignments) (new_array writer)

  -- fixed_close with the index to reuse
  unfoldable pub fixed_close_reusing : Reused → Writer → Closing
  unfolding close_with
  fixed_close_reusing old writer = elim (reused_writer old writer) [
    | none ↦ panicked
    | some writer' ↦ close_with writer' true old.len (some old.array)
  ]
