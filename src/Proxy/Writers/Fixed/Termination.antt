-- ===== src/Proxy/Writers/Fixed/Termination.antt =====
-- When closing the writer of a fixed index comes to an end, and when it does not.
use pmoxs3backuproxy.Prelude.{
  ℕ, zero, suc, ◌+◌, ◌-◌, ◌*◌, ◌≤◌, ◌<◌, Bool, true, false, Option, none, some, [], ◌∷◌, ◌++◌, ◌≡◌,
  ◌≢◌, refl, arith, ltb, lt→ltb, le→ltb, le→leb, length, take, drop, Option-cases, inl, inr,
  length-append, length-drop, length-take_of_le,
}
use pmoxs3backuproxy.Prelude.Strings.{Bytes}
use pmoxs3backuproxy.Prelude.Words.{two64, add64, uint64_of, put_uint64}
use pmoxs3backuproxy.Index.{slice}
use pmoxs3backuproxy.Proxy.Writers.{Assignments, Writer, assigned}
use pmoxs3backuproxy.Proxy.Writers.Fixed.{
  Reused, running, overwrite, copy_slice, copy_all, stamp, fill, new_array, reused_writer,
  close_with, fixed_close, fixed_close_reusing,
}
use pmoxs3backuproxy.Proxy.Writers.Fixed.Fill.{fill-ends}

le_mul : (size c : ℕ) → 0 < c → size ≤ size * c
le_mul zero c h = omega arith
le_mul (suc size) c h = omega (arith, le_mul size c h)

module _ (csum uuid : Bytes) (ctime : ℕ) where
  close_with-ends :
      (writer : Writer) (reuse : Bool) (len : ℕ) (array : Option Bytes)
      → 0 < writer.chunksize
      → writer.size + writer.chunksize ≤ two64
      → close_with (suc writer.size) csum uuid ctime writer reuse len array ≢ running
  unfolding close_with
  close_with-ends writer reuse len none positive fits e = cc
  close_with-ends writer reuse len (some buffer) positive fits e =
      elim (Option-cases (stamp csum uuid ctime buffer)) [
        | inl n ↦ absurd (ground (arith, n, e))
        | inr (buffer', st) ↦
            let filled =
              fill writer.assignments reuse writer.chunksize writer.size (suc writer.size) 0 0
                buffer' in
            let ends : filled ≢ running =
              fill-ends writer.assignments reuse writer.chunksize writer.size writer.size 0 0
                buffer' (omega (arith, le_mul writer.size writer.chunksize positive)) fits in
            absurd (grind (arith, st, e, ends))
      ]

  -- Closing a writer with a positive chunk size, which its size does not bring above 2^64, ends
  -- within as many rounds as the size tells.
  pub fixed_close-ends :
      (writer : Writer)
      → 0 < writer.chunksize
      → writer.size + writer.chunksize ≤ two64
      → fixed_close (suc writer.size) csum uuid ctime writer ≢ running
  unfolding fixed_close
  fixed_close-ends writer positive fits =
      close_with-ends writer false (4096 + 32 * length writer.assignments) (new_array writer)
        positive fits

fill-diverges :
    (m : Assignments) (size fuel k : ℕ) (buffer : Bytes)
    → 0 < size
    → assigned m 0 ≡ none
    → fill m true 0 size fuel 0 k buffer ≡ running
unfolding fill
fill-diverges m size zero k buffer h e = refl
fill-diverges m size (suc fuel) k buffer h e =
    rw (fill, lt→ltb 0 size h, e) (fill-diverges m size fuel (add64 k 1) buffer h e)

length-take_le : (n : ℕ) (s : Bytes) → length (take n s) ≤ n
length-take_le zero s = omega arith
length-take_le (suc n) [] = omega arith
length-take_le (suc n) (x ∷ s) = omega (arith, length-take_le n s)

-- A write within the array leaves its length.
copy_slice-within :
    (lo hi : ℕ) (s buffer : Bytes)
    → lo ≤ hi
    → hi ≤ length buffer
    → (buffer' : Bytes) × (copy_slice lo hi s buffer ≡ some buffer')
      × (length buffer' ≡ length buffer)
unfolding copy_slice overwrite
copy_slice-within lo hi s buffer h l = (
  overwrite lo (take (hi - lo) s) buffer,
  rw (le→leb lo hi h, le→leb hi (length buffer) l) refl,
  omega (
    arith,
    length-append (take lo buffer)
        (take (hi - lo) s ++ drop (lo + length (take (hi - lo) s)) buffer),
    length-append (take (hi - lo) s) (drop (lo + length (take (hi - lo) s)) buffer),
    length-take_of_le lo buffer (omega arith),
    length-drop (lo + length (take (hi - lo) s)) buffer,
    length-take_le (hi - lo) s,
  ),
)

stamp-within :
    (csum uuid : Bytes) (ctime : ℕ) (buffer : Bytes)
    → 32 ≤ length csum
    → 64 ≤ length buffer
    → (buffer' : Bytes) × (stamp csum uuid ctime buffer ≡ some buffer')
unfolding stamp copy_all
stamp-within csum uuid ctime buffer hc hb =
    let enough : ltb (length csum) 32 ≡ false = le→ltb (length csum) 32 hc in
    let (b1, e1, l1) = copy_slice-within 32 64 (take 32 csum) buffer (omega arith) hb in
    let (b2, e2, l2) = copy_slice-within 8 24 uuid b1 (omega arith) (omega (arith, l1)) in
    let (b3, e3, l3) =
      copy_slice-within 24 32 (put_uint64 ctime) b2 (omega arith) (omega (arith, l1, l2)) in
    (b3, rw (enough, copy_all, e1, e2, e3) refl)

-- With a reused index whose chunk size is 0 and whose size is not, and no chunk assigned to the
-- offset 0, closing does not end with any fuel. The index holds its header, and the checksum 32
-- bytes.
pub fixed_close_reusing-diverges :
    (csum uuid : Bytes) (ctime fuel : ℕ) (old : Reused) (writer : Writer)
    → 80 ≤ length old.array
    → uint64_of (slice old.array 72 80) ≡ 0
    → 0 < uint64_of (slice old.array 64 72)
    → assigned writer.assignments 0 ≡ none
    → 32 ≤ length csum
    → fixed_close_reusing fuel csum uuid ctime old writer ≡ running
unfolding fixed_close_reusing reused_writer close_with
fixed_close_reusing-diverges csum uuid ctime fuel old writer hb zero_size hs none_at hc =
    let header : ltb (length old.array) 80 ≡ false = le→ltb (length old.array) 80 hb in
    let (buffer, st) = stamp-within csum uuid ctime old.array hc (omega arith) in
    rw
      (
        fixed_close_reusing,
        reused_writer,
        header,
        close_with,
        st,
        zero_size,
        fill-diverges writer.assignments (uint64_of (slice old.array 64 72)) fuel 0 buffer hs
            none_at,
      )
      refl
