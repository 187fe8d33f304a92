-- ===== src/Proxy/Writers/Fixed/RoundTrip.antt =====
-- A fixed index that the proxy writes, as the collector reads it.
use mathlib.Core.List.{append_assoc}
use pmoxs3backuproxy.Prelude.{
  ℕ, zero, suc, ◌+◌, ◌-◌, ◌*◌, ◌≤◌, ◌<◌, true, false, some, List, [], ◌∷◌, ◌++◌, map, ◌≡◌, ◌∙◌,
  refl, sym, ap, arith, ok, ltb, le→ltb, length, take, drop, replicate, All, length-append,
  length-take_of_le, take-append_of_eq, drop-append_of_eq, length-replicate,
}
use pmoxs3backuproxy.Prelude.Hex.{encode_to_string}
use pmoxs3backuproxy.Prelude.Strings.{Bytes, codes, has_suffix}
use pmoxs3backuproxy.Prelude.Words.{two64, put_uint64, uint64_of-put_uint64, length-le_bytes}
use pmoxs3backuproxy.Index.{index_magic_fixed, slice, fixed_digests, parse_index}
use pmoxs3backuproxy.Index.Fixed.{parse_index-fixed}
use pmoxs3backuproxy.Proxy.Writers.{Writer, Assignments}
use pmoxs3backuproxy.Proxy.Writers.Fixed.{
  copy_slice, copy_all, new_array, stamp, closed, fill, close_with, fixed_close,
}
use pmoxs3backuproxy.Proxy.Writers.Fixed.Fill.{
  concat, values_at, values_at-suc, copy_slice-append, fill-values,
}

append-nil : (s : Bytes) → s ++ [] ≡ s
append-nil [] = refl
append-nil (x ∷ s) = ap (◌∷◌ x) (append-nil s)

zeros : ℕ → Bytes
zeros n = replicate n 0

zeros-add : (a b : ℕ) → zeros (a + b) ≡ zeros a ++ zeros b
unfolding zeros
zeros-add zero b = let e : 0 + b ≡ b = omega arith in rw e refl
zeros-add (suc a) b =
    let e : suc a + b ≡ suc (a + b) = omega arith in rw e (ap (◌∷◌ 0) (zeros-add a b))

length-zeros : (n : ℕ) → length (zeros n) ≡ n
unfolding zeros
length-zeros n = length-replicate {A = ℕ} n 0

concat-append : (xs ys : List Bytes) → concat (xs ++ ys) ≡ concat xs ++ concat ys
unfolding concat
concat-append [] ys = refl
concat-append (x ∷ xs) ys = rw (concat-append xs ys, append_assoc x (concat xs) (concat ys)) refl

abbrev total : List Bytes → ℕ
total [] = 0
total (x ∷ xs) = length x + total xs

length-concat : (xs : List Bytes) → length (concat xs) ≡ total xs
unfolding concat
length-concat [] = refl
length-concat (x ∷ xs) = omega (arith, length-append x (concat xs), length-concat xs)

-- An array as a list of fields, of which one is written or read.
module _ (lo n : ℕ) (pre post : List Bytes) (t : Bytes) (at_lo : length (concat pre) ≡ lo)
    (width : length t ≡ n) where
  copy_slice-field :
      (s : Bytes)
      → length s ≡ n
      → copy_slice lo (lo + n) s (concat (pre ++ (t ∷ post))) ≡ some (concat (pre ++ (s ∷ post)))
  unfolding concat
  copy_slice-field s h =
      rw (concat-append pre (t ∷ post), concat-append pre (s ∷ post))
        (copy_slice-append lo n (concat pre) t (concat post) s at_lo width h)

  slice-field : slice (concat (pre ++ (t ∷ post))) lo (lo + n) ≡ t
  unfolding concat
  slice-field =
      let w : lo + n - lo ≡ n = omega arith in
      rw
        (
          concat-append pre (t ∷ post),
          w,
          drop-append_of_eq lo (concat pre) (t ++ concat post) at_lo,
        )
        (take-append_of_eq n t (concat post) width)

-- The digests assigned to `n` offsets.
values_at-length :
    (m : Assignments) (c i n : ℕ) (ds : List Bytes) → values_at m c i n ≡ some ds → length ds ≡ n
unfolding values_at
values_at-length m c i zero [] e = refl
values_at-length m c i zero (d ∷ ds) e = absurd (ground (arith, e))
values_at-length m c i (suc n) ds e =
    let (d, rest, f, g, eq) = values_at-suc m c i n ds e in
    rw (← eq) (ap suc (values_at-length m c (i + c) n rest g))

fixed_digests-concat :
    (ds : List Bytes)
    → All (λ d. length d ≡ 32) ds
    → (length (concat ds) ≡ 32 * length ds)
      × (fixed_digests (length ds) (concat ds) ≡ map encode_to_string ds)
unfolding concat fixed_digests
fixed_digests-concat [] hs = (refl, refl)
fixed_digests-concat (d ∷ ds) (h, hs) =
    let (l, digests) = fixed_digests-concat ds hs in
    (
      omega (arith, length-append d (concat ds), l, h),
      rw (take-append_of_eq 32 d (concat ds) h, drop-append_of_eq 32 d (concat ds) h, digests) refl,
    )

-- The array of an index, as fields, and what the two sequences of writes make of it.
fields : (a b c d e f r : Bytes) → List Bytes
fields a b c d e f r = a ∷ b ∷ c ∷ d ∷ e ∷ f ∷ r ∷ []

module _ (a b c d e f r : Bytes) (la : length a ≡ 8) (lb : length b ≡ 16) (lc : length c ≡ 8)
    (ld : length d ≡ 32) (le : length e ≡ 8) (lf : length f ≡ 8) where
  new-fields :
      (m x y : Bytes)
      → length m ≡ 8
      → length x ≡ 8
      → length y ≡ 8
      → copy_all ((0, 8, m) ∷ (64, 72, x) ∷ (72, 80, y) ∷ []) (concat (fields a b c d e f r))
        ≡ some (concat (fields m b c d x y r))
  unfolding copy_all fields
  new-fields m x y lm lx ly =
      rw
        (
          copy_all,
          copy_slice-field 0 8 [] (b ∷ c ∷ d ∷ e ∷ f ∷ r ∷ []) a (length-concat []) la m lm,
          copy_slice-field 64 8 (m ∷ b ∷ c ∷ d ∷ []) (f ∷ r ∷ []) e
              (omega (arith, length-concat (m ∷ b ∷ c ∷ d ∷ []), lm, lb, lc, ld)) le x lx,
          copy_slice-field 72 8 (m ∷ b ∷ c ∷ d ∷ x ∷ []) (r ∷ []) f
              (omega (arith, length-concat (m ∷ b ∷ c ∷ d ∷ x ∷ []), lm, lb, lc, ld, lx)) lf y ly,
        )
        refl

  stamp-fields :
      (csum uuid : Bytes) (ctime : ℕ)
      → 32 ≤ length csum
      → length uuid ≡ 16
      → stamp csum uuid ctime (concat (fields a b c d e f r))
        ≡ some (concat (fields a uuid (put_uint64 ctime) (take 32 csum) e f r))
  unfolding stamp copy_all fields
  stamp-fields csum uuid ctime hs hu =
      let enough : ltb (length csum) 32 ≡ false = le→ltb (length csum) 32 hs in
      let taken = length-take_of_le 32 csum hs in
      rw
        (
          enough,
          copy_all,
          copy_slice-field 32 32 (a ∷ b ∷ c ∷ []) (e ∷ f ∷ r ∷ []) d
              (omega (arith, length-concat (a ∷ b ∷ c ∷ []), la, lb, lc)) ld (take 32 csum) taken,
          copy_slice-field 8 16 (a ∷ []) (c ∷ take 32 csum ∷ e ∷ f ∷ r ∷ []) b
              (omega (arith, length-concat (a ∷ []), la)) lb uuid hu,
          copy_slice-field 24 8 (a ∷ uuid ∷ []) (take 32 csum ∷ e ∷ f ∷ r ∷ []) c
              (omega (arith, length-concat (a ∷ uuid ∷ []), la, hu)) lc (put_uint64 ctime)
              (length-le_bytes 8 ctime),
        )
        refl

zeros-fields :
    (n : ℕ)
    → zeros (4096 + n)
      ≡ concat
          (fields (zeros 8) (zeros 16) (zeros 8) (zeros 32) (zeros 8) (zeros 8) (zeros (4016 + n)))
unfolding fields concat
zeros-fields n =
    let e : 4096 + n ≡ 8 + (16 + (8 + (32 + (8 + (8 + (4016 + n)))))) = omega arith in
    rw
      (
        e,
        zeros-add 8 (16 + (8 + (32 + (8 + (8 + (4016 + n)))))),
        zeros-add 16 (8 + (32 + (8 + (8 + (4016 + n))))),
        zeros-add 8 (32 + (8 + (8 + (4016 + n)))),
        zeros-add 32 (8 + (8 + (4016 + n))),
        zeros-add 8 (8 + (4016 + n)),
        zeros-add 8 (4016 + n),
        append-nil (zeros (4016 + n)),
      )
      refl

length-magic : length index_magic_fixed ≡ 8
unfolding index_magic_fixed
length-magic = refl

fields-append :
    (a b c d e f r s : Bytes)
    → concat (fields a b c d e f r) ++ s ≡ concat (fields a b c d e f (r ++ s))
unfolding fields concat
fields-append a b c d e f r s = simp (append_assoc, append-nil)

module _ (csum uuid : Bytes) (ctime : ℕ) (writer : Writer) (ds : List Bytes) where
  -- The header of the index that is put.
  header : Bytes
  header = concat (
      fields index_magic_fixed uuid (put_uint64 ctime) (take 32 csum) (put_uint64 writer.size)
        (put_uint64 writer.chunksize) (zeros 4016))

  header-append :
      (rest : Bytes)
      → header ++ rest
        ≡ concat (
            fields index_magic_fixed uuid
              (put_uint64 ctime)
              (take 32 csum)
              (put_uint64 writer.size)
              (put_uint64 writer.chunksize)
              (zeros 4016 ++ rest))
  unfolding header
  header-append rest =
      fields-append index_magic_fixed uuid (put_uint64 ctime) (take 32 csum)
        (put_uint64 writer.size) (put_uint64 writer.chunksize) (zeros 4016) rest

  header-zeros :
      (n : ℕ)
      → concat (
          fields index_magic_fixed uuid
            (put_uint64 ctime)
            (take 32 csum)
            (put_uint64 writer.size)
            (put_uint64 writer.chunksize)
            (zeros (4016 + n)))
        ≡ header ++ zeros n
  header-zeros n = rw (zeros-add 4016 n) (sym (header-append (zeros n)))

  new_array-fields :
      new_array writer
      ≡ some (
          concat (
            fields index_magic_fixed
              (zeros 16)
              (zeros 8)
              (zeros 32)
              (put_uint64 writer.size)
              (put_uint64 writer.chunksize)
              (zeros (4016 + 32 * length writer.assignments))))
  unfolding new_array zeros
  new_array-fields =
      let n = 32 * length writer.assignments in
      let z = length-zeros in
      let size = put_uint64 writer.size in
      let chunksize = put_uint64 writer.chunksize in
      ap (copy_all ((0, 8, index_magic_fixed) ∷ (64, 72, size) ∷ (72, 80, chunksize) ∷ []))
        (zeros-fields n)
      ∙ new-fields (zeros 8) (zeros 16) (zeros 8) (zeros 32) (zeros 8) (zeros 8) (zeros (4016 + n))
          (z 8) (z 16) (z 8) (z 32) (z 8) (z 8) index_magic_fixed size chunksize length-magic
          (length-le_bytes 8 writer.size) (length-le_bytes 8 writer.chunksize)

  module _ (hc : 32 ≤ length csum) (hu : length uuid ≡ 16) where
    length-header : length header ≡ 4096
    unfolding header fields index_magic_fixed
    length-header = omega (
      arith,
      length-concat (
          fields index_magic_fixed uuid (put_uint64 ctime) (take 32 csum) (put_uint64 writer.size)
            (put_uint64 writer.chunksize) (zeros 4016)),
      hu,
      length-le_bytes 8 ctime,
      length-le_bytes 8 writer.size,
      length-le_bytes 8 writer.chunksize,
      length-take_of_le 32 csum hc,
      length-zeros 4016,
    )

    -- The array before the loop.
    stamped :
        (buffer : Bytes) × (new_array writer ≡ some buffer)
        × (stamp csum uuid ctime buffer ≡ some (header ++ zeros (32 * length writer.assignments)))
    stamped =
        let n = 32 * length writer.assignments in
        let size = put_uint64 writer.size in
        let chunksize = put_uint64 writer.chunksize in
        let rest = zeros (4016 + n) in
        let ls = length-le_bytes 8 writer.size in
        let lc = length-le_bytes 8 writer.chunksize in
        (
          concat (fields index_magic_fixed (zeros 16) (zeros 8) (zeros 32) size chunksize rest),
          new_array-fields,
          stamp-fields index_magic_fixed (zeros 16) (zeros 8) (zeros 32) size chunksize rest
                length-magic (length-zeros 16) (length-zeros 8) (length-zeros 32) ls lc csum uuid
                ctime hc hu
              ∙ ap some (header-zeros n),
        )

    -- What the closed index holds, as far as the collector reads it.
    header-magic : (rest : Bytes) → take 8 (header ++ rest) ≡ index_magic_fixed
    unfolding concat fields index_magic_fixed
    header-magic rest =
        ap (take 8) (header-append rest)
        ∙ slice-field 0 8 []
            (uuid
              ∷ put_uint64 ctime
              ∷ take 32 csum
              ∷ put_uint64 writer.size
              ∷ put_uint64 writer.chunksize
              ∷ (zeros 4016 ++ rest)
              ∷ [])
            index_magic_fixed (length-concat []) length-magic

    header-csum : (rest : Bytes) → slice (header ++ rest) 32 64 ≡ take 32 csum
    unfolding fields
    header-csum rest =
        ap (λ b. slice b 32 64) (header-append rest)
        ∙ slice-field 32 32 (index_magic_fixed ∷ uuid ∷ put_uint64 ctime ∷ [])
            (put_uint64 writer.size ∷ put_uint64 writer.chunksize ∷ (zeros 4016 ++ rest) ∷ [])
            (take 32 csum)
            (omega (
              arith,
              length-concat (index_magic_fixed ∷ uuid ∷ put_uint64 ctime ∷ []),
              length-magic,
              hu,
              length-le_bytes 8 ctime,
            ))
            (length-take_of_le 32 csum hc)

    header-size : (rest : Bytes) → slice (header ++ rest) 64 72 ≡ put_uint64 writer.size
    unfolding fields
    header-size rest =
        ap (λ b. slice b 64 72) (header-append rest)
        ∙ slice-field 64 8 (index_magic_fixed ∷ uuid ∷ put_uint64 ctime ∷ take 32 csum ∷ [])
            (put_uint64 writer.chunksize ∷ (zeros 4016 ++ rest) ∷ []) (put_uint64 writer.size)
            (omega (
              arith,
              length-concat (index_magic_fixed ∷ uuid ∷ put_uint64 ctime ∷ take 32 csum ∷ []),
              length-magic,
              hu,
              length-le_bytes 8 ctime,
              length-take_of_le 32 csum hc,
            ))
            (length-le_bytes 8 writer.size)

    -- From the loop's result to the file: the slice ends with the last digest.
    fixed_close-stamped :
        (digests rest : Bytes) (fuel : ℕ)
        → length digests ≡ 32 * length writer.assignments
        → fill writer.assignments false writer.chunksize writer.size fuel 0 0
            (header ++ zeros (32 * length writer.assignments))
          ≡ closed (header ++ (digests ++ rest))
        → fixed_close fuel csum uuid ctime writer ≡ closed (header ++ digests)
    unfolding fixed_close close_with
    fixed_close-stamped digests rest fuel ld filled =
        let n = 32 * length writer.assignments in
        let (buffer, new, st) = stamped in
        let cut : take (4096 + n) (header ++ (digests ++ rest)) ≡ header ++ digests =
          ap (take (4096 + n)) (sym (append_assoc header digests rest))
          ∙ take-append_of_eq (4096 + n) (header ++ digests) rest
              (omega (arith, length-append header digests, length-header, ld)) in
        rw (new, close_with, st, filled, cut) refl

-- fixed_close, without an index to reuse, puts a file that parse_index accepts under a name that
-- ends in `.fidx`, and from which it reads back the digests of the assignments in the order of their
-- offsets, and the size of the writer. The assignments are those of the offsets 0, c, 2c, ... below
-- the size and no others, with digests of 32 bytes; the fuel is above their number; the uuid has 16
-- bytes; the checksum has 32 at least and its first 32 are that of the digests; no sum of a size and
-- an offset wraps.
pub fixed_close-parse_index :
    (sha256 : Bytes → Bytes) (key : Bytes) (fuel : ℕ) (csum uuid : Bytes) (ctime : ℕ)
    (writer : Writer) (ds : List Bytes)
    → let n = length writer.assignments in
      n < fuel
      → values_at writer.assignments writer.chunksize 0 n ≡ some ds
      → writer.size ≤ n * writer.chunksize
      → n * writer.chunksize < writer.size + writer.chunksize
      → writer.size + writer.chunksize ≤ two64
      → 4096 + 32 * n < two64
      → All (λ d. length d ≡ 32) ds
      → 32 ≤ length csum
      → length uuid ≡ 16
      → sha256 (concat ds) ≡ take 32 csum
      → has_suffix key (codes ".fidx") ≡ true
      → (file : Bytes) × (fixed_close fuel csum uuid ctime writer ≡ closed file)
        × (parse_index sha256 key file (encode_to_string (take 32 csum))
            ≡ ok (record {
              checksum = encode_to_string (take 32 csum);
              digests = map encode_to_string ds;
              logical_size = writer.size;
            }))
fixed_close-parse_index sha256 key fuel csum uuid ctime writer ds h e lo hi fits small hs hc hu sum
      f =
    let n = length writer.assignments in
    let start = header csum uuid ctime writer ds in
    let lh = length-header csum uuid ctime writer ds hc hu in
    let le = values_at-length writer.assignments writer.chunksize 0 n ds e in
    let (ld, digests) = fixed_digests-concat ds hs in
    let size = header-size csum uuid ctime writer ds hc hu (concat ds) in
    let back = uint64_of-put_uint64 writer.size (omega arith) in
    let filled =
      fill-values writer.assignments false writer.chunksize writer.size n fuel 0 0 ds start
        (zeros (32 * n)) h (omega arith) (omega arith) fits e hs (omega (arith, lh))
        (omega (arith, length-zeros (32 * n))) (omega (arith, lh, length-zeros (32 * n))) in
    let read : fixed_digests n (concat ds) ≡ map encode_to_string ds =
      ap (λ j. fixed_digests j (concat ds)) (sym le) ∙ digests in
    (
      start ++ concat ds,
      fixed_close-stamped csum uuid ctime writer ds hc hu (concat ds)
          (drop (32 * n) (zeros (32 * n))) fuel (omega (arith, ld, le)) filled,
      parse_index-fixed sha256 key (start ++ concat ds) (take 32 csum) (concat ds) n f
            (omega (arith, length-append start (concat ds), lh))
            (header-magic csum uuid ctime writer ds hc hu (concat ds))
            (header-csum csum uuid ctime writer ds hc hu (concat ds))
            (drop-append_of_eq 4096 start (concat ds) lh) sum (omega (arith, ld, le))
          ∙ rw (read, size, back) refl,
    )
