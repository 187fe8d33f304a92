-- ===== src/Index/Fixed.antt =====
-- What makes the collector accept a fixed index.
use pmoxs3backuproxy.Prelude.{
  ℕ, ◌*◌, ◌/◌, ◌%◌, ◌≤◌, true, ◌==◌, false, ltb, ◌≡◌, refl, arith, ok, length, take, drop, le→ltb,
}
use pmoxs3backuproxy.Prelude.Hex.{encode_to_string}
use pmoxs3backuproxy.Prelude.Strings.{Bytes, codes, has_suffix, bytes_eq_refl}
use pmoxs3backuproxy.Prelude.Words.{uint64_of}
use pmoxs3backuproxy.Index.{
  index_magic_fixed, slice, fixed_digests, parse_index, compare_sum, fixed_record, index_record,
}

module _ (sha256 : Bytes → Bytes) (key contents csum payload : Bytes) (n : ℕ) where
  pub parse_index-fixed :
      has_suffix key (codes ".fidx") ≡ true
      → 4096 ≤ length contents
      → take 8 contents ≡ index_magic_fixed
      → slice contents 32 64 ≡ csum
      → drop 4096 contents ≡ payload
      → sha256 payload ≡ csum
      → length payload ≡ 32 * n
      → parse_index sha256 key contents (encode_to_string csum)
        ≡ ok (record {
          checksum = encode_to_string csum;
          digests = fixed_digests n payload;
          logical_size = uint64_of (slice contents 64 72);
        })
  unfolding parse_index compare_sum fixed_record index_record
  parse_index-fixed f l m c p s lp =
      let long : ltb (length contents) 4096 ≡ false = le→ltb (length contents) 4096 l in
      let rest : length payload % 32 ≡ 0 = omega (arith, lp) in
      let whole : (length payload % 32 == 0) ≡ true = rw rest refl in
      let count : length payload / 32 ≡ n = omega (arith, lp) in
      rw
        (
          long,
          c,
          p,
          s,
          bytes_eq_refl (encode_to_string csum),
          f,
          m,
          bytes_eq_refl index_magic_fixed,
          whole,
          count,
        )
        refl
