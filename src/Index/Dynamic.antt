-- ===== src/Index/Dynamic.antt =====
-- What makes the collector accept a dynamic index.
use pmoxs3backuproxy.Prelude.{
  ℕ, ◌*◌, ◌/◌, ◌%◌, ◌≤◌, true, false, ◌==◌, ltb, ◌≡◌, refl, arith, ok, length, take, drop, le→ltb,
}
use pmoxs3backuproxy.Prelude.Hex.{encode_to_string}
use pmoxs3backuproxy.Prelude.Strings.{Bytes, codes, has_suffix, bytes_eq_refl}
use pmoxs3backuproxy.Index.{
  index_magic_dynamic, slice, dynamic_digests, dynamic_size, parse_index, compare_sum,
  dynamic_record, index_record,
}

pub whole_entries : (l n : ℕ) → l ≡ 40 * n → (l % 40 == 0) ≡ true
whole_entries l n e = let z : l % 40 ≡ 0 = omega (arith, e) in rw z refl

module _ (sha256 : Bytes → Bytes) (key contents csum payload : Bytes) (n : ℕ) where
  pub parse_index-dynamic :
      has_suffix key (codes ".fidx") ≡ false
      → has_suffix key (codes ".didx") ≡ true
      → 4096 ≤ length contents
      → take 8 contents ≡ index_magic_dynamic
      → slice contents 32 64 ≡ csum
      → drop 4096 contents ≡ payload
      → sha256 payload ≡ csum
      → length payload ≡ 40 * n
      → parse_index sha256 key contents (encode_to_string csum)
        ≡ ok (record {
          checksum = encode_to_string csum;
          digests = dynamic_digests n payload;
          logical_size = dynamic_size 0 n payload;
        })
  unfolding parse_index compare_sum dynamic_record index_record
  parse_index-dynamic nf d l m c p s lp =
      let long : ltb (length contents) 4096 ≡ false = le→ltb (length contents) 4096 l in
      let whole : (length payload % 40 == 0) ≡ true = whole_entries (length payload) n lp in
      let count : length payload / 40 ≡ n = omega (arith, lp) in
      rw
        (
          long,
          c,
          p,
          s,
          bytes_eq_refl (encode_to_string csum),
          nf,
          d,
          m,
          bytes_eq_refl index_magic_dynamic,
          whole,
          count,
        )
        refl
