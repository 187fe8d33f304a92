-- ===== src/Snapshots/RoundTrip.antt =====
-- The keys that the proxy writes under a snapshot, as the listing reads them.
use mathlib.Core.List.{append_assoc}
use pmoxs3backuproxy.Prelude.{
  ℕ, zero, suc, ◌+◌, ◌/◌, ◌%◌, ◌<◌, false, [], ◌∷◌, ◌++◌, ◌≡◌, ◌≢◌, refl, ap, ◌∙◌, arith, length,
  length-append, All, All-append, All-map, ok,
}
use pmoxs3backuproxy.Prelude.Decimal.{decimal, decimal_from, parse_uint-decimal}
use pmoxs3backuproxy.Prelude.Strings.{
  Bytes, codes, cut-append, split, split-append, split_of_All, trim_prefix-append,
}
use pmoxs3backuproxy.Prelude.Words.{two64}
use pmoxs3backuproxy.Snapshots.{
  Snapshot, prefix_name, s3_prefix, is_empty, time_of, parse_fields, parse_parts,
  parse_snapshot_key,
}

-- No character of a field ends it, or the prefix.
abbrev pub IsFieldChar : ℕ → Type 0
IsFieldChar c = (c ≢ b'|') × (c ≢ b'/')

decimal_from-IsFieldChar :
    (fuel n : ℕ) (out : Bytes) → All IsFieldChar out → All IsFieldChar (decimal_from fuel n out)
unfolding decimal_from
decimal_from-IsFieldChar zero n out h = h
decimal_from-IsFieldChar (suc fuel) n out h = ground (
  arith,
  decimal_from-IsFieldChar fuel (n / 10) ((b'0' + n % 10) ∷ out) ((omega arith, omega arith), h),
)

is_empty-eq-false : (s : Bytes) → 0 < length s → is_empty s ≡ false
is_empty-eq-false [] h = absurd (omega arith)
is_empty-eq-false (c ∷ s) h = refl

module _ (id kind file : Bytes) (time : ℕ) (hi : All IsFieldChar id) (hk : All IsFieldChar kind)
    (ni : 0 < length id) (nk : 0 < length kind) (nf : 0 < length file) (small : time < two64) where
  prefix-no_slash : All (λ c. c ≢ b'/') (prefix_name id time kind)
  unfolding prefix_name decimal
  prefix-no_slash =
      let not_slash : (c : ℕ) → IsFieldChar c → c ≢ b'/' = λ c h. h.1 in
      let digits : All (λ c. c ≢ b'/') (decimal time) =
        All-map _ _ not_slash (decimal time) (decimal_from-IsFieldChar 20 time [] tt) in
      All-append _ id _ (All-map _ _ not_slash id hi) (
        omega arith,
        All-append _ (decimal time) _ digits (omega arith, All-map _ _ not_slash kind hk),
      )

  split-prefix : split (prefix_name id time kind) b'|' ≡ id ∷ decimal time ∷ kind ∷ []
  unfolding prefix_name decimal
  split-prefix =
      let not_bar : (c : ℕ) → IsFieldChar c → c ≢ b'|' = λ c h. h.0 in
      split-append id (decimal time ++ (b'|' ∷ kind)) b'|' (All-map _ _ not_bar id hi)
      ∙ ap (◌∷◌ id) (
          split-append (decimal time) kind b'|'
            (All-map _ _ not_bar (decimal time) (decimal_from-IsFieldChar 20 time [] tt))
          ∙ ap (◌∷◌ (decimal time)) (split_of_All kind b'|' (All-map _ _ not_bar kind hk)))

  prefix-is_empty : is_empty (prefix_name id time kind) ≡ false
  unfolding prefix_name
  prefix-is_empty =
      is_empty-eq-false _
        (omega (arith, ni, length-append id (b'|' ∷ (decimal time ++ (b'|' ∷ kind)))))

  parse_snapshot_key-parts :
      parse_snapshot_key (codes "backups/" ++ (prefix_name id time kind ++ (b'/' ∷ file)))
      ≡ ok (record {
        prefix = prefix_name id time kind;
        id = id;
        time = time;
        kind = kind;
        file = file;
      })
  unfolding parse_snapshot_key parse_parts parse_fields time_of
  parse_snapshot_key-parts =
      rw
        (
          trim_prefix-append (codes "backups/") (prefix_name id time kind ++ (b'/' ∷ file)),
          cut-append (prefix_name id time kind) file b'/' prefix-no_slash,
          is_empty-eq-false file nf,
          prefix-is_empty,
          split-prefix,
          is_empty-eq-false id ni,
          is_empty-eq-false kind nk,
          parse_uint-decimal time small,
        )
        refl

-- The listing reads the id, the time, the type and the file back from the key that S3Prefix and a
-- file name make, for an id and a type that are not empty and hold neither `|` nor `/`, a file name
-- that is not empty, and a time below 2 ^ 64.
pub parse_snapshot_key-s3_prefix :
    (s : Snapshot) (file : Bytes)
    → All IsFieldChar s.backup_id
    → All IsFieldChar s.backup_type
    → 0 < length s.backup_id
    → 0 < length s.backup_type
    → 0 < length file
    → s.backup_time < two64
    → parse_snapshot_key (s3_prefix s ++ (b'/' ∷ file))
      ≡ ok (record {
        prefix = prefix_name s.backup_id s.backup_time s.backup_type;
        id = s.backup_id;
        time = s.backup_time;
        kind = s.backup_type;
        file = file;
      })
unfolding s3_prefix
parse_snapshot_key-s3_prefix s file hi hk ni nk nf small =
    let name = prefix_name s.backup_id s.backup_time s.backup_type in
    ap parse_snapshot_key (append_assoc (codes "backups/") name (b'/' ∷ file))
    ∙ parse_snapshot_key-parts s.backup_id s.backup_type file s.backup_time hi hk ni nk nf small
