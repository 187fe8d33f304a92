-- ===== src/Index/Sizes.antt =====
-- The size that is read from a few bytes of an index file, and the one that parsing all of it finds.
use pmoxs3backuproxy.Prelude.{
  ℕ, zero, suc, ◌+◌, ◌-◌, ◌*◌, ◌/◌, ◌%◌, ◌≤◌, ◌<◌, true, false, [], ◌∷◌, ◌==◌, ltb, leb, ◌≡◌, ◌∙◌,
  refl, sym, arith, ok, guard-eq-ok, ok-injective, ==_iff, ap, >>=-eq-ok, length, take, drop,
  drop-drop, length-drop, length-take_of_le, le→ltb, le→leb, Bool-cases, inl, inr,
}
use pmoxs3backuproxy.Prelude.Int.{pos}
use pmoxs3backuproxy.Prelude.Strings.{Bytes, codes, has_suffix, bytes_eq_iff, bytes_eq_refl}
use pmoxs3backuproxy.Prelude.Words.{uint64_of}
use pmoxs3backuproxy.Index.Dynamic.{whole_entries}
use pmoxs3backuproxy.Index.{
  index_magic_fixed, slice, ParsedIndex, dynamic_size, parse_index, compare_sum, fixed_record,
  dynamic_record, index_record, RangedGet, range_read, fixed_archive_size, sized_dynamic,
  dynamic_archive_size, archive_size,
}

lt→leb : (a b : ℕ) → b < a → leb a b ≡ false
lt→leb a b h = ground arith

take-take : (m n : ℕ) (xs : Bytes) → m ≤ n → take m (take n xs) ≡ take m xs
take-take zero n xs h = refl
take-take (suc m) zero xs h = absurd (omega arith)
take-take (suc m) (suc n) [] h = refl
take-take (suc m) (suc n) (x ∷ xs) h = rw (take-take m n xs (omega arith))

take-nil : (n : ℕ) → take {A = ℕ} n [] ≡ []
take-nil zero = refl
take-nil (suc n) = refl

drop-take : (m n : ℕ) (xs : Bytes) → drop m (take n xs) ≡ take (n - m) (drop m xs)
drop-take zero n xs = let e : n - 0 ≡ n = omega arith in rw e
drop-take (suc m) zero xs = let e : 0 - suc m ≡ 0 = omega arith in rw e
drop-take (suc m) (suc n) [] =
    let e : suc n - suc m ≡ n - m = omega arith in rw e (sym (take-nil (n - m)))
drop-take (suc m) (suc n) (x ∷ xs) =
    let e : suc n - suc m ≡ n - m = omega arith in rw e (drop-take m n xs)

length-entry :
    (xs : Bytes) (a : ℕ) → a + 40 ≤ length xs → length (take 40 (slice xs a (a + 40))) ≡ 40
length-entry xs a h =
    let width : a + 40 - a ≡ 40 = omega arith in
    rw (width, take-take 40 40 (drop a xs) (omega arith))
      (length-take_of_le 40 (drop a xs) (omega (arith, length-drop a xs, h)))

-- The size of a dynamic index is the end offset of its last entry.
dynamic_size-last :
    (n size : ℕ) (payload : Bytes)
    → dynamic_size size (suc n) payload ≡ uint64_of (take 8 (drop (40 * n) payload))
unfolding dynamic_size
dynamic_size-last zero size payload = refl
dynamic_size-last (suc n) size payload =
    let e : 40 * suc n ≡ 40 + 40 * n = omega arith in
    rw (dynamic_size-last n (uint64_of (take 8 payload)) (drop 40 payload))
      (rw (drop-drop (40 * n) 40 payload) (rw e))

module _ (sha256 : Bytes → Bytes) (key contents metadata : Bytes) (p : ParsedIndex) where
  -- What parse_index has checked of a file that it accepts.
  parse_index-long :
      parse_index sha256 key contents metadata ≡ ok p
      → (4096 ≤ length contents)
        × (index_record sha256 key contents (drop 4096 contents) metadata ≡ ok p)
  unfolding parse_index
  parse_index-long h = elim (Bool-cases (ltb (length contents) 4096)) [
    | inl short ↦ absurd (ground (arith, short, h))
    | inr long ↦
        let (u, e, r) =
          >>=-eq-ok {A = Unit {0}}
            (compare_sum sha256 key (slice contents 32 64) (drop 4096 contents) metadata)
            (λ u. index_record sha256 key contents (drop 4096 contents) metadata) (rw long at h) in
        (ground (arith, long), r)
  ]

  fixed_record-accepts :
      (payload : Bytes)
      → fixed_record sha256 key contents payload metadata ≡ ok p
      → (take 8 contents ≡ index_magic_fixed) × (p.logical_size ≡ uint64_of (slice contents 64 72))
  unfolding fixed_record
  fixed_record-accepts payload h =
      let (magic, h') = guard-eq-ok _ _ _ h in
      let (whole, r) = guard-eq-ok _ _ _ h' in
      (
        (bytes_eq_iff (take 8 contents) index_magic_fixed).0 magic,
        sym (ap (λ q. q.logical_size) (ok-injective r)),
      )

  dynamic_record-accepts :
      (payload : Bytes)
      → dynamic_record sha256 key contents payload metadata ≡ ok p
      → (length payload % 40 ≡ 0) × (p.logical_size ≡ dynamic_size 0 (length payload / 40) payload)
  unfolding dynamic_record
  dynamic_record-accepts payload h =
      let (magic, h') = guard-eq-ok _ _ _ h in
      let (whole, r) = guard-eq-ok _ _ _ h' in
      ((==_iff (length payload % 40) 0).0 whole, sym (ap (λ q. q.logical_size) (ok-injective r)))

module _ (get_range : RangedGet) (key contents : Bytes)
    (served : (lo hi : ℕ) → get_range key lo hi ≡ ok (slice contents lo (hi + 1))) where
  fixed_archive_size-served :
      4096 ≤ length contents
      → take 8 contents ≡ index_magic_fixed
      → fixed_archive_size get_range key ≡ ok (uint64_of (slice contents 64 72))
  unfolding fixed_archive_size range_read
  fixed_archive_size-served l m =
      let head : Bytes = take 80 contents in
      let whole : take 80 (take 80 contents) ≡ head = take-take 80 80 contents (omega arith) in
      let long : ltb (length head) 80 ≡ false =
        le→ltb (length head) 80
          (omega (arith, l, length-take_of_le 80 contents (omega (arith, l)))) in
      let magic : take 8 head ≡ index_magic_fixed = take-take 8 80 contents (omega arith) ∙ m in
      let size : take 8 (drop 64 head) ≡ take 8 (drop 64 contents) =
        rw (drop-take 64 80 contents) (take-take 8 16 (drop 64 contents) (omega arith)) in
      rw (served 0 79, whole, long, magic, bytes_eq_refl index_magic_fixed, size) refl

  -- The end offset of the last entry, where there is one.
  last_entry :
      (n : ℕ)
      → length contents ≡ 4096 + 40 * suc n
      → take 8 (take 40 (slice contents (4096 + 40 * n) (4096 + 40 * n + 40)))
        ≡ take 8 (drop (40 * n) (drop 4096 contents))
  last_entry n l =
      let width : 4096 + 40 * n + 40 - (4096 + 40 * n) ≡ 40 = omega arith in
      rw (width, drop-drop (40 * n) 4096 contents)
        (take-take 8 40 _ (omega arith) ∙ take-take 8 40 _ (omega arith))

  sized_dynamic-served :
      (size n : ℕ)
      → length contents ≡ size
      → size ≡ 4096 + 40 * n
      → sized_dynamic get_range key size ≡ ok (dynamic_size 0 n (drop 4096 contents))
  unfolding sized_dynamic range_read dynamic_size
  sized_dynamic-served size zero l e =
      let small : leb size 4096 ≡ true = le→leb size 4096 (omega (arith, e)) in rw small refl
  sized_dynamic-served size (suc n) l e =
      let large : leb size 4096 ≡ false = lt→leb size 4096 (omega (arith, e)) in
      let whole : ((size - 4096) % 40 == 0) ≡ true =
        whole_entries (size - 4096) (suc n) (omega (arith, e)) in
      let first : size - 40 ≡ 4096 + 40 * n = omega (arith, e) in
      let last : size - 1 + 1 ≡ 4096 + 40 * n + 40 = omega (arith, e) in
      let width : size - 1 - (4096 + 40 * n) + 1 ≡ 40 = omega (arith, e) in
      let got : get_range key (4096 + 40 * n) (size - 1)
          ≡ ok (slice contents (4096 + 40 * n) (4096 + 40 * n + 40)) =
        rw (← last) (served (4096 + 40 * n) (size - 1)) in
      let long : ltb (length (take 40 (slice contents (4096 + 40 * n) (4096 + 40 * n + 40)))) 8
          ≡ false =
        le→ltb _ 8 (omega (arith, length-entry contents (4096 + 40 * n) (omega (arith, l, e)))) in
      let entry = last_entry n (l ∙ e) in
      rw (large, whole, first, got, width, long, entry, dynamic_size-last n 0 (drop 4096 contents))
        refl

-- ArchiveSize, which reads 80 bytes of a fixed index or one entry of a dynamic one, finds the logical
-- size that parsing the whole file finds, for every file that parse_index accepts. The store serves the
-- ranges of that file.
pub archive_size-parse_index :
    (sha256 : Bytes → Bytes) (key contents metadata : Bytes) (p : ParsedIndex)
    (get_range : RangedGet)
    → ((lo hi : ℕ) → get_range key lo hi ≡ ok (slice contents lo (hi + 1)))
    → parse_index sha256 key contents metadata ≡ ok p
    → archive_size get_range key (pos (length contents)) ≡ ok p.logical_size
unfolding archive_size dynamic_archive_size index_record
archive_size-parse_index sha256 key contents metadata p get_range served h =
    let (long, r) = parse_index-long sha256 key contents metadata p h in
    elim (Bool-cases (has_suffix key (codes ".fidx"))) [
      | inl f ↦
          let (magic, size) = fixed_record-accepts sha256 key contents metadata p _ (rw f at r) in
          rw (f, size) (fixed_archive_size-served get_range key contents served long magic)
      | inr nf ↦ elim (Bool-cases (has_suffix key (codes ".didx"))) [
        | inl d ↦
            let (whole, size) =
              dynamic_record-accepts sha256 key contents metadata p _ (rw (nf, d) at r) in
            let payload = drop 4096 contents in
            let entries : length contents ≡ 4096 + 40 * (length payload / 40) =
              omega (arith, length-drop 4096 contents, whole, long) in
            rw (nf, d, size)
              (sized_dynamic-served get_range key contents served (length contents)
                (length payload / 40) refl entries)
        | inr nd ↦ absurd (ground (arith, rw (nf, nd) at r))
      ]
    ]
