-- ===== src/Manifest/Modes.antt =====
-- The modes that a manifest can give to the files of a snapshot, and the blobs that decode.
use mathlib.Core.List.{append_assoc}
use pmoxs3backuproxy.Prelude.{
  ℕ, ◌+◌, ◌^◌, ◌≤◌, ◌<◌, Bool, true, false, Option, none, some, List, [], ◌∷◌, ◌++◌, ◌==◌, ltb,
  length, drop, ◌≡◌, ◌∙◌, refl, sym, ap, arith, ok, All, if◌then◌else◌, for_each, for_each-cons,
  for_each-nil, >>=-eq-ok, Bool-cases, Option-cases, inl, inr, le→ltb, ==_iff, length-append,
  take-append_of_eq, drop-append_of_eq, ok-injective,
}
use pmoxs3backuproxy.Prelude.Maps.{Map, lookup, insert, lookup-insert}
use pmoxs3backuproxy.Prelude.Strings.{Bytes, bytes_eq}
use pmoxs3backuproxy.Prelude.Words.{uint64_of, le_bytes, length-le_bytes}
use pmoxs3backuproxy.Index.{slice}
use pmoxs3backuproxy.Manifest.{
  ManifestFile, Libraries, uncompressed_blob_magic, compressed_blob_magic, max_manifest_size,
  mode_of, is_supported, add_mode, decode_manifest_blob, decoded_payload,
  parse_manifest_crypt_modes, modes_of, decompressed,
}

-- The mode of the last entry with a name.
unfoldable pub last_mode : List ManifestFile → Bytes → Option Bytes
last_mode [] name = none
last_mode (file ∷ files) name = elim (last_mode files name) [
  | some mode ↦ some mode
  | none ↦ if bytes_eq file.filename name then some (mode_of file) else none
]

-- `a`, or `b` if there is none.
abbrev or_else : Option Bytes → Option Bytes → Option Bytes
or_else (some mode) b = some mode
or_else none b = b

add_mode-ok :
    (modes modes' : Map Bytes) (file : ManifestFile)
    → add_mode modes file ≡ ok modes'
    → (is_supported (mode_of file) ≡ true) × (insert modes file.filename (mode_of file) ≡ modes')
unfolding add_mode
add_mode-ok modes modes' file e = elim (Bool-cases (is_supported (mode_of file))) [
  | inl known ↦ (known, ok-injective (rw (add_mode, known) at e))
  | inr unknown ↦ absurd (ground (arith, e, unknown))
]

add_mode-or_else :
    (last between before : Option Bytes) (here : Bool) (mode : Bytes)
    → between ≡ (if here then some mode else before)
    → or_else last between
      ≡ or_else (elim last [ some m ↦ some m | none ↦ if here then some mode else none ]) before
add_mode-or_else none between before here mode e = ground (arith, e)
add_mode-or_else (some m) between before here mode e = refl

add_modes-lookup :
    (modes modes' : Map Bytes) (files : List ManifestFile)
    → for_each add_mode modes files ≡ ok modes'
    → All (λ file. is_supported (mode_of file) ≡ true) files
      × ((name : Bytes) → lookup modes' name ≡ or_else (last_mode files name) (lookup modes name))
unfolding last_mode
add_modes-lookup modes modes' [] e =
    (tt, λ name. ap (λ m. lookup m name) (sym (for_each-nil add_mode modes e)))
add_modes-lookup modes modes' (file ∷ files) e =
    let (between, here, rest) = for_each-cons add_mode modes file files e in
    let (known, inserted) = add_mode-ok modes between file here in
    let (all, later) = add_modes-lookup between modes' files rest in
    (
      (known, all),
      λ name.
          let there = lookup-insert modes file.filename name (mode_of file) in
          let there' = ap (λ m. lookup m name) (sym inserted) ∙ there in
          later name
          ∙ add_mode-or_else (last_mode files name) (lookup between name) (lookup modes name)
              (bytes_eq file.filename name) (mode_of file) there',
    )

or_else-none : (a : Option Bytes) → or_else a none ≡ a
or_else-none none = refl
or_else-none (some mode) = refl

-- If parse_manifest_crypt_modes accepts a blob, the blob decodes to a manifest in which every mode
-- is one of the supported ones, no mode standing for none, and the mode it finds for a name is that
-- of the last entry with this name.
pub parse_manifest_crypt_modes-last_mode :
    (libraries : Libraries) (raw : Bytes) (modes : Map Bytes)
    → parse_manifest_crypt_modes libraries raw ≡ ok modes
    → (decoded : Bytes) × (files : List ManifestFile) × (decode_manifest_blob libraries raw
        ≡ ok decoded)
      × (libraries.unmarshal decoded ≡ some files)
      × All (λ file. is_supported (mode_of file) ≡ true) files
      × ((name : Bytes) → lookup modes name ≡ last_mode files name)
unfolding parse_manifest_crypt_modes modes_of lookup
parse_manifest_crypt_modes-last_mode libraries raw modes e =
    let (decoded, d, rest) =
      >>=-eq-ok (decode_manifest_blob libraries raw)
        (λ decoded. modes_of libraries (libraries.unmarshal decoded)) e in
    elim (Option-cases (libraries.unmarshal decoded)) [
      | inl bad ↦ absurd (ground (arith, rest, bad))
      | inr (files, u) ↦
          let (all, found) = add_modes-lookup [] modes files (rw (modes_of, u) at rest) in
          (decoded, files, d, u, all, λ name. found name ∙ or_else-none (last_mode files name))
    ]

-- The blob of a payload under a magic.
abbrev pub blob : (Bytes → ℕ) → Bytes → Bytes → Bytes
blob crc magic payload = magic ++ (le_bytes 4 (crc payload) ++ payload)

uint64_of-le_bytes : (x : ℕ) → x < 2 ^ 32 → uint64_of (le_bytes 4 x) ≡ x
unfolding le_bytes uint64_of
uint64_of-le_bytes x h = omega arith

decode_manifest_blob-decoded_payload :
    (libraries : Libraries) (magic payload : Bytes)
    → length magic ≡ 8
    → libraries.checksum_ieee payload < 2 ^ 32
    → decode_manifest_blob libraries (blob libraries.checksum_ieee magic payload)
      ≡ decoded_payload libraries magic payload
unfolding decode_manifest_blob
decode_manifest_blob-decoded_payload libraries magic payload lm h =
    let crc = le_bytes 4 (libraries.checksum_ieee payload) in
    let raw = magic ++ (crc ++ payload) in
    let lc : length crc ≡ 4 = length-le_bytes 4 (libraries.checksum_ieee payload) in
    let long : ltb (length raw) 12 ≡ false =
      le→ltb (length raw) 12
        (omega (arith, length-append magic (crc ++ payload), length-append crc payload, lm, lc)) in
    let rest : drop 12 raw ≡ payload = rw (← append_assoc magic crc payload) (
      drop-append_of_eq 12 (magic ++ crc) payload
        (omega (arith, length-append magic crc, lm, lc))) in
    let sum : slice raw 8 12 ≡ crc =
      rw (drop-append_of_eq 8 magic (crc ++ payload) lm) (take-append_of_eq 4 crc payload lc) in
    let same : (libraries.checksum_ieee payload == libraries.checksum_ieee payload) ≡ true =
      (==_iff _ _).1 refl in
    rw
      (
        long,
        rest,
        sum,
        uint64_of-le_bytes (libraries.checksum_ieee payload) h,
        same,
        take-append_of_eq 8 magic (crc ++ payload) lm,
      )
      refl

-- A blob with the right checksum decodes to its payload, or, under the other magic, to what its
-- payload decompresses to, if that is at most max_manifest_size long. The checksum has 32 bits.
pub decode_manifest_blob-blob :
    (libraries : Libraries) (payload decoded : Bytes)
    → libraries.checksum_ieee payload < 2 ^ 32
    → libraries.decompress payload (max_manifest_size + 1) ≡ ok decoded
    → length decoded ≤ max_manifest_size
    → let sum = libraries.checksum_ieee in
      (decode_manifest_blob libraries (blob sum uncompressed_blob_magic payload) ≡ ok payload)
      × (decode_manifest_blob libraries (blob sum compressed_blob_magic payload) ≡ ok decoded)
unfolding uncompressed_blob_magic compressed_blob_magic decoded_payload decompressed bytes_eq
decode_manifest_blob-blob libraries payload decoded h e l =
    let small : ltb max_manifest_size (length decoded) ≡ false = le→ltb _ _ l in
    (
      decode_manifest_blob-decoded_payload libraries uncompressed_blob_magic payload refl h,
      decode_manifest_blob-decoded_payload libraries compressed_blob_magic payload refl h
          ∙ rw (decompressed, e, small) refl,
    )
