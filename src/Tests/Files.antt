-- ===== src/Tests/Files.antt =====
-- Manifests on concrete inputs.
use pmoxs3backuproxy.Prelude.{true, some, List, [], ◌∷◌, ◌≡◌, refl, ok, All, for_each}
use pmoxs3backuproxy.Prelude.Maps.{Map, lookup, insert}
use pmoxs3backuproxy.Prelude.Strings.{Bytes, codes, bytes_eq}
use pmoxs3backuproxy.Prelude.Words.{le_bytes, uint64_of}
use pmoxs3backuproxy.Manifest.{
  Libraries, ManifestFile, mode_of, is_supported, add_mode, uncompressed_blob_magic,
  decode_manifest_blob, parse_manifest_crypt_modes,
}
use pmoxs3backuproxy.Manifest.Modes.{blob, last_mode, parse_manifest_crypt_modes-last_mode}

-- Libraries for which every checksum is 7, nothing is compressed, and every manifest has an
-- encrypted archive and one without a mode.
abbrev archives : List ManifestFile
archives =
    record { filename = codes "a"; crypt_mode = codes "encrypt" }
    ∷ record { filename = codes "b"; crypt_mode = [] }
    ∷ []

abbrev libraries : Libraries
libraries = record {
  checksum_ieee = λ b. 7;
  decompress = λ b n. ok b;
  unmarshal = λ b. some archives;
}

abbrev two : Bytes
two = 1 ∷ 2 ∷ []

abbrev raw : Bytes
raw = blob libraries.checksum_ieee uncompressed_blob_magic two

abbrev modes : Map Bytes
modes = (codes "a", codes "encrypt") ∷ (codes "b", codes "none") ∷ []

parsed : parse_manifest_crypt_modes libraries raw ≡ ok modes
unfolding parse_manifest_crypt_modes decode_manifest_blob uncompressed_blob_magic for_each insert
    bytes_eq codes le_bytes uint64_of add_mode mode_of is_supported
parsed = refl

parse_manifest_crypt_modes-last_mode_example :
    (decoded : Bytes) × (files : List ManifestFile) × (decode_manifest_blob libraries raw
      ≡ ok decoded)
    × (libraries.unmarshal decoded ≡ some files)
    × All (λ file. is_supported (mode_of file) ≡ true) files
    × ((name : Bytes) → lookup modes name ≡ last_mode files name)
parse_manifest_crypt_modes-last_mode_example =
    parse_manifest_crypt_modes-last_mode libraries raw modes parsed
