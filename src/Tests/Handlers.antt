-- ===== src/Tests/Handlers.antt =====
-- The request handlers on concrete inputs.
use Prim.Native.String.{String}
use pmoxs3backuproxy.Prelude.{
  ℕ, ◌<◌, List, length, keep_if, arith, not, none, some, [], ◌∷◌, ◌≡◌, refl, ok,
}
use pmoxs3backuproxy.Prelude.Maps.{Map}
use pmoxs3backuproxy.Prelude.Strings.{Bytes, codes, bytes_eq}
use pmoxs3backuproxy.Snapshots.{Snapshot, zero_snapshot}
use pmoxs3backuproxy.Proxy.Handlers.{reply}
use pmoxs3backuproxy.Proxy.Handlers.Tags.{
  Tagging, is_protected, write_tags, get_notes, put_notes, get_protected, put_protected,
}
use pmoxs3backuproxy.Proxy.Handlers.Tags.Toggle.{put_protected-get_protected, put_notes-get_notes}
use pmoxs3backuproxy.Prelude.Words.{two64}
use pmoxs3backuproxy.Proxy.Handlers.Listings.{groups_of}
use pmoxs3backuproxy.Proxy.Handlers.Listings.Groups.{
  summary, belongs, described, groups_of-described,
}
use pmoxs3backuproxy.Proxy.Invalidation.{Caches}

-- A store with one tagged object, and a note on it.
abbrev tagging : Tagging (Map Bytes)
tagging = record {
  get_object_tagging = λ s key. ok s;
  new_tags = λ tags. some tags;
  put_object_tagging = λ s key tags. elim tags [ none ↦ (s, none) | some m ↦ (m, none) ];
}

abbrev noted : Map Bytes
noted = (codes "note", codes "x") ∷ []

abbrev no_caches : Caches
no_caches = record {
  snapshot_lists = [];
  datastore_usages = [];
  usage_reports = [];
  archive_sizes = [];
  manifest_crypt_modes = [];
  seen = [];
}

put_protected-get_protected_example :
    let s' = (put_protected tagging (ok []) noted no_caches zero_snapshot).0 in
    (get_protected tagging noted zero_snapshot ≡ reply (is_protected noted))
    × (get_protected tagging s' zero_snapshot ≡ reply (not (is_protected noted)))
    × (get_notes tagging (λ b. b) s' zero_snapshot ≡ get_notes tagging (λ b. b) noted zero_snapshot)
unfolding write_tags
put_protected-get_protected_example =
    put_protected-get_protected tagging (λ b. b) (λ s key tags e. refl) noted zero_snapshot noted
      refl (ok []) no_caches refl refl

put_notes-get_notes_example :
    let (s', caches', answer) =
      put_notes tagging (λ b. b) (ok []) noted no_caches zero_snapshot (codes "y") in
    (answer ≡ reply tt)
    × (get_notes tagging (λ b. b) s' zero_snapshot ≡ reply (codes "y"))
    × (get_protected tagging s' zero_snapshot ≡ get_protected tagging noted zero_snapshot)
unfolding write_tags
put_notes-get_notes_example =
    put_notes-get_notes tagging (λ b. b) (λ s key tags e. refl) noted zero_snapshot noted refl
      (ok []) no_caches (λ b. b) (codes "y") refl refl refl

-- A listing with two backups of one guest, and one of another.
abbrev backup_of : String → ℕ → Snapshot
backup_of id time = record zero_snapshot {
  backup_id = codes id;
  backup_time = time;
  backup_type = codes "vm";
}

abbrev listing : List Snapshot
listing = backup_of "7" 10 ∷ backup_of "8" 11 ∷ backup_of "7" 12 ∷ []

few : length (keep_if (belongs (codes "vm") (codes "7")) listing) < two64
unfolding keep_if belongs bytes_eq codes
few = omega arith

groups_of-described_example :
    summary (codes "vm") (codes "7") (groups_of (codes "me") [] listing)
    ≡ described (keep_if (belongs (codes "vm") (codes "7")) listing)
groups_of-described_example = groups_of-described (codes "me") (codes "vm") (codes "7") listing few
