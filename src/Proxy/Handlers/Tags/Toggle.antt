-- ===== src/Proxy/Handlers/Tags/Toggle.antt =====
-- The handlers of notes and protection after each other.
use pmoxs3backuproxy.Prelude.{
  ℕ, Bool, true, false, not, none, some, ◌≡◌, ◌∙◌, refl, ap, Result, ok, if◌then◌else◌,
}
use pmoxs3backuproxy.Prelude.Maps.{Map, lookup, insert, lookup-insert}
use pmoxs3backuproxy.Prelude.Strings.{Bytes, codes, bytes_eq, bytes_eq_refl}
use pmoxs3backuproxy.Snapshots.{Snapshot}
use pmoxs3backuproxy.Proxy.Handlers.{reply}
use pmoxs3backuproxy.Proxy.Handlers.Tags.{
  Tagging, tagged_object, tag_note, tag_protected, is_protected, toggle, read_tags, write_tags,
  get_notes, put_notes, get_protected, put_protected,
}
use pmoxs3backuproxy.Proxy.Invalidation.{Caches}

-- Tags that were written without an error are the ones that are read next.
abbrev pub ReadsBack : {State : Type 0} → Tagging State → Type 0
ReadsBack {State} tagging =
    (s : State) (key : Bytes) (tags : Map Bytes)
    → (tagging.put_object_tagging s key (some tags)).1 ≡ none
    → tagging.get_object_tagging (tagging.put_object_tagging s key (some tags)).0 key ≡ ok tags

opposite : Bool → Bytes
opposite b = if b then codes "false" else codes "true"

opposite-true : (b : Bool) → bytes_eq (opposite b) (codes "true") ≡ not b
unfolding opposite bytes_eq codes
opposite-true true = refl
opposite-true false = refl

toggle-is_protected : (tags : Map Bytes) → is_protected (toggle tags) ≡ not (is_protected tags)
unfolding toggle opposite
toggle-is_protected tags =
    let found : lookup (toggle tags) tag_protected ≡ some (opposite (is_protected tags)) =
      lookup-insert tags tag_protected tag_protected (opposite (is_protected tags))
      ∙ rw (bytes_eq_refl tag_protected) refl in
    protected_value (toggle tags) (opposite (is_protected tags)) found
    ∙ opposite-true (is_protected tags)
  where
    protected_value :
        (m : Map Bytes) (value : Bytes)
        → lookup m tag_protected ≡ some value
        → is_protected m ≡ bytes_eq value (codes "true")
    protected_value m value found = rw (is_protected, found) refl

toggle-note : (tags : Map Bytes) → lookup (toggle tags) tag_note ≡ lookup tags tag_note
unfolding toggle tag_note tag_protected bytes_eq codes
toggle-note tags =
    lookup-insert tags tag_protected tag_note
      (if is_protected tags then codes "false" else codes "true")

note-protected :
    (tags : Map Bytes) (value : Bytes)
    → lookup (insert tags tag_note value) tag_protected ≡ lookup tags tag_protected
unfolding tag_note tag_protected bytes_eq codes
note-protected tags value = lookup-insert tags tag_note tag_protected value

module _ {State : Type 0} (tagging : Tagging State) (decode : Bytes → Bytes)
    (reads_back : ReadsBack tagging) (s : State) (snapshot : Snapshot) (tags : Map Bytes)
    (present : tagging.get_object_tagging s (tagged_object snapshot) ≡ ok tags) where
  -- Tags that are accepted and written are those of the next reading.
  read_tags-write_tags :
      (tags' : Map Bytes)
      → tagging.new_tags tags' ≡ some tags'
      → (write_tags tagging s snapshot tags').1 ≡ none
      → read_tags tagging (write_tags tagging s snapshot tags').0 snapshot ≡ ok tags'
  unfolding read_tags write_tags
  read_tags-write_tags tags' accepted written =
      let w : (tagging.put_object_tagging s (tagged_object snapshot) (some tags')).1 ≡ none =
        rw (write_tags, accepted) at written in
      rw (read_tags, write_tags, accepted) (reads_back s (tagged_object snapshot) tags' w)

  -- With tags that the client accepts and writes, and reads back, PUT protected inverts what GET
  -- protected answers, and leaves the note as it was.
  pub put_protected-get_protected :
      (published : Result ℕ Bytes) (caches : Caches)
      → tagging.new_tags (toggle tags) ≡ some (toggle tags)
      → (write_tags tagging s snapshot (toggle tags)).1 ≡ none
      → let s' = (put_protected tagging published s caches snapshot).0 in
        (get_protected tagging s snapshot ≡ reply (is_protected tags))
        × (get_protected tagging s' snapshot ≡ reply (not (is_protected tags)))
        × (get_notes tagging decode s' snapshot ≡ get_notes tagging decode s snapshot)
  unfolding put_protected get_protected get_notes read_tags
  put_protected-get_protected published caches accepted written =
      let before : read_tags tagging s snapshot ≡ ok tags = present in
      let after = read_tags-write_tags (toggle tags) accepted written in
      let state : (put_protected tagging published s caches snapshot).0
          ≡ (write_tags tagging s snapshot (toggle tags)).0 =
        rw (put_protected, before, written) refl in
      (
        rw (get_protected, before) refl,
        ap (λ s'. get_protected tagging s' snapshot) state
            ∙ rw (get_protected, after) (ap reply (toggle-is_protected tags)),
        ap (λ s'. get_notes tagging decode s' snapshot) state
            ∙ rw (get_notes, after, before, toggle-note tags) refl,
      )

  -- With tags that the client accepts and writes, and reads back, PUT notes answers with success,
  -- GET notes answers with the note from then on, and GET protected answers as before. The note
  -- decodes to what was encoded.
  pub put_notes-get_notes :
      (published : Result ℕ Bytes) (caches : Caches) (encode : Bytes → Bytes) (note : Bytes)
      → decode (encode note) ≡ note
      → let tags' = insert tags tag_note (encode note) in
        tagging.new_tags tags' ≡ some tags'
        → (write_tags tagging s snapshot tags').1 ≡ none
        → let (s', caches', answer) = put_notes tagging encode published s caches snapshot note in
          (answer ≡ reply tt)
          × (get_notes tagging decode s' snapshot ≡ reply note)
          × (get_protected tagging s' snapshot ≡ get_protected tagging s snapshot)
  unfolding put_notes get_protected get_notes read_tags is_protected
  put_notes-get_notes published caches encode note inverse accepted written =
      let tags' = insert tags tag_note (encode note) in
      let before : read_tags tagging s snapshot ≡ ok tags = present in
      let after = read_tags-write_tags tags' accepted written in
      let state : (put_notes tagging encode published s caches snapshot note).0
          ≡ (write_tags tagging s snapshot tags').0 =
        rw (put_notes, before, written) refl in
      let noted : lookup tags' tag_note ≡ some (encode note) =
        lookup-insert tags tag_note tag_note (encode note) ∙ rw (bytes_eq_refl tag_note) refl in
      let kept : is_protected tags' ≡ is_protected tags =
        rw (is_protected, note-protected tags (encode note)) refl in
      (
        rw (put_notes, before, written) refl,
        ap (λ s'. get_notes tagging decode s' snapshot) state
            ∙ rw (get_notes, after, noted) (ap reply inverse),
        ap (λ s'. get_protected tagging s' snapshot) state
            ∙ rw (get_protected, after, before) (ap reply kept),
      )
