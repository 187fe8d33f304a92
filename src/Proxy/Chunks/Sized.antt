-- ===== src/Proxy/Chunks/Sized.antt =====
-- The sizes of the chunks of a dynamic index, from their upload to its closing.
use pmoxs3backuproxy.Prelude.{
  ℕ, true, some, List, [], ◌∷◌, ◌++◌, ◌==◌, ◌≡◌, ◌∙◌, refl, inl, inr, Bool-cases, Elem, All,
  All-map,
}
use pmoxs3backuproxy.Prelude.Hex.{encode_to_string, decode_string}
use pmoxs3backuproxy.Prelude.Maps.{Map, lookup, insert, lookup-insert}
use pmoxs3backuproxy.Prelude.Strings.{Bytes, bytes_eq, bytes_eq_refl}
use pmoxs3backuproxy.Prelude.Words.{add64, put_uint64}
use pmoxs3backuproxy.Proxy.Chunks.{note_chunk}
use pmoxs3backuproxy.Proxy.Upload.{ChunkRequest}
use pmoxs3backuproxy.Proxy.Writers.{
  Assignments, Writer, assign, sorted_keys, insert_key, int64_leb, dynamic_entries, dynamic_close,
  dynamic_file, new_dynamic_writer,
}

-- What happens to a writer before it is closed: an upload, or the assignment of a digest.
pub data Event : Type 0 where
  uploaded : ChunkRequest → Event
  assigned_to : ℕ → Bytes → Event

unfoldable pub play : Writer → List Event → Writer
play writer [] = writer
play writer (uploaded request ∷ events) = play (note_chunk true request writer) events
play writer (assigned_to offset digest ∷ events) =
    play (record writer { assignments = assign writer.assignments offset digest }) events

-- Every digest is assigned after an upload of it, of which `known` lists those that came before.
abbrev pub IsOrdered : List Bytes → List Event → Type 0
IsOrdered known [] = Unit
IsOrdered known (uploaded request ∷ events) = IsOrdered (request.digest ∷ known) events
IsOrdered known (assigned_to offset digest ∷ events) =
    Elem (encode_to_string digest) known × IsOrdered known events

HasSize : Map ℕ → Bytes → Type 0
HasSize sizes name = (n : ℕ) × (lookup sizes name ≡ some n)

HasSize-insert :
    (sizes : Map ℕ) (name other : Bytes) (n : ℕ)
    → HasSize sizes other
    → HasSize (insert sizes name n) other
unfolding HasSize
HasSize-insert sizes name other n (m, e) = elim (Bool-cases (bytes_eq name other)) [
  | inl t ↦ (n, rw (lookup-insert sizes name other n, t) refl)
  | inr f ↦ (m, rw (lookup-insert sizes name other n, f) e)
]

-- Every assigned digest has a size.
IsSized : Map ℕ → Assignments → Type 0
IsSized sizes m = All (λ a. HasSize sizes (encode_to_string a.1)) m

IsSized-assign :
    (sizes : Map ℕ) (m : Assignments) (offset : ℕ) (digest : Bytes)
    → HasSize sizes (encode_to_string digest)
    → IsSized sizes m
    → IsSized sizes (assign m offset digest)
unfolding assign IsSized
IsSized-assign sizes [] offset digest h hs = (h, tt)
IsSized-assign sizes ((o, d) ∷ m) offset digest h (h', hs) = elim (Bool-cases (o == offset)) [
  | inl t ↦ rw t (h, hs)
  | inr f ↦ rw f (h', IsSized-assign sizes m offset digest h hs)
]

IsSized-insert_key :
    (sizes : Map ℕ) (offset : ℕ) (digest : Bytes) (m : Assignments)
    → HasSize sizes (encode_to_string digest)
    → IsSized sizes m
    → IsSized sizes (insert_key offset digest m)
unfolding insert_key IsSized
IsSized-insert_key sizes offset digest [] h hs = (h, tt)
IsSized-insert_key sizes offset digest ((o, d) ∷ m) h (h', hs) =
    elim (Bool-cases (int64_leb offset o)) [
      | inl t ↦ rw t (h, (h', hs))
      | inr f ↦ rw f (h', IsSized-insert_key sizes offset digest m h hs)
    ]

IsSized-sorted_keys :
    (sizes : Map ℕ) (m : Assignments) → IsSized sizes m → IsSized sizes (sorted_keys m)
unfolding sorted_keys IsSized
IsSized-sorted_keys sizes [] hs = tt
IsSized-sorted_keys sizes ((o, d) ∷ m) (h, hs) =
    IsSized-insert_key sizes o d (sorted_keys m) h (IsSized-sorted_keys sizes m hs)

dynamic_entries-some :
    (sizes : Map ℕ) (m : Assignments)
    → IsSized sizes m
    → (entries : Bytes) × (dynamic_entries sizes m ≡ some entries)
unfolding dynamic_entries IsSized HasSize
dynamic_entries-some sizes [] hs = ([], refl)
dynamic_entries-some sizes ((k, digest) ∷ m) ((n, e), hs) =
    let (entries, f) = dynamic_entries-some sizes m hs in
    (put_uint64 (add64 k n) ++ (digest ++ entries), rw (dynamic_entries, e, f) refl)

play-IsSized :
    (writer : Writer) (events : List Event) (known : List Bytes)
    → ((name : Bytes) → Elem name known → HasSize writer.dynamic_chunk_sizes name)
    → IsSized writer.dynamic_chunk_sizes writer.assignments
    → IsOrdered known events
    → IsSized (play writer events).dynamic_chunk_sizes (play writer events).assignments
unfolding play note_chunk HasSize IsSized
play-IsSized writer [] known sizes sized ordered = sized
play-IsSized writer (uploaded request ∷ events) known sizes sized ordered =
    let later = HasSize-insert writer.dynamic_chunk_sizes request.digest in
    play-IsSized (note_chunk true request writer) events (request.digest ∷ known)
      (λ name m. elim m [
        | inl same ↦ (
          request.size,
          rw same (
              lookup-insert writer.dynamic_chunk_sizes request.digest request.digest request.size
              ∙ rw (bytes_eq_refl request.digest) refl),
        )
        | inr before ↦ later name request.size (sizes name before)
      ])
      (All-map _ _ (λ a h. later (encode_to_string a.1) request.size h) writer.assignments sized)
      ordered
play-IsSized writer (assigned_to offset digest ∷ events) known sizes sized (before, ordered) =
    play-IsSized (record writer { assignments = assign writer.assignments offset digest }) events
      known sizes
      (IsSized-assign writer.dynamic_chunk_sizes writer.assignments offset digest
        (sizes (encode_to_string digest) before) sized)
      ordered

-- Closing a dynamic index does not fail for want of a size, if each digest was assigned after a
-- chunk was uploaded under that digest, written in lower case.
pub play-dynamic_close :
    (query : Bytes → Bytes) (events : List Event) (uuid : Bytes) (ctime : ℕ) (csum : Bytes)
    → IsOrdered [] events
    → (file : Bytes) × (dynamic_close uuid ctime csum (play (new_dynamic_writer query) events)
        ≡ some file)
unfolding dynamic_close new_dynamic_writer IsSized
play-dynamic_close query events uuid ctime csum ordered =
    let writer = play (new_dynamic_writer query) events in
    let sized =
      play-IsSized (new_dynamic_writer query) events [] (λ name m. elim m [ ]) tt ordered in
    let (entries, e) =
      dynamic_entries-some writer.dynamic_chunk_sizes (sorted_keys writer.assignments)
        (IsSized-sorted_keys writer.dynamic_chunk_sizes writer.assignments sized) in
    (dynamic_file uuid ctime (decode_string csum).0 entries, rw (dynamic_close, e) refl)
