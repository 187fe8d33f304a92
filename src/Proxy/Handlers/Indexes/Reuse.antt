-- ===== src/Proxy/Handlers/Indexes/Reuse.antt =====
-- The reuse of an index that was closed.
use mathlib.Core.Bool.{true≢false}
use pmoxs3backuproxy.Prelude.{
  ℕ, Bool, true, false, some, [], ◌∷◌, ◌++◌, ◌≡◌, ◌≢◌, ◌∙◌, refl, sym, ap, inl, inr, arith, length,
  Option-cases, ok, take,
}
use pmoxs3backuproxy.Prelude.Hex.{decode_string}
use pmoxs3backuproxy.Prelude.Strings.{Bytes, codes, bytes_eq}
use pmoxs3backuproxy.Snapshots.{Snapshot, s3_prefix}
use pmoxs3backuproxy.Proxy.Handlers.{Reply, reply, refused, panicked}
use pmoxs3backuproxy.Proxy.Handlers.Indexes.{
  archive_name, indexed_name, put_archive, publish_fixed, answer_closing, close_fixed,
}
use pmoxs3backuproxy.Proxy.Handlers.Store.{
  StorageClassPolicy, ObjectStore, ReadsBack, indexed_copy_options,
}
use pmoxs3backuproxy.Proxy.Writers.{Writer}
use pmoxs3backuproxy.Proxy.Writers.Fixed

archive_not_indexed :
    (snapshot : Snapshot) (name csum : Bytes) → archive_name snapshot name ≢ indexed_name csum
unfolding archive_name indexed_name s3_prefix codes
archive_not_indexed snapshot name csum e =
    let heads : 98 ∷ [] ≡ 105 ∷ [] = ap (take 1) e in absurd (ground (arith, heads))

some-injective : {A : Type 0} {a b : A} → some a ≡ some b → a ≡ b
some-injective p = cc

succeeded : {State : Type 0} → State × Reply (Unit {0}) → Bool
succeeded (s, reply x) = true
succeeded (s, refused status) = false
succeeded (s, panicked) = false

copied_object :
    (object checksum storage_class : Bytes)
    → (indexed_copy_options object checksum storage_class).object ≡ object
unfolding indexed_copy_options
copied_object object checksum storage_class = ground arith

module _ {State : Type 0} (store : ObjectStore State) (classes : StorageClassPolicy)
    (snapshot : Snapshot) (reads_back : ReadsBack store) (s : State) (writer : Writer)
    (csum file : Bytes) where
  publish_fixed-reads :
      (publish_fixed store classes snapshot s writer csum file).1 ≡ reply tt
      → let s' = (publish_fixed store classes snapshot s writer csum file).0 in
        (store.get_object s' (archive_name snapshot writer.fidx_name) ≡ ok file)
        × (store.get_object s' (indexed_name csum) ≡ ok file)
  unfolding publish_fixed put_archive
  publish_fixed-reads success =
      let name = archive_name snapshot writer.fidx_name in
      let put = put_archive store classes snapshot s writer.fidx_name csum file in
      let options = indexed_copy_options (indexed_name csum) csum classes.indexed in
      let copy = store.copy_object put.0 options name in
      elim (Option-cases put.1) [
        | inr (e, failed) ↦ absurd (ground (arith, success, failed))
        | inl written ↦ elim (Option-cases copy.1) [
          | inr (e, failed) ↦ absurd (ground (arith, success, written, failed))
          | inl copied ↦
              let there : store.get_object put.0 name ≡ ok file =
                reads_back.put_reads s name file _ written in
              let target = copied_object (indexed_name csum) csum classes.indexed in
              rw (publish_fixed, written, copied)
                (
                  reads_back.copy_keeps put.0 options name name
                        (λ e. archive_not_indexed snapshot writer.fidx_name csum (e ∙ target))
                      ∙ there,
                  ap (store.get_object copy.0) (sym target)
                      ∙ reads_back.copy_reads put.0 options name file there copied,
                )
        ]
      ]

module _ {State : Type 0} (store : ObjectStore State) (classes : StorageClassPolicy)
    (snapshot : Snapshot) where
  -- A closing that is answered with success has made a file, and published it.
  answer_closing-reply :
      (s s' : State) (writer : Writer) (csum : Bytes) (closing : Fixed.Closing)
      → answer_closing store classes snapshot s writer csum closing ≡ some (s', reply tt)
      → (file : Bytes) × (closing ≡ Fixed.closed file)
        × (publish_fixed store classes snapshot s writer csum file ≡ (s', reply tt))
  unfolding answer_closing succeeded
  answer_closing-reply s s' writer csum (Fixed.closed file) e = (file, refl, some-injective e)
  answer_closing-reply s s' writer csum Fixed.hole e =
      absurd (true≢false (sym (ap succeeded (some-injective e))))
  answer_closing-reply s s' writer csum Fixed.panicked e =
      absurd (true≢false (sym (ap succeeded (some-injective e))))
  answer_closing-reply s s' writer csum Fixed.running e = cc

  -- A new index is closed without the store.
  close_fixed-new :
      (fuel : ℕ) (capacity spare uuid : Bytes) (ctime : ℕ) (s : State) (writer : Writer)
      (csum : Bytes)
      → bytes_eq writer.reuse_csum [] ≡ true
      → close_fixed store classes snapshot fuel capacity spare uuid ctime s writer csum
        ≡ answer_closing store classes snapshot s writer csum
            (Fixed.fixed_close fuel ((decode_string csum).0 ++ capacity) uuid ctime writer)
  unfolding close_fixed
  close_fixed-new fuel capacity spare uuid ctime s writer csum new = rw new refl

  -- A closing that reuses an index begins with the bytes that the store has for its checksum.
  close_fixed-reuses :
      (file csum : Bytes) (fuel : ℕ) (capacity spare uuid : Bytes) (ctime : ℕ) (s : State)
      (writer : Writer)
      → bytes_eq writer.reuse_csum [] ≡ false
      → store.get_object s (indexed_name writer.reuse_csum) ≡ ok file
      → close_fixed store classes snapshot fuel capacity spare uuid ctime s writer csum
        ≡ answer_closing store classes snapshot s writer csum (
            Fixed.fixed_close_reusing fuel
              ((decode_string csum).0 ++ capacity)
              uuid
              ctime
              (record { array = file ++ spare; len = length file })
              writer)
  unfolding close_fixed
  close_fixed-reuses file csum fuel capacity spare uuid ctime s writer kept found =
      rw (kept, found) refl

-- With a store that reads back what it was given: POST fixed_close of a new index that is answered
-- with success leaves the file that closing made under the name of the archive, and under indexed/
-- with its checksum. Any later closing that reuses the index of this checksum, of another session,
-- snapshot, uuid and time, and in any later state of the store where that copy is as it was, starts
-- from the bytes of that file, with whatever capacity lies behind them.
pub close_fixed-fixed_close_reusing :
    {State : Type 0} (store : ObjectStore State) (classes : StorageClassPolicy)
    (snapshot : Snapshot)
    → ReadsBack store
    → (fuel : ℕ) (capacity spare uuid : Bytes) (ctime : ℕ) (s s' : State) (writer : Writer)
      (csum : Bytes)
    → bytes_eq writer.reuse_csum [] ≡ true
    → close_fixed store classes snapshot fuel capacity spare uuid ctime s writer csum
      ≡ some (s', reply tt)
    → (classes' : StorageClassPolicy) (snapshot' : Snapshot) (fuel' : ℕ)
      (capacity' spare' uuid' : Bytes) (ctime' : ℕ) (later : State) (next : Writer) (csum' : Bytes)
    → store.get_object later (indexed_name csum) ≡ store.get_object s' (indexed_name csum)
    → next.reuse_csum ≡ csum
    → bytes_eq csum [] ≡ false
    → (file : Bytes) × (Fixed.fixed_close fuel
          ((decode_string csum).0 ++ capacity)
          uuid
          ctime
          writer
        ≡ Fixed.closed file)
      × (store.get_object s' (archive_name snapshot writer.fidx_name) ≡ ok file)
      × (store.get_object s' (indexed_name csum) ≡ ok file)
      × (close_fixed store classes' snapshot' fuel' capacity' spare' uuid' ctime' later next csum'
          ≡ answer_closing store classes' snapshot' later next csum' (
              Fixed.fixed_close_reusing fuel'
                ((decode_string csum').0 ++ capacity')
                uuid'
                ctime'
                (record { array = file ++ spare'; len = length file })
                next))
close_fixed-fixed_close_reusing store classes snapshot reads_back fuel capacity spare uuid ctime s
      s' writer csum new success classes' snapshot' fuel' capacity' spare' uuid' ctime' later next
      csum' same reuses named =
    let (file, closes, published) = answer_closing-reply store classes snapshot s s' writer csum _ (
      sym (close_fixed-new store classes snapshot fuel capacity spare uuid ctime s writer csum new)
      ∙ success) in
    let (archived, indexed) =
      publish_fixed-reads store classes snapshot reads_back s writer csum file
        (ap (λ r. r.1) published) in
    let left : (publish_fixed store classes snapshot s writer csum file).0 ≡ s' =
      ap (λ r. r.0) published in
    let indexed' : store.get_object s' (indexed_name csum) ≡ ok file =
      ap (λ t. store.get_object t (indexed_name csum)) (sym left) ∙ indexed in
    (
      file,
      closes,
      ap (λ t. store.get_object t (archive_name snapshot writer.fidx_name)) (sym left) ∙ archived,
      indexed',
      close_fixed-reuses store classes' snapshot' file csum' fuel' capacity' spare' uuid' ctime'
          later next (ap (λ c. bytes_eq c []) reuses ∙ named)
          (ap (λ c. store.get_object later (indexed_name c)) reuses ∙ same ∙ indexed'),
    )
