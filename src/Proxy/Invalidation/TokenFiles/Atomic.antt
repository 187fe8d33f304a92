-- ===== src/Proxy/Invalidation/TokenFiles/Atomic.antt =====
-- The file of a token after a publication, at each step where that can fail.
use pmoxs3backuproxy.Prelude.{
  ℕ, zero, suc, false, Option, none, some, [], ◌∷◌, ◌++◌, ◌≡◌, ◌≢◌, ◌⊎◌, ◌∙◌, refl, subst, arith,
  inl, inr, All, All-append, take, Option-cases, Result, ok, err,
}
use pmoxs3backuproxy.Prelude.Hex.{hex_digit, encode_to_string}
use pmoxs3backuproxy.Prelude.Strings.{Bytes, codes, bytes_eq, has_prefix}
use pmoxs3backuproxy.Prelude.Words.{add64}
use pmoxs3backuproxy.Proxy.Invalidation.TokenFiles.{
  ReadFailure, FileSystem, Place, datastore_lock_name, token_of, token_file,
  cache_invalidation_token_path, then_step, then_open, renamed, written, with_temporary,
  publish_cache_invalidation,
}

-- What the package os documents of these calls: which file an operation writes; that a temporary file
-- is new, empty, and named after its pattern; that a write without an error is whole, and that
-- renaming replaces the target or leaves it.
pub record Documented {Disk : Type 0} (fs : FileSystem Disk) : Type 0 where
  pub mkdir_keeps :
      (d : Disk) (dir p : Bytes) → fs.read_file (fs.mkdir_all d dir).0 p ≡ fs.read_file d p
  pub create_keeps :
      (d : Disk) (dir pattern p : Bytes)
      → (fs.create_temp d dir pattern).1 ≢ ok p
      → fs.read_file (fs.create_temp d dir pattern).0 p ≡ fs.read_file d p
  pub create_empty :
      (d : Disk) (dir pattern name : Bytes)
      → (fs.create_temp d dir pattern).1 ≡ ok name
      → fs.read_file (fs.create_temp d dir pattern).0 name ≡ ok []
  pub create_named :
      (d : Disk) (dir base name : Bytes)
      → (fs.create_temp d dir (codes ".invalidate-*")).1 ≡ ok name
      → has_prefix base (codes ".invalidate-") ≡ false
      → All (λ c. c ≢ b'/') base
      → name ≢ fs.join dir base
  pub chmod_keeps :
      (d : Disk) (name p : Bytes) → fs.read_file (fs.chmod d name).0 p ≡ fs.read_file d p
  pub write_keeps :
      (d : Disk) (name text p : Bytes)
      → name ≢ p
      → fs.read_file (fs.write_string d name text).0 p ≡ fs.read_file d p
  pub write_whole :
      (d : Disk) (name text : Bytes)
      → fs.read_file d name ≡ ok []
      → (fs.write_string d name text).1 ≡ none
      → fs.read_file (fs.write_string d name text).0 name ≡ ok text
  pub close_keeps :
      (d : Disk) (name p : Bytes) → fs.read_file (fs.close d name).0 p ≡ fs.read_file d p
  pub rename_keeps :
      (d : Disk) (old new : Bytes) (e : ℕ)
      → (fs.rename d old new).1 ≡ some e
      → fs.read_file (fs.rename d old new).0 new ≡ fs.read_file d new
  pub rename_moves :
      (d : Disk) (old new : Bytes)
      → (fs.rename d old new).1 ≡ none
      → fs.read_file (fs.rename d old new).0 new ≡ fs.read_file d old
  pub remove_keeps :
      (d : Disk) (name p : Bytes) → name ≢ p → fs.read_file (fs.remove d name) p ≡ fs.read_file d p

take-All : (P : ℕ → Type 0) (n : ℕ) (xs : Bytes) → All P xs → All P (take n xs)
take-All P zero xs h = tt
take-All P (suc n) [] h = tt
take-All P (suc n) (x ∷ xs) h = (h.0, take-All P n xs h.1)

encode_to_string-no_slash : (src : Bytes) → All (λ c. c ≢ b'/') (encode_to_string src)
unfolding encode_to_string hex_digit
encode_to_string-no_slash [] = tt
encode_to_string-no_slash (x ∷ src) = ground (arith, encode_to_string-no_slash src)

-- The token file is none of the temporary ones.
token_file-no_slash :
    {Disk : Type 0} (fs : FileSystem Disk) (at : Place) (datastore : Bytes)
    → All (λ c. c ≢ b'/') (token_file fs at datastore)
unfolding token_file datastore_lock_name codes
token_file-no_slash fs at datastore =
    let hex = encode_to_string (at.sha256 (at.endpoint ++ (b'|' ∷ datastore))) in
    let kept = take-All (λ c. c ≢ b'/') 16 hex (encode_to_string-no_slash _) in
    (
      omega arith,
      (
        omega arith,
        (
          omega arith,
          (omega arith, (omega arith, All-append _ (take 16 hex) _ kept (omega arith))),
        ),
      ),
    )

token_file-has_prefix :
    {Disk : Type 0} (fs : FileSystem Disk) (at : Place) (datastore : Bytes)
    → has_prefix (token_file fs at datastore) (codes ".invalidate-") ≡ false
unfolding token_file datastore_lock_name codes has_prefix
token_file-has_prefix fs at datastore = refl

module _ {Disk : Type 0} (fs : FileSystem Disk) (documented : Documented fs) (at : Place)
    (datastore : Bytes) where
  -- The token is published and the file holds it, or there is an error and the file is as before.
  abbrev pub IsPublished : Bytes → Result ReadFailure Bytes → Disk × Result ℕ Bytes → Type 0
  IsPublished token before r =
      ((r.1 ≡ ok token)
        × (fs.read_file r.0 (cache_invalidation_token_path fs at datastore) ≡ ok token))
      ⊎ ((e : ℕ) × (r.1 ≡ err e)
          × (fs.read_file r.0 (cache_invalidation_token_path fs at datastore) ≡ before))

  abbrev pub token_at : Disk → Result ReadFailure Bytes
  token_at d = fs.read_file d (cache_invalidation_token_path fs at datastore)

  module _ (token name : Bytes) (other : name ≢ cache_invalidation_token_path fs at datastore) where
    then_step-IsPublished :
        (before : Result ReadFailure Bytes) (next : Disk → Disk × Result ℕ Bytes)
        (r : Disk × Option ℕ)
        → ((e : ℕ) → r.1 ≡ some e → token_at r.0 ≡ before)
        → (r.1 ≡ none → IsPublished token before (next r.0))
        → IsPublished token before (then_step fs at datastore name next r)
    unfolding then_step
    then_step-IsPublished before next (d, some e) kept rest =
        inr (e, refl, documented.remove_keeps d name _ other ∙ kept e refl)
    then_step-IsPublished before next (d, none) kept rest = rest refl

    then_open-IsPublished :
        (before : Result ReadFailure Bytes) (next : Disk → Disk × Result ℕ Bytes)
        (r : Disk × Option ℕ)
        → ((e : ℕ) → r.1 ≡ some e → token_at r.0 ≡ before)
        → (r.1 ≡ none → IsPublished token before (next r.0))
        → IsPublished token before (then_open fs at datastore name next r)
    unfolding then_open
    then_open-IsPublished before next (d, some e) kept rest = inr (
      e,
      refl,
      documented.remove_keeps (fs.close d name).0 name _ other
          ∙ documented.close_keeps d name _
          ∙ kept e refl,
    )
    then_open-IsPublished before next (d, none) kept rest = rest refl

    renamed-IsPublished :
        (d : Disk)
        → fs.read_file d name ≡ ok token
        → IsPublished token (token_at d) (renamed fs at datastore token name d)
    unfolding renamed
    renamed-IsPublished d whole =
        then_step-IsPublished (token_at d) (λ d'. (fs.remove d' name, ok token))
          (fs.rename d name (cache_invalidation_token_path fs at datastore))
          (documented.rename_keeps d name (cache_invalidation_token_path fs at datastore))
          (λ moved. inl (
            refl,
            documented.remove_keeps _ name _ other
                ∙ documented.rename_moves d name (cache_invalidation_token_path fs at datastore)
                    moved
                ∙ whole,
          ))

    written-IsPublished :
        (d : Disk)
        → fs.read_file d name ≡ ok []
        → IsPublished token (token_at d) (written fs at datastore token name d)
    unfolding written
    written-IsPublished d fresh =
        let path = cache_invalidation_token_path fs at datastore in
        let d1 = (fs.write_string d name token).0 in
        let d2 = (fs.close d1 name).0 in
        let kept : token_at d1 ≡ token_at d = documented.write_keeps d name token path other in
        let kept' : token_at d2 ≡ token_at d = documented.close_keeps d1 name path ∙ kept in
        then_open-IsPublished (token_at d)
          (λ d'.
            then_step fs at datastore name (renamed fs at datastore token name) (fs.close d' name))
          (fs.write_string d name token) (λ e failed. kept)
          (λ whole.
            then_step-IsPublished (token_at d) (renamed fs at datastore token name)
              (fs.close d1 name) (λ e failed. kept')
              (λ closed.
                subst (λ before. IsPublished token before (renamed fs at datastore token name d2))
                  kept'
                  (renamed-IsPublished d2 (
                    documented.close_keeps d1 name name
                    ∙ documented.write_whole d name token fresh whole))))

    opened-IsPublished :
        (d : Disk)
        → fs.read_file d name ≡ ok []
        → IsPublished token (token_at d) (with_temporary fs at datastore token (d, ok name))
    unfolding with_temporary
    opened-IsPublished d fresh =
        let d1 = (fs.chmod d name).0 in
        let kept : token_at d1 ≡ token_at d = documented.chmod_keeps d name _ in
        then_open-IsPublished (token_at d) (written fs at datastore token name) (fs.chmod d name)
          (λ e failed. kept)
          (λ set.
            subst (λ before. IsPublished token before (written fs at datastore token name d1)) kept
              (written-IsPublished d1 (documented.chmod_keeps d name name ∙ fresh)))

  created-IsPublished :
      (token : Bytes) (before : Result ReadFailure Bytes) (d : Disk) (created : Result ℕ Bytes)
      → token_at d ≡ before
      → ((name : Bytes)
          → created ≡ ok name
          → (fs.read_file d name ≡ ok []) × (name ≢ cache_invalidation_token_path fs at datastore))
      → IsPublished token before (with_temporary fs at datastore token (d, created))
  unfolding with_temporary
  created-IsPublished token before d (err e) kept fresh = inr (e, refl, kept)
  created-IsPublished token before d (ok name) kept fresh =
      let (empty, other) = fresh name refl in
      subst (λ b. IsPublished token b (with_temporary fs at datastore token (d, ok name))) kept
        (opened-IsPublished token name other d empty)

  -- With a file system that does as documented, and a directory for the tokens: a publication that
  -- returns its token has left this token in the file, and one that fails, at whichever step, has left
  -- the file as it was.
  pub publish_cache_invalidation-atomic :
      (time sequence : ℕ) (d : Disk)
      → bytes_eq at.directory [] ≡ false
      → let (d', sequence', result) = publish_cache_invalidation fs at datastore time sequence d in
        IsPublished (token_of time at.process (add64 sequence 1)) (token_at d) (d', result)
  unfolding publish_cache_invalidation cache_invalidation_token_path
  publish_cache_invalidation-atomic time sequence d named =
      elim (Option-cases (fs.mkdir_all d at.directory).1) [
        | inr (e, failed) ↦
            rw (named, failed) (inr (e, refl, documented.mkdir_keeps d at.directory _))
        | inl made ↦
            rw (named, made)
              (let d1 = (fs.mkdir_all d at.directory).0 in
                let pattern = codes ".invalidate-*" in
                let r = fs.create_temp d1 at.directory pattern in
                let other = λ (name : Bytes) (made : r.1 ≡ ok name).
                  documented.create_named d1 at.directory (token_file fs at datastore) name made
                    (token_file-has_prefix fs at datastore) (token_file-no_slash fs at datastore) in
                let path = cache_invalidation_token_path fs at datastore in
                created-IsPublished (token_of time at.process (add64 sequence 1)) (token_at d) r.0
                  r.1
                  (documented.create_keeps d1 at.directory pattern path
                      (λ made. other path made refl)
                    ∙ documented.mkdir_keeps d at.directory path)
                  (λ name made.
                    (documented.create_empty d1 at.directory pattern name made, other name made)))
      ]
