-- ===== src/Proxy/Invalidation/TokenFiles/Taken.antt =====
-- A token that one process publishes, and another reads.
use pmoxs3backuproxy.Prelude.{
  ℕ, zero, suc, ◌+◌, ◌/◌, ◌%◌, ◌<◌, false, Option, none, some, List, [], ◌∷◌, ◌++◌, ◌≡◌, ◌≢◌, ◌∙◌,
  refl, sym, ap, subst, arith, inl, inr, All, Bool-cases, Result, ok,
}
use pmoxs3backuproxy.Prelude.Decimal.{decimal, decimal_from, parse_uint, parsed, parse_uint-decimal}
use pmoxs3backuproxy.Prelude.Maps.{lookup, value_or}
use pmoxs3backuproxy.Prelude.Strings.{Bytes, bytes_eq, bytes_eq_iff, cut, cut-append}
use pmoxs3backuproxy.Prelude.Words.{two64, add64}
use pmoxs3backuproxy.Snapshots.{Snapshot}
use pmoxs3backuproxy.Proxy.Cache.{Entry, entry, invalidate}
use pmoxs3backuproxy.Proxy.Cache.Entries.{entry-update}
use pmoxs3backuproxy.Proxy.Invalidation.Tokens.{sync-seen, lookup-insert_self}
use pmoxs3backuproxy.Proxy.Invalidation.{
  Caches, invalidate_datastore_caches_local, sync_datastore_cache_invalidation,
}
use pmoxs3backuproxy.Proxy.Invalidation.TokenFiles.{
  FileSystem, Place, token_of, publish_cache_invalidation, read_cache_invalidation, read_result,
}
use pmoxs3backuproxy.Proxy.Invalidation.TokenFiles.Atomic.{
  Documented, publish_cache_invalidation-atomic,
}

decimal_from-no_dash :
    (fuel n : ℕ) (out : Bytes)
    → All (λ c. c ≢ b'-') out
    → All (λ c. c ≢ b'-') (decimal_from fuel n out)
unfolding decimal_from
decimal_from-no_dash zero n out h = h
decimal_from-no_dash (suc fuel) n out h =
    ground (arith, decimal_from-no_dash fuel (n / 10) ((b'0' + n % 10) ∷ out) (omega arith, h))

decimal-no_dash : (n : ℕ) → All (λ c. c ≢ b'-') (decimal n)
unfolding decimal
decimal-no_dash n = decimal_from-no_dash 20 n [] tt

parsed-injective : {m n : ℕ} → parsed m ≡ parsed n → m ≡ n
parsed-injective h = cc

some-injective : {a b : Bytes} → some a ≡ some b → a ≡ b
some-injective h = cc

-- What follows the first dash.
after_dash : (n : ℕ) (rest : Bytes) → (cut (decimal n ++ (b'-' ∷ rest)) b'-').1 ≡ some rest
after_dash n rest =
    ap (λ (r : Bytes × Option Bytes). r.1) (cut-append (decimal n) rest b'-' (decimal-no_dash n))

dash-injective : (m n : ℕ) (a b : Bytes) → decimal m ++ (b'-' ∷ a) ≡ decimal n ++ (b'-' ∷ b) → a ≡ b
dash-injective m n a b h =
    some-injective (sym (after_dash m a) ∙ ap (λ s. (cut s b'-').1) h ∙ after_dash n b)

-- Tokens of different publications differ, whatever their times and processes.
pub token_of-injective :
    (time time' process process' sequence sequence' : ℕ)
    → sequence < two64
    → sequence' < two64
    → token_of time process sequence ≡ token_of time' process' sequence'
    → sequence ≡ sequence'
unfolding token_of
token_of-injective time time' process process' sequence sequence' small small' h =
    parsed-injective (
      sym (parse_uint-decimal sequence small)
      ∙ ap parse_uint (dash-injective process process' _ _ (dash-injective time time' _ _ h))
      ∙ parse_uint-decimal sequence' small')

append-nonempty : (s t : Bytes) (c : ℕ) → bytes_eq (s ++ (c ∷ t)) [] ≡ false
unfolding bytes_eq
append-nonempty [] t c = refl
append-nonempty (x ∷ s) t c = refl

token_of-nonempty :
    (time process sequence : ℕ) → bytes_eq (token_of time process sequence) [] ≡ false
unfolding token_of
token_of-nonempty time process sequence = append-nonempty (decimal time) _ b'-'

-- A process that has not seen a token has seen none, or another.
unseen-differs :
    (seen : Option Bytes) (token : Bytes)
    → bytes_eq token [] ≡ false
    → seen ≢ some token
    → bytes_eq token (value_or seen []) ≡ false
unseen-differs none token some_token other = some_token
unseen-differs (some last) token some_token other = elim (Bool-cases (bytes_eq token last)) [
  | inr f ↦ f
  | inl t ↦ absurd (other (ap some (sym ((bytes_eq_iff token last).0 t))))
]

-- Reading a new token invalidates the listing of the datastore, and notes the token.
sync-new :
    (datastore token : Bytes) (c : Caches)
    → bytes_eq token [] ≡ false
    → bytes_eq token (value_or (lookup c.seen datastore) []) ≡ false
    → let c' = sync_datastore_cache_invalidation datastore (ok token) c in
      ((entry c'.snapshot_lists datastore).valid ≡ false) × (lookup c'.seen datastore ≡ some token)
unfolding sync_datastore_cache_invalidation invalidate_datastore_caches_local invalidate
sync-new datastore token c some_token new =
    rw (some_token, new)
      (
        ap (λ (e : Entry (List Snapshot)). e.valid)
            (entry-update c.snapshot_lists datastore invalidate),
        lookup-insert_self c.seen datastore token,
      )

abbrev IsTaken : Bytes → Caches → Result ℕ Bytes → Type 0
IsTaken datastore c read =
    let c' = sync_datastore_cache_invalidation datastore read c in
    ((entry c'.snapshot_lists datastore).valid ≡ false)
    × (sync_datastore_cache_invalidation datastore read c' ≡ c')

sync-IsTaken :
    (datastore token : Bytes) (c : Caches)
    → bytes_eq token [] ≡ false
    → bytes_eq token (value_or (lookup c.seen datastore) []) ≡ false
    → IsTaken datastore c (ok token)
sync-IsTaken datastore token c some_token new =
    let (invalid, seen) = sync-new datastore token c some_token new in
    (
      invalid,
      sync-seen datastore token (sync_datastore_cache_invalidation datastore (ok token) c) seen,
    )

-- A published token is read.
publish-read :
    {Disk : Type 0} (fs : FileSystem Disk)
    → Documented fs
    → (at : Place) (datastore : Bytes) (time sequence : ℕ) (d : Disk) (token : Bytes)
    → bytes_eq at.directory [] ≡ false
    → (publish_cache_invalidation fs at datastore time sequence d).2 ≡ ok token
    → read_cache_invalidation fs at datastore
        (publish_cache_invalidation fs at datastore time sequence d).0
      ≡ ok (token_of time at.process (add64 sequence 1))
unfolding read_cache_invalidation read_result
publish-read fs documented at datastore time sequence d token named success =
    elim (publish_cache_invalidation-atomic fs documented at datastore time sequence d named) [
      | inr (e, failed, kept) ↦ absurd (ground (arith, success, failed))
      | inl (done, there) ↦ rw (named, there) refl
    ]

-- With a file system that does as documented: after a publication that returns a token, a process with
-- the same directory whose last seen token is not this one has no valid listing of the datastore once
-- it has read the token, and reading it again changes nothing. Its last token may be one of any other
-- time, process or number.
pub publish-sync :
    {Disk : Type 0} (fs : FileSystem Disk)
    → Documented fs
    → (at : Place) (datastore : Bytes) (time sequence : ℕ) (d : Disk) (token : Bytes) (c : Caches)
    → bytes_eq at.directory [] ≡ false
    → lookup c.seen datastore ≢ some (token_of time at.process (add64 sequence 1))
    → (publish_cache_invalidation fs at datastore time sequence d).2 ≡ ok token
    → let read =
        read_cache_invalidation fs at datastore
          (publish_cache_invalidation fs at datastore time sequence d).0 in
      let c' = sync_datastore_cache_invalidation datastore read c in
      ((entry c'.snapshot_lists datastore).valid ≡ false)
      × (sync_datastore_cache_invalidation datastore read c' ≡ c')
publish-sync fs documented at datastore time sequence d token c named unseen success =
    let made = token_of time at.process (add64 sequence 1) in
    let some_token = token_of-nonempty time at.process (add64 sequence 1) in
    subst (IsTaken datastore c)
      (sym (publish-read fs documented at datastore time sequence d token named success))
      (sync-IsTaken datastore made c some_token
        (unseen-differs (lookup c.seen datastore) made some_token unseen))
