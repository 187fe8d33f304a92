-- ===== src/Gc/Plan/Chunks.antt =====
-- The loop over the chunks, against its specification.
use mathlib.Core.List.{append_assoc, append-nil}
use pmoxs3backuproxy.Prelude.{
  ◌+◌, Bool, true, false, ◌&&◌, ◌||◌, not, none, List, [], ◌∷◌, ◌++◌, ◌≡◌, ◌∙◌, arith, ok,
  >>=-eq-ok, if◌then◌else◌, for_each, for_each-cons, for_each-nil, keep_if, keep_if-cons, any,
  length-append, ok-injective, subst, length,
}
use pmoxs3backuproxy.Prelude.Int.{ℤ}
use pmoxs3backuproxy.Prelude.Maps.{Map, lookup, is_set, lookup-insert}
use pmoxs3backuproxy.Prelude.Strings.{Bytes, bytes_eq_iff}
use pmoxs3backuproxy.Gc.Keys.{chunk_digest_from_key}
use pmoxs3backuproxy.Gc.Plan.{GcPlan, place_chunk, mark_chunk, missing_of}
use pmoxs3backuproxy.Gc.Plan.Spec.{is_none, is_orphan, is_young, is_chunk_of}
use pmoxs3backuproxy.Objects.{ObjectInfo}

-- What the loop over the chunks has done to a plan.
pub record Placed (now grace : ℤ) (p : GcPlan) (chunks : List ObjectInfo) (t : GcPlan)
    : Type 0 where
  pub known : t.known_chunks ≡ p.known_chunks
  pub backups : t.backup_objects ≡ p.backup_objects
  pub indexed : t.indexed_objects ≡ p.indexed_objects
  pub expired : t.expired_snapshots ≡ p.expired_snapshots
  pub archives : t.archive_sizes ≡ p.archive_sizes
  pub orphans :
      t.chunk_objects ≡ p.chunk_objects ++ keep_if (is_orphan p.known_chunks now grace) chunks
  pub young :
      t.protected_by_grace
      ≡ p.protected_by_grace + length (keep_if (is_young p.known_chunks now grace) chunks)

place_chunk-Placed :
    (now grace : ℤ) (p : GcPlan) (o : ObjectInfo) (d : Bytes)
    → chunk_digest_from_key o.key ≡ ok d
    → Placed now grace p (o ∷ []) (place_chunk now grace p o d)
unfolding place_chunk keep_if is_orphan is_young
place_chunk-Placed now grace p o d e = record {
  known = ground arith;
  backups = ground arith;
  indexed = ground arith;
  expired = ground arith;
  archives = ground arith;
  orphans = ground (arith, append-nil p.chunk_objects);
  young = ground arith;
}

Placed-trans :
    {now grace : ℤ} {p q t : GcPlan} (o : ObjectInfo) (chunks : List ObjectInfo)
    → Placed now grace p (o ∷ []) q
    → Placed now grace q chunks t
    → Placed now grace p (o ∷ chunks) t
Placed-trans {now} {grace} {p} {q} {t} o chunks a b = record {
  known = b.known ∙ a.known;
  backups = b.backups ∙ a.backups;
  indexed = b.indexed ∙ a.indexed;
  expired = b.expired ∙ a.expired;
  archives = b.archives ∙ a.archives;
  orphans = rw (b.orphans, a.orphans, a.known, keep_if-cons _ o chunks, append_assoc);
  young = rw (b.young, a.young, a.known, keep_if-cons _ o chunks, length-append) (omega arith);
}

-- After the loop the orphans are appended, the young chunks counted, the rest unchanged.
pub mark_chunks-Placed :
    (now grace : ℤ) (p : GcPlan) (chunks : List ObjectInfo) (t : GcPlan)
    → for_each (mark_chunk now grace) p chunks ≡ ok t
    → Placed now grace p chunks t
unfolding mark_chunk keep_if
mark_chunks-Placed now grace p [] t h =
    let e = for_each-nil (mark_chunk now grace) p h in
    record {
      known = ground arith;
      backups = ground arith;
      indexed = ground arith;
      expired = ground arith;
      archives = ground arith;
      orphans = ground (arith, append-nil p.chunk_objects);
      young = ground arith;
    }
mark_chunks-Placed now grace p (o ∷ chunks) t h =
    let (q, here, rest) = for_each-cons (mark_chunk now grace) p o chunks h in
    let (d, e, placed) =
      >>=-eq-ok (chunk_digest_from_key o.key) (λ d. ok (place_chunk now grace p o d)) here in
    Placed-trans o chunks
      (subst (Placed now grace p (o ∷ [])) (ok-injective placed)
        (place_chunk-Placed now grace p o d e))
      (mark_chunks-Placed now grace q chunks t rest)

place_chunk-existing :
    (now grace : ℤ) (p : GcPlan) (o : ObjectInfo) (d digest : Bytes)
    → chunk_digest_from_key o.key ≡ ok d
    → (is_set (place_chunk now grace p o d).existing_chunks digest
        && not (is_none (lookup p.known_chunks digest)))
      ≡ ((is_set p.existing_chunks digest || is_chunk_of digest o)
          && not (is_none (lookup p.known_chunks digest)))
unfolding place_chunk is_chunk_of
place_chunk-existing now grace p o d digest e =
    ground (arith, lookup-insert p.existing_chunks d digest true, bytes_eq_iff d digest)

-- Of a referenced digest the plan knows that its chunk exists exactly if one was listed.
pub mark_chunks-existing :
    (now grace : ℤ) (p : GcPlan) (chunks : List ObjectInfo) (t : GcPlan) (digest : Bytes)
    → for_each (mark_chunk now grace) p chunks ≡ ok t
    → is_none (lookup p.known_chunks digest) ≡ false
    → is_set t.existing_chunks digest
      ≡ (is_set p.existing_chunks digest || any (is_chunk_of digest) chunks)
unfolding mark_chunk any
mark_chunks-existing now grace p [] t digest h k =
    let e = for_each-nil (mark_chunk now grace) p h in ground arith
mark_chunks-existing now grace p (o ∷ chunks) t digest h k =
    let (q, here, rest) = for_each-cons (mark_chunk now grace) p o chunks h in
    let (d, e, placed) =
      >>=-eq-ok (chunk_digest_from_key o.key) (λ d. ok (place_chunk now grace p o d)) here in
    let q_eq : place_chunk now grace p o d ≡ q = ok-injective placed in
    let at_o = place_chunk-existing now grace p o d digest e in
    let same = (place_chunk-Placed now grace p o d e).known in
    let known' : is_none (lookup q.known_chunks digest) ≡ false = rw (← q_eq, same) k in
    let ih = mark_chunks-existing now grace q chunks t digest rest known' in
    ground (arith, ih, at_o, q_eq, k)

pub lookup-missing_of :
    (existing : Map Bool) (known : Map (List Bytes)) (digest : Bytes)
    → lookup (missing_of existing known) digest
      ≡ (if is_set existing digest then none else lookup known digest)
unfolding missing_of lookup
lookup-missing_of existing [] digest = ground arith
lookup-missing_of existing ((d, refs) ∷ known) digest =
    ground (arith, bytes_eq_iff d digest, lookup-missing_of existing known digest)
