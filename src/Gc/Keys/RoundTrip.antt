-- ===== src/Gc/Keys/RoundTrip.antt =====
-- The key that the proxy gives a chunk, as the collector reads it.
use pmoxs3backuproxy.Prelude.{
  ℕ, zero, suc, ◌-◌, true, List, [], ◌∷◌, ◌++◌, ◌≡◌, ◌≢◌, refl, ap, ◌∙◌, arith, length, take, drop,
  All, ok, Bool-cases, inl, inr, take-append-drop, length-take_of_le, length-drop, drop-drop,
}
use pmoxs3backuproxy.Prelude.Hex.{decode_string, length-decode_string}
use pmoxs3backuproxy.Prelude.Strings.{
  Bytes, codes, split, split-append, split_of_All, bytes_eq_refl,
}
use pmoxs3backuproxy.Gc.Keys.{is_digest, chunk_object_name, chunk_digest_from_key}

-- No character of a text that decodes is a slash.
pub decode_string-no_slash : (s : Bytes) → (decode_string s).1 ≡ true → All (λ c. c ≢ b'/') s
unfolding decode_string
decode_string-no_slash [] h = tt
decode_string-no_slash (c ∷ []) h = cc
decode_string-no_slash (c ∷ d ∷ s) h =
    (ground arith, (ground arith, decode_string-no_slash s (ground arith)))

All-take {ℓ κ} : {A : Type ℓ} (P : A → Type κ) (n : ℕ) (xs : List A) → All P xs → All P (take n xs)
All-take P zero xs h = tt
All-take P (suc n) [] h = tt
All-take P (suc n) (x ∷ xs) h = (h.0, All-take P n xs h.1)

All-drop {ℓ κ} : {A : Type ℓ} (P : A → Type κ) (n : ℕ) (xs : List A) → All P xs → All P (drop n xs)
All-drop P zero xs h = h
All-drop P (suc n) [] h = tt
All-drop P (suc n) (x ∷ xs) h = All-drop P n xs h.1

module _ (a b c : Bytes) where
  chunk_key : Bytes
  chunk_key = codes "chunks/" ++ (a ++ (b'/' ∷ (b ++ (b'/' ∷ c))))

  split-chunk_key :
      All (λ x. x ≢ b'/') a
      → All (λ x. x ≢ b'/') b
      → All (λ x. x ≢ b'/') c
      → split chunk_key b'/' ≡ codes "chunks" ∷ a ∷ b ∷ c ∷ []
  unfolding codes chunk_key
  split-chunk_key ha hb hc =
      split-append (codes "chunks") (a ++ (b'/' ∷ (b ++ (b'/' ∷ c)))) b'/' (omega arith)
      ∙ ap (◌∷◌ (codes "chunks")) (
          split-append a (b ++ (b'/' ∷ c)) b'/' ha
          ∙ ap (◌∷◌ a) (split-append b c b'/' hb ∙ ap (◌∷◌ b) (split_of_All c b'/' hc)))

  digest-chunk_key :
      All (λ x. x ≢ b'/') a
      → All (λ x. x ≢ b'/') b
      → All (λ x. x ≢ b'/') c
      → length a ≡ 2
      → length b ≡ 2
      → length c ≡ 60
      → is_digest (a ++ (b ++ c)) ≡ true
      → chunk_digest_from_key chunk_key ≡ ok (a ++ (b ++ c))
  unfolding chunk_digest_from_key
  digest-chunk_key ha hb hc la lb lc d =
      rw (split-chunk_key ha hb hc) (rw (bytes_eq_refl, la, lb, lc, d) refl)

halves : (digest : Bytes) → take 2 digest ++ (take 2 (drop 2 digest) ++ drop 4 digest) ≡ digest
halves digest =
    let e : drop 2 (drop 2 digest) ≡ drop 4 digest = drop-drop 2 2 digest in
    rw (← e, take-append-drop 2 (drop 2 digest)) (take-append-drop 2 digest)

length_of_is_digest : (digest : Bytes) → is_digest digest ≡ true → length digest ≡ 64
unfolding is_digest
length_of_is_digest digest h = ground (arith, length-decode_string digest)

decodes_of_is_digest : (digest : Bytes) → is_digest digest ≡ true → (decode_string digest).1 ≡ true
unfolding is_digest
decodes_of_is_digest digest h = ground arith

-- chunk_digest_from_key reads back the digest from which chunk_object_name made a key.
pub chunk_digest_from_key-chunk_object_name :
    (digest key : Bytes) → chunk_object_name digest ≡ ok key → chunk_digest_from_key key ≡ ok digest
unfolding chunk_object_name chunk_key
chunk_digest_from_key-chunk_object_name digest key h = elim (Bool-cases (is_digest digest)) [
  | inl d ↦
      let len = length_of_is_digest digest d in
      let two : length (drop 2 digest) ≡ length digest - 2 = length-drop 2 digest in
      let free = decode_string-no_slash digest (decodes_of_is_digest digest d) in
      let free2 = All-drop (λ x. x ≢ b'/') 2 digest free in
      let read =
        digest-chunk_key (take 2 digest) (take 2 (drop 2 digest)) (drop 4 digest)
          (All-take (λ x. x ≢ b'/') 2 digest free)
          (All-take (λ x. x ≢ b'/') 2 (drop 2 digest) free2)
          (All-drop (λ x. x ≢ b'/') 4 digest free) (length-take_of_le 2 digest (omega arith))
          (length-take_of_le 2 (drop 2 digest) (omega arith)) (omega (arith, length-drop 4 digest))
          (rw (halves digest) d) in
      let made : chunk_key (take 2 digest) (take 2 (drop 2 digest)) (drop 4 digest) ≡ key =
        ground arith in
      rw (← made) (read ∙ ap ok (halves digest))
  | inr no_digest ↦ ground arith
]
