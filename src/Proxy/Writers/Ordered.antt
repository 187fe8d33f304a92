-- ===== src/Proxy/Writers/Ordered.antt =====
-- The order of the offsets in an index (cmd/pmoxs3backuproxy/main.go).
use mathlib.Core.List.{Perm}
use mathlib.Core.List.Perm
use pmoxs3backuproxy.Prelude.{
  ℕ, ◌≤◌, true, false, [], ◌∷◌, ◌≡◌, arith, inl, inr, Bool-cases, All, All-map,
}
use pmoxs3backuproxy.Prelude.Strings.{Bytes}
use pmoxs3backuproxy.Prelude.Words.{add64}
use pmoxs3backuproxy.Proxy.Writers.{Assignments, int64_leb, insert_key, sorted_keys}

-- The order of int64 on the numbers that are offsets.
abbrev pub IsUpTo : ℕ → ℕ → Type 0
IsUpTo a b = add64 a 9223372036854775808 ≤ add64 b 9223372036854775808

-- Each offset is up to all that follow.
unfoldable pub IsAscending : Assignments → Type 0
IsAscending [] = Unit
IsAscending ((o, d) ∷ m) = All (λ a. IsUpTo o a.0) m × IsAscending m

insert_key-All :
    (P : ℕ × Bytes → Type 0) (offset : ℕ) (digest : Bytes) (m : Assignments)
    → P (offset, digest)
    → All P m
    → All P (insert_key offset digest m)
unfolding insert_key
insert_key-All P offset digest [] h hs = (h, tt)
insert_key-All P offset digest ((o, d) ∷ m) h (k, hs) = elim (Bool-cases (int64_leb offset o)) [
  | inl t ↦ rw t (h, (k, hs))
  | inr f ↦ rw f (k, insert_key-All P offset digest m h hs)
]

pub sorted_keys-All : (P : ℕ × Bytes → Type 0) (m : Assignments) → All P m → All P (sorted_keys m)
unfolding sorted_keys
sorted_keys-All P [] hs = tt
sorted_keys-All P ((o, d) ∷ m) (h, hs) =
    insert_key-All P o d (sorted_keys m) h (sorted_keys-All P m hs)

insert_key-Perm :
    (offset : ℕ) (digest : Bytes) (m : Assignments)
    → Perm (insert_key offset digest m) ((offset, digest) ∷ m)
unfolding insert_key
insert_key-Perm offset digest [] = Perm.rfl
insert_key-Perm offset digest ((o, d) ∷ m) = elim (Bool-cases (int64_leb offset o)) [
  | inl t ↦ rw t Perm.rfl
  | inr f ↦ rw f (
      Perm.trans (Perm.cons (o, d) (insert_key-Perm offset digest m))
        (Perm.swap (offset, digest) (o, d) m))
]

pub sorted_keys-Perm : (m : Assignments) → Perm (sorted_keys m) m
unfolding sorted_keys
sorted_keys-Perm [] = Perm.rfl
sorted_keys-Perm ((o, d) ∷ m) =
    Perm.trans (insert_key-Perm o d (sorted_keys m)) (Perm.cons (o, d) (sorted_keys-Perm m))

int64_leb-true : (a b : ℕ) → int64_leb a b ≡ true → IsUpTo a b
unfolding int64_leb
int64_leb-true a b h = ground arith

int64_leb-false : (a b : ℕ) → int64_leb a b ≡ false → IsUpTo b a
unfolding int64_leb
int64_leb-false a b h = ground arith

insert_key-IsAscending :
    (offset : ℕ) (digest : Bytes) (m : Assignments)
    → IsAscending m
    → IsAscending (insert_key offset digest m)
unfolding insert_key IsAscending
insert_key-IsAscending offset digest [] h = (tt, tt)
insert_key-IsAscending offset digest ((o, d) ∷ m) (below, h) =
    elim (Bool-cases (int64_leb offset o)) [
      | inl t ↦
          let first = int64_leb-true offset o t in
          rw t (
            (
              first,
              All-map (λ a. IsUpTo o a.0) (λ a. IsUpTo offset a.0) (λ a k. omega (arith, first, k))
                  m below,
            ),
            (below, h),
          )
      | inr f ↦ rw f (
        insert_key-All (λ a. IsUpTo o a.0) offset digest m (int64_leb-false offset o f) below,
        insert_key-IsAscending offset digest m h,
      )
    ]

pub sorted_keys-IsAscending : (m : Assignments) → IsAscending (sorted_keys m)
unfolding sorted_keys IsAscending
sorted_keys-IsAscending [] = tt
sorted_keys-IsAscending ((o, d) ∷ m) =
    insert_key-IsAscending o d (sorted_keys m) (sorted_keys-IsAscending m)
