-- ===== src/Prelude/Strings.antt =====
-- Go's strings and byte slices are lists of bytes here, with the functions of the packages
-- `strings` and `bytes` that the program calls.
use Prim.Native.Char.{code}
use Prim.Native.String.{String}
use Prim.Native.Nat.{ℕ, suc, ◌-◌}
use mathlib.Core.Bool.{Bool, true, false, ◌&&◌}
use mathlib.Core.List.{List, [], ◌∷◌, ◌++◌}
use mathlib.Core.Logic.{◌↔◌, ◌≢◌}
use mathlib.Core.Option
use mathlib.Core.Option.{Option, none, some}
use mathlib.Core.Path.{◌≡◌, refl}
use native.Mathlib.Omega.{arith}
use pmoxs3backuproxy.Prelude.Tests.{leb, ◌==◌, if◌then◌else◌}
use pmoxs3backuproxy.Prelude.Lists.{length, drop, drop-append, All}

abbrev pub Bytes : Type 0
Bytes = List ℕ

-- The bytes of an ASCII literal.
unfoldable pub codes : String → Bytes
codes String.[] = []
codes (String.◌∷◌ c s) = code c ∷ codes s

-- a == b, bytes.Equal(a, b)
unfoldable pub bytes_eq : Bytes → Bytes → Bool
bytes_eq [] [] = true
bytes_eq [] (y ∷ ys) = false
bytes_eq (x ∷ xs) [] = false
bytes_eq (x ∷ xs) (y ∷ ys) = x == y && bytes_eq xs ys

pub bytes_eq_refl : (a : Bytes) → bytes_eq a a ≡ true
unfolding bytes_eq
bytes_eq_refl [] = refl
bytes_eq_refl (x ∷ xs) = ground (arith, bytes_eq_refl xs)

pub eq_of_bytes_eq : (a b : Bytes) → bytes_eq a b ≡ true → a ≡ b
unfolding bytes_eq
eq_of_bytes_eq [] [] h = refl
eq_of_bytes_eq [] (y ∷ ys) h = cc
eq_of_bytes_eq (x ∷ xs) [] h = cc
eq_of_bytes_eq (x ∷ xs) (y ∷ ys) h = ground (arith, eq_of_bytes_eq xs ys)

pub bytes_eq_iff : (a b : Bytes) → (bytes_eq a b ≡ true) ↔ (a ≡ b)
bytes_eq_iff a b = (eq_of_bytes_eq a b, λ e. rw e (bytes_eq_refl b))

-- strings.HasPrefix(s, prefix)
unfoldable pub has_prefix : Bytes → Bytes → Bool
has_prefix s [] = true
has_prefix [] (p ∷ ps) = false
has_prefix (c ∷ s) (p ∷ ps) = c == p && has_prefix s ps

-- strings.HasSuffix(s, suffix)
unfoldable pub has_suffix : Bytes → Bytes → Bool
has_suffix s suffix =
    leb (length suffix) (length s) && bytes_eq (drop (length s - length suffix) s) suffix

-- strings.TrimPrefix(s, prefix)
unfoldable pub trim_prefix : Bytes → Bytes → Bytes
unfolding has_prefix
trim_prefix s prefix = if has_prefix s prefix then drop (length prefix) s else s

-- strings.IndexByte(s, c), with `none` for -1
unfoldable pub index_byte : Bytes → ℕ → Option ℕ
index_byte [] c = none
index_byte (x ∷ s) c = if x == c then some 0 else Option.map suc (index_byte s c)

-- The field up to the first `c`, and what follows that `c`, if there is one.
unfoldable pub cut : Bytes → ℕ → Bytes × Option Bytes
cut [] c = ([], none)
cut (x ∷ s) c = let (field, rest) = cut s c in if x == c then ([], some s) else (x ∷ field, rest)

-- The first field is extended by a character.
on_first : ℕ → List Bytes → List Bytes
on_first x [] = (x ∷ []) ∷ []
on_first x (f ∷ fs) = (x ∷ f) ∷ fs

-- strings.Split(s, sep) for a separator of one byte
unfoldable pub split : Bytes → ℕ → List Bytes
unfolding on_first
split [] c = [] ∷ []
split (x ∷ s) c = if x == c then [] ∷ split s c else on_first x (split s c)

pub split_of_All : (s : Bytes) (c : ℕ) → All (λ x. x ≢ c) s → split s c ≡ s ∷ []
unfolding split
split_of_All [] c h = refl
split_of_All (x ∷ s) c h = ground (arith, split_of_All s c h.1)

pub split-append :
    (s t : Bytes) (c : ℕ) → All (λ x. x ≢ c) s → split (s ++ (c ∷ t)) c ≡ s ∷ split t c
unfolding split
split-append [] t c h = ground arith
split-append (x ∷ s) t c h = ground (arith, split-append s t c h.1)

-- The field before a separator.
pub cut-append : (s t : Bytes) (c : ℕ) → All (λ x. x ≢ c) s → cut (s ++ (c ∷ t)) c ≡ (s, some t)
unfolding cut
cut-append [] t c h = ground arith
cut-append (x ∷ s) t c h = ground (arith, cut-append s t c h.1)

pub has_prefix-append : (p s : Bytes) → has_prefix (p ++ s) p ≡ true
unfolding has_prefix
has_prefix-append [] s = refl
has_prefix-append (c ∷ p) s = ground (arith, has_prefix-append p s)

pub trim_prefix-append : (p s : Bytes) → trim_prefix (p ++ s) p ≡ s
unfolding trim_prefix
trim_prefix-append p s = rw (has_prefix-append p s) (drop-append p s)
