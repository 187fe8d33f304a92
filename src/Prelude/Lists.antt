-- ===== src/Prelude/Lists.antt =====
-- Lists measured and cut by native numbers, under the library's names, and two predicates.
use Prim.Native.Nat.{ℕ, zero, suc, ◌+◌, ◌-◌, ◌≤◌}
use mathlib.Core.Bool.{Bool, true, false, ◌||◌}
use mathlib.Core.Path.{◌≡◌, refl, ap}
use mathlib.Core.Logic.{◌⊎◌, inl, inr}
use mathlib.Core.List.{List, [], ◌∷◌, ◌++◌}
use native.Mathlib.Omega.{arith}
use pmoxs3backuproxy.Prelude.Tests.{if◌then◌else◌, Bool-cases}

-- The empty type at every level.
pub data Never {ℓ} : Type ℓ where

module _ {ℓ} {A : Type ℓ} where
  abbrev pub length : List A → ℕ
  length [] = 0
  length (x ∷ xs) = suc (length xs)

  abbrev pub take : ℕ → List A → List A
  take zero xs = []
  take (suc n) [] = []
  take (suc n) (x ∷ xs) = x ∷ take n xs

  abbrev pub drop : ℕ → List A → List A
  drop zero xs = xs
  drop (suc n) [] = []
  drop (suc n) (x ∷ xs) = drop n xs

  abbrev pub replicate : ℕ → A → List A
  replicate zero a = []
  replicate (suc n) a = a ∷ replicate n a

  -- `x` stands in the list.
  abbrev pub Elem : A → List A → Type ℓ
  Elem x [] = Never
  Elem x (y ∷ ys) = (x ≡ y) ⊎ Elem x ys

  -- Every element has the property.
  abbrev pub All {κ} : (A → Type κ) → List A → Type κ
  All P [] = Unit
  All P (x ∷ xs) = P x × All P xs

-- The elements that pass a test, and whether there is one.
module _ {ℓ} {A : Type ℓ} where
  unfoldable pub keep_if : (A → Bool) → List A → List A
  keep_if p [] = []
  keep_if p (x ∷ xs) = let rest = keep_if p xs in if p x then x ∷ rest else rest

  unfoldable pub any : (A → Bool) → List A → Bool
  any p [] = false
  any p (x ∷ xs) = p x || any p xs

module _ {ℓ} {A : Type ℓ} where
  pub Elem-keep_if :
      (p : A → Bool) (xs : List A) (x : A) → Elem x (keep_if p xs) → Elem x xs × (p x ≡ true)
  unfolding keep_if
  Elem-keep_if p [] x h = elim h [ ]
  Elem-keep_if p (y ∷ xs) x h = elim (Bool-cases (p y)) [
    | inl e ↦ elim (let g : Elem x (y ∷ keep_if p xs) = rw e at h in g) [
      | inl here ↦ (inl here, rw here e)
      | inr later ↦ let (m, t) = Elem-keep_if p xs x later in (inr m, t)
    ]
    | inr e ↦
        let g : Elem x (keep_if p xs) = rw e at h in
        let (m, t) = Elem-keep_if p xs x g in (inr m, t)
  ]

  pub keep_if-Elem :
      (p : A → Bool) (xs : List A) (x : A) → Elem x xs → p x ≡ true → Elem x (keep_if p xs)
  unfolding keep_if
  keep_if-Elem p [] x h t = elim h [ ]
  keep_if-Elem p (y ∷ xs) x (inl e) t = let t' : p y ≡ true = rw e at t in rw t' (inl e)
  keep_if-Elem p (y ∷ xs) x (inr m) t = elim (Bool-cases (p y)) [
    | inl e ↦ rw e (inr (keep_if-Elem p xs x m t))
    | inr e ↦ rw e (keep_if-Elem p xs x m t)
  ]

  pub keep_if-cons :
      (p : A → Bool) (x : A) (xs : List A) → keep_if p (x ∷ xs) ≡ keep_if p (x ∷ []) ++ keep_if p xs
  unfolding keep_if
  keep_if-cons p x xs = ground arith

  pub any-Elem : (p : A → Bool) (xs : List A) → any p xs ≡ true → (x : A) × Elem x xs × (p x ≡ true)
  unfolding any
  any-Elem p [] h = cc
  any-Elem p (y ∷ xs) h = elim (Bool-cases (p y)) [
    | inl e ↦ (y, inl refl, e)
    | inr e ↦
        let g : any p xs ≡ true = rw e at h in let (x, m, t) = any-Elem p xs g in (x, inr m, t)
  ]

  pub Elem-any : (p : A → Bool) (xs : List A) (x : A) → Elem x xs → p x ≡ true → any p xs ≡ true
  unfolding any
  Elem-any p [] x h t = elim h [ ]
  Elem-any p (y ∷ xs) x (inl e) t = let t' : p y ≡ true = rw e at t in rw t'
  Elem-any p (y ∷ xs) x (inr m) t = ground (arith, Elem-any p xs x m t)

module _ {ℓ} {A : Type ℓ} where
  pub length-append : (xs ys : List A) → length (xs ++ ys) ≡ length xs + length ys
  length-append [] ys = omega arith
  length-append (x ∷ xs) ys = omega (arith, length-append xs ys)

  pub take-append : (xs ys : List A) → take (length xs) (xs ++ ys) ≡ xs
  take-append [] ys = refl
  take-append (x ∷ xs) ys = ap (◌∷◌ x) (take-append xs ys)

  pub drop-append : (xs ys : List A) → drop (length xs) (xs ++ ys) ≡ ys
  drop-append [] ys = refl
  drop-append (x ∷ xs) ys = drop-append xs ys

  pub take-append_of_eq : (n : ℕ) (xs ys : List A) → length xs ≡ n → take n (xs ++ ys) ≡ xs
  take-append_of_eq n xs ys e = rw (← e) (take-append xs ys)

  pub drop-append_of_eq : (n : ℕ) (xs ys : List A) → length xs ≡ n → drop n (xs ++ ys) ≡ ys
  drop-append_of_eq n xs ys e = rw (← e) (drop-append xs ys)

  pub length-drop : (n : ℕ) (xs : List A) → length (drop n xs) ≡ length xs - n
  length-drop zero xs = omega arith
  length-drop (suc n) [] = omega arith
  length-drop (suc n) (x ∷ xs) = omega (arith, length-drop n xs)

  pub length-take_of_le : (n : ℕ) (xs : List A) → n ≤ length xs → length (take n xs) ≡ n
  length-take_of_le zero xs h = refl
  length-take_of_le (suc n) [] h = absurd (omega arith)
  length-take_of_le (suc n) (x ∷ xs) h = ap suc (length-take_of_le n xs (omega arith))

  pub take-append-drop : (n : ℕ) (xs : List A) → take n xs ++ drop n xs ≡ xs
  take-append-drop zero xs = refl
  take-append-drop (suc n) [] = refl
  take-append-drop (suc n) (x ∷ xs) = rw (take-append-drop n xs)

  pub drop-drop : (m n : ℕ) (xs : List A) → drop m (drop n xs) ≡ drop (n + m) xs
  drop-drop m zero xs = let e : 0 + m ≡ m = omega arith in rw e
  drop-drop m (suc n) [] = drop-nil m (suc n + m)
    where
      drop-nil : (i j : ℕ) → drop {A = A} i [] ≡ drop j []
      drop-nil zero zero = refl
      drop-nil zero (suc j) = refl
      drop-nil (suc i) zero = refl
      drop-nil (suc i) (suc j) = refl
  drop-drop m (suc n) (x ∷ xs) =
      let e : suc n + m ≡ suc (n + m) = omega arith in rw e (drop-drop m n xs)

  pub length-replicate : (n : ℕ) (a : A) → length (replicate n a) ≡ n
  length-replicate zero a = refl
  length-replicate (suc n) a = ap suc (length-replicate n a)

  pub Elem-append_left : (x : A) (xs ys : List A) → Elem x xs → Elem x (xs ++ ys)
  Elem-append_left x [] ys h = elim h [ ]
  Elem-append_left x (y ∷ xs) ys (inl e) = inl e
  Elem-append_left x (y ∷ xs) ys (inr h) = inr (Elem-append_left x xs ys h)

  pub Elem-append_right : (x : A) (xs ys : List A) → Elem x ys → Elem x (xs ++ ys)
  Elem-append_right x [] ys h = h
  Elem-append_right x (y ∷ xs) ys h = inr (Elem-append_right x xs ys h)

  pub Elem-append_cases : (x : A) (xs ys : List A) → Elem x (xs ++ ys) → Elem x xs ⊎ Elem x ys
  Elem-append_cases x [] ys h = inr h
  Elem-append_cases x (y ∷ xs) ys (inl e) = inl (inl e)
  Elem-append_cases x (y ∷ xs) ys (inr h) = elim (Elem-append_cases x xs ys h) [
    | inl l ↦ inl (inr l)
    | inr r ↦ inr r
  ]

  pub All-append {κ} : (P : A → Type κ) (xs ys : List A) → All P xs → All P ys → All P (xs ++ ys)
  All-append P [] ys hx hy = hy
  All-append P (x ∷ xs) ys hx hy = (hx.0, All-append P xs ys hx.1 hy)

  pub All-Elem {κ} : (P : A → Type κ) (xs : List A) (x : A) → All P xs → Elem x xs → P x
  All-Elem P [] x h m = elim m [ ]
  All-Elem P (y ∷ xs) x h (inl e) = rw e h.0
  All-Elem P (y ∷ xs) x h (inr m) = All-Elem P xs x h.1 m

pub All-map {ℓ κ} :
    {A : Type ℓ} (P Q : A → Type κ) → ((a : A) → P a → Q a) → (xs : List A) → All P xs → All Q xs
All-map P Q f [] h = tt
All-map P Q f (x ∷ xs) h = (f x h.0, All-map P Q f xs h.1)
