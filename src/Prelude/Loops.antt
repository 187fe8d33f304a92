-- ===== src/Prelude/Loops.antt =====
-- `for _, x := range xs { … }` over a state, with an early return on an error.
use mathlib.Core.List.{List, [], ◌∷◌}
use mathlib.Core.Logic.{inl, inr}
use mathlib.Core.Path.{◌≡◌, subst}
use pmoxs3backuproxy.Prelude.Lists.{Elem}
use pmoxs3backuproxy.Prelude.Results.{Result, ok, ◌>>=◌, >>=-eq-ok}

unfoldable pub for_each {ℓ κ} :
    {E : Type 0} {S : Type ℓ} {A : Type κ} → (S → A → Result E S) → S → List A → Result E S
for_each step s [] = ok s
for_each step s (x ∷ xs) = do s' ← step s x; for_each step s' xs

pub ok-injective {ℓ} :
    {E : Type 0} {S : Type ℓ} {s t : S} → ◌≡◌ {A = Result E S} (ok s) (ok t) → s ≡ t
ok-injective h = cc

module _ {ℓ κ} {E : Type 0} {S : Type ℓ} {A : Type κ} (step : S → A → Result E S) where
  pub for_each-cons :
      (s : S) (x : A) (xs : List A) {t : S}
      → for_each step s (x ∷ xs) ≡ ok t
      → (s' : S) × (step s x ≡ ok s') × (for_each step s' xs ≡ ok t)
  unfolding for_each
  for_each-cons s x xs h = >>=-eq-ok (step s x) (λ s'. for_each step s' xs) h

  pub for_each-nil : (s : S) {t : S} → for_each step s [] ≡ ok t → s ≡ t
  unfolding for_each
  for_each-nil s h = ok-injective h

  -- What every step keeps, a completed loop keeps.
  pub for_each_inv {μ} :
      (P : S → Type μ)
      → ((s : S) (x : A) (t : S) → P s → step s x ≡ ok t → P t)
      → (s : S) (xs : List A) (t : S) → P s
      → for_each step s xs ≡ ok t
      → P t
  unfolding for_each
  for_each_inv P keep s [] t p h = subst P (ok-injective h) p
  for_each_inv P keep s (x ∷ xs) t p h =
      let (s', here, rest) = >>=-eq-ok (step s x) (λ s'. for_each step s' xs) h in
      for_each_inv P keep s' xs t (keep s x s' p here) rest

  -- What the step at an element brings about and later steps keep, holds of that element after a
  -- completed loop. `P` is an invariant that both may use.
  pub for_each_establishes {μ ν} :
      (P : S → Type μ) (Q : A → S → Type ν)
      → ((s : S) (x : A) (t : S) → P s → step s x ≡ ok t → P t)
      → ((s : S) (x : A) (t : S) → P s → step s x ≡ ok t → Q x t)
      → ((a : A) (s : S) (x : A) (t : S) → P s → Q a s → step s x ≡ ok t → Q a t)
      → (s : S) (xs : List A) (t : S) → P s
      → for_each step s xs ≡ ok t
      → (a : A) → Elem a xs
      → Q a t
  unfolding for_each
  for_each_establishes P Q inv new keep s [] t p h a m = elim m [ ]
  for_each_establishes P Q inv new keep s (x ∷ xs) t p h a (inl e) =
      let (s', here, rest) = >>=-eq-ok (step s x) (λ s'. for_each step s' xs) h in
      (for_each_inv (λ u. record { 0 : P u; 1 : Q a u })
        (λ u y v both st. (inv u y v both.0 st, keep a u y v both.0 both.1 st)) s' xs t
        (inv s x s' p here, rw e (new s x s' p here)) rest).1
  for_each_establishes P Q inv new keep s (x ∷ xs) t p h a (inr m) =
      let (s', here, rest) = >>=-eq-ok (step s x) (λ s'. for_each step s' xs) h in
      for_each_establishes P Q inv new keep s' xs t (inv s x s' p here) rest a m
