-- ===== src/Proxy/Writers/Fixed/Fill.antt =====
-- The loop that fills a fixed index: what it writes, and when it ends.
use mathlib.Core.List.{append_assoc}
use pmoxs3backuproxy.Prelude.{
  ℕ, zero, suc, ◌+◌, ◌-◌, ◌*◌, ◌%◌, ◌≤◌, ◌<◌, Bool, true, false, Option, none, some, List, [], ◌∷◌,
  ◌++◌, ◌≡◌, ◌≢◌, ◌∙◌, refl, sym, ap, subst, arith, ltb, leb, le→leb, lt→ltb, ltb→lt, le→ltb,
  length, take, drop, All, Option-cases, Bool-cases, inl, inr, length-append, length-drop,
  length-take_of_le, take-append_of_eq, drop-append_of_eq, take-append-drop, drop-drop,
}
use pmoxs3backuproxy.Prelude.Strings.{Bytes}
use pmoxs3backuproxy.Prelude.Words.{two64, add64}
use pmoxs3backuproxy.Proxy.Writers.{Assignments, assigned}
use pmoxs3backuproxy.Proxy.Writers.Fixed.{overwrite, copy_slice, closed, running, fill}

-- The digests assigned to `n` offsets from `i` on, `c` apart, if there is one at each.
unfoldable pub values_at : Assignments → ℕ → ℕ → ℕ → Option (List Bytes)
values_at m c i zero = some []
values_at m c i (suc n) = elim (assigned m i) [
  | none ↦ none
  | some d ↦ elim (values_at m c (i + c) n) [ none ↦ none | some ds ↦ some (d ∷ ds) ]
]

unfoldable pub concat : List Bytes → Bytes
concat [] = []
concat (d ∷ ds) = d ++ concat ds

-- Bytes written over as many bytes in the middle.
pub overwrite-append :
    (lo : ℕ) (p t r s : Bytes)
    → length p ≡ lo
    → length t ≡ length s
    → overwrite lo s (p ++ (t ++ r)) ≡ p ++ (s ++ r)
unfolding overwrite
overwrite-append lo p t r s e h =
    let dropped : drop (lo + length s) (p ++ (t ++ r)) ≡ r =
      rw (← append_assoc p t r)
        (drop-append_of_eq (lo + length s) (p ++ t) r (omega (arith, length-append p t, e, h))) in
    rw (take-append_of_eq lo p (t ++ r) e, dropped) refl

take_all : (n : ℕ) (s : Bytes) → length s ≡ n → take n s ≡ s
take_all zero [] h = refl
take_all zero (x ∷ s) h = absurd (omega arith)
take_all (suc n) [] h = refl
take_all (suc n) (x ∷ s) h = ap (◌∷◌ x) (take_all n s (omega arith))

-- A copy that fits exactly.
pub copy_slice-append :
    (lo n : ℕ) (p t r s : Bytes)
    → length p ≡ lo
    → length t ≡ n
    → length s ≡ n
    → copy_slice lo (lo + n) s (p ++ (t ++ r)) ≡ some (p ++ (s ++ r))
unfolding copy_slice
copy_slice-append lo n p t r s e ht hs =
    let above : leb lo (lo + n) ≡ true = le→leb lo (lo + n) (omega arith) in
    let within : leb (lo + n) (length (p ++ (t ++ r))) ≡ true =
      le→leb _ _ (omega (arith, length-append p (t ++ r), length-append t r, e, ht)) in
    let width : lo + n - lo ≡ n = omega arith in
    let whole : take n s ≡ s = take_all n s hs in
    rw (above, within, width, whole)
      (ap some (overwrite-append lo p t r s e (omega (arith, ht, hs))))

pub values_at-suc :
    (m : Assignments) (c i n : ℕ) (ds : List Bytes)
    → values_at m c i (suc n) ≡ some ds
    → (d : Bytes) × (rest : List Bytes) × (assigned m i ≡ some d)
      × (values_at m c (i + c) n ≡ some rest)
      × (d ∷ rest ≡ ds)
unfolding values_at
values_at-suc m c i n ds e = elim (Option-cases (assigned m i)) [
  | inl f ↦ absurd (ground (arith, f, e))
  | inr (d, f) ↦ elim (Option-cases (values_at m c (i + c) n)) [
    | inl g ↦ absurd (ground (arith, f, g, e))
    | inr (rest, g) ↦ (d, rest, f, g, ground (arith, f, g, e))
  ]
]

-- One round that writes its digest.
fill-assigned :
    (m : Assignments) (reuse : Bool) (c size fuel i k : ℕ) (p t r d : Bytes)
    → i < size
    → size + c ≤ two64
    → assigned m i ≡ some d
    → length p ≡ 4096 + 32 * k
    → length t ≡ 32
    → length d ≡ 32
    → 4096 + 32 * k + 32 < two64
    → fill m reuse c size (suc fuel) i k (p ++ (t ++ r))
      ≡ fill m reuse c size fuel (i + c) (k + 1) (p ++ (d ++ r))
unfolding fill
fill-assigned m reuse c size fuel i k p t r d below fits e lp lt ld small =
    let lo : (4096 + 32 * k) % two64 ≡ 4096 + 32 * k = omega arith in
    let hi : (4096 + 32 * k + 32) % two64 ≡ 4096 + 32 * k + 32 = omega arith in
    let next : add64 i c ≡ i + c = omega arith in
    let round : add64 k 1 ≡ k + 1 = omega arith in
    rw
      (
        fill,
        lt→ltb i size below,
        e,
        lo,
        hi,
        copy_slice-append (4096 + 32 * k) 32 p t r d lp lt ld,
        next,
        round,
      )
      refl

-- The loop puts the digests of its offsets one behind the other, over the bytes that were there.
pub fill-values :
    (m : Assignments) (reuse : Bool) (c size n fuel i k : ℕ) (ds : List Bytes) (p r : Bytes)
    → n < fuel
    → size ≤ i + n * c
    → i + n * c < size + c
    → size + c ≤ two64
    → values_at m c i n ≡ some ds
    → All (λ d. length d ≡ 32) ds
    → length p ≡ 4096 + 32 * k
    → 32 * n ≤ length r
    → length p + length r < two64
    → fill m reuse c size fuel i k (p ++ r) ≡ closed (p ++ (concat ds ++ drop (32 * n) r))
unfolding values_at concat fill
fill-values m reuse c size n zero i k ds p r h lo hi fits e hs lp lr small = absurd (omega arith)
fill-values m reuse c size zero (suc fuel) i k [] p r h lo hi fits e hs lp lr small =
    let ends : ltb i size ≡ false = le→ltb i size (omega arith) in rw (fill, ends) refl
fill-values m reuse c size zero (suc fuel) i k (d ∷ ds) p r h lo hi fits e hs lp lr small =
    absurd (ground (arith, e))
fill-values m reuse c size (suc n) (suc fuel) i k ds p r h lo hi fits e hs lp lr small =
    let (d, rest, f, g, eq) = values_at-suc m c i n ds e in
    let (hd, hrest) = subst (All (λ d. length d ≡ 32)) (sym eq) hs in
    let t = take 32 r in
    let r' = drop 32 r in
    let lt : length t ≡ 32 = length-take_of_le 32 r (omega arith) in
    let lp' : length (p ++ d) ≡ 4096 + 32 * (k + 1) = omega (arith, length-append p d, lp, hd) in
    let later : fill m reuse c size fuel (i + c) (k + 1) ((p ++ d) ++ r')
        ≡ closed ((p ++ d) ++ (concat rest ++ drop (32 * n) r')) =
      fill-values m reuse c size n fuel (i + c) (k + 1) rest (p ++ d) r' (omega arith) (omega arith)
        (omega arith) fits g hrest lp' (omega (arith, length-drop 32 r))
        (omega (arith, length-append p d, length-drop 32 r, hd)) in
    let start : p ++ r ≡ p ++ (t ++ r') = ap (λ x. p ++ x) (sym (take-append-drop 32 r)) in
    let end : (p ++ d) ++ (concat rest ++ drop (32 * n) r')
        ≡ p ++ (concat (d ∷ rest) ++ drop (32 * suc n) r) =
      let dropped : drop (32 * n) r' ≡ drop (32 * suc n) r =
        drop-drop (32 * n) 32 r ∙ ap (λ j. drop j r) (omega arith) in
      rw
        (
          dropped,
          append_assoc p d (concat rest ++ drop (32 * suc n) r),
          append_assoc d (concat rest) (drop (32 * suc n) r),
        )
        refl in
    ap (fill m reuse c size (suc fuel) i k) start
    ∙ fill-assigned m reuse c size fuel i k p t r' d (omega arith) fits f lp lt hd (omega arith)
    ∙ ap (fill m reuse c size fuel (i + c) (k + 1)) (sym (append_assoc p d r'))
    ∙ later
    ∙ ap closed end
    ∙ ap (λ l. closed (p ++ (concat l ++ drop (32 * suc n) r))) eq

-- A loop that goes on has an offset below the size, and its next round goes on too.
fill-running :
    (m : Assignments) (reuse : Bool) (c size fuel i k : ℕ) (buffer : Bytes)
    → size + c ≤ two64
    → fill m reuse c size (suc fuel) i k buffer ≡ running
    → (i < size)
      × (buffer' : Bytes) × (fill m reuse c size fuel (i + c) (add64 k 1) buffer' ≡ running)
unfolding fill
fill-running m reuse c size fuel i k buffer fits e = elim (Bool-cases (ltb i size)) [
  | inr over ↦ absurd (ground (arith, over, e))
  | inl more ↦
      let below = ltb→lt i size more in
      let next : add64 i c ≡ i + c = omega arith in
      let ongoing = rw (fill, more) at e in
      elim (Option-cases (assigned m i)) [
        | inl nothing ↦ elim (Bool-cases reuse) [
          | inl kept ↦ (below, buffer, rw (nothing, kept, next) at ongoing)
          | inr gap ↦ absurd (ground (arith, nothing, gap, ongoing))
        ]
        | inr (d, f) ↦
            elim (Option-cases
              (copy_slice ((4096 + 32 * k) % two64) ((4096 + 32 * k + 32) % two64) d buffer)) [
                | inl outside ↦ absurd (ground (arith, f, outside, ongoing))
                | inr (buffer', written) ↦ (below, buffer', rw (f, written, next) at ongoing)
              ]
      ]
]

-- With fuel for the offsets that are left, the loop ends: in a written array, at a hole or with a
-- panic.
pub fill-ends :
    (m : Assignments) (reuse : Bool) (c size fuel i k : ℕ) (buffer : Bytes)
    → size ≤ i + fuel * c
    → size + c ≤ two64
    → fill m reuse c size (suc fuel) i k buffer ≢ running
fill-ends m reuse c size zero i k buffer enough fits e =
    absurd (omega (arith, (fill-running m reuse c size zero i k buffer fits e).0))
fill-ends m reuse c size (suc fuel) i k buffer enough fits e =
    let (below, buffer', later) = fill-running m reuse c size (suc fuel) i k buffer fits e in
    fill-ends m reuse c size fuel (i + c) (add64 k 1) buffer' (omega arith) fits later
