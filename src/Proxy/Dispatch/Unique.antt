-- ===== src/Proxy/Dispatch/Unique.antt =====
-- The tests of ServeHTTP (cmd/pmoxs3backuproxy/main.go) against each other.
use pmoxs3backuproxy.Prelude.{
  suc, ◌≤◌, Bool, true, false, not, ◌&&◌, List, [], ◌∷◌, map, ◌≡◌, refl, ap, arith, inl, inr, ◌⊎◌,
  Bool-cases, and-true, length, keep_if, any, any-Elem, Elem, ◌==◌,
}
use pmoxs3backuproxy.Prelude.Strings.{Bytes, codes, bytes_eq, bytes_eq_iff, has_prefix}
use pmoxs3backuproxy.Proxy.Dispatch.{
  Request, Test, uri_starts, uri_is, action_starts, action_is, method_is, action_of, holds,
  all_hold, Row, table, routes,
}

-- Neither is a prefix of the other.
apart : Bytes → Bytes → Bool
apart p q = not (has_prefix p q) && not (has_prefix q p)

-- Two tests that do not hold of one request.
conflict : Test → Test → Bool
unfolding apart
conflict (uri_starts p) (uri_starts q) = apart p q
conflict (uri_starts p) (uri_is q) = not (has_prefix q p)
conflict (uri_is p) (uri_starts q) = not (has_prefix p q)
conflict (uri_is p) (uri_is q) = not (bytes_eq p q)
conflict (action_starts p) (action_starts q) = apart p q
conflict (action_starts p) (action_is q) = not (has_prefix q p)
conflict (action_is p) (action_starts q) = not (has_prefix p q)
conflict (action_is p) (action_is q) = not (bytes_eq p q)
conflict (method_is p) (method_is q) = not (bytes_eq p q)
conflict _ _ = false

rows_conflict : Row → Row → Bool
unfolding conflict
rows_conflict a b = any (λ s. any (conflict s) b.0) a.0

all_conflict : Row → List Row → Bool
unfolding rows_conflict
all_conflict a [] = true
all_conflict a (b ∷ rows) = rows_conflict a b && all_conflict a rows

exclusive : List Row → Bool
unfolding all_conflict
exclusive [] = true
exclusive (a ∷ rows) = all_conflict a rows && exclusive rows

table-exclusive : exclusive table ≡ true
unfolding exclusive table any codes has_prefix bytes_eq
table-exclusive = refl

-- Two prefixes of one text: one is a prefix of the other.
prefixes_nested :
    (s p q : Bytes)
    → has_prefix s p ≡ true
    → has_prefix s q ≡ true
    → (has_prefix p q ≡ true) ⊎ (has_prefix q p ≡ true)
unfolding has_prefix
prefixes_nested s [] q hp hq = inr refl
prefixes_nested s (c ∷ p) [] hp hq = inl refl
prefixes_nested [] (c ∷ p) (d ∷ q) hp hq = cc
prefixes_nested (x ∷ s) (c ∷ p) (d ∷ q) hp hq =
    let (xc, hp') = and-true (x == c) (has_prefix s p) hp in
    let (xd, hq') = and-true (x == d) (has_prefix s q) hq in
    elim (prefixes_nested s p q hp' hq') [
      | inl within ↦ inl (ground (arith, xc, xd, within))
      | inr within ↦ inr (ground (arith, xc, xd, within))
    ]

apart_sound : (s p q : Bytes) → apart p q ≡ true → has_prefix s p ≡ true → has_prefix s q ≡ true → ⊥
unfolding apart
apart_sound s p q h hp hq = ground (arith, prefixes_nested s p q hp hq)

same_sound :
    (s p q : Bytes) → not (bytes_eq p q) ≡ true → bytes_eq s p ≡ true → bytes_eq s q ≡ true → ⊥
same_sound s p q h hp hq = ground (arith, bytes_eq_iff s p, bytes_eq_iff s q, bytes_eq_iff p q)

exact_sound :
    (s p q : Bytes) → not (has_prefix q p) ≡ true → has_prefix s p ≡ true → bytes_eq s q ≡ true → ⊥
exact_sound s p q h hp hq =
    let e : s ≡ q = (bytes_eq_iff s q).0 hq in
    let k : has_prefix q p ≡ true = rw e at hp in ground (arith, h, k)

conflict_sound :
    (r : Request) (a b : Test) → conflict a b ≡ true → holds r a ≡ true → holds r b ≡ true → ⊥
unfolding conflict holds
conflict_sound r (uri_starts p) (uri_starts q) h ha hb = apart_sound r.uri p q h ha hb
conflict_sound r (uri_starts p) (uri_is q) h ha hb = exact_sound r.uri p q h ha hb
conflict_sound r (uri_is p) (uri_starts q) h ha hb = exact_sound r.uri q p h hb ha
conflict_sound r (uri_is p) (uri_is q) h ha hb = same_sound r.uri p q h ha hb
conflict_sound r (action_starts p) (action_starts q) h ha hb = apart_sound (action_of r) p q h ha hb
conflict_sound r (action_starts p) (action_is q) h ha hb = exact_sound (action_of r) p q h ha hb
conflict_sound r (action_is p) (action_starts q) h ha hb = exact_sound (action_of r) q p h hb ha
conflict_sound r (action_is p) (action_is q) h ha hb = same_sound (action_of r) p q h ha hb
conflict_sound r (method_is p) (method_is q) h ha hb = same_sound r.method p q h ha hb
conflict_sound r _ _ h ha hb = cc

all_hold-Elem :
    (r : Request) (tests : List Test) (t : Test)
    → all_hold r tests ≡ true
    → Elem t tests
    → holds r t ≡ true
unfolding all_hold
all_hold-Elem r [] t h m = elim m [ ]
all_hold-Elem r (x ∷ tests) t h (inl e) = rw e (and-true (holds r x) (all_hold r tests) h).0
all_hold-Elem r (x ∷ tests) t h (inr m) =
    all_hold-Elem r tests t (and-true (holds r x) (all_hold r tests) h).1 m

rows_conflict_sound :
    (r : Request) (a b : Row)
    → rows_conflict a b ≡ true
    → all_hold r a.0 ≡ true
    → all_hold r b.0 ≡ true
    → ⊥
unfolding rows_conflict
rows_conflict_sound r a b h ha hb =
    let (s, ms, found) = any-Elem (λ s. any (conflict s) b.0) a.0 h in
    let (t, mt, clash) = any-Elem (conflict s) b.0 found in
    conflict_sound r s t clash (all_hold-Elem r a.0 s ha ms) (all_hold-Elem r b.0 t hb mt)

matches : Request → Row → Bool
matches r row = all_hold r row.0

all_conflict-none :
    (r : Request) (a : Row) (rows : List Row)
    → all_conflict a rows ≡ true
    → all_hold r a.0 ≡ true
    → keep_if (matches r) rows ≡ []
unfolding all_conflict keep_if matches
all_conflict-none r a [] h ha = refl
all_conflict-none r a (b ∷ rows) h ha =
    let (here, later) = and-true (rows_conflict a b) (all_conflict a rows) h in
    elim (Bool-cases (all_hold r b.0)) [
      | inl hb ↦ absurd (rows_conflict_sound r a b here ha hb)
      | inr no_match ↦ rw no_match (all_conflict-none r a rows later ha)
    ]

exclusive_unique :
    (r : Request) (rows : List Row) → exclusive rows ≡ true → length (keep_if (matches r) rows) ≤ 1
unfolding exclusive keep_if matches
exclusive_unique r [] h = omega arith
exclusive_unique r (a ∷ rows) h =
    let (here, later) = and-true (all_conflict a rows) (exclusive rows) h in
    elim (Bool-cases (all_hold r a.0)) [
      | inl ha ↦ rw (ha, all_conflict-none r a rows here ha) (omega arith)
      | inr no_match ↦ rw no_match (exclusive_unique r rows later)
    ]

length-map : (rows : List Row) → length (map (λ row. row.1) rows) ≡ length rows
length-map [] = refl
length-map (row ∷ rows) = ap suc (length-map rows)

-- Whatever a request asks for, the tests of at most one handler hold of it, although the tests after
-- those of a handler that does not return are tried too.
pub routes_unique : (r : Request) → length (routes r) ≤ 1
unfolding routes matches
routes_unique r =
    rw (length-map (keep_if (matches r) table)) (exclusive_unique r table table-exclusive)
