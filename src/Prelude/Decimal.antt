-- ===== src/Prelude/Decimal.antt =====
-- Decimal numbers: fmt's %d of a uint64 and strconv.ParseUint(s, 10, 64).
use Prim.Native.Nat.{ℕ, zero, suc, ◌+◌, ◌-◌, ◌*◌, ◌/◌, ◌%◌, ◌<◌, ◌^◌}
use native.Mathlib.Nat.{pow-suc}
use mathlib.Core.Bool.{◌&&◌, not}
use mathlib.Core.List.{[], ◌∷◌}
use mathlib.Core.Path.{◌≡◌, refl, ◌∙◌}
use mathlib.Core.Logic.{inl, inr}
use native.Mathlib.Omega.{arith}
use pmoxs3backuproxy.Prelude.Tests.{ltb, leb, if◌then◌else◌, Bool-cases}
use pmoxs3backuproxy.Prelude.Strings.{Bytes}
use pmoxs3backuproxy.Prelude.Words.{two64}

-- The digits of `n`, with the digits already written behind it. A number below 2 ^ 64 has at
-- most twenty of them.
unfoldable pub decimal_from : ℕ → ℕ → Bytes → Bytes
decimal_from zero n out = out
decimal_from (suc fuel) n out =
    let rest = decimal_from fuel (n / 10) ((b'0' + n % 10) ∷ out) in
    if ltb n 10 then (b'0' + n) ∷ out else rest

unfoldable pub decimal : ℕ → Bytes
unfolding decimal_from
decimal n = decimal_from 20 n []

pub data ParseError : Type 0 where
  syntax range : ParseError

-- The value beside the error, as strconv returns them: 0 for a syntax error, the largest uint64
-- for a number out of range.
pub data Parsed : Type 0 where
  parsed : ℕ → Parsed
  failed : ParseError → Parsed

unfoldable pub parse_digits : ℕ → Bytes → Parsed
parse_digits n [] = parsed n
parse_digits n (c ∷ s) =
    let rest = parse_digits (n * 10 + (c - b'0')) s in
    if not (leb b'0' c && leb c b'9')
    then failed syntax
    else if ltb (n * 10 + (c - b'0')) two64
    then rest
    else failed range

unfoldable pub parse_uint : Bytes → Parsed
unfolding parse_digits
parse_uint [] = failed syntax
parse_uint (c ∷ s) = parse_digits 0 (c ∷ s)

-- x, _ := strconv.ParseUint(…)
unfoldable pub parsed_value : Parsed → ℕ
parsed_value (parsed n) = n
parsed_value (failed syntax) = 0
parsed_value (failed range) = two64 - 1

-- Reading back what was written, digit by digit.
parse_digits-decimal_from :
    (fuel n : ℕ) (out : Bytes)
    → n < two64
    → n < 10 ^ suc fuel
    → parse_digits 0 (decimal_from (suc fuel) n out) ≡ parse_digits n out
unfolding parse_digits decimal_from
parse_digits-decimal_from zero n out h k = ground arith
parse_digits-decimal_from (suc fuel) n out h k =
    let small : n < 10 ^ suc fuel * 10 = rw pow-suc at k in
    let ih = parse_digits-decimal_from fuel (n / 10) ((b'0' + n % 10) ∷ out) in
    elim (Bool-cases (ltb n 10)) [ inl one ↦ ground arith | inr more ↦ ground (arith, ih) ]

decimal_from-ne-nil :
    (fuel n c : ℕ) (out : Bytes)
    → (d : ℕ) × (rest : Bytes) × (decimal_from fuel n (c ∷ out) ≡ d ∷ rest)
unfolding decimal_from
decimal_from-ne-nil zero n c out = (c, out, refl)
decimal_from-ne-nil (suc fuel) n c out = elim (Bool-cases (ltb n 10)) [
  | inl one ↦ (b'0' + n, c ∷ out, rw one)
  | inr more ↦ rw more (decimal_from-ne-nil fuel (n / 10) (b'0' + n % 10) (c ∷ out))
]

decimal-ne-nil : (n : ℕ) → (d : ℕ) × (rest : Bytes) × (decimal n ≡ d ∷ rest)
unfolding decimal
decimal-ne-nil n = elim (Bool-cases (ltb n 10)) [
  | inl one ↦ (b'0' + n, [], rw one)
  | inr more ↦ rw more (decimal_from-ne-nil 19 (n / 10) (b'0' + n % 10) [])
]

parse_uint-cons :
    (s : Bytes) (d : ℕ) (rest : Bytes) → s ≡ d ∷ rest → parse_uint s ≡ parse_digits 0 s
unfolding parse_uint
parse_uint-cons s d rest e = rw e refl

-- strconv.ParseUint reads back every uint64 that %d printed.
pub parse_uint-decimal : (n : ℕ) → n < two64 → parse_uint (decimal n) ≡ parsed n
unfolding decimal parse_digits
parse_uint-decimal n h =
    let (d, rest, e) = decimal-ne-nil n in
    parse_uint-cons (decimal n) d rest e ∙ parse_digits-decimal_from 19 n [] h (omega arith)
