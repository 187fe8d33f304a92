-- ===== src/Prelude/Hex.antt =====
-- encoding/hex, as the program calls it.
use Prim.Native.Nat.{ℕ, ◌+◌, ◌-◌, ◌*◌, ◌/◌, ◌%◌, ◌<◌}
use mathlib.Core.Bool.{Bool, true, false, ◌&&◌}
use mathlib.Core.List.{[], ◌∷◌}
use mathlib.Core.Option.{Option, none, some}
use mathlib.Core.Path.{◌≡◌, refl}
use native.Mathlib.Omega.{arith}
use pmoxs3backuproxy.Prelude.Tests.{ltb, leb, if◌then◌else◌}
use pmoxs3backuproxy.Prelude.Lists.{length, All}
use pmoxs3backuproxy.Prelude.Strings.{Bytes}

-- A byte is a number below 256.
abbrev pub IsByte : ℕ → Type 0
IsByte b = b < 256

unfoldable pub hex_digit : ℕ → ℕ
hex_digit n = if ltb n 10 then b'0' + n else b'a' + n - 10

-- hex.EncodeToString(src)
unfoldable pub encode_to_string : Bytes → Bytes
encode_to_string [] = []
encode_to_string (b ∷ src) = hex_digit (b / 16) ∷ hex_digit (b % 16) ∷ encode_to_string src

-- Both cases of the letters are accepted.
unfoldable pub from_hex_char : ℕ → Option ℕ
from_hex_char c =
    if leb b'0' c && leb c b'9'
    then some (c - b'0')
    else if leb b'a' c && leb c b'f'
    then some (c + 10 - b'a')
    else if leb b'A' c && leb c b'F'
    then some (c + 10 - b'A')
    else none

-- hex.DecodeString(s): the bytes decoded before the first error, and whether there was no error.
unfoldable pub decode_string : Bytes → Bytes × Bool
unfolding from_hex_char
decode_string [] = ([], true)
decode_string (c ∷ []) = ([], false)
decode_string (c ∷ d ∷ s) =
    let (rest, valid) = decode_string s in
    elim (from_hex_char c) [
      | none ↦ ([], false)
      | some a ↦ elim (from_hex_char d) [
        | none ↦ ([], false)
        | some b ↦ ((a * 16 + b) ∷ rest, valid)
      ]
    ]

pub from_hex_char-hex_digit : (n : ℕ) → n < 16 → from_hex_char (hex_digit n) ≡ some n
unfolding from_hex_char hex_digit
from_hex_char-hex_digit n h = ground arith

pub decode_string-encode_to_string :
    (src : Bytes) → All IsByte src → decode_string (encode_to_string src) ≡ (src, true)
unfolding decode_string encode_to_string
decode_string-encode_to_string [] h = refl
decode_string-encode_to_string (b ∷ src) h = ground (
  arith,
  from_hex_char-hex_digit (b / 16),
  from_hex_char-hex_digit (b % 16),
  decode_string-encode_to_string src h.1,
)

pub length-encode_to_string : (src : Bytes) → length (encode_to_string src) ≡ 2 * length src
unfolding encode_to_string
length-encode_to_string [] = omega arith
length-encode_to_string (b ∷ src) = omega (arith, length-encode_to_string src)

-- A text that decodes is twice as long as what it decodes to.
pub length-decode_string :
    (s : Bytes) → (decode_string s).1 ≡ true → length s ≡ 2 * length (decode_string s).0
unfolding decode_string
length-decode_string [] h = omega arith
length-decode_string (c ∷ []) h = cc
length-decode_string (c ∷ d ∷ s) h = ground (arith, length-decode_string s)
