-- ===== src/Protocol/Uuid.antt =====
-- internal/daemon/types.go: `uuidV4`. A draw of random bytes does not fail here.
use Prim.Native.String.{len}
use text.Mathlib.TextLemmas.{append_assoc}
use text.Mathlib.TextPositions.{len-append}
use cognitiveosd.Prelude.{
  ℕ, ◌+◌, ◌/◌, ◌%◌, ◌≤◌, ◌<◌, String, ◌++◌, ◌≡◌, refl, Bool, true, false, ◌⊎◌, ltb, arith,
  if◌then◌else◌,
}
use cognitiveosd.Protocol.Env.{Env}

-- One hexadecimal digit.
unfoldable pub hex_digit : ℕ → String
hex_digit n =
    if ltb n 1
    then "0"
    else if ltb n 2
    then "1"
    else if ltb n 3
    then "2"
    else if ltb n 4
    then "3"
    else if ltb n 5
    then "4"
    else if ltb n 6
    then "5"
    else if ltb n 7
    then "6"
    else if ltb n 8
    then "7"
    else if ltb n 9
    then "8"
    else if ltb n 10
    then "9"
    else if ltb n 11
    then "a"
    else if ltb n 12
    then "b"
    else if ltb n 13
    then "c"
    else if ltb n 14
    then "d"
    else if ltb n 15
    then "e"
    else "f"

-- A byte, by what it is modulo 256.
unfoldable pub hex_byte : ℕ → String
hex_byte b = hex_digit (b % 256 / 16) ++ hex_digit (b % 16)

-- `b[6]&0x0f | 0x40` and `b[8]&0x3f | 0x80`
abbrev pub version_byte : ℕ → ℕ
version_byte b = b % 16 + 0x40

abbrev pub variant_byte : ℕ → ℕ
variant_byte b = b % 64 + 0x80

-- `uuidV4`, by the sixteen bytes that were drawn.
unfoldable pub uuid_v4 : (ℕ → ℕ) → String
unfolding hex_byte
uuid_v4 b =
    (hex_byte (b 0) ++ hex_byte (b 1) ++ hex_byte (b 2) ++ hex_byte (b 3))
    ++ "-"
    ++ (hex_byte (b 4) ++ hex_byte (b 5))
    ++ "-"
    ++ (hex_byte (version_byte (b 6)) ++ hex_byte (b 7))
    ++ "-"
    ++ (hex_byte (variant_byte (b 8)) ++ hex_byte (b 9))
    ++ "-"
    ++ (hex_byte (b 10)
        ++ hex_byte (b 11)
        ++ hex_byte (b 12)
        ++ hex_byte (b 13)
        ++ hex_byte (b 14)
        ++ hex_byte (b 15))

unfoldable pub uuid : Env → ℕ → String
uuid env n = uuid_v4 (env.random n)

uuid_test : uuid_v4 (λ i. 255) ≡ "ffffffff-ffff-4fff-bfff-ffffffffffff"
unfolding uuid_v4 hex_byte hex_digit
uuid_test = refl

-- The digits that RFC 4122 gives to the variant.
abbrev pub IsVariant : String → Type 0
IsVariant s = (s ≡ "8") ⊎ (s ≡ "9") ⊎ (s ≡ "a") ⊎ (s ≡ "b")

hex_digit-IsVariant : (n : ℕ) → 8 ≤ n → n < 12 → IsVariant (hex_digit n)
unfolding hex_digit
hex_digit-IsVariant n lo hi = ground arith

len-if : (b : Bool) (s t : String) → len (if b then s else t) ≡ (if b then len s else len t)
len-if true s t = refl
len-if false s t = refl

if_same : (b : Bool) (n : ℕ) → (if b then n else n) ≡ n
if_same true n = refl
if_same false n = refl

hex_digit-len : (n : ℕ) → len (hex_digit n) ≡ 1
unfolding hex_digit
hex_digit-len n = simp (len-if, if_same)

hex_byte-len : (n : ℕ) → len (hex_byte n) ≡ 2
unfolding hex_byte
hex_byte-len n = omega (
  arith,
  len-append (hex_digit (n % 256 / 16)) (hex_digit (n % 16)),
  hex_digit-len (n % 256 / 16),
  hex_digit-len (n % 16),
)

version_byte-high : (n : ℕ) → hex_digit (version_byte n % 256 / 16) ≡ "4"
unfolding hex_digit
version_byte-high n = let four : version_byte n % 256 / 16 ≡ 4 = omega arith in rw four

variant_byte-high : (n : ℕ) → IsVariant (hex_digit (variant_byte n % 256 / 16))
variant_byte-high n = hex_digit-IsVariant (variant_byte n % 256 / 16) (omega arith) (omega arith)

-- The text before the digit of the version, between it and that of the variant, and behind that.
abbrev front : (ℕ → ℕ) → String
front b =
    ((hex_byte (b 0) ++ hex_byte (b 1) ++ hex_byte (b 2) ++ hex_byte (b 3))
      ++ "-"
      ++ (hex_byte (b 4) ++ hex_byte (b 5)))
    ++ "-"

abbrev middle : (ℕ → ℕ) → String
middle b = hex_digit (version_byte (b 6) % 16) ++ hex_byte (b 7) ++ "-"

abbrev back : (ℕ → ℕ) → String
back b =
    hex_digit (variant_byte (b 8) % 16)
    ++ hex_byte (b 9)
    ++ "-"
    ++ (hex_byte (b 10)
        ++ hex_byte (b 11)
        ++ hex_byte (b 12)
        ++ hex_byte (b 13)
        ++ hex_byte (b 14)
        ++ hex_byte (b 15))

uuid_v4-parts :
    (b : ℕ → ℕ)
    → uuid_v4 b
      ≡ front b ++ ("4" ++ (middle b ++ (hex_digit (variant_byte (b 8) % 256 / 16) ++ back b)))
unfolding uuid_v4 hex_byte
uuid_v4-parts b = rw (version_byte-high (b 6)) (simp append_assoc)

-- Whatever bytes are drawn, the identifier of a message is a text of 36 characters in which the
-- fifteenth is the version 4 and the twentieth one of the four digits of the variant.
pub uuid_v4-shape :
    (b : ℕ → ℕ)
    → (before between variant behind : String) × (uuid_v4 b
        ≡ before ++ ("4" ++ (between ++ (variant ++ behind))))
      × (len before ≡ 14)
      × (len between ≡ 4)
      × IsVariant variant
      × (len behind ≡ 16)
uuid_v4-shape b = (
  front b,
  middle b,
  hex_digit (variant_byte (b 8) % 256 / 16),
  back b,
  uuid_v4-parts b,
  simp (len-append, hex_byte-len),
  simp (len-append, hex_byte-len, hex_digit-len),
  variant_byte-high (b 8),
  simp (len-append, hex_byte-len, hex_digit-len),
)
