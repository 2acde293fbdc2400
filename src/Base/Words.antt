-- ===== src/Base/Words.antt =====
-- Unsigned 16- and 32-bit arithmetic as the C code computes it, and its fields as bytes.
use Prim.Native.Nat.{ℕ, ◌+◌, ◌-◌, ◌*◌, ◌/◌, ◌%◌, ◌<◌}
use mathlib.Core.Path.{◌≡◌}
use mathlib.Core.List.{List, [], ◌∷◌}
use native.Mathlib.Omega.{arith}

abbrev pub u16_mod : ℕ
u16_mod = 65536

abbrev pub u32_mod : ℕ
u32_mod = 4294967296

-- UINT32 a + b and a - b: both wrap.
abbrev pub add32 : ℕ → ℕ → ℕ
add32 a b = (a + b) % u32_mod

abbrev pub sub32 : ℕ → ℕ → ℕ
sub32 a b = (a + u32_mod - b) % u32_mod

-- Little-endian bytes of 16-, 32- and 64-bit fields.
abbrev pub le16 : ℕ → List ℕ
le16 x = x % 256 ∷ x / 256 % 256 ∷ []

abbrev pub le32 : ℕ → List ℕ
le32 x = x % 256 ∷ x / 256 % 256 ∷ x / 65536 % 256 ∷ x / 16777216 % 256 ∷ []

abbrev pub le64 : ℕ → List ℕ
le64 x =
    x % 256
    ∷ x / 256 % 256
    ∷ x / 65536 % 256
    ∷ x / 16777216 % 256
    ∷ x / 4294967296 % 256
    ∷ x / 1099511627776 % 256
    ∷ x / 281474976710656 % 256
    ∷ x / 72057594037927936 % 256
    ∷ []

abbrev pub of_le16 : ℕ → ℕ → ℕ
of_le16 a b = a + b * 256

abbrev pub of_le32 : ℕ → ℕ → ℕ → ℕ → ℕ
of_le32 a b c d = a + b * 256 + c * 65536 + d * 16777216

pub of_le16-le16 : (x : ℕ) → x < u16_mod → of_le16 (x % 256) (x / 256 % 256) ≡ x
of_le16-le16 x h = omega arith

pub of_le32-le32 :
    (x : ℕ)
    → x < u32_mod
    → of_le32 (x % 256) (x / 256 % 256) (x / 65536 % 256) (x / 16777216 % 256) ≡ x
of_le32-le32 x h = omega arith
