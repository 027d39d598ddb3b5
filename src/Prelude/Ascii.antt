-- ===== src/Prelude/Ascii.antt =====
-- The byte tests of the identifier checks: `u8::is_ascii_alphanumeric`, and the extra bytes . _ - .
use Prim.Native.Nat.{ℕ}
use mathlib.Core.Bool.{Bool, true, false, ◌&&◌, ◌||◌}
use mathlib.Core.List.{List, [], ◌∷◌}
use sevlamq.Prelude.Tests.{leb, ◌==◌}

pub is_ascii_alphanumeric : ℕ → Bool
is_ascii_alphanumeric b =
    (leb b'0' b && leb b b'9') || (leb b'A' b && leb b b'Z') || (leb b'a' b && leb b b'z')

unfoldable pub is_identifier_byte : ℕ → Bool
unfolding is_ascii_alphanumeric
is_identifier_byte b = is_ascii_alphanumeric b || b == b'.' || b == b'_' || b == b'-'

-- `value.starts_with("__")`
unfoldable pub starts_with_underscores : List ℕ → Bool
starts_with_underscores (a ∷ b ∷ rest) = a == b'_' && b == b'_'
starts_with_underscores _ = false

-- `value.is_empty()`
abbrev pub is_empty {ℓ} : {A : Type ℓ} → List A → Bool
is_empty [] = true
is_empty (x ∷ xs) = false
