-- ===== src/Go/Unicode.antt =====
-- unicode.IsSpace, on every rune: the characters with the property White_Space.
use mfp.Base.{ℕ, Bool, ◌&&◌, ◌||◌, leb, ◌==◌}

unfoldable pub is_space : ℕ → Bool
is_space c =
    leb 9 c && leb c 13
    || c == b' '
    || c == 0x85
    || c == 0xa0
    || c == 0x1680
    || leb 0x2000 c && leb c 0x200a
    || c == 0x2028
    || c == 0x2029
    || c == 0x202f
    || c == 0x205f
    || c == 0x3000
