-- ===== src/Argv/Strings.antt =====
-- argv/str.go: the common prefix of strings.

use mfp.Go.Text.{text_lt, Text}
use mfp.Base.{◌==◌, ℕ, take, if◌then◌else◌, List, [], suc, ◌∷◌}
pub mod Order
pub mod CommonPrefix
mod Tests

-- `pfxlen` behind the loop of `strCommonPrefix`.
same_bytes : Text → Text → ℕ
same_bytes [] t = 0
same_bytes (a ∷ s) [] = 0
same_bytes (a ∷ s) (b ∷ t) = if a == b then suc (same_bytes s t) else 0

pub common_prefix : Text → Text → Text
unfolding same_bytes
common_prefix s t = take (same_bytes s t) s

-- The loop of `strCommonPrefixSlice`, with its variables `min` and `max`.
pub extremes : Text → Text → List Text → Text × Text
extremes lo hi [] = (lo, hi)
extremes lo hi (s ∷ ss) =
    extremes (if text_lt s lo then s else lo) (if text_lt hi s then s else hi) ss

unfoldable pub common_prefix_slice : List Text → Text
unfolding extremes common_prefix
common_prefix_slice [] = []
common_prefix_slice (s ∷ ss) = let (lo, hi) = extremes s s ss in common_prefix lo hi
