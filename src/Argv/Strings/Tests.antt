-- ===== src/Argv/Strings/Tests.antt =====
-- The theorem on common prefixes at two strings.

use mfp.Argv.Strings.{common_prefix_slice}
use mfp.Go.Text.{codes, has_prefix}
use mfp.Base.{All, ◌↔◌, ◌≡◌, ◌∷◌, true, []}
use mfp.Argv.Strings.CommonPrefix.{common_prefix_slice_iff}

common_prefix_slice_iff_example :
    (has_prefix (common_prefix_slice (codes "roger" ∷ codes "robert" ∷ [])) (codes "ro") ≡ true)
    ↔ All (λ t. has_prefix t (codes "ro") ≡ true) (codes "roger" ∷ codes "robert" ∷ [])
common_prefix_slice_iff_example =
    common_prefix_slice_iff (codes "roger") (codes "robert" ∷ []) (codes "ro")
