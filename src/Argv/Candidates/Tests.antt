-- ===== src/Argv/Candidates/Tests.antt =====
-- The theorems on completion candidates at `richard`, `roger` and `robert`.

use mfp.Argv.Strings.{common_prefix_slice}
use mfp.Argv.Model.{Completion}
use mfp.Go.Text.{has_prefix, codes, Text}
use mfp.Argv.Candidates.{post_process}
use mfp.Base.{◌≡◌, List, [], true, false, ◌∷◌, refl}
use mfp.Argv.Candidates.Covered.{Among, beginning, Outcome, post_process-Covered, Covered}

abbrev plain : Text → Completion
plain s = record { text = s; no_space = false }

abbrev people : List Completion
people = plain (codes "richard") ∷ plain (codes "roger") ∷ plain (codes "robert") ∷ []

-- The two candidates left have a longer prefix in common.
people_joined :
    post_process (codes "r") (plain (codes "roger") ∷ plain (codes "robert") ∷ [])
    ≡ record { text = codes "ro"; no_space = true } ∷ []
unfolding post_process common_prefix_slice
people_joined = refl

post_process-Covered_example :
    Outcome (codes "r") (beginning (codes "r") people) (post_process (codes "r") people)
    × ((t : Text)
        → Among t people
        → has_prefix t (codes "r") ≡ true
        → Covered t (post_process (codes "r") people))
post_process-Covered_example = post_process-Covered (codes "r") people
