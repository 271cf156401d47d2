-- ===== src/Argv/Candidates.antt =====
-- `completePostProcess` and `completePrepend` of argv/parser.go, and `CompleteStrings` of
-- argv/completers.go.

use mfp.Argv.Strings.{common_prefix_slice}
use mfp.Argv.Model.{Completion, Completer}
use mfp.Go.Text.{has_prefix, Text}
use mfp.Base.{◌&&◌, length, ltb, ◌++◌, if◌then◌else◌, List, false, true, [], ◌∷◌}
pub mod PostProcess
pub mod Covered
mod Tests

-- The candidates that begin with the argument.
pub keep_begins : Text → List Completion → List Completion
keep_begins arg [] = []
keep_begins arg (c ∷ cs) =
    if has_prefix c.text arg then c ∷ keep_begins arg cs else keep_begins arg cs

abbrev pub texts : List Completion → List Text
texts [] = []
texts (c ∷ cs) = c.text ∷ texts cs

-- Several candidates whose common prefix is longer than the argument give way to that prefix.
pub join_common : Text → List Completion → List Completion
join_common arg [] = []
join_common arg (c ∷ []) = c ∷ []
join_common arg (c ∷ d ∷ cs) =
    let prefix = common_prefix_slice (texts (c ∷ d ∷ cs)) in
    if ltb (length arg) (length prefix)
    then record { text = prefix; no_space = true } ∷ []
    else c ∷ d ∷ cs

-- `completePostProcess` and `completePrepend`
unfoldable pub post_process : Text → List Completion → List Completion
unfolding keep_begins join_common
post_process arg compl = join_common arg (keep_begins arg compl)

unfoldable pub prepend : Text → List Completion → List Completion
prepend prefix [] = []
prepend prefix (c ∷ cs) = record c { text = prefix ++ c.text } ∷ prepend prefix cs

-- `CompleteStrings`
pub complete_strings : List Text → Completer
complete_strings [] arg = []
complete_strings (s ∷ ss) arg =
    if ltb (length arg) (length s) && has_prefix s arg
    then record { text = s; no_space = false } ∷ complete_strings ss arg
    else complete_strings ss arg
