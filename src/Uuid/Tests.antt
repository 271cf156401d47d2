-- ===== src/Uuid/Tests.antt =====
-- The theorems on UUIDs at concrete bytes.

use mfp.Go.Text.{Text, codes}
use mfp.Uuid.{
  microsoft, variant, urn, random_from, version, to_string, parse, Uuid, IsUuid, rfc4122,
}
use mfp.Base.{◌↔◌, true, is_ok, ◌≡◌, ℕ, arith, List, refl, [], ◌∷◌, ok}
use mfp.Uuid.Decorated.{parse_iff, Decorated, IsBody}
use mfp.Uuid.RoundTrip.{parse-to_string}
use mfp.Uuid.Fields.{random_from-fields}

abbrev sample : Uuid
sample =
    0x6b ∷ 0xa7 ∷ 0xb8 ∷ 0x10 ∷ 0x9d ∷ 0xad ∷ 0x11 ∷ 0xd1 ∷ 0x80 ∷ 0xb4 ∷ 0 ∷ 0xc0 ∷ 0x4f ∷ 0xd4
    ∷ 0x30 ∷ 0xc8 ∷ []

sample-IsUuid : IsUuid sample
sample-IsUuid = (refl, ground arith)

sample_printed : to_string sample ≡ codes "6ba7b810-9dad-11d1-80b4-00c04fd430c8"
unfolding to_string
sample_printed = refl

parse-to_string_example :
    (parse (to_string sample) ≡ ok sample)
    × (parse (urn sample) ≡ ok sample)
    × (parse (microsoft sample) ≡ ok sample)
parse-to_string_example = parse-to_string sample sample-IsUuid

random_from-fields_example :
    (u : Uuid) × (random_from {E = Unit {0}} (ok sample) ≡ ok u)
    × (version u ≡ 4)
    × (variant u ≡ rfc4122)
random_from-fields_example = random_from-fields sample sample-IsUuid

-- A hash function of the constant value `sample`.
abbrev constant : List ℕ → List ℕ
constant input = sample

-- In upper case, with the dashes at other places.
abbrev upper : Text
upper = codes "uuid:0123-4567-89AB-CDEF-0123-4567-89AB-CDEF"

parse_iff_example :
    (is_ok (parse upper) ≡ true) ↔ ((body : Text) × (Decorated body upper × IsBody body))
parse_iff_example = parse_iff upper
