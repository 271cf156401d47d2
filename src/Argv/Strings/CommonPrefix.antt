-- ===== src/Argv/Strings/CommonPrefix.antt =====
-- `strCommonPrefixSlice` of argv/str.go.

use mfp.Go.Text.{text_lt, has_prefix, Text}
use mfp.Argv.Strings.{same_bytes, extremes, common_prefix_slice, common_prefix}
use mfp.Base.{
  and_both, and_right, ◌∙◌, sym, arith, and_left, Bool-cases, ◌↔◌, ◌&&◌, if◌then◌else◌, ◌≡◌, All,
  List, inr, ◌∷◌, inl, [], false, true, refl,
}
use mfp.Argv.Strings.Order.{between-has_prefix}
use mfp.Go.Order.{text_lt_irrefl, text_lt_asymm, text_lt_trans}

has_prefix-common_prefix :
    (s t p : Text) → has_prefix (common_prefix s t) p ≡ (has_prefix s p && has_prefix t p)
unfolding common_prefix same_bytes
has_prefix-common_prefix s t [] = refl
has_prefix-common_prefix [] t (c ∷ p) = refl
has_prefix-common_prefix (a ∷ s) [] (c ∷ p) = ground arith
has_prefix-common_prefix (a ∷ s) (b ∷ t) (c ∷ p) = ground (arith, has_prefix-common_prefix s t p)

-- `p` is a prefix of the text.
abbrev pub Begins : Text → Text → Type 0
Begins p s = has_prefix s p ≡ true

extremes-Begins :
    (p lo hi : Text) (ss : List Text)
    → Begins p lo
    → Begins p hi
    → All (Begins p) ss
    → Begins p (extremes lo hi ss).0 × Begins p (extremes lo hi ss).1
unfolding extremes
extremes-Begins p lo hi [] hl hh h = (hl, hh)
extremes-Begins p lo hi (s ∷ ss) hl hh h =
    extremes-Begins p (if text_lt s lo then s else lo) (if text_lt hi s then s else hi) ss
      (ground arith) (ground arith) h.1

-- One round of the loop: the old extremes and the string lie between the new ones.
one_round :
    (p lo hi s : Text)
    → text_lt hi lo ≡ false
    → Begins p (if text_lt s lo then s else lo)
    → Begins p (if text_lt hi s then s else hi)
    → Begins p lo × Begins p hi × Begins p s
one_round p lo hi s o hl hh = elim (Bool-cases (text_lt s lo)) [
  | inl a ↦ elim (Bool-cases (text_lt hi s)) [
    | inl b ↦ absurd (ground (arith, text_lt_trans hi s lo))
    | inr b ↦
        let k : Begins p s = ground arith in
        let m : Begins p hi = ground arith in
        (between-has_prefix p s lo hi k m (text_lt_asymm s lo a) o, m, k)
  ]
  | inr a ↦ elim (Bool-cases (text_lt hi s)) [
    | inl b ↦
        let k : Begins p s = ground arith in
        let m : Begins p lo = ground arith in
        (m, between-has_prefix p lo hi s m k o (text_lt_asymm hi s b), k)
    | inr b ↦
        let k : Begins p lo = ground arith in
        let m : Begins p hi = ground arith in (k, m, between-has_prefix p lo s hi k m a b)
  ]
]

extremes_ordered :
    (lo hi s : Text)
    → text_lt hi lo ≡ false
    → text_lt (if text_lt hi s then s else hi) (if text_lt s lo then s else lo) ≡ false
extremes_ordered lo hi s o = elim (Bool-cases (text_lt s lo)) [
  | inl a ↦ elim (Bool-cases (text_lt hi s)) [
    | inl b ↦ rw (a, b) (text_lt_irrefl s)
    | inr b ↦ rw (a, b) b
  ]
  | inr a ↦ elim (Bool-cases (text_lt hi s)) [ inl b ↦ rw (a, b) a | inr b ↦ rw (a, b) o ]
]

Begins-extremes :
    (p lo hi : Text) (ss : List Text)
    → text_lt hi lo ≡ false
    → Begins p (extremes lo hi ss).0
    → Begins p (extremes lo hi ss).1
    → Begins p lo × Begins p hi × All (Begins p) ss
unfolding extremes
Begins-extremes p lo hi [] o hl hh = (hl, hh, tt)
Begins-extremes p lo hi (s ∷ ss) o hl hh =
    let (kl, kh, ks) =
      Begins-extremes p (if text_lt s lo then s else lo) (if text_lt hi s then s else hi) ss
        (extremes_ordered lo hi s o) hl hh in
    let (a, b, c) = one_round p lo hi s o kl kh in (a, b, (c, ks))

-- The text that `strCommonPrefixSlice` finds for at least one string is their greatest common
-- prefix: a text is a prefix of it exactly when it is a prefix of all the strings.
pub common_prefix_slice_iff :
    (s : Text) (ss : List Text) (p : Text)
    → (has_prefix (common_prefix_slice (s ∷ ss)) p ≡ true)
      ↔ All (λ t. has_prefix t p ≡ true) (s ∷ ss)
unfolding common_prefix_slice
common_prefix_slice_iff s ss p =
    let lo = (extremes s s ss).0 in
    let hi = (extremes s s ss).1 in
    let e = has_prefix-common_prefix lo hi p in
    (
      λ h.
          let (a, b, c) =
            Begins-extremes p s s ss (text_lt_irrefl s) (and_left _ _ (sym e ∙ h))
              (and_right _ _ (sym e ∙ h)) in
          (a, c),
      λ h. let (a, b) = extremes-Begins p s s ss h.0 h.0 h.1 in e ∙ and_both _ _ a b,
    )
