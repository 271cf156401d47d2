-- ===== src/Uuid/Decorated.antt =====
-- util/uuid/uuid.go: the strings that `Parse` accepts, as its documentation lists them.

use mfp.Argv.Model.{is_some}
use mfp.Uuid.Accepted.{is_ok-parse, count_digits, is_clean}
use mfp.Go.Utf8.{runes_ascii, runes-All_ascii, runes, IsAscii}
use mfp.Uuid.{parse, strip, digit}
use mfp.Go.Text.{
  text_eq, text_eq_iff, has_suffix, has_prefix-split, has_prefix, contains_byte, codes, Text,
}
use mfp.Uuid.RoundTrip.{strip-plain, strip-urn, strip-microsoft}
use mfp.Base.{
  leb, take-append-drop, ap, suc, and_right, ==_iff, drop, ◌-◌, and_left, ◌∙◌, length, take, ◌⊎◌,
  ◌↔◌, ◌||◌, ◌++◌, ◌&&◌, sym, arith, ◌≡◌, ◌==◌, is_ok, Bool-cases, All, ℕ, List, inl, inr, true,
  refl, ◌∷◌, [],
}

-- The digits in both cases, and the dash.
abbrev pub IsPart : ℕ → Type 0
IsPart c = contains_byte (codes "-0123456789abcdefABCDEF") c ≡ true

-- 32 hexadecimal digits, with dashes anywhere.
abbrev pub IsBody : Text → Type 0
IsBody body = All IsPart body × (count_digits body ≡ 32)

-- The body as it is, as a URN, with the scheme `uuid`, or in braces.
abbrev pub Decorated : Text → Text → Type 0
Decorated body s =
    (s ≡ body)
    ⊎ ((s ≡ codes "urn:uuid:" ++ body)
        ⊎ ((s ≡ codes "uuid:" ++ body) ⊎ (s ≡ codes "{" ++ (body ++ codes "}"))))

IsPart-iff : (c : ℕ) → ((c == b'-' || is_some (digit c)) ≡ true) ↔ IsPart c
unfolding digit
IsPart-iff c = ground arith

part-IsAscii : (c : ℕ) → IsPart c → IsAscii c
part-IsAscii c h = ground arith

clean_iff : (cs : List ℕ) → (is_clean cs ≡ true) ↔ All IsPart cs
clean_iff [] = (λ _. tt, λ _. refl)
clean_iff (c ∷ cs) = ground (arith, IsPart-iff c, clean_iff cs)

parts-IsAscii : (cs : List ℕ) → All IsPart cs → All IsAscii cs
parts-IsAscii [] h = tt
parts-IsAscii (c ∷ cs) h = (part-IsAscii c h.0, parts-IsAscii cs h.1)

braced :
    (s : Text)
    → (has_prefix s (codes "{") && has_suffix s (codes "}")) ≡ true
    → s ≡ codes "{" ++ (take (length s - 2) (drop 1 s) ++ codes "}")
braced [] h = cc
braced (c ∷ []) h = absurd (ground arith)
braced (c ∷ d ∷ rest) h =
    let n = length rest in
    let one : suc (suc n) - 1 ≡ suc n = omega arith in
    let two : suc (suc n) - 2 ≡ n = omega arith in
    let open_brace : c ≡ b'{' = ground arith in
    let ends : has_suffix (c ∷ d ∷ rest) (codes "}") ≡ true =
      and_right (has_prefix (c ∷ d ∷ rest) (codes "{")) _ h in
    let k : text_eq (drop (suc (suc n) - 1) (c ∷ d ∷ rest)) (codes "}") ≡ true =
      and_right (leb 1 (suc (suc n))) _ ends in
    let closed : drop n (d ∷ rest) ≡ codes "}" =
      (text_eq_iff (drop n (d ∷ rest)) (codes "}")).0 (rw one at k) in
    rw (two, open_brace, ← closed) (ap (λ s. b'{' ∷ s) (sym (take-append-drop n (d ∷ rest))))

strip-Decorated : (s : Text) → Decorated (strip s) s
unfolding strip
strip-Decorated s = elim (Bool-cases (has_prefix s (codes "urn:uuid:"))) [
  | inl e ↦ rw e (inr (inl (sym (has_prefix-split s (codes "urn:uuid:") e))))
  | inr e ↦ elim (Bool-cases (has_prefix s (codes "uuid:"))) [
    | inl f ↦ rw (e, f) (inr (inr (inl (sym (has_prefix-split s (codes "uuid:") f)))))
    | inr f ↦ elim (Bool-cases (has_prefix s (codes "{") && has_suffix s (codes "}"))) [
      | inl g ↦ rw (e, f, g) (inr (inr (inr (braced s g))))
      | inr g ↦ rw (e, f, g) (inl refl)
    ]
  ]
]

strip-uuid : (s : Text) → strip (codes "uuid:" ++ s) ≡ s
unfolding strip
strip-uuid s = refl

strip-body : (body : Text) → IsBody body → strip body ≡ body
strip-body [] h = absurd (omega (arith, h.1))
strip-body (c ∷ rest) h =
    strip-plain c rest (λ e. let p = h.0.0 in ground arith) (λ e. let p = h.0.0 in ground arith)

Decorated-strip : (body s : Text) → IsBody body → Decorated body s → strip s ≡ body
Decorated-strip body s h (inl e) = rw e (strip-body body h)
Decorated-strip body s h (inr (inl e)) = rw e (strip-urn body)
Decorated-strip body s h (inr (inr (inl e))) = rw e (strip-uuid body)
Decorated-strip body s h (inr (inr (inr e))) = rw e (strip-microsoft body)

-- `Parse` accepts a string exactly if it is 32 hexadecimal digits, in lower or upper case, with dashes
-- anywhere, either as they are, or behind `urn:uuid:` or `uuid:`, or in braces.
pub parse_iff :
    (s : Text) → (is_ok (parse s) ≡ true) ↔ ((body : Text) × (Decorated body s × IsBody body))
parse_iff s = (
  λ h.
      let k : (is_clean (runes (strip s)) && (count_digits (runes (strip s)) == 32)) ≡ true =
        sym (is_ok-parse s) ∙ h in
      let parts = (clean_iff (runes (strip s))).0 (and_left _ _ k) in
      let same = runes-All_ascii (strip s) (parts-IsAscii (runes (strip s)) parts) in
      (
        strip s,
        (
          strip-Decorated s,
          (
            rw same at parts,
            (==_iff (count_digits (strip s)) 32).0 (
                rw same at (
                  and_right (is_clean (runes (strip s))) (count_digits (runes (strip s)) == 32) k)),
          ),
        ),
      ),
  λ (body, (d, h)).
      let e = Decorated-strip body s h d in
      let same = runes_ascii body (parts-IsAscii body h.0) in
      is_ok-parse s ∙ rw (e, same, (clean_iff body).1 h.0, h.1) refl,
)
