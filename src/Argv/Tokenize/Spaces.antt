-- ===== src/Argv/Tokenize/Spaces.antt =====
-- The results `tail` and `tailspc` of TokenizeEx in argv/tokenize.go.

use mfp.Go.Unicode.{is_space}
use mfp.Go.Utf8.{encode, runes, encode_rune}
use mfp.Argv.Tokenize.Invariant.{spaces_of, tail_of, run-SpacesInv, run-Tails, trail, SpacesInv}
use mfp.Go.Text.{Text}
use mfp.Argv.Tokenize.{initial, is_unterminated, tokenize_ex, TkState, tk_space, tk_word, run}
use mfp.Base.{
  ap, append_assoc, append-nil, sym, if◌then◌else◌, ◌∙◌, ◌++◌, not, arith, ◌≡◌, Bool, All, ℕ, List,
  [], refl, false, true, ◌∷◌,
}

-- Empty, or with a last rune that is no space.
abbrev pub ends_plain : List ℕ → Bool
ends_plain [] = true
ends_plain (c ∷ []) = not (is_space c)
ends_plain (c ∷ d ∷ cs) = ends_plain (d ∷ cs)

trail-append : (acc : Text) (cs ds : List ℕ) → trail acc (cs ++ ds) ≡ trail (trail acc cs) ds
trail-append acc [] ds = refl
trail-append acc (c ∷ cs) ds = trail-append (if is_space c then acc ++ encode_rune c else []) cs ds

trail_plain :
    (acc : Text) (c : ℕ) (cs : List ℕ) → ends_plain (c ∷ cs) ≡ true → trail acc (c ∷ cs) ≡ []
trail_plain acc c [] h = ground arith
trail_plain acc c (d ∷ cs) h = trail_plain (if is_space c then acc ++ encode_rune c else []) d cs h

trail_start : (cs : List ℕ) → ends_plain cs ≡ true → trail [] cs ≡ []
trail_start [] h = refl
trail_start (c ∷ cs) h = trail_plain [] c cs h

trail_spaces :
    (acc : Text) (cs : List ℕ) → All (λ c. is_space c ≡ true) cs → trail acc cs ≡ acc ++ encode cs
trail_spaces acc [] h = sym (append-nil acc)
trail_spaces acc (c ∷ cs) h =
    rw h.0
      (trail_spaces (acc ++ encode_rune c) cs h.1 ∙ append_assoc acc (encode_rune c) (encode cs))

spaces_known :
    (m : TkState) (tailspc acc : Text)
    → SpacesInv m tailspc acc
    → is_unterminated m ≡ false
    → tailspc ≡ acc
spaces_known tk_space tailspc acc h e = h
spaces_known tk_word tailspc acc h e = h.0 ∙ sym h.1
spaces_known _ tailspc acc h e = cc

-- Any line is split into its spaces at the end and what is before them, which is empty or ends with a rune
-- that is no space. If the line ends outside quotes, then `tailspc` is exactly these
-- spaces, and `tail` is empty. If it ends inside quotes, `tailspc` is empty.
pub tokenize_ex-tails :
    (line : Text) (front spaces : List ℕ)
    → runes line ≡ front ++ spaces
    → ends_plain front ≡ true
    → All (λ c. is_space c ≡ true) spaces
    → ((tokenize_ex line).unterminated ≡ false
        → ((tokenize_ex line).spaces ≡ encode spaces) × ((tokenize_ex line).rest ≡ []))
      × ((tokenize_ex line).unterminated ≡ true → (tokenize_ex line).spaces ≡ [])
unfolding tokenize_ex
tokenize_ex-tails line front spaces e h k =
    let t = run initial (runes line) in
    let v = run-Tails initial (runes line) (refl, refl) in
    let w = run-SpacesInv initial (runes line) [] refl in
    let all : trail [] (runes line) ≡ encode spaces =
      ap (trail []) e
      ∙ (trail-append [] front spaces
          ∙ (ap (λ s. trail s spaces) (trail_start front h) ∙ trail_spaces [] spaces k)) in
    (
      (λ u. (
        spaces_known t.state t.tailspc (trail [] (runes line)) w u ∙ all,
        tail_of t.state t.token t.tail t.tailspc v u,
      )),
      λ u. spaces_of t.state t.token t.tail t.tailspc v u,
    )
