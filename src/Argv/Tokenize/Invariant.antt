-- ===== src/Argv/Tokenize/Invariant.antt =====
-- `TokenizeEx` of argv/tokenize.go: its variables after every rune, and the spaces at the end of a line.

use mfp.Go.Utf8.{encode_rune}
use mfp.Go.Unicode.{is_space}
use mfp.Go.Text.{Text}
use mfp.Argv.Tokenize.{
  run, settle, is_unterminated, step_in, step, octal, Tokenizer, TkState, tk_hex1, tk_word,
  tk_space, tk_quote,
}
use mfp.Base.{
  ==_iff, ◌-◌, ◌≤◌, ◌++◌, ◌↔◌, arith, ◌≡◌, ◌==◌, if◌then◌else◌, List, ℕ, [], true, some, false, ◌∷◌,
  refl,
}

-- What holds of the tokenizer's variables on every line.
abbrev pub TailInv : TkState → Text → Text → Text → Type 0
TailInv tk_space token tail tailspc = (token ≡ []) × (tail ≡ [])
TailInv tk_word token tail tailspc = (tail ≡ []) × (tailspc ≡ [])
TailInv tk_quote token tail tailspc = (tail ≡ []) × (tailspc ≡ [])
TailInv _ token tail tailspc = tailspc ≡ []

-- What a round needs of the state it starts in; `tailspc` may already hold the rune that it reads.
abbrev Clear : TkState → Text → Text → Type 0
Clear tk_space token tail = (token ≡ []) × (tail ≡ [])
Clear tk_word token tail = tail ≡ []
Clear tk_quote token tail = tail ≡ []
Clear _ token tail = Unit {0}

TailInv→Clear :
    (m : TkState) (token tail tailspc : Text) → TailInv m token tail tailspc → Clear m token tail
TailInv→Clear tk_space token tail tailspc h = h
TailInv→Clear tk_word token tail tailspc h = h.0
TailInv→Clear tk_quote token tail tailspc h = h.0
TailInv→Clear tk_hex1 token tail tailspc h = tt
TailInv→Clear _ token tail tailspc h = tt

step_in-tails :
    (m : TkState) (t : Tokenizer) (c : ℕ)
    → t.state ≡ m
    → Clear m t.token t.tail
    → let u = settle (step_in m t c) in TailInv u.state u.token u.tail u.tailspc
unfolding step_in
step_in-tails tk_space t c e h = ground arith
step_in-tails _ t c e h = ground arith

-- The state that the switch of a round meets.
abbrev seen : Tokenizer → ℕ → Tokenizer
seen t c = if is_space c then record t { tailspc = t.tailspc ++ encode_rune c } else t

abbrev pub Tails : Tokenizer → Type 0
Tails t = TailInv t.state t.token t.tail t.tailspc

step-Tails : (t : Tokenizer) (c : ℕ) → Tails t → Tails (step t c)
unfolding step
step-Tails t c v =
    let same : ((seen t c).state ≡ t.state)
        × ((seen t c).token ≡ t.token)
        × ((seen t c).tail ≡ t.tail) =
      ground arith in
    step_in-tails t.state (seen t c) c same.0
      (rw (same.1, same.2) (TailInv→Clear t.state t.token t.tail t.tailspc v))

pub run-Tails : (t : Tokenizer) (cs : List ℕ) → Tails t → Tails (run t cs)
unfolding run
run-Tails t [] v = v
run-Tails t (c ∷ cs) v = run-Tails (step t c) cs (step-Tails t c v)

pub tail_of :
    (m : TkState) (token tail spc : Text)
    → TailInv m token tail spc
    → is_unterminated m ≡ false
    → tail ≡ []
tail_of tk_space token tail spc h e = h.1
tail_of tk_word token tail spc h e = h.0
tail_of _ token tail spc h e = cc

pub spaces_of :
    (m : TkState) (token tail spc : Text)
    → TailInv m token tail spc
    → is_unterminated m ≡ true
    → spc ≡ []
spaces_of tk_space token tail spc h e = cc
spaces_of tk_word token tail spc h e = cc
spaces_of tk_quote token tail spc h e = h.1
spaces_of _ token tail spc h e = h

-- The spaces that are read since the last other rune, behind those of `acc`.
abbrev pub trail : Text → List ℕ → Text
trail acc [] = acc
trail acc (c ∷ cs) = trail (if is_space c then acc ++ encode_rune c else []) cs

-- Outside quotes, `tailspc` is these spaces; between tokens only there can be any.
abbrev pub SpacesInv : TkState → Text → Text → Type 0
SpacesInv tk_space tailspc acc = tailspc ≡ acc
SpacesInv tk_word tailspc acc = (tailspc ≡ []) × (acc ≡ [])
SpacesInv _ tailspc acc = tailspc ≡ []

quote_plain : (c : ℕ) → (c == b'"') ≡ true → is_space c ≡ false
unfolding is_space
quote_plain c h = let e : c ≡ b'"' = (==_iff c b'"').0 h in rw e refl

step-SpacesInv :
    (m : TkState) (t : Tokenizer) (c : ℕ) (acc : Text)
    → t.state ≡ m
    → SpacesInv m t.tailspc acc
    → let u = settle (step_in m (seen t c) c) in
      SpacesInv u.state u.tailspc (if is_space c then acc ++ encode_rune c else [])
unfolding step_in
step-SpacesInv tk_space t c acc e h = ground (arith, quote_plain c)
step-SpacesInv tk_word t c acc e h = ground (arith, quote_plain c)
step-SpacesInv _ t c acc e h = ground (arith, quote_plain c)

pub run-SpacesInv :
    (t : Tokenizer) (cs : List ℕ) (acc : Text)
    → SpacesInv t.state t.tailspc acc
    → let u = run t cs in SpacesInv u.state u.tailspc (trail acc cs)
unfolding run step
run-SpacesInv t [] acc h = h
run-SpacesInv t (c ∷ cs) acc h =
    run-SpacesInv (step t c) cs (if is_space c then acc ++ encode_rune c else [])
      (step-SpacesInv t.state t c acc refl h)

-- The runes that `octal` takes for digits are those from `0` to `9`: `8` and `9` are among them.
pub octal-eq_some : (c : ℕ) → ((n : ℕ) × (octal c ≡ some n)) ↔ ((b'0' ≤ c) × (c ≤ b'9'))
unfolding octal
octal-eq_some c = (λ h. ground arith, λ h. (c - b'0', ground arith))
