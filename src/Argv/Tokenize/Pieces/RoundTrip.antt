-- ===== src/Argv/Tokenize/Pieces/RoundTrip.antt =====
-- `Tokenize` of argv/tokenize.go on the lines of the grammar.
use mfp.Go.Utf8.{runes-encode, encode_rune, encode, IsRune}
use mfp.Argv.Tokenize.Pieces.Rounds.{
  step-oct, step-hex, step-close, step-open, step-space, step-letter, step-end_word, step-bare,
  step-plain, at, IsOutside,
}
use mfp.Go.Text.{Text}
use mfp.Base.{
  arith, ◌+◌, ◌*◌, ◌∙◌, append_assoc, append-nil, ◌++◌, ap, ◌∷◌, [], ◌≡◌, All, ℕ, List, refl, inr,
  true, inl, false,
}
use mfp.Argv.Tokenize.{
  finish, initial, step, TkState, Tokenizer, tokenize, run, tk_quote, tk_space, tk_word,
}
use mfp.Argv.Tokenize.Pieces.{
  hex_value, pieces_text, piece_text, line_text, items_text, pieces_runes, piece_runes, line_runes,
  items_runes, bare_fits, WordFits, PieceFits, item_fits, GapFits, ArgFits, item_text, AllSpace,
  item_runes, Word, Piece, Item, oct, hex, plain, letter, bare, quoted,
}

run-step : (t u : Tokenizer) (c : ℕ) (rest : List ℕ) → step t c ≡ u → run t (c ∷ rest) ≡ run u rest
unfolding run
run-step t u c rest e = ap (λ t. run t rest) e

-- The tokenizer, in a quoted string, takes an item and adds its text; only `acc` may change.
run-item :
    (i : Item) (token : Text) (acc : ℕ) (argv : List Text) (rest : List ℕ)
    → item_fits i ≡ true
    → (acc' : ℕ) × (run (at tk_quote token acc argv []) (item_runes i ++ rest)
        ≡ run (at tk_quote (token ++ item_text i) acc' argv []) rest)
unfolding run item_runes item_text
run-item (plain c) token acc argv rest h =
    (acc, ap (λ t. run t rest) (step-plain c token acc argv h))
run-item (letter c) token acc argv rest h =
    (acc, ap (λ t. run t rest) (step-letter c token acc argv h))
run-item (hex h l) token acc argv rest e =
    (hex_value h * 16 + hex_value l, step-hex h l token acc argv rest (ground arith) (ground arith))
run-item (oct a b c) token acc argv rest e = (_, step-oct a b c token acc argv rest e)

run-items :
    (is : List Item) (token : Text) (acc : ℕ) (argv : List Text) (rest : List ℕ)
    → All (λ i. item_fits i ≡ true) is
    → (acc' : ℕ) × (run (at tk_quote token acc argv []) (items_runes is ++ rest)
        ≡ run (at tk_quote (token ++ items_text is) acc' argv []) rest)
run-items [] token acc argv rest h = (acc, rw append-nil)
run-items (i ∷ is) token acc argv rest h =
    let (acc1, e1) = run-item i token acc argv (items_runes is ++ rest) h.0 in
    let (acc2, e2) = run-items is (token ++ item_text i) acc1 argv rest h.1 in
    (acc2, rw append_assoc (e1 ∙ e2 ∙ rw append_assoc))

run-bare :
    (cs : List ℕ) (token : Text) (acc : ℕ) (argv : List Text) (rest : List ℕ)
    → All (λ c. bare_fits c ≡ true) cs
    → run (at tk_word token acc argv []) (cs ++ rest)
      ≡ run (at tk_word (token ++ encode cs) acc argv []) rest
run-bare [] token acc argv rest h = rw append-nil
run-bare (c ∷ cs) token acc argv rest h =
    run-step _ _ _ (cs ++ rest) (step-bare tk_word c token acc argv [] (inr refl) h.0)
    ∙ run-bare cs (token ++ encode_rune c) acc argv rest h.1
    ∙ rw append_assoc

run-piece :
    (p : Piece) (m : TkState) (token : Text) (acc : ℕ) (argv : List Text) (spc : Text)
    (rest : List ℕ)
    → IsOutside m
    → PieceFits p
    → (acc' : ℕ) × (run (at m token acc argv spc) (piece_runes p ++ rest)
        ≡ run (at tk_word (token ++ piece_text p) acc' argv []) rest)
unfolding run
run-piece (bare []) m token acc argv spc rest o h = absurd h
run-piece (bare (c ∷ cs)) m token acc argv spc rest o h = (
  acc,
  run-step _ _ _ (cs ++ rest) (step-bare m c token acc argv spc o h.0)
      ∙ run-bare cs (token ++ encode_rune c) acc argv rest h.1
      ∙ rw append_assoc,
)
run-piece (quoted is) m token acc argv spc rest o h =
    let (acc', e) = run-items is token acc argv (b'"' ∷ rest) h in
    (
      acc',
      rw append_assoc (
          run-step _ _ _ (items_runes is ++ b'"' ∷ rest) (step-open m token acc argv spc o)
          ∙ e
          ∙ run-step _ _ _ rest (step-close (token ++ items_text is) acc' argv)),
    )

run-pieces :
    (ps : List Piece) (token : Text) (acc : ℕ) (argv : List Text) (rest : List ℕ)
    → All PieceFits ps
    → (acc' : ℕ) × (run (at tk_word token acc argv []) (pieces_runes ps ++ rest)
        ≡ run (at tk_word (token ++ pieces_text ps) acc' argv []) rest)
run-pieces [] token acc argv rest h = (acc, rw append-nil)
run-pieces (p ∷ ps) token acc argv rest h =
    let (acc1, e1) =
      run-piece p tk_word token acc argv [] (pieces_runes ps ++ rest) (inr refl) h.0 in
    let (acc2, e2) = run-pieces ps (token ++ piece_text p) acc1 argv rest h.1 in
    (acc2, rw append_assoc (e1 ∙ e2 ∙ rw append_assoc))

run-arg :
    (a : List Piece) (acc : ℕ) (argv : List Text) (spc : Text) (rest : List ℕ)
    → ArgFits a
    → (acc' : ℕ) × (run (at tk_space [] acc argv spc) (pieces_runes a ++ rest)
        ≡ run (at tk_word (pieces_text a) acc' argv []) rest)
run-arg [] acc argv spc rest h = absurd h
run-arg (p ∷ ps) acc argv spc rest h =
    let (acc1, e1) =
      run-piece p tk_space [] acc argv spc (pieces_runes ps ++ rest) (inl refl) h.0 in
    let (acc2, e2) = run-pieces ps (piece_text p) acc1 argv rest h.1 in
    (acc2, rw append_assoc (e1 ∙ e2))

run-spaces :
    (cs : List ℕ) (acc : ℕ) (argv : List Text) (spc : Text) (rest : List ℕ)
    → AllSpace cs
    → run (at tk_space [] acc argv spc) (cs ++ rest)
      ≡ run (at tk_space [] acc argv (spc ++ encode cs)) rest
run-spaces [] acc argv spc rest h = rw append-nil
run-spaces (c ∷ cs) acc argv spc rest h =
    run-step _ _ _ (cs ++ rest) (step-space c acc argv spc h.0)
    ∙ run-spaces cs acc argv (spc ++ encode_rune c) rest h.1
    ∙ rw append_assoc

run-gap :
    (gap : List ℕ) (acc : ℕ) (token : Text) (argv : List Text) (rest : List ℕ)
    → GapFits gap
    → run (at tk_word token acc argv []) (gap ++ rest)
      ≡ run (at tk_space [] acc (argv ++ token ∷ []) (encode gap)) rest
run-gap [] acc token argv rest h = absurd h
run-gap (c ∷ cs) acc token argv rest h =
    run-step _ _ _ (cs ++ rest) (step-end_word c acc token argv h.0)
    ∙ run-spaces cs acc (argv ++ token ∷ []) (encode_rune c) rest h.1

run-line :
    (ws : List Word) (acc : ℕ) (argv : List Text) (spc : Text) (rest : List ℕ)
    → All WordFits ws
    → (acc' : ℕ) × (spc' : Text) × (run (at tk_space [] acc argv spc) (line_runes ws ++ rest)
        ≡ run (at tk_space [] acc' (argv ++ line_text ws) spc') rest)
run-line [] acc argv spc rest h = (acc, spc, rw append-nil)
run-line (w ∷ ws) acc argv spc rest h =
    let tl = line_runes ws ++ rest in
    let (acc1, e1) = run-arg w.pieces acc argv spc (w.gap ++ tl) h.0.0 in
    let e2 = run-gap w.gap acc1 (pieces_text w.pieces) argv tl h.0.1 in
    let (acc3, spc3, e3) =
      run-line ws acc1 (argv ++ pieces_text w.pieces ∷ []) (encode w.gap) rest h.1 in
    (acc3, spc3, rw (append_assoc, append_assoc) (e1 ∙ e2 ∙ e3 ∙ rw append_assoc))

-- On a line of the grammar, with spaces in front or none, the arguments are the texts of its words
-- and there is no error.
pub tokenize-line :
    (lead : List ℕ) (ws : List Word)
    → AllSpace lead
    → All WordFits ws
    → All IsRune (lead ++ line_runes ws)
    → tokenize (encode (lead ++ line_runes ws)) ≡ (line_text ws, false)
unfolding tokenize
tokenize-line lead ws h k r =
    let (acc, spc, e) = run-line ws 0 [] (encode lead) [] k in
    let read : run initial (lead ++ line_runes ws) ≡ at tk_space [] acc (line_text ws) spc =
      run-spaces lead 0 [] [] (line_runes ws) h ∙ rw append-nil at e in
    rw (runes-encode (lead ++ line_runes ws) r, read) (unfold finish in rw append-nil)

-- On a line of the grammar that ends with an argument, with no space behind it, the arguments are
-- the texts of its words and of that argument, and there is no error.
pub tokenize-last_word :
    (ws : List Word) (a : List Piece)
    → All WordFits ws
    → ArgFits a
    → All IsRune (line_runes ws ++ pieces_runes a)
    → tokenize (encode (line_runes ws ++ pieces_runes a))
      ≡ (line_text ws ++ pieces_text a ∷ [], false)
unfolding tokenize
tokenize-last_word ws a k h r =
    let (acc, spc, e) = run-line ws 0 [] [] (pieces_runes a) k in
    let (acc2, e2) = run-arg a acc (line_text ws) spc [] h in
    let read : run initial (line_runes ws ++ pieces_runes a)
        ≡ at tk_word (pieces_text a) acc2 (line_text ws) [] =
      e ∙ (rw append-nil at e2) in
    rw (runes-encode (line_runes ws ++ pieces_runes a) r, read) (unfold finish in refl)
