-- ===== src/Argv/Params/Assign.antt =====
-- The loops of `handleParameters` (argv/parser.go) that give each value its parameter.
use mfp.Argv.Model.{is_repeated, Parameter}
use mfp.Argv.Params.{fill_loop, back_loop, Descs, front_loop}
use mfp.Base.{
  length-replicate, replicate-snoc, append_assoc, ◌∙◌, set-behind, length-append, get_elem?-behind,
  Option, arith, ok, zero, suc, refl, true, map, ◌++◌, ◌+◌, length, ◌≡◌, replicate, All, ℕ, List,
  some, false, ◌∷◌, none, [],
}
use mathlib.Core.List.{reverse_aux, reverse_aux-eq}

abbrev pub NotRepeated : List Parameter → Type 0
NotRepeated ps = All (λ p. is_repeated p ≡ false) ps

abbrev pub nils : ℕ → Descs
nils n = replicate n none

front_round :
    (q : Parameter) (P rest : List Parameter) (D ds : Descs) (i n : ℕ)
    → is_repeated q ≡ false
    → i ≡ length P
    → i ≡ length D
    → front_loop (suc n) i (P ++ q ∷ rest) (D ++ none ∷ ds)
      ≡ front_loop n (i + 1) (P ++ q ∷ rest) (D ++ some q ∷ ds)
unfolding front_loop
front_round q P rest D ds i n h e e' =
    ground (arith, get_elem?-behind P q rest i e, set-behind D none (some q) ds i e')

-- The first loop over parameters that are not repeated: `P` and `D` are behind it.
pub front_run :
    (qs P back : List Parameter) (D : Descs) (i m : ℕ)
    → NotRepeated qs
    → i ≡ length P
    → i ≡ length D
    → front_loop (length qs + m) i (P ++ (qs ++ back)) (D ++ nils (length qs + m))
      ≡ front_loop m (i + length qs) (P ++ (qs ++ back)) (D ++ (map some qs ++ nils m))
front_run [] P back D i m h e e' =
    let a : zero + m ≡ m = omega arith in let b : i + zero ≡ i = omega arith in rw (a, b)
front_run (q ∷ qs) P back D i m h e e' =
    let a : suc (length qs) + m ≡ suc (length qs + m) = omega arith in
    let b : i + suc (length qs) ≡ i + 1 + length qs = omega arith in
    let P' = P ++ q ∷ [] in
    let D' = D ++ some q ∷ [] in
    let next =
      front_run qs P' back D' (i + 1) m h.1 (omega (arith, length-append P (q ∷ [])))
        (omega (arith, length-append D (some q ∷ []))) in
    rw (a, b)
      (front_round q P (qs ++ back) D (nils (length qs + m)) i (length qs + m) h.0 e e'
        ∙ (simp append_assoc at next))

-- The round that ends the first loop.
pub front_stop :
    (r : Parameter) (P rest : List Parameter) (D ds : Descs) (i n : ℕ)
    → is_repeated r ≡ true
    → i ≡ length P
    → i ≡ length D
    → front_loop (suc n) i (P ++ r ∷ rest) (D ++ none ∷ ds) ≡ ok (D ++ some r ∷ ds, some i)
unfolding front_loop
front_stop r P rest D ds i n h e e' =
    ground (arith, get_elem?-behind P r rest i e, set-behind D none (some r) ds i e')

back_round :
    (b : Parameter) (P tail : List Parameter) (X : Descs) (y : Option Parameter) (done : Descs)
    (i j : ℕ)
    → is_repeated b ≡ false
    → j ≡ length P
    → i ≡ length X
    → back_loop (suc j) (suc i) (P ++ b ∷ tail) (X ++ y ∷ done)
      ≡ back_loop j i (P ++ b ∷ tail) (X ++ some b ∷ done)
unfolding back_loop
back_round b P tail X y done i j h e e' =
    ground (arith, get_elem?-behind P b tail j e, set-behind X y (some b) done i e')

back_stop :
    (r : Parameter) (P tail : List Parameter) (ds : Descs) (i j : ℕ)
    → is_repeated r ≡ true
    → j ≡ length P
    → back_loop (suc j) i (P ++ r ∷ tail) ds ≡ ok ds
unfolding back_loop
back_stop r P tail ds i j h e = ground (arith, get_elem?-behind P r tail j e)

fill_round :
    (r : Option Parameter) (D rest : Descs) (i n : ℕ)
    → i ≡ length D
    → fill_loop (suc n) i r (D ++ none ∷ rest) ≡ fill_loop n (i + 1) r (D ++ r ∷ rest)
unfolding fill_loop
fill_round r D rest i n e =
    ground (arith, get_elem?-behind D none rest i e, set-behind D none r rest i e)

fill_keep :
    (r : Option Parameter) (D : Descs) (q : Parameter) (rest : Descs) (i n : ℕ)
    → i ≡ length D
    → fill_loop (suc n) i r (D ++ some q ∷ rest) ≡ fill_loop n (i + 1) r (D ++ some q ∷ rest)
unfolding fill_loop
fill_keep r D q rest i n e = ground (arith, get_elem?-behind D (some q) rest i e)

module _ {A : Type 0} where
  pub length-reverse_aux : (xs ys : List A) → length (reverse_aux xs ys) ≡ length xs + length ys
  length-reverse_aux [] ys = omega arith
  length-reverse_aux (x ∷ xs) ys = omega (arith, length-reverse_aux xs (x ∷ ys))

  pub All-reverse_aux :
      (P : A → Type 0) (xs ys : List A) → All P xs → All P ys → All P (reverse_aux xs ys)
  All-reverse_aux P [] ys h k = k
  All-reverse_aux P (x ∷ xs) ys h k = All-reverse_aux P xs (x ∷ ys) h.1 (h.0, k)

pub map-reverse_aux :
    (xs ys : List Parameter)
    → map some (reverse_aux xs ys) ≡ reverse_aux (map (λ p. some p) xs) (map some ys)
map-reverse_aux [] ys = refl
map-reverse_aux (x ∷ xs) ys = map-reverse_aux xs (x ∷ ys)

-- The loop backwards over the reversed list of the parameters behind the repeated one.
pub back_run :
    (bs : List Parameter) (r : Parameter) (P tail : List Parameter) (X done : Descs)
    → NotRepeated bs
    → is_repeated r ≡ true
    → back_loop
        (suc (length P + length bs))
        (length X + length bs)
        (P ++ r ∷ reverse_aux bs tail)
        (X ++ (nils (length bs) ++ done))
      ≡ ok (X ++ reverse_aux (map some bs) done)
back_run [] r P tail X done h k =
    let a : length P + 0 ≡ length P = omega arith in
    rw a (back_stop r P tail (X ++ done) (length X + 0) (length P) k refl)
back_run (b ∷ bs) r P tail X done h k =
    let n = length bs in
    let P' = P ++ r ∷ reverse_aux bs [] in
    let X' = X ++ nils n in
    let a : length P + suc n ≡ suc (length P + n) = omega arith in
    let c : length X + suc n ≡ suc (length X + n) = omega arith in
    let params : P ++ r ∷ reverse_aux bs (b ∷ tail) ≡ P' ++ b ∷ tail =
      rw (append_assoc, reverse_aux-eq bs (b ∷ tail)) refl in
    let descs : X ++ none ∷ (nils n ++ done) ≡ X' ++ none ∷ done =
      rw (append_assoc, replicate-snoc n none done) refl in
    let lp : suc (length P + n) ≡ length P' =
      omega (arith, length-append P (r ∷ reverse_aux bs []), length-reverse_aux bs []) in
    let lx : length X + n ≡ length X' =
      omega (arith, length-append X (nils n), length-replicate {A = Option Parameter} n none) in
    let step = back_round b P' tail X' none done (length X + n) (suc (length P + n)) h.0 lp lx in
    let ih = back_run bs r P (b ∷ tail) X (some b ∷ done) h.1 k in
    rw (a, c, descs, params) (step ∙ rw (← params) (rw append_assoc ih))

pub fill_none :
    (r : Option Parameter) (k : ℕ) (D rest : Descs) (i n : ℕ)
    → i ≡ length D
    → fill_loop (k + n) i r (D ++ (nils k ++ rest))
      ≡ fill_loop n (i + k) r (D ++ (replicate k r ++ rest))
fill_none r zero D rest i n e =
    let a : zero + n ≡ n = omega arith in let b : i + zero ≡ i = omega arith in rw (a, b)
fill_none r (suc k) D rest i n e =
    let a : suc k + n ≡ suc (k + n) = omega arith in
    let b : i + suc k ≡ i + 1 + k = omega arith in
    let ih = fill_none r k (D ++ r ∷ []) rest (i + 1) n (omega (arith, length-append D (r ∷ []))) in
    rw (a, b) (fill_round r D (nils k ++ rest) i (k + n) e ∙ (simp append_assoc at ih))

-- Behind the places that were nil everything is set.
pub fill_set :
    (r : Option Parameter) (qs : List Parameter) (D : Descs) (i : ℕ)
    → i ≡ length D
    → fill_loop (length qs) i r (D ++ map some qs) ≡ D ++ map some qs
fill_set r [] D i e = unfold fill_loop in refl
fill_set r (q ∷ qs) D i e =
    let ih =
      fill_set r qs (D ++ some q ∷ []) (i + 1) (omega (arith, length-append D (some q ∷ []))) in
    fill_keep r D q (map some qs) i (length qs) e ∙ (simp append_assoc at ih)
