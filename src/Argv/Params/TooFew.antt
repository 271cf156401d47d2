-- ===== src/Argv/Params/TooFew.antt =====
-- `handleParameters` of argv/parser.go on fewer values than there are parameters behind the repeated
-- one. `parse` refuses them, but not when an immediate option, such as `--help`, was given.
use mfp.Argv.Params.Assign.{
  All-reverse_aux, front_stop, length-reverse_aux, front_run, nils, NotRepeated,
}
use mfp.Argv.Model.{is_repeated, Parameter}
use mfp.Argv.Params.{front_loop, Descs, assign, back_loop}
use mfp.Base.{
  ◌∙◌, length-map, sym, get_elem?-behind, set, length-append, map, arith, append_assoc, ◌≡◌, ◌+◌,
  ◌<◌, length, ◌++◌, ℕ, get_elem?, List, true, ok, [], refl, panic, ◌∷◌, zero, some, suc,
}
use mathlib.Core.List.{reverse, reverse_aux, reverse_aux-eq, reverse-reverse}

back_at :
    (b : Parameter) (bs : List Parameter) (r : Parameter) (P tail : List Parameter)
    → get_elem? (P ++ r ∷ reverse_aux bs (b ∷ tail)) (length P + suc (length bs)) ≡ some b
back_at b bs r P tail =
    let P' = P ++ r ∷ reverse_aux bs [] in
    let params : P ++ r ∷ reverse_aux bs (b ∷ tail) ≡ P' ++ b ∷ tail =
      rw (append_assoc, reverse_aux-eq bs (b ∷ tail)) refl in
    let l : length P + suc (length bs) ≡ length P' =
      omega (arith, length-append P (r ∷ reverse_aux bs []), length-reverse_aux bs []) in
    rw params (get_elem?-behind P' b tail (length P + suc (length bs)) l)

back_out_of_range :
    (bs : List Parameter) (r : Parameter) (P tail : List Parameter) (i1 : ℕ) (ds : Descs)
    → NotRepeated bs
    → i1 < length bs
    → back_loop (suc (length P + length bs)) i1 (P ++ r ∷ reverse_aux bs tail) ds ≡ panic
unfolding back_loop
back_out_of_range [] r P tail i1 ds h k = absurd (omega arith)
back_out_of_range (b ∷ bs) r P tail zero ds h k = ground (arith, back_at b bs r P tail)
back_out_of_range (b ∷ bs) r P tail (suc i) ds h k =
    let a : length P + suc (length bs) ≡ suc (length P + length bs) = omega arith in
    ground (
      arith,
      back_at b bs r P tail,
      a,
      back_out_of_range bs r P (b ∷ tail) i (set ds i (some b)) h.1,
    )

-- With one repeated parameter, if there are more parameters behind it than there are values, and
-- values enough to reach it, then the loop backwards leaves the array: `handleParameters` panics
-- before it has the descriptions.
pub assign_too_few :
    (front : List Parameter) (r : Parameter) (back : List Parameter) (k : ℕ)
    → NotRepeated front
    → is_repeated r ≡ true
    → NotRepeated back
    → length front + suc k < length back
    → assign (front ++ r ∷ back) (length front + suc k) ≡ panic
unfolding assign
assign_too_few front r back k hf hr hb few =
    let n = length front + suc k in
    let X = map some front ++ some r ∷ nils k in
    let z : 0 + length front ≡ length front = omega arith in
    let run = front_run front [] (r ∷ back) [] 0 (suc k) hf refl refl in
    let stop : front_loop (suc k) (0 + length front) (front ++ r ∷ back)
          (map some front ++ nils (suc k))
        ≡ ok (X, some (length front)) =
      rw z (
        front_stop r front back (map some front) (nils k) (length front) k hr refl
          (sym (length-map front some))) in
    let e : reverse_aux (reverse back) [] ≡ back = reverse-reverse back in
    let l : length (reverse back) ≡ length back = length-reverse_aux back [] ∙ omega arith in
    let p : length (front ++ r ∷ back) ≡ suc (length front + length back) =
      omega (arith, length-append front (r ∷ back)) in
    let out =
      back_out_of_range (reverse back) r front [] n X (All-reverse_aux _ back [] hb tt)
        (rw l few) in
    rw (run ∙ stop) (rw p (rw (rw (e, l) at out)))
