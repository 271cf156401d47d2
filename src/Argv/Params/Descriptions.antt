-- ===== src/Argv/Params/Descriptions.antt =====
-- The descriptions that `handleParameters` (argv/parser.go) gives to the values.
use mfp.Argv.Params.Assign.{
  fill_none, fill_set, front_stop, All-reverse_aux, back_run, map-reverse_aux, front_run,
  length-reverse_aux, nils, NotRepeated,
}
use mfp.Argv.Params.{fill_rest, front_loop, back_loop, fill_loop, Descs, assign}
use mfp.Argv.Model.{is_repeated, Parameter}
use mfp.Base.{
  replicate-add, get_elem?-behind, Option, length-replicate, length-map, append_assoc, ◌-◌,
  length-append, get_elem?, none, ap, sym, append-nil, ◌∙◌, replicate, arith, map, ◌≡◌, ◌+◌, length,
  ◌++◌, ℕ, List, refl, ok, true, suc, [], some, ◌∷◌,
}
use mathlib.Core.List.{reverse, reverse_aux, reverse-reverse}

-- As many values as there are parameters in front of any repeated one take these parameters in order.
pub assign_plain :
    (qs rest : List Parameter) → NotRepeated qs → assign (qs ++ rest) (length qs) ≡ ok (map some qs)
unfolding assign
assign_plain qs rest h =
    let a : length qs + 0 ≡ length qs = omega arith in
    let run = front_run qs [] rest [] 0 0 h refl refl in rw (rw (append-nil, a) at run) refl

back_full :
    (r : Parameter) (P back : List Parameter) (X : Descs)
    → NotRepeated back
    → is_repeated r ≡ true
    → back_loop
        (suc (length P + length back))
        (length X + length back)
        (P ++ r ∷ back)
        (X ++ nils (length back))
      ≡ ok (X ++ map some back)
back_full r P back X h k =
    let bs = reverse back in
    let e : reverse_aux bs [] ≡ back = reverse-reverse back in
    let l : length bs ≡ length back = (length-reverse_aux back []) ∙ omega arith in
    let m : reverse_aux (map (λ p. some p) bs) [] ≡ map some back =
      sym (map-reverse_aux bs []) ∙ ap (map (λ p. some p)) e in
    let run = back_run bs r P [] X [] (All-reverse_aux _ back [] h tt) k in
    rw (e, l, m, append-nil) at run

fill_full :
    (r : Parameter) (D : Descs) (k : ℕ) (back : List Parameter)
    → fill_loop (k + length back) (length D) (some r) (D ++ (nils k ++ map some back))
      ≡ D ++ (replicate k (some r) ++ map some back)
fill_full r D k back =
    let mid = replicate k (some r) in
    let l : length D + k ≡ length (D ++ mid) =
      omega (arith, length-append D mid, length-replicate {A = Option Parameter} k (some r)) in
    let set = fill_set (some r) back (D ++ mid) (length D + k) l in
    fill_none (some r) k D (map some back) (length D) (length back) refl ∙ (rw append_assoc at set)

-- The parts of the array: the front with the repeated parameter and `k` nil places, then `b` more.
abbrev head_part : List Parameter → Parameter → ℕ → Descs
head_part front r k = map some front ++ some r ∷ nils k

abbrev total : List Parameter → ℕ → List Parameter → ℕ
total front k back = length front + (suc k + length back)

front_part :
    (front : List Parameter) (r : Parameter) (back : List Parameter) (k : ℕ)
    → NotRepeated front
    → is_repeated r ≡ true
    → front_loop (total front k back) 0 (front ++ r ∷ back) (nils (total front k back))
      ≡ ok (head_part front r k ++ nils (length back), some (length front))
front_part front r back k hf hr =
    let b = length back in
    let a : suc k + b ≡ suc (k + b) = omega arith in
    let z : 0 + length front ≡ length front = omega arith in
    let run = front_run front [] (r ∷ back) [] 0 (suc k + b) hf refl refl in
    let stop =
      front_stop r front back (map some front) (nils (k + b)) (length front) (k + b) hr refl
        (sym (length-map front some)) in
    let stop' : front_loop (suc k + b) (0 + length front) (front ++ r ∷ back)
          (map some front ++ nils (suc k + b))
        ≡ ok (map some front ++ some r ∷ nils (k + b), some (length front)) =
      rw (a, z) stop in
    run ∙ stop' ∙ rw (replicate-add {A = Option Parameter} k b none, append_assoc)

back_part :
    (front : List Parameter) (r : Parameter) (back : List Parameter) (k : ℕ)
    → is_repeated r ≡ true
    → NotRepeated back
    → back_loop
        (length (front ++ r ∷ back))
        (total front k back)
        (front ++ r ∷ back)
        (head_part front r k ++ nils (length back))
      ≡ ok (head_part front r k ++ map some back)
back_part front r back k hr hb =
    let l : length (front ++ r ∷ back) ≡ suc (length front + length back) =
      omega (arith, length-append front (r ∷ back)) in
    let n : total front k back ≡ length (head_part front r k) + length back = omega (
      arith,
      length-append (map some front) (some r ∷ nils k),
      length-map {B = Option Parameter} front some,
      length-replicate {A = Option Parameter} k none,
    ) in
    rw (l, n) (back_full r front back (head_part front r k) hb hr)

repeated_part :
    (front : List Parameter) (r : Parameter) (back : List Parameter) (k : ℕ)
    → get_elem? (head_part front r k ++ map some back) (length front) ≡ some (some r)
repeated_part front r back k = rw append_assoc (
    get_elem?-behind (map some front) (some r) (nils k ++ map some back) (length front)
      (sym (length-map front some)))

fill_part :
    (front : List Parameter) (r : Parameter) (back : List Parameter) (k : ℕ)
    → fill_loop
        (total front k back - (length front + 1))
        (length front + 1)
        (some r)
        (head_part front r k ++ map some back)
      ≡ map some front ++ (replicate (suc k) (some r) ++ map some back)
fill_part front r back k =
    let D = map some front ++ some r ∷ [] in
    let n : total front k back - (length front + 1) ≡ k + length back = omega arith in
    let l : length front + 1 ≡ length D = omega (
      arith,
      length-append (map some front) (some r ∷ []),
      length-map {B = Option Parameter} front some,
    ) in
    let whole : head_part front r k ++ map some back ≡ D ++ (nils k ++ map some back) =
      simp append_assoc in
    rw (n, l, whole) (fill_full r D k back ∙ rw append_assoc)

rest_part :
    (front : List Parameter) (r : Parameter) (back : List Parameter) (k : ℕ)
    → fill_rest (total front k back) (length front) (head_part front r k ++ map some back)
      ≡ ok (map some front ++ (replicate (suc k) (some r) ++ map some back))
unfolding fill_rest
rest_part front r back k =
    rw (repeated_part front r back k, fill_rest) (ap ok (fill_part front r back k))

-- With one repeated parameter, and values enough for all, the first values take the parameters in
-- front of it, the last ones those behind it, and it takes all between, at least one.
pub assign_repeated :
    (front : List Parameter) (r : Parameter) (back : List Parameter) (k : ℕ)
    → NotRepeated front
    → is_repeated r ≡ true
    → NotRepeated back
    → assign (front ++ r ∷ back) (length front + (suc k + length back))
      ≡ ok (map some front ++ (replicate (suc k) (some r) ++ map some back))
unfolding assign
assign_repeated front r back k hf hr hb =
    rw (front_part front r back k hf hr)
      (rw (back_part front r back k hr hb) (rest_part front r back k))
