-- ===== src/Uuid/RoundTrip.antt =====
-- util/uuid/uuid.go: `Parse` on the forms in which a UUID is printed.
use mfp.Uuid.Groups.{parse_groups}
use mfp.Go.Utf8.{runes_ascii, IsAscii}
use mfp.Uuid.{
  hex_digit, hex_bytes, nil_uuid, parse_loop, IsByte, microsoft, IsUuid, urn, to_string, strip,
  parse, Uuid,
}
use mfp.Go.Text.{text_eq_refl, has_suffix, codes, Text}
use mfp.Base.{
  take-append-drop, ap, ◌∙◌, drop-drop, ◌/◌, length-take, length-drop, take-length-append, take_all,
  drop-length-append, All-append, ◌-◌, take, length-append, drop, arith, ◌≡◌, ◌++◌, ◌≢◌, length,
  All, ℕ, List, suc, true, ◌∷◌, refl, ok, zero, [],
}

All-take : (n : ℕ) (u : Uuid) → All IsByte u → All IsByte (take n u)
All-take zero u h = tt
All-take (suc n) [] h = tt
All-take (suc n) (b ∷ u) h = (h.0, All-take n u h.1)

All-drop : (n : ℕ) (u : Uuid) → All IsByte u → All IsByte (drop n u)
All-drop zero u h = h
All-drop (suc n) [] h = tt
All-drop (suc n) (b ∷ u) h = All-drop n u h.1

-- The groups of a UUID make it up again.
groups :
    (u : Uuid)
    → length u ≡ 16
    → take 4 u
        ++ (take 2 (drop 4 u) ++ (take 2 (drop 6 u) ++ (take 2 (drop 8 u) ++ take 6 (drop 10 u))))
      ≡ u
groups u l =
    let t : take 6 (drop 10 u) ≡ drop 10 u =
      take_all 6 (drop 10 u) (omega (arith, length-drop 10 u)) in
    let d10 : drop 2 (drop 8 u) ≡ drop 10 u = drop-drop 8 2 u in
    let d8 : drop 2 (drop 6 u) ≡ drop 8 u = drop-drop 6 2 u in
    let d6 : drop 2 (drop 4 u) ≡ drop 6 u = drop-drop 4 2 u in
    rw (t, ← d10, take-append-drop 2 (drop 8 u))
      (rw (← d8, take-append-drop 2 (drop 6 u))
        (rw (← d6, take-append-drop 2 (drop 4 u)) (take-append-drop 4 u)))

-- The runes of the printed form.
pub parse_printed : (u : Uuid) → IsUuid u → parse_loop nil_uuid 0 (to_string u) ≡ ok (u, 32)
unfolding to_string
parse_printed u (l, h) =
    let run =
      parse_groups (take 4 u) (take 2 (drop 4 u)) (take 2 (drop 6 u)) (take 2 (drop 8 u))
        (take 6 (drop 10 u)) (omega (arith, length-take 4 u))
        (omega (arith, length-take 2 (drop 4 u), length-drop 4 u))
        (omega (arith, length-take 2 (drop 6 u), length-drop 6 u))
        (omega (arith, length-take 2 (drop 8 u), length-drop 8 u))
        (omega (arith, length-take 6 (drop 10 u), length-drop 10 u)) (All-take 4 u h)
        (All-take 2 (drop 4 u) (All-drop 4 u h)) (All-take 2 (drop 6 u) (All-drop 6 u h))
        (All-take 2 (drop 8 u) (All-drop 8 u h)) (All-take 6 (drop 10 u) (All-drop 10 u h)) in
    run ∙ ap (λ v. ok (v, 32)) (groups u l)

hex_bytes-IsAscii : (bs : List ℕ) → All IsByte bs → All IsAscii (hex_bytes bs)
hex_bytes-IsAscii [] h = tt
hex_bytes-IsAscii (b ∷ bs) h = (ground arith, (ground arith, hex_bytes-IsAscii bs h.1))

to_string-IsAscii : (u : Uuid) → All IsByte u → All IsAscii (to_string u)
unfolding to_string
to_string-IsAscii u h =
    All-append IsAscii (hex_bytes (take 4 u)) _ (hex_bytes-IsAscii _ (All-take 4 u h)) (
      omega arith,
      All-append IsAscii (hex_bytes (take 2 (drop 4 u))) _
          (hex_bytes-IsAscii _ (All-take 2 _ (All-drop 4 u h)))
          (
            omega arith,
            All-append IsAscii (hex_bytes (take 2 (drop 6 u))) _
                (hex_bytes-IsAscii _ (All-take 2 _ (All-drop 6 u h)))
                (
                  omega arith,
                  All-append IsAscii (hex_bytes (take 2 (drop 8 u))) _
                      (hex_bytes-IsAscii _ (All-take 2 _ (All-drop 8 u h)))
                      (omega arith, hex_bytes-IsAscii _ (All-take 6 _ (All-drop 10 u h))),
                ),
          ),
    )

pub strip-plain : (c : ℕ) (rest : Text) → c ≢ b'u' → c ≢ b'{' → strip (c ∷ rest) ≡ c ∷ rest
unfolding strip
strip-plain c rest h k = ground arith

strip-to_string : (u : Uuid) → IsUuid u → strip (to_string u) ≡ to_string u
unfolding to_string
strip-to_string [] (l, h) = absurd (omega arith)
strip-to_string (b ∷ u) (l, h) =
    strip-plain (hex_digit (b / 16)) _ (λ e. ground arith) (λ e. ground arith)

pub strip-urn : (s : Text) → strip (codes "urn:uuid:" ++ s) ≡ s
unfolding strip
strip-urn s = refl

has_suffix-append : (s t : Text) → has_suffix (s ++ t) t ≡ true
has_suffix-append s t =
    let l = length-append s t in
    let d : length (s ++ t) - length t ≡ length s = omega (arith, l) in
    rw (d, drop-length-append s t) (ground (arith, l, text_eq_refl t))

pub strip-microsoft : (s : Text) → strip (codes "{" ++ (s ++ codes "}")) ≡ s
unfolding strip
strip-microsoft s =
    let n : suc (length (s ++ codes "}")) - 2 ≡ length s =
      omega (arith, length-append s (codes "}")) in
    rw (has_suffix-append (codes "{" ++ s) (codes "}"), n) (take-length-append s (codes "}"))

parse-strip : (s : Text) (u : Uuid) → IsUuid u → strip s ≡ to_string u → parse s ≡ ok u
unfolding parse
parse-strip s u v e =
    rw (e, runes_ascii (to_string u) (to_string-IsAscii u v.1), parse_printed u v) refl

-- `Parse` reads back the printed form of a UUID, and its URN and Microsoft forms.
pub parse-to_string :
    (u : Uuid)
    → IsUuid u
    → (parse (to_string u) ≡ ok u) × (parse (urn u) ≡ ok u) × (parse (microsoft u) ≡ ok u)
unfolding urn microsoft
parse-to_string u v = (
  parse-strip (to_string u) u v (strip-to_string u v),
  parse-strip (urn u) u v (strip-urn (to_string u)),
  parse-strip (microsoft u) u v (strip-microsoft (to_string u)),
)
