-- ===== src/Argv/Completion/Joined.antt =====
-- `splitOptVal` of argv/parser.go on an argument whose option is known, as `complete` uses it.
use mfp.Argv.Completion.{joined_prefix}
use mfp.Argv.Verify.{Unicode, verify_name_syntax}
use mfp.Go.Text.{text_eq, has_prefix, codes, Text}
use mfp.Argv.Options.{is_short_option, is_long_option, split_opt_val, index_byte, Split}
use mfp.Base.{
  sym, ◌∙◌, append_assoc, false, ap, ◌==◌, Option-cases, Bool-cases, ◌+◌, append-nil, drop, arith,
  ◌++◌, take, ◌≡◌, ℕ, refl, ok, ◌∷◌, true, [], zero, some, inr, suc, inl,
}

index_byte-split :
    (s : Text) (c i : ℕ) → index_byte s c ≡ some i → take i s ++ c ∷ drop (i + 1) s ≡ s
unfolding index_byte
index_byte-split [] c i h = cc
index_byte-split (b ∷ s) c i h = elim (Bool-cases (b == c)) [
  | inl e ↦ let z : zero ≡ i = ground arith in let k : b ≡ c = ground arith in rw (← z, k) refl
  | inr e ↦ elim (Option-cases (index_byte s c)) [
    | inl n ↦ absurd (ground arith)
    | inr (j, n) ↦
        let z : suc j ≡ i = ground arith in
        let m : suc j + 1 ≡ suc (j + 1) = omega arith in
        rw (← z) (rw m (ap (◌∷◌ b) (index_byte-split s c j n)))
  ]
]

-- What stands before the value, with the value.
abbrev pub joined : Split → Text
joined s = joined_prefix s ++ s.val

abbrev Whole : Text → Type 0
Whole arg = (tail : Text) × (joined (split_opt_val arg) ≡ arg ++ tail)

short-Whole : (b c : ℕ) (rest : Text) → is_short_option (b ∷ c ∷ rest) ≡ true → Whole (b ∷ c ∷ rest)
unfolding split_opt_val is_long_option
short-Whole b c rest h = ([], ground (arith, append-nil (b ∷ c ∷ rest)))

-- A long option with `=` at place `i`.
split_at_equals :
    (b : ℕ) (rest : Text) (i : ℕ)
    → is_long_option (b'-' ∷ b'-' ∷ b ∷ rest) ≡ true
    → index_byte (b'-' ∷ b'-' ∷ b ∷ rest) b'=' ≡ some i
    → split_opt_val (b'-' ∷ b'-' ∷ b ∷ rest) ≡ record {
      name = take i (b'-' ∷ b'-' ∷ b ∷ rest);
      val = drop (i + 1) (b'-' ∷ b'-' ∷ b ∷ rest);
      novalue = false;
    }
unfolding split_opt_val is_short_option
split_at_equals b rest i l e = ground arith

name_is_long : (b : ℕ) (rest : Text) → is_long_option (b'-' ∷ b'-' ∷ b ∷ rest) ≡ true
unfolding is_long_option
name_is_long b rest = ground arith

equals-Whole :
    (b : ℕ) (rest : Text) (j : ℕ)
    → is_long_option (b'-' ∷ b'-' ∷ b ∷ rest) ≡ true
    → index_byte (b'-' ∷ b'-' ∷ b ∷ rest) b'=' ≡ some (suc (suc (suc j)))
    → joined (split_opt_val (b'-' ∷ b'-' ∷ b ∷ rest)) ≡ b'-' ∷ b'-' ∷ b ∷ rest
equals-Whole b rest j l e =
    let arg = b'-' ∷ b'-' ∷ b ∷ rest in
    rw (split_at_equals b rest (suc (suc (suc j))) l e) (
      rw (name_is_long b (take j rest), append_assoc)
        (index_byte-split arg b'=' (suc (suc (suc j))) e))

long-Whole :
    (u : Unicode) (rest : Text)
    → is_long_option (b'-' ∷ b'-' ∷ rest) ≡ true
    → verify_name_syntax u (split_opt_val (b'-' ∷ b'-' ∷ rest)).name ≡ ok tt
    → Whole (b'-' ∷ b'-' ∷ rest)
unfolding split_opt_val is_long_option is_short_option index_byte verify_name_syntax
long-Whole u [] l v = cc
long-Whole u (r ∷ rs) l v = elim (Option-cases (index_byte (r ∷ rs) b'=')) [
  | inl e ↦ (codes "=", ground (arith, append-nil (r ∷ (rs ++ b'=' ∷ []))))
  | inr (zero, e) ↦ absurd (ground arith)
  | inr (suc j, e) ↦
      let k : index_byte (b'-' ∷ b'-' ∷ r ∷ rs) b'=' ≡ some (suc (suc (suc j))) = rw e refl in
      ([], equals-Whole r rs j l k ∙ sym (append-nil _))
]

two_dashes :
    (u : Unicode) (rest : Text)
    → text_eq (b'-' ∷ b'-' ∷ rest) (codes "--") ≡ false
    → verify_name_syntax u (split_opt_val (b'-' ∷ b'-' ∷ rest)).name ≡ ok tt
    → Whole (b'-' ∷ b'-' ∷ rest)
two_dashes u [] n v = cc
two_dashes u (r ∷ rs) n v = long-Whole u (r ∷ rs) (name_is_long r rs) v

-- What stands before the value and the value begin with the argument, if its name is that of an
-- option.
pub known-Whole :
    (u : Unicode) (arg : Text)
    → has_prefix arg (codes "-") ≡ true
    → text_eq arg (codes "--") ≡ false
    → verify_name_syntax u (split_opt_val arg).name ≡ ok tt
    → (tail : Text) × (joined (split_opt_val arg) ≡ arg ++ tail)
unfolding split_opt_val is_short_option is_long_option verify_name_syntax
known-Whole u [] h n v = cc
known-Whole u (b ∷ []) h n v = absurd (ground arith)
known-Whole u (b ∷ c ∷ rest) h n v =
    let k : b ≡ b'-' = ground arith in
    elim (Bool-cases (c == b'-')) [
      | inl e ↦
          let m : c ≡ b'-' = ground arith in
          rw (k, m) (two_dashes u rest (rw (k, m) at n) (rw (k, m) at v))
      | inr e ↦ short-Whole b c rest (ground arith)
    ]
