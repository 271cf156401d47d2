-- ===== src/Argv/Options/Splitting.antt =====
-- `splitOptVal` of argv/parser.go.
use mfp.Go.Text.{text_eq, contains_byte, Text}
use mfp.Argv.Options.{is_short_option, split_opt_val, is_long_option, index_byte}
use mfp.Base.{
  drop_behind-append, append-nil, take-length-append, length, arith, ◌∷◌, ◌++◌, ◌≢◌, ◌≡◌, ℕ, some,
  none, [], refl, false, true,
}

pub index_byte-append :
    (n v : Text) (c : ℕ) → contains_byte n c ≡ false → index_byte (n ++ c ∷ v) c ≡ some (length n)
unfolding index_byte
index_byte-append [] v c h = ground arith
index_byte-append (b ∷ n) v c h = ground (arith, index_byte-append n v c)

index_byte-none : (n : Text) (c : ℕ) → contains_byte n c ≡ false → index_byte n c ≡ none
unfolding index_byte
index_byte-none [] c h = refl
index_byte-none (b ∷ n) c h = ground (arith, index_byte-none n c)

-- A long name keeps its two dashes whatever follows, and is not short.
long_shape :
    (name rest : Text)
    → is_long_option name ≡ true
    → (is_long_option (name ++ rest) ≡ true) × (is_short_option (name ++ rest) ≡ false)
unfolding is_long_option is_short_option
long_shape [] rest h = cc
long_shape (a ∷ []) rest h = ground arith
long_shape (a ∷ b ∷ []) rest h = ground arith
long_shape (a ∷ b ∷ c ∷ s) rest h = ground arith

pub split-long_equals :
    (name v : Text)
    → is_long_option name ≡ true
    → contains_byte name b'=' ≡ false
    → split_opt_val (name ++ b'=' ∷ v) ≡ record { name = name; val = v; novalue = false }
unfolding split_opt_val
split-long_equals name v l e =
    let (long, short) = long_shape name (b'=' ∷ v) l in
    ground (
      arith,
      long,
      short,
      index_byte-append name v b'=' e,
      take-length-append name (b'=' ∷ v),
      drop_behind-append name b'=' v,
    )

pub split-long_alone :
    (name : Text)
    → is_long_option name ≡ true
    → contains_byte name b'=' ≡ false
    → split_opt_val name ≡ record { name = name; val = []; novalue = true }
unfolding split_opt_val
split-long_alone name l e =
    let (long, short) = long_shape name [] l in
    ground (arith, rw append-nil at short, index_byte-none name b'=' e)

pub split-short :
    (c : ℕ) (v : Text)
    → c ≢ b'-'
    → split_opt_val (b'-' ∷ c ∷ v)
      ≡ record { name = b'-' ∷ c ∷ []; val = v; novalue = text_eq v [] }
unfolding split_opt_val
split-short c v h = ground arith
