-- ===== src/Uuid/Fields.antt =====
-- util/uuid/uuid.go: the version and the variant of the UUIDs that `RandomFrom`, `MD5` and `SHA1` make.

use mfp.Go.Text.{Text}
use mfp.Base.{
  ◌++◌, take, List, ok, ◌∙◌, length-set, ap, ◌%◌, arith, ◌/◌, ◌+◌, set, All, ◌≡◌, ◌*◌, length,
  get_elem?, ◌<◌, ℕ, zero, some, suc, refl, [], ◌∷◌,
}
use Prim.Native.Nat.{bit_or, bit_and}
use mfp.Go.Bits.{same_below, same_below_lem}
use mfp.Uuid.{
  sha1, md5, variant, random_from, name_based, stamp, version, rfc4122, byte_or_zero, IsByte,
  IsUuid, Uuid,
}

version_bits : (k b : ℕ) → k < 16 → b < 256 → bit_or (bit_and b 0x0f) (k * 16) / 16 ≡ k
unfolding same_below
version_bits k b hk hb =
    let e : (k * 256 + b) / 256 ≡ k = omega arith in
    let m : (k * 256 + b) % 256 ≡ b = omega arith in
    rw (e, m) at
      (same_below_lem (λ n. bit_or (bit_and (n % 256) 0x0f) (n / 256 * 16) / 16) (λ n. n / 256) 4096
        refl (k * 256 + b) (omega arith))

variant_bits :
    (b : ℕ) → b < 256 → bit_and (bit_or (bit_and b 0x3f) 0x80) 0xe0 ≡ 0x80 + b / 32 % 2 * 32
unfolding same_below
variant_bits =
    same_below_lem (λ b. bit_and (bit_or (bit_and b 0x3f) 0x80) 0xe0) (λ b. 0x80 + b / 32 % 2 * 32)
      256 refl

-- The two bytes that are set, and their values.
bytes_of : (u : Uuid) → IsUuid u → (i : ℕ) → i < 16 → IsByte (byte_or_zero (get_elem? u i))
bytes_of u (n, h) i hi = byte_at u h i (omega arith)
  where
    byte_at :
        (u : Uuid) → All IsByte u → (i : ℕ) → i < length u → IsByte (byte_or_zero (get_elem? u i))
    byte_at [] h i hi = absurd (omega arith)
    byte_at (b ∷ bs) (h, hs) zero hi = h
    byte_at (b ∷ bs) (h, hs) (suc i) hi = byte_at bs hs i (omega arith)

get_elem?-set_same : (u : Uuid) (i b : ℕ) → i < length u → get_elem? (set u i b) i ≡ some b
get_elem?-set_same [] i b h = absurd (omega arith)
get_elem?-set_same (x ∷ xs) zero b h = refl
get_elem?-set_same (x ∷ xs) (suc i) b h = get_elem?-set_same xs i b (omega arith)

get_elem?-set_below : (u : Uuid) (i j b : ℕ) → i < j → get_elem? (set u j b) i ≡ get_elem? u i
get_elem?-set_below [] i j b h = refl
get_elem?-set_below (x ∷ xs) i zero b h = absurd (omega arith)
get_elem?-set_below (x ∷ xs) zero (suc j) b h = refl
get_elem?-set_below (x ∷ xs) (suc i) (suc j) b h = get_elem?-set_below xs i j b (omega arith)

get_elem?-set_above : (u : Uuid) (i j b : ℕ) → j < i → get_elem? (set u j b) i ≡ get_elem? u i
get_elem?-set_above [] i j b h = refl
get_elem?-set_above (x ∷ xs) zero j b h = absurd (omega arith)
get_elem?-set_above (x ∷ xs) (suc i) zero b h = refl
get_elem?-set_above (x ∷ xs) (suc i) (suc j) b h = get_elem?-set_above xs i j b (omega arith)

-- The two bytes of a stamped UUID.
version_byte :
    (u : Uuid) (x y : ℕ) → 6 < length u → byte_or_zero (get_elem? (set (set u 6 x) 8 y) 6) ≡ x
version_byte u x y h =
    ap byte_or_zero
      (get_elem?-set_below (set u 6 x) 6 8 y (omega arith) ∙ get_elem?-set_same u 6 x h)

variant_byte :
    (u : Uuid) (x y : ℕ) → 8 < length u → byte_or_zero (get_elem? (set (set u 6 x) 8 y) 8) ≡ y
variant_byte u x y h =
    ap byte_or_zero (get_elem?-set_same (set u 6 x) 8 y (rw (length-set u 6 x) h))

stamp-version : (u : Uuid) → IsUuid u → (k : ℕ) → k < 16 → version (stamp (k * 16) u) ≡ k
unfolding version stamp
stamp-version u h k hk =
    ap (λ b. b / 16) (version_byte u _ _ (let n = h.1 in omega arith))
    ∙ version_bits k (byte_or_zero (get_elem? u 6)) hk (bytes_of u h 6 (omega arith))

rfc4122_bits :
    (u : Uuid) (t : ℕ)
    → bit_and (byte_or_zero (get_elem? u 8)) 0xe0 ≡ 0x80 + t * 32
    → t < 2
    → variant u ≡ rfc4122
unfolding variant
rfc4122_bits u t e h = ground arith

stamp-variant : (u : Uuid) → IsUuid u → (k : ℕ) → variant (stamp k u) ≡ rfc4122
unfolding stamp
stamp-variant u h k =
    let v = set u 6 (bit_or (bit_and (byte_or_zero (get_elem? u 6)) 0x0f) k) in
    let b = byte_or_zero (get_elem? u 8) in
    let same : byte_or_zero (get_elem? v 8) ≡ b =
      ap byte_or_zero (get_elem?-set_above u 8 6 _ (omega arith)) in
    rfc4122_bits (stamp k u) (b / 32 % 2)
      (ap (λ y. bit_and y 0xe0) (variant_byte u _ _ (let n = h.1 in omega arith))
        ∙ (ap (λ y. bit_and (bit_or (bit_and y 0x3f) 0x80) 0xe0) same
            ∙ variant_bits b (bytes_of u h 8 (omega arith))))
      (omega arith)

-- When the reader gives the 16 bytes, `RandomFrom` returns a UUID of version 4 and of the variant of
-- RFC 4122.
pub random_from-fields :
    {E : Type 0} (bytes : List ℕ)
    → IsUuid bytes
    → (u : Uuid) × (random_from {E = E} (ok bytes) ≡ ok u) × (version u ≡ 4) × (variant u ≡ rfc4122)
unfolding random_from
random_from-fields bytes h =
    (stamp 0x40 bytes, refl, stamp-version bytes h 4 (omega arith), stamp-variant bytes h 0x40)

-- Whatever the hash function, when it gives at least 16 bytes, the UUID that `MD5` makes has version 3,
-- the one that `SHA1` makes has version 5, and both have the variant of RFC 4122.
pub name_based-fields :
    (sum : List ℕ → List ℕ)
    → ((input : List ℕ) → IsUuid (take 16 (sum input)))
    → (space : Uuid) (name : Text)
    → (version (md5 sum space name) ≡ 3)
      × (variant (md5 sum space name) ≡ rfc4122)
      × (version (sha1 sum space name) ≡ 5)
      × (variant (sha1 sum space name) ≡ rfc4122)
unfolding name_based
name_based-fields sum h space name =
    let b = h (space ++ name) in
    (
      stamp-version _ b 3 (omega arith),
      stamp-variant _ b 0x30,
      stamp-version _ b 5 (omega arith),
      stamp-variant _ b 0x50,
    )
