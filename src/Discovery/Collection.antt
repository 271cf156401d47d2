-- ===== src/Discovery/Collection.antt =====
-- discovery/endpoints.go and discovery/addrs.go: collections as sorted slices without duplicates. The
-- two files are the same code, for strings and for IP addresses.

use mfp.Go.Order.{text_lt_total, text_lt_trans, text_lt_irrefl}
use mfp.Go.Text.{text_lt, Text}
use mfp.Go.Netip.{ip_less_total, ip_less_trans, ip_less_irrefl, ip_less, Ip}
use mfp.Base.{
  drop, ◌++◌, take, not, ◌≡◌, ℕ, if◌then◌else◌, List, Bool, false, ◌∷◌, suc, [], true, ◌<◌,
}
pub mod Laws

-- What a collection needs of the order of its elements.
pub record Order (A : Type 0) : Type 0 where
  pub lt : A → A → Bool
  pub irrefl : (a : A) → lt a a ≡ false
  pub trans : (a b c : A) → lt a b ≡ true → lt b c ≡ true → lt a c ≡ true
  pub total : (a b : A) → lt a b ≡ false → lt b a ≡ false → a ≡ b

instance abbrev pub text_order : Order Text
text_order = record {
  lt = text_lt;
  irrefl = text_lt_irrefl;
  trans = text_lt_trans;
  total = text_lt_total;
}

instance abbrev pub ip_order : Order Ip
ip_order = record {
  lt = ip_less;
  irrefl = ip_less_irrefl;
  trans = ip_less_trans;
  total = ip_less_total;
}

module _ {A : Type 0} ⦃o : Order A⦄ where
  -- `sort.Find`: the place of the first element that is not below `a`, and whether it is `a`. On a
  -- sorted slice its binary search gives the same.
  unfoldable pub find : List A → A → ℕ × Bool
  find [] a = (0, false)
  find (x ∷ l) a =
      let later : ℕ × Bool = (suc (find l a).0, (find l a).1) in
      if o.lt x a then later else (0, not (o.lt a x))

  unfoldable pub collection_contain : List A → A → Bool
  unfolding find
  collection_contain l a = (find l a).1

  -- The slice, and whether the element is new.
  unfoldable pub collection_add : List A → A → List A × Bool
  unfolding find
  collection_add l a =
      let (i, found) = find l a in if found then (l, false) else (take i l ++ a ∷ drop i l, true)

  -- The slice, and whether the element was there.
  unfoldable pub collection_del : List A → A → List A × Bool
  unfolding find
  collection_del l a =
      let (i, found) = find l a in if found then (take i l ++ drop (suc i) l, true) else (l, false)

  unfoldable pub collection_merge : List A → List A → List A
  collection_merge [] m = m
  collection_merge (x ∷ l) [] = x ∷ l
  collection_merge (x ∷ l) (y ∷ m) =
      let first = x ∷ collection_merge l (y ∷ m) in
      let second = y ∷ collection_merge (x ∷ l) m in
      let both = x ∷ collection_merge l m in
      if o.lt x y then first else if o.lt y x then second else both

  unfoldable pub collection_overlap : List A → List A → Bool
  collection_overlap [] m = false
  collection_overlap (x ∷ l) [] = false
  collection_overlap (x ∷ l) (y ∷ m) =
      let first = collection_overlap l (y ∷ m) in
      let second = collection_overlap (x ∷ l) m in
      if o.lt x y then first else if o.lt y x then second else true

abbrev pub endpoints_contain : List Text → Text → Bool
endpoints_contain = collection_contain

abbrev pub endpoints_add : List Text → Text → List Text × Bool
endpoints_add = collection_add

abbrev pub endpoints_del : List Text → Text → List Text × Bool
endpoints_del = collection_del

abbrev pub endpoints_merge : List Text → List Text → List Text
endpoints_merge = collection_merge

abbrev pub addrs_contain : List Ip → Ip → Bool
addrs_contain = collection_contain

abbrev pub addrs_add : List Ip → Ip → List Ip × Bool
addrs_add = collection_add

abbrev pub addrs_del : List Ip → Ip → List Ip × Bool
addrs_del = collection_del

abbrev pub addrs_merge : List Ip → List Ip → List Ip
addrs_merge = collection_merge

abbrev pub addrs_overlap : List Ip → List Ip → Bool
addrs_overlap = collection_overlap
