-- ===== src/Discovery/Collection/Laws.antt =====
-- Collections against sets: what each operation does to the elements, and that the slices stay sorted.

use mfp.Discovery.Collection.{
  collection_merge, collection_del, collection_contain, collection_add, Order,
}
use mfp.Base.{
  ◌&&◌, ap, ◌↔◌, ◌||◌, not, if◌then◌else◌, arith, Bool-cases, All, ◌≡◌, List, Bool, true, false,
  refl, inr, ◌∷◌, [], inl,
}

module _ {A : Type 0} ⦃o : Order A⦄ where
  -- Whether `a` is an element.
  abbrev pub same : A → A → Bool
  same x a = not (o.lt x a) && not (o.lt a x)

  abbrev pub has : List A → A → Bool
  has [] a = false
  has (x ∷ l) a = same x a || has l a

  abbrev pub Ascending : List A → Type 0
  Ascending [] = Unit {0}
  Ascending (x ∷ l) = All (λ y. o.lt x y ≡ true) l × Ascending l

  pub same_iff : (a b : A) → (same a b ≡ true) ↔ (a ≡ b)
  same_iff a b = (
    λ h. o.total a b (ground arith) (ground arith),
    λ e. ground (arith, o.irrefl a, ap (o.lt a) e, ap (λ c. o.lt c a) e),
  )

  pub has-same : (l : List A) (a b : A) → same a b ≡ true → has l a ≡ has l b
  has-same l a b h = ap (has l) ((same_iff a b).0 h)

  above_first : (x y a : A) → o.lt x y ≡ true → o.lt x a ≡ false → same y a ≡ false
  above_first x y a h k = elim (Bool-cases (same y a)) [
    | inl e ↦ ground (arith, ap (o.lt x) ((same_iff y a).0 e))
    | inr e ↦ e
  ]

  -- What is not above the first element is not behind it.
  has_behind :
      (l : List A) (x a : A) → All (λ y. o.lt x y ≡ true) l → o.lt x a ≡ false → has l a ≡ false
  has_behind [] x a h e = refl
  has_behind (y ∷ l) x a h e = ground (arith, above_first x y a h.0 e, has_behind l x a h.1 e)

  pub collection_contain-eq-has :
      (l : List A) (a : A) → Ascending l → collection_contain l a ≡ has l a
  unfolding collection_contain
  collection_contain-eq-has [] a h = refl
  collection_contain-eq-has (x ∷ l) a h =
      ground (arith, collection_contain-eq-has l a h.1, has_behind l x a h.0)

  add_nil : (a : A) → (collection_add [] a).0 ≡ a ∷ []
  unfolding collection_add
  add_nil a = refl

  del_nil : (a : A) → (collection_del [] a).0 ≡ []
  unfolding collection_del
  del_nil a = refl

  add_step :
      (x : A) (l : List A) (a : A)
      → (collection_add (x ∷ l) a).0
        ≡ (if o.lt x a then x ∷ (collection_add l a).0 else if o.lt a x then a ∷ x ∷ l else x ∷ l)
  unfolding collection_add
  add_step x l a = ground arith

  pub collection_del_nonempty : (l : List A) (a : A) → l ≡ [] → (collection_del l a).0 ≡ []
  collection_del_nonempty l a e = rw e (del_nil a)

  del_step :
      (x : A) (l : List A) (a : A)
      → (collection_del (x ∷ l) a).0
        ≡ (if o.lt x a then x ∷ (collection_del l a).0 else if o.lt a x then x ∷ l else l)
  unfolding collection_del
  del_step x l a = ground arith

  pub has-collection_add :
      (l : List A) (a b : A) → has (collection_add l a).0 b ≡ (same a b || has l b)
  has-collection_add [] a b = rw (add_nil a)
  has-collection_add (x ∷ l) a b =
      rw (add_step x l a)
        (ground (arith, has-collection_add l a b, same_iff x a, same_iff a b, same_iff x b))

  pub has-collection_del :
      (l : List A) (a b : A)
      → Ascending l
      → has (collection_del l a).0 b ≡ (not (same a b) && has l b)
  has-collection_del [] a b h = rw (del_nil a) (ground arith)
  has-collection_del (x ∷ l) a b h = rw (del_step x l a) (
      ground (
        arith,
        has-collection_del l a b h.1,
        same_iff x a,
        same_iff a b,
        same_iff x b,
        has_behind l x b h.0,
      ))

  pub has-collection_merge :
      (l m : List A) (b : A) → has (collection_merge l m) b ≡ (has l b || has m b)
  unfolding collection_merge
  has-collection_merge [] m b = refl
  has-collection_merge (x ∷ l) [] b = ground arith
  has-collection_merge (x ∷ l) (y ∷ m) b = ground (
    arith,
    has-collection_merge l (y ∷ m) b,
    has-collection_merge (x ∷ l) m b,
    has-collection_merge l m b,
    same_iff x y,
    same_iff x b,
    same_iff y b,
  )

  module _ (P : A → Type 0) where
    All-collection_add : (l : List A) (a : A) → P a → All P l → All P (collection_add l a).0
    All-collection_add [] a p h = rw (add_nil a) (p, tt)
    All-collection_add (x ∷ l) a p h = rw (add_step x l a) (elim (Bool-cases (o.lt x a)) [
      | inl e ↦ rw e (h.0, All-collection_add l a p h.1)
      | inr e ↦ elim (Bool-cases (o.lt a x)) [ inl f ↦ rw (e, f) (p, h) | inr f ↦ rw (e, f) h ]
    ])

    All-collection_del : (l : List A) (a : A) → All P l → All P (collection_del l a).0
    All-collection_del [] a h = rw (del_nil a) tt
    All-collection_del (x ∷ l) a h = rw (del_step x l a) (elim (Bool-cases (o.lt x a)) [
      | inl e ↦ rw e (h.0, All-collection_del l a h.1)
      | inr e ↦ elim (Bool-cases (o.lt a x)) [ inl f ↦ rw (e, f) h | inr f ↦ rw (e, f) h.1 ]
    ])

    All-collection_merge : (l m : List A) → All P l → All P m → All P (collection_merge l m)
    unfolding collection_merge
    All-collection_merge [] m h k = k
    All-collection_merge (x ∷ l) [] h k = h
    All-collection_merge (x ∷ l) (y ∷ m) h k = elim (Bool-cases (o.lt x y)) [
      | inl e ↦ rw e (h.0, All-collection_merge l (y ∷ m) h.1 k)
      | inr e ↦ elim (Bool-cases (o.lt y x)) [
        | inl f ↦ rw (e, f) (k.0, All-collection_merge (x ∷ l) m h k.1)
        | inr f ↦ rw (e, f) (h.0, All-collection_merge l m h.1 k.1)
      ]
    ]

  -- What lies below the first element lies below all.
  All-below :
      (l : List A) (a x : A)
      → o.lt a x ≡ true
      → All (λ y. o.lt x y ≡ true) l
      → All (λ y. o.lt a y ≡ true) l
  All-below [] a x h k = tt
  All-below (y ∷ l) a x h k = (o.trans a x y h k.0, All-below l a x h k.1)

  pub collection_add-Ascending :
      (l : List A) (a : A) → Ascending l → Ascending (collection_add l a).0
  collection_add-Ascending [] a h = rw (add_nil a) (tt, tt)
  collection_add-Ascending (x ∷ l) a h = rw (add_step x l a) (elim (Bool-cases (o.lt x a)) [
    | inl e ↦
        rw e (All-collection_add (λ y. o.lt x y ≡ true) l a e h.0, collection_add-Ascending l a h.1)
    | inr e ↦ elim (Bool-cases (o.lt a x)) [
      | inl f ↦ rw (e, f) ((f, All-below l a x f h.0), h)
      | inr f ↦ rw (e, f) h
    ]
  ])

  pub collection_del-Ascending :
      (l : List A) (a : A) → Ascending l → Ascending (collection_del l a).0
  collection_del-Ascending [] a h = rw (del_nil a) tt
  collection_del-Ascending (x ∷ l) a h = rw (del_step x l a) (elim (Bool-cases (o.lt x a)) [
    | inl e ↦
        rw e (All-collection_del (λ y. o.lt x y ≡ true) l a h.0, collection_del-Ascending l a h.1)
    | inr e ↦ elim (Bool-cases (o.lt a x)) [ inl f ↦ rw (e, f) h | inr f ↦ rw (e, f) h.1 ]
  ])

  pub collection_merge-Ascending :
      (l m : List A) → Ascending l → Ascending m → Ascending (collection_merge l m)
  unfolding collection_merge
  collection_merge-Ascending [] m h k = k
  collection_merge-Ascending (x ∷ l) [] h k = h
  collection_merge-Ascending (x ∷ l) (y ∷ m) h k = elim (Bool-cases (o.lt x y)) [
    | inl e ↦ rw e (
      All-collection_merge (λ z. o.lt x z ≡ true) l (y ∷ m) h.0 (e, All-below m x y e k.0),
      collection_merge-Ascending l (y ∷ m) h.1 k,
    )
    | inr e ↦ elim (Bool-cases (o.lt y x)) [
      | inl f ↦
          rw (e, f)
            (
              All-collection_merge (λ z. o.lt y z ≡ true) (x ∷ l) m (f, All-below l y x f h.0) k.0,
              collection_merge-Ascending (x ∷ l) m h k.1,
            )
      | inr f ↦
          rw (e, f)
            (
              All-collection_merge (λ z. o.lt x z ≡ true) l m h.0 (rw (← o.total y x f e) (k.0)),
              collection_merge-Ascending l m h.1 k.1,
            )
    ]
  ]

-- Of sorted slices: whether an element is found, added, deleted, or comes by a merge, is as with sets,
-- and the slices that these give are sorted again, with no element twice.
pub collection_as_set :
    {A : Type 0} ⦃o : Order A⦄ (l m : List A) (a b : A)
    → Ascending l
    → Ascending m
    → ((collection_contain l a ≡ has l a)
        × (has (collection_add l a).0 b ≡ (same a b || has l b))
        × (has (collection_del l a).0 b ≡ (not (same a b) && has l b))
        × (has (collection_merge l m) b ≡ (has l b || has m b)))
      × (Ascending (collection_add l a).0
          × Ascending (collection_del l a).0
          × Ascending (collection_merge l m))
collection_as_set l m a b h k = (
  (
    collection_contain-eq-has l a h,
    has-collection_add l a b,
    has-collection_del l a b h,
    has-collection_merge l m b,
  ),
  (
    collection_add-Ascending l a h,
    collection_del-Ascending l a h,
    collection_merge-Ascending l m h k,
  ),
)
