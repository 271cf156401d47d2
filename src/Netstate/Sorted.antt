-- ===== src/Netstate/Sorted.antt =====
-- The order in which `newSnapshotFromAddrs` keeps addresses.

use mfp.Netstate.Order.{less_total, less_irrefl, less_trans, IsValid}
use mfp.Netstate.Snapshot.{sort_addrs, insert_addr}
use mfp.Netstate.Addr.{less, Agree, NetIf, Addr}
use mfp.Base.{arith, ◌≡◌, sym, Bool-cases, All, List, ◌∷◌, inl, [], true, false, inr}

-- No address comes before one that stands ahead of it.
abbrev pub Sorted : List Addr → Type 0
Sorted [] = Unit {0}
Sorted (a ∷ rest) = All (λ b. less b a ≡ false) rest × Sorted rest

-- The addresses have valid masks, and their interfaces agree.
abbrev pub Proper : List Addr → Type 0
Proper [] = Unit {0}
Proper (a ∷ rest) = IsValid a × (All (λ b. Agree a.nif b.nif) rest × Proper rest)

module _ (P : Addr → Type 0) where
  All-insert_addr : (a : Addr) (bs : List Addr) → P a → All P bs → All P (insert_addr a bs)
  unfolding insert_addr
  All-insert_addr a [] h k = (h, tt)
  All-insert_addr a (b ∷ bs) h k = elim (Bool-cases (less b a)) [
    | inl e ↦ rw e (k.0, All-insert_addr a bs h k.1)
    | inr e ↦ rw e (h, k)
  ]

  pub All-sort_addrs : (bs : List Addr) → All P bs → All P (sort_addrs bs)
  unfolding sort_addrs
  All-sort_addrs [] h = tt
  All-sort_addrs (b ∷ bs) h = All-insert_addr b (sort_addrs bs) h.0 (All-sort_addrs bs h.1)

Agree-sym : (n m : NetIf) → Agree n m → Agree m n
Agree-sym n m h i j = sym (h (sym i) (sym j))

less_asym : (a b : Addr) → less a b ≡ true → less b a ≡ false
less_asym a b h = ground (arith, less_trans a b a, less_irrefl a)

-- What does not come before `b` does not come before `a`, if `b` does not.
less-not_before :
    (x a b : Addr)
    → Agree a.nif b.nif
    → IsValid a
    → IsValid b
    → less b a ≡ false
    → less x b ≡ false
    → less x a ≡ false
less-not_before x a b g v w h k = elim (Bool-cases (less a b)) [
  | inl e ↦ ground (arith, less_trans x a b)
  | inr e ↦ rw (less_total a b g v w e h) k
]

All-not_before :
    (a b : Addr) (bs : List Addr)
    → Agree a.nif b.nif
    → IsValid a
    → IsValid b
    → less b a ≡ false
    → All (λ x. less x b ≡ false) bs
    → All (λ x. less x a ≡ false) bs
All-not_before a b [] g v w h k = tt
All-not_before a b (x ∷ bs) g v w h k =
    (less-not_before x a b g v w h k.0, All-not_before a b bs g v w h k.1)

insert_addr-Proper :
    (a : Addr) (bs : List Addr)
    → IsValid a
    → All (λ b. Agree a.nif b.nif) bs
    → Proper bs
    → Proper (insert_addr a bs)
unfolding insert_addr
insert_addr-Proper a [] v g p = (v, (tt, tt))
insert_addr-Proper a (b ∷ bs) v g p = elim (Bool-cases (less b a)) [
  | inl e ↦ rw e (
    p.0,
    (
      All-insert_addr (λ c. Agree b.nif c.nif) a bs (Agree-sym a.nif b.nif g.0) p.1.0,
      insert_addr-Proper a bs v g.1 p.1.1,
    ),
  )
  | inr e ↦ rw e (v, (g, p))
]

insert_addr-Sorted :
    (a : Addr) (bs : List Addr)
    → IsValid a
    → All (λ b. Agree a.nif b.nif) bs
    → Proper bs
    → Sorted bs
    → Sorted (insert_addr a bs)
unfolding insert_addr
insert_addr-Sorted a [] v g p s = (tt, tt)
insert_addr-Sorted a (b ∷ bs) v g p s = elim (Bool-cases (less b a)) [
  | inl e ↦ rw e (
    All-insert_addr (λ c. less c b ≡ false) a bs (less_asym b a e) s.0,
    insert_addr-Sorted a bs v g.1 p.1.1 s.1,
  )
  | inr e ↦ rw e ((e, All-not_before a b bs g.0 v p.0 e s.0), s)
]

pub sort_addrs-Proper : (bs : List Addr) → Proper bs → Proper (sort_addrs bs)
unfolding sort_addrs
sort_addrs-Proper [] p = tt
sort_addrs-Proper (b ∷ bs) p =
    insert_addr-Proper b (sort_addrs bs) p.0 (All-sort_addrs (λ c. Agree b.nif c.nif) bs p.1.0)
      (sort_addrs-Proper bs p.1.1)

pub sort_addrs-Sorted : (bs : List Addr) → Proper bs → Sorted (sort_addrs bs)
unfolding sort_addrs
sort_addrs-Sorted [] p = tt
sort_addrs-Sorted (b ∷ bs) p =
    insert_addr-Sorted b (sort_addrs bs) p.0 (All-sort_addrs (λ c. Agree b.nif c.nif) bs p.1.0)
      (sort_addrs-Proper bs p.1.1) (sort_addrs-Sorted bs p.1.1)
