-- ===== src/Netstate/Primary.antt =====
-- `newSnapshotFromAddrs` against a direct reading of it: the addresses in their order, and an address
-- primary exactly when no other has a wider mask.

use mfp.Netstate.Groups.{mark-map, entry}
use mfp.Netstate.Sorted.{sort_addrs-Proper, sort_addrs-Sorted, Sorted, Proper}
use mfp.Netstate.Snapshot.{sort_addrs, snapshot_from_addrs, is_inner, insert_addr}
use mfp.Netstate.Addr.{addr_eq, narrower, Addr}
use mfp.Base.{
  ◌+◌, ap, ◌∙◌, ◌||◌, map, arith, ◌≡◌, length, if◌then◌else◌, ℕ, List, [], suc, refl, ◌∷◌,
}

abbrev pub occurrences : Addr → List Addr → ℕ
occurrences a [] = 0
occurrences a (b ∷ l) = (if addr_eq b a then 1 else 0) + occurrences a l

occurrences-insert_addr :
    (a b : Addr) (l : List Addr) → occurrences a (insert_addr b l) ≡ occurrences a (b ∷ l)
unfolding insert_addr
occurrences-insert_addr a b [] = refl
occurrences-insert_addr a b (c ∷ l) = ground (arith, occurrences-insert_addr a b l)

occurrences-sort_addrs : (a : Addr) (l : List Addr) → occurrences a (sort_addrs l) ≡ occurrences a l
unfolding sort_addrs
occurrences-sort_addrs a [] = refl
occurrences-sort_addrs a (b ∷ l) =
    omega (arith, occurrences-insert_addr a b (sort_addrs l), occurrences-sort_addrs a l)

is_inner-insert_addr :
    (a b : Addr) (l : List Addr) → is_inner a (insert_addr b l) ≡ (narrower a b || is_inner a l)
unfolding is_inner insert_addr
is_inner-insert_addr a b [] = refl
is_inner-insert_addr a b (c ∷ l) = ground (arith, is_inner-insert_addr a b l)

is_inner-sort_addrs : (a : Addr) (l : List Addr) → is_inner a (sort_addrs l) ≡ is_inner a l
unfolding is_inner sort_addrs
is_inner-sort_addrs a [] = refl
is_inner-sort_addrs a (b ∷ l) =
    ground (arith, is_inner-insert_addr a b (sort_addrs l), is_inner-sort_addrs a l)

length-insert_addr : (a : Addr) (l : List Addr) → length (insert_addr a l) ≡ suc (length l)
unfolding insert_addr
length-insert_addr a [] = refl
length-insert_addr a (b ∷ l) = ground (arith, length-insert_addr a l)

length-sort_addrs : (l : List Addr) → length (sort_addrs l) ≡ length l
unfolding sort_addrs
length-sort_addrs [] = refl
length-sort_addrs (a ∷ l) = length-insert_addr a (sort_addrs l) ∙ ap suc (length-sort_addrs l)

entries_cong :
    (g h l : List Addr)
    → ((a : Addr) → is_inner a g ≡ is_inner a h)
    → map (entry g) l ≡ map (entry h) l
entries_cong g h [] e = refl
entries_cong g h (a ∷ l) e = ground (arith, e a, entries_cong g h l e)

-- A snapshot of addresses with valid masks, of interfaces that agree, is these addresses, each as
-- often, in a list that is sorted and in which an address is primary exactly when it is narrower than none of all the addresses: the search
-- for groups of one interface finds all that matter.
pub snapshot_from_addrs_lem :
    (l : List Addr)
    → Proper l
    → (snapshot_from_addrs l ≡ map (entry l) (sort_addrs l))
      × Sorted (sort_addrs l)
      × ((a : Addr) → occurrences a (sort_addrs l) ≡ occurrences a l)
unfolding snapshot_from_addrs
snapshot_from_addrs_lem l p =
    let sorted = sort_addrs l in
    (
      mark-map (length l) sorted (omega (arith, length-sort_addrs l)) (sort_addrs-Sorted l p)
            (sort_addrs-Proper l p)
          ∙ entries_cong sorted l sorted (λ a. is_inner-sort_addrs a l),
      sort_addrs-Sorted l p,
      λ a. occurrences-sort_addrs a l,
    )
