-- ===== src/Netstate/Groups.antt =====
-- The groups of one interface in which `newSnapshotFromAddrs` looks for primary addresses: in sorted
-- addresses, whole interfaces.

use mathlib.Core.List.{map-append}
use mfp.Go.Order.{text_lt_total}
use mfp.Netstate.Order.{narrower_nif}
use mfp.Netstate.Sorted.{Sorted, Proper}
use mfp.Netstate.Snapshot.{SnapshotAddr, same_front, mark_group, mark, is_inner, behind_front}
use mfp.Netstate.Addr.{
  same_interface, netif_eq_iff, netif_less, netif_eq, narrower, Agree, less, Addr,
}
use mfp.Base.{
  sym, ◌∙◌, ap, ◌≤◌, ◌||◌, not, map, arith, Bool-cases, ◌≡◌, ◌++◌, ℕ, length, All, List, inr, suc,
  true, zero, inl, refl, ◌∷◌, [], false,
}
use mathlib.Core.Path.{ap₂, ◌≡⟨◌⟩◌, ◌∎}

abbrev SameNif : Addr → Addr → Type 0
SameNif a b = netif_eq a.nif b.nif ≡ true

abbrev OtherNif : Addr → Addr → Type 0
OtherNif a b = netif_eq a.nif b.nif ≡ false

-- The reference: one entry for an address, by all the addresses.
abbrev pub entry : List Addr → Addr → SnapshotAddr
entry all a = record { addr = a; primary = not (is_inner a all) }

mark_group-map : (group l : List Addr) → mark_group group l ≡ map (entry group) l
unfolding mark_group
mark_group-map group [] = refl
mark_group-map group (a ∷ l) = ap (◌∷◌ (entry group a)) (mark_group-map group l)

front-append : (a : Addr) (l : List Addr) → same_front a l ++ behind_front a l ≡ l
unfolding same_front behind_front
front-append a [] = refl
front-append a (b ∷ l) = ground (arith, front-append a l)

same_front-SameNif : (a : Addr) (l : List Addr) → All (SameNif a) (same_front a l)
unfolding same_front
same_front-SameNif a [] = tt
same_front-SameNif a (b ∷ l) = elim (Bool-cases (same_interface a b)) [
  | inl e ↦ rw e (e, same_front-SameNif a l)
  | inr e ↦ rw e tt
]

-- Behind an address of another interface no address of `a`'s interface follows.
later_OtherNif :
    (a b x : Addr)
    → Agree a.nif b.nif
    → OtherNif a b
    → less b a ≡ false
    → less x b ≡ false
    → OtherNif a x
unfolding less netif_less
later_OtherNif a b x g h k l = ground (
  arith,
  netif_eq_iff a.nif b.nif,
  netif_eq_iff b.nif a.nif,
  netif_eq_iff a.nif x.nif,
  netif_eq_iff x.nif b.nif,
  text_lt_total a.nif.name b.nif.name,
)

All-later_OtherNif :
    (a b : Addr) (l : List Addr)
    → Agree a.nif b.nif
    → OtherNif a b
    → less b a ≡ false
    → All (λ x. less x b ≡ false) l
    → All (OtherNif a) l
All-later_OtherNif a b [] g h k n = tt
All-later_OtherNif a b (x ∷ l) g h k n =
    (later_OtherNif a b x g h k n.0, All-later_OtherNif a b l g h k n.1)

behind_front-OtherNif :
    (a : Addr) (l : List Addr)
    → All (λ b. less b a ≡ false) l
    → All (λ b. Agree a.nif b.nif) l
    → Sorted l
    → All (OtherNif a) (behind_front a l)
unfolding behind_front
behind_front-OtherNif a [] n g s = tt
behind_front-OtherNif a (b ∷ l) n g s = elim (Bool-cases (same_interface a b)) [
  | inl e ↦ rw e (behind_front-OtherNif a l n.1 g.1 s.1)
  | inr e ↦ rw e (e, All-later_OtherNif a b l g.0 e n.0 s.0)
]

behind_front-Proper : (a : Addr) (l : List Addr) → Proper l → Proper (behind_front a l)
unfolding behind_front
behind_front-Proper a [] p = tt
behind_front-Proper a (b ∷ l) p = elim (Bool-cases (same_interface a b)) [
  | inl e ↦ rw e (behind_front-Proper a l p.1.1)
  | inr e ↦ rw e p
]

behind_front-Sorted : (a : Addr) (l : List Addr) → Sorted l → Sorted (behind_front a l)
unfolding behind_front
behind_front-Sorted a [] s = tt
behind_front-Sorted a (b ∷ l) s = elim (Bool-cases (same_interface a b)) [
  | inl e ↦ rw e (behind_front-Sorted a l s.1)
  | inr e ↦ rw e s
]

length-behind_front : (a : Addr) (l : List Addr) → length (behind_front a l) ≤ length l
unfolding behind_front
length-behind_front a [] = omega arith
length-behind_front a (b ∷ l) = ground (arith, length-behind_front a l)

-- Addresses of other interfaces are not wider.
not_narrower :
    (a f b : Addr) → SameNif a f → OtherNif a b → (narrower f b ≡ false) × (narrower b f ≡ false)
not_narrower a f b h k = (
  ground (arith, narrower_nif f b, netif_eq_iff a.nif f.nif, netif_eq_iff f.nif b.nif),
  ground (arith, narrower_nif b f, netif_eq_iff a.nif f.nif, netif_eq_iff b.nif f.nif),
)

is_inner-append :
    (a : Addr) (l m : List Addr) → is_inner a (l ++ m) ≡ (is_inner a l || is_inner a m)
unfolding is_inner
is_inner-append a [] m = refl
is_inner-append a (b ∷ l) m = ground (arith, is_inner-append a l m)

is_inner_other :
    (a f : Addr) (l : List Addr) → SameNif a f → All (OtherNif a) l → is_inner f l ≡ false
unfolding is_inner
is_inner_other a f [] h k = refl
is_inner_other a f (b ∷ l) h k =
    ground (arith, not_narrower a f b h k.0, is_inner_other a f l h k.1)

is_inner_same :
    (a b : Addr) (l : List Addr) → OtherNif a b → All (SameNif a) l → is_inner b l ≡ false
unfolding is_inner
is_inner_same a b [] h k = refl
is_inner_same a b (f ∷ l) h k = ground (arith, not_narrower a f b k.0 h, is_inner_same a b l h k.1)

-- The addresses of other groups change nothing.
front_entries :
    (a : Addr) (g m l : List Addr)
    → All (OtherNif a) m
    → All (SameNif a) l
    → map (entry g) l ≡ map (entry (g ++ m)) l
front_entries a g m [] h k = refl
front_entries a g m (f ∷ l) h k =
    ground (arith, is_inner-append f g m, is_inner_other a f m k.0 h, front_entries a g m l h k.1)

behind_entries :
    (a : Addr) (g m l : List Addr)
    → All (SameNif a) g
    → All (OtherNif a) l
    → map (entry m) l ≡ map (entry (g ++ m)) l
behind_entries a g m [] h k = refl
behind_entries a g m (b ∷ l) h k =
    ground (arith, is_inner-append b g m, is_inner_same a b g k.0 h, behind_entries a g m l h k.1)

pub mark-map :
    (n : ℕ) (l : List Addr) → length l ≤ n → Sorted l → Proper l → mark n l ≡ map (entry l) l
unfolding mark
mark-map zero [] h s p = refl
mark-map zero (a ∷ l) h s p = absurd (omega arith)
mark-map (suc n) [] h s p = refl
mark-map (suc n) (a ∷ l) h s p =
    let front = a ∷ same_front a l in
    let behind = behind_front a l in
    let same : All (SameNif a) front =
      ((netif_eq_iff a.nif a.nif).1 refl, same_front-SameNif a l) in
    let other = behind_front-OtherNif a l s.0 p.1.0 s.1 in
    let first = mark_group-map front front ∙ front_entries a front behind front other same in
    let joined : front ++ behind ≡ a ∷ l = ap (◌∷◌ a) (front-append a l) in
    mark_group front front ++ mark n behind
    ≡⟨ ap (λ t. mark_group front front ++ t)
        (mark-map n behind (omega (arith, length-behind_front a l)) (behind_front-Sorted a l s.1)
          (behind_front-Proper a l p.1.1)) ⟩
      mark_group front front ++ map (entry behind) behind
    ≡⟨ ap₂ ◌++◌ first (behind_entries a front behind behind same other) ⟩
      map (entry (front ++ behind)) front ++ map (entry (front ++ behind)) behind
    ≡⟨ sym (map-append (entry (front ++ behind)) front behind) ⟩
      map (entry (front ++ behind)) (front ++ behind)
    ≡⟨ ap (λ t. map (entry t) t) joined ⟩ map (entry (a ∷ l)) (a ∷ l) ∎
