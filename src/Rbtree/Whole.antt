-- ===== src/Rbtree/Whole.antt =====
-- Both loops of `main` of rbtree/rbtree.cpp: what is inserted is deleted again.
use mathlib.Core.Path.{subst}
use hello_world.Prelude.{
  ℕ, ◌+◌, ◌*◌, ◌^◌, ◌≤◌, ◌<◌, ◌≡◌, refl, sym, ap, ◌∙◌, inl, inr, true, false, List, [], ◌∷◌, map,
  arith, ltb, ◌==◌, ltb→lt, Bool-cases, length,
}
use hello_world.Outcome.{ok}
use hello_world.Rbtree.Nodes.{Color, Memory, update}
use hello_world.Rbtree.Main.{fresh_tree, insert_all, delete_all}
use hello_world.Rbtree.Sorted.{insert_key, remove_key, AllFrom, AllFrom-le, insert_key-new}
use hello_world.Rbtree.Fixup.{Holds}
use hello_world.Rbtree.Walked.{contains}
use hello_world.Rbtree.Built.{Fresh, AllKeysBelow, insert_keys, length-insert_key, main-Holds}
use hello_world.Rbtree.Undo.{remove_key-insert_key, contains-insert_key}
use hello_world.Rbtree.Emptied.{remainders, remove_keys, Present, delete_all-Holds}

abbrev IsSorted : List ℕ → Type 0
IsSorted [] = Unit
IsSorted (x ∷ xs) = AllFrom (x + 1) xs × IsSorted xs

abbrev pub Distinct : List ℕ → Type 0
Distinct [] = Unit
Distinct (k ∷ ks) = (contains k ks ≡ false) × Distinct ks

insert_key-AllFrom : (b j : ℕ) (l : List ℕ) → b ≤ j → AllFrom b l → AllFrom b (insert_key j l)
unfolding insert_key
insert_key-AllFrom b j [] le f = (le, tt)
insert_key-AllFrom b j (x ∷ xs) le (from_x, from_xs) = elim (Bool-cases (ltb j x)) [
  | inl e ↦ rw e (le, (from_x, from_xs))
  | inr e ↦ elim (Bool-cases (ltb x j)) [
    | inl e' ↦ rw (e, e') (from_x, insert_key-AllFrom b j xs le from_xs)
    | inr e' ↦ rw (e, e') (from_x, from_xs)
  ]
]

insert_key-IsSorted : (j : ℕ) (l : List ℕ) → IsSorted l → IsSorted (insert_key j l)
unfolding insert_key
insert_key-IsSorted j [] s = (tt, tt)
insert_key-IsSorted j (x ∷ xs) (from_xs, s) = elim (Bool-cases (ltb j x)) [
  | inl e ↦
      let lt : j + 1 ≤ x = omega (arith, ltb→lt j x e) in
      rw e ((lt, AllFrom-le (j + 1) (x + 1) xs (omega arith) from_xs), (from_xs, s))
  | inr e ↦ elim (Bool-cases (ltb x j)) [
    | inl e' ↦
        let lt : x + 1 ≤ j = omega (arith, ltb→lt x j e') in
        rw (e, e') (insert_key-AllFrom (x + 1) j xs lt from_xs, insert_key-IsSorted j xs s)
    | inr e' ↦ rw (e, e') (from_xs, s)
  ]
]

-- Two keys do not disturb each other.
remove_key-insert_key_other :
    (k j : ℕ) (l : List ℕ)
    → (j == k) ≡ false
    → IsSorted l
    → remove_key k (insert_key j l) ≡ insert_key j (remove_key k l)
unfolding remove_key insert_key
remove_key-insert_key_other k j [] ne s = rw ne refl
remove_key-insert_key_other k j (x ∷ xs) ne (from_xs, s) = elim (Bool-cases (x == k)) [
  | inl at ↦ elim (Bool-cases (ltb j x)) [
    | inl e ↦
        let lt = ltb→lt j x e in
        rw (e, ne, at)
          (sym (insert_key-new j [] xs tt (AllFrom-le (j + 1) (x + 1) xs (omega arith) from_xs)))
    | inr e ↦ let e' : ltb x j ≡ true = ground (arith, at, ne, e) in rw (e, e', at) refl
  ]
  | inr other ↦ elim (Bool-cases (ltb j x)) [
    | inl e ↦ rw (e, ne, other, e) refl
    | inr e ↦ elim (Bool-cases (ltb x j)) [
      | inl e' ↦
          rw (e, e', other, e, e') (ap (λ q. x ∷ q) (remove_key-insert_key_other k j xs ne s))
      | inr e' ↦ rw (e, e', other, e, e') refl
    ]
  ]
]

remove_key-insert_keys :
    (k : ℕ) (nodes : List (ℕ × ℕ)) (l : List ℕ)
    → contains k (map (λ n. n.1) nodes) ≡ false
    → IsSorted l
    → remove_key k (insert_keys nodes l) ≡ insert_keys nodes (remove_key k l)
unfolding insert_keys contains
remove_key-insert_keys k [] l new s = refl
remove_key-insert_keys k ((z, j) ∷ nodes) l new s =
    let ne : (j == k) ≡ false = ground (arith, new) in
    let rest : contains k (map (λ n. n.1) nodes) ≡ false = ground (arith, new) in
    remove_key-insert_keys k nodes (insert_key j l) rest (insert_key-IsSorted j l s)
    ∙ ap (insert_keys nodes) (remove_key-insert_key_other k j l ne s)

contains-insert_key_old :
    (k j : ℕ) (l : List ℕ) → contains k l ≡ true → contains k (insert_key j l) ≡ true
unfolding insert_key contains
contains-insert_key_old k j [] there = absurd (cc)
contains-insert_key_old k j (x ∷ xs) there = elim (Bool-cases (x == k)) [
  | inl e ↦ ground (arith, e)
  | inr e ↦
      let rest : contains k xs ≡ true = ground (arith, there, e) in
      ground (arith, contains-insert_key_old k j xs rest)
]

contains-insert_keys :
    (k : ℕ) (nodes : List (ℕ × ℕ)) (l : List ℕ)
    → contains k l ≡ true
    → contains k (insert_keys nodes l) ≡ true
unfolding insert_keys
contains-insert_keys k [] l there = there
contains-insert_keys k ((z, j) ∷ nodes) l there =
    contains-insert_keys k nodes (insert_key j l) (contains-insert_key_old k j l there)

insert_keys-undone :
    (nodes : List (ℕ × ℕ))
    → Distinct (map (λ n. n.1) nodes)
    → Present (map (λ n. n.1) nodes) (insert_keys nodes [])
      × (remove_keys (map (λ n. n.1) nodes) (insert_keys nodes []) ≡ [])
unfolding insert_keys remove_keys contains
insert_keys-undone [] apart = (tt, refl)
insert_keys-undone ((z, k) ∷ nodes) (new, apart) =
    let one = insert_key k [] in
    let (there, gone) = insert_keys-undone nodes apart in
    let same : remove_key k (insert_keys nodes one) ≡ insert_keys nodes [] =
      remove_key-insert_keys k nodes one new (insert_key-IsSorted k [] tt)
      ∙ ap (insert_keys nodes) (remove_key-insert_key k [] refl) in
    (
      (
        contains-insert_keys k nodes one (contains-insert_key k []),
        subst (λ q. Present (map (λ n. n.1) nodes) q) (sym same) there,
      ),
      ap (remove_keys (map (λ n. n.1) nodes)) same ∙ gone,
    )

length-insert_keys :
    (nodes : List (ℕ × ℕ)) (l : List ℕ) → length (insert_keys nodes l) ≤ length nodes + length l
unfolding insert_keys
length-insert_keys [] l = omega arith
length-insert_keys ((z, k) ∷ nodes) l =
    omega (arith, length-insert_keys nodes (insert_key k l), length-insert_key k l)

-- If malloc gives addresses that are not in use, the keys differ and are below a bound, and there
-- are fewer than 2 ^ h - 1 of them, both loops of main run, with 2 h rounds for each loop inside
-- them, without an access to a node that is not allocated or was freed; the second prints after
-- each deletion the sorted list of the keys that are left, and the tree is empty at the end
pub main-emptied :
    (fuel h top_hi nil : ℕ) (nodes : List (ℕ × ℕ)) (m : Memory)
    → Fresh (update m.alive nil true) nodes
    → AllKeysBelow top_hi nodes
    → Distinct (map (λ n. n.1) nodes)
    → length nodes + 1 < 2 ^ h
    → 2 * h ≤ fuel
    → (m₁ : Memory) × (printed : List (List (ℕ × Color))) × (m₂ : Memory) × (insert_all fuel nodes
          (fresh_tree nil m)
        ≡ ok m₁)
      × (delete_all fuel (map (λ n. n.1) nodes) m₁ ≡ ok (printed, m₂))
      × (map (λ out. map (λ e. e.0) out) printed
          ≡ remainders (map (λ n. n.1) nodes) (insert_keys nodes []))
      × Holds m₂ top_hi []
main-emptied fuel h top_hi nil nodes m fresh below apart few enough =
    let ks = map (λ n. n.1) nodes in
    let (m₁, built, holds₁) = main-Holds fuel h top_hi nil nodes m fresh below few enough in
    let (there, gone) = insert_keys-undone nodes apart in
    let (printed, m₂, deleted, ordered, holds₂) =
      delete_all-Holds fuel h top_hi ks m₁ (insert_keys nodes []) holds₁ there
        (omega (arith, length-insert_keys nodes [])) enough in
    (m₁, printed, m₂, built, deleted, ordered, subst (λ q. Holds m₂ top_hi q) gone holds₂)
