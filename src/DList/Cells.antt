-- ===== src/DList/Cells.antt =====
-- What a linked list stands for: the address and the datum of each node, in order.
use mathlib.Core.Bool.{or_assoc}
use wsn_test_platform.Shared.{
  Bool, true, false, ◌||◌, List, [], ◌∷◌, ◌++◌, ◌≡◌, refl, arith, ◌==◌, Bool-cases, inl, inr,
}
use wsn_test_platform.DList.Heap.{Ptr}

abbrev pub Cells : Type 0 → Type 0
Cells A = List (Ptr × A)

module _ {A : Type 0} where
  abbrev pub has : Ptr → Cells A → Bool
  has a [] = false
  has a ((p, _) ∷ xs) = a == p || has a xs

  abbrev pub Distinct : Cells A → Type 0
  Distinct [] = Unit
  Distinct ((p, _) ∷ xs) = (has p xs ≡ false) × Distinct xs

  pub has-append : (a : Ptr) (xs ys : Cells A) → has a (xs ++ ys) ≡ (has a xs || has a ys)
  has-append a [] ys = refl
  has-append a (x ∷ xs) ys = rw (has-append a xs ys, or_assoc)

  pub Distinct-append_left : (xs ys : Cells A) → Distinct (xs ++ ys) → Distinct xs
  Distinct-append_left [] ys d = tt
  Distinct-append_left ((p, v) ∷ xs) ys d =
      (ground (arith, has-append p xs ys, d.0), Distinct-append_left xs ys d.1)

  pub Distinct-append_right : (xs ys : Cells A) → Distinct (xs ++ ys) → Distinct ys
  Distinct-append_right [] ys d = d
  Distinct-append_right (x ∷ xs) ys d = Distinct-append_right xs ys d.1

  -- No address stands on both sides.
  pub Distinct-apart :
      (a : Ptr) (xs ys : Cells A) → Distinct (xs ++ ys) → has a xs ≡ true → has a ys ≡ false
  Distinct-apart a ((p, v) ∷ xs) ys d h =
      ground (arith, has-append p xs ys, Distinct-apart a xs ys, d)
  Distinct-apart a [] ys d h = cc

  pub Distinct-insert :
      (xs ys : Cells A) (n : Ptr) (v : A)
      → Distinct (xs ++ ys)
      → has n (xs ++ ys) ≡ false
      → Distinct (xs ++ ((n, v) ∷ ys))
  Distinct-insert [] ys n v d h = (h, d)
  Distinct-insert ((p, w) ∷ xs) ys n v d h = (
    ground (arith, has-append p xs ((n, v) ∷ ys), has-append p xs ys, d.0),
    Distinct-insert xs ys n v d.1 (ground arith),
  )

  pub Distinct-delete :
      (xs ys : Cells A) (n : Ptr) (v : A) → Distinct (xs ++ ((n, v) ∷ ys)) → Distinct (xs ++ ys)
  Distinct-delete [] ys n v d = d.1
  Distinct-delete ((p, w) ∷ xs) ys n v d = (
    ground (arith, has-append p xs ((n, v) ∷ ys), has-append p xs ys, d.0),
    Distinct-delete xs ys n v d.1,
  )

  -- An address on the list is none that is not.
  pub differ : (a p : Ptr) (xs : Cells A) → has a xs ≡ true → has p xs ≡ false → (a == p) ≡ false
  differ a p xs h k = elim (Bool-cases (a == p)) [
    | inl e ↦ let e' : a ≡ p = ground arith in cc (rw e' at h)
    | inr e ↦ e
  ]
