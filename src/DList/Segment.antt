-- ===== src/DList/Segment.antt =====
-- Doubly linked segments of the heap. `Seg h last after before first xs` is a chain through the
-- nodes `xs` that begins at `first`, whose first node points back to `before`, and which ends at
-- the node `last` with the successor `after`.
use wsn_test_platform.Shared.{
  true, false, ◌||◌, none, some, [], ◌∷◌, ◌++◌, ◌≡◌, ◌≢◌, refl, ◌∙◌, arith, ◌==◌, ok,
}
use wsn_test_platform.DList.Heap.{
  Ptr, null, node, Nodes, Memory, write, load, set_prev, set_next, set_item, free,
}
use wsn_test_platform.DList.Cells.{Cells, has, Distinct}

-- The node at `p` has predecessor `b`, successor `q` and datum `v`.
pub record Points {A : Type 0} (h : Nodes A) (p b q : Ptr) (v : A) : Type 0 where
  pub ne_null : p ≢ null
  pub holds : h p ≡ some (node b q v)

pub data Seg {A : Type 0} (h : Nodes A) (last after : Ptr) : Ptr → Ptr → Cells A → Type 0 where
  nil : Seg h last after last after []
  cons :
      {b p q : Ptr} {v : A} {xs : Cells A}
      → Points h p b q v
      → Seg h last after p q xs
      → Seg h last after b p ((p, v) ∷ xs)

pub not_null :
    {A : Type 0} {h : Nodes A} {p b q : Ptr} {v : A} → Points h p b q v → (p == null) ≡ false
not_null e = let n = e.ne_null in ground arith

module _ {A : Type 0} (m : Memory A) {p b q : Ptr} {v : A} (e : Points m.nodes p b q v) where
  pub load-ok : load p m ≡ ok (node b q v) m
  unfolding load
  load-ok = rw (not_null e, e.holds)

  pub set_prev-ok : (c : Ptr) → set_prev p c m ≡ ok tt (write m p (some (node c q v)))
  unfolding set_prev
  set_prev-ok c = rw load-ok

  pub set_next-ok : (c : Ptr) → set_next p c m ≡ ok tt (write m p (some (node b c v)))
  unfolding set_next
  set_next-ok c = rw load-ok

  pub free-ok : free p m ≡ ok tt (write m p none)
  unfolding free
  free-ok = rw load-ok

  pub set_item-ok : (w : A) → set_item p w m ≡ ok tt (write m p (some (node b q w)))
  unfolding set_item
  set_item-ok w = rw load-ok

module _ {A : Type 0} {h : Nodes A} where
  -- A segment survives any change that spares its own addresses.
  pub Seg-frame :
      {g : Nodes A} {last after b p : Ptr} {xs : Cells A}
      → Seg h last after b p xs
      → ((a : Ptr) → has a xs ≡ true → g a ≡ h a)
      → Seg g last after b p xs
  Seg-frame nil same = nil
  Seg-frame (cons {p} e s) same =
      cons (record { ne_null = e.ne_null; holds = same p (ground arith) ∙ e.holds })
        (Seg-frame s λ a i. same a (ground arith))

  pub not-mem_of_none :
      {last after b p : Ptr} {xs : Cells A} (a : Ptr)
      → Seg h last after b p xs
      → h a ≡ none
      → has a xs ≡ false
  not-mem_of_none a nil unused = refl
  not-mem_of_none a (cons e s) unused = ground (arith, e.holds, not-mem_of_none a s unused)

  pub Seg-append :
      {last after mid m b p : Ptr} {xs ys : Cells A}
      → Seg h mid m b p xs
      → Seg h last after mid m ys
      → Seg h last after b p (xs ++ ys)
  Seg-append nil t = t
  Seg-append (cons e s) t = cons e (Seg-append s t)

  -- The last node of a segment that is not empty is one of its nodes.
  pub has-last :
      {last after b p : Ptr} {xs : Cells A} → Seg h last after b p xs → xs ≢ [] → has last xs ≡ true
  has-last nil ne = absurd (ne refl)
  has-last (cons {q} {xs = []} e s) ne = last_here s
    where
      last_here : {last after p q : Ptr} → Seg h last after p q [] → (last == p || false) ≡ true
      last_here nil = ground arith
  has-last (cons {xs = x ∷ xs} e s) ne = ground (arith, has-last s (cc))

  -- So is the first node, and it is not NULL.
  pub has-first :
      {last after b p : Ptr} {xs : Cells A} → Seg h last after b p xs → xs ≢ [] → has p xs ≡ true
  has-first nil ne = absurd (ne refl)
  has-first (cons e s) ne = ground arith

  pub first-ne-null :
      {last after b p : Ptr} {xs : Cells A}
      → Seg h last after b p xs
      → xs ≢ []
      → (p == null) ≡ false
  first-ne-null nil ne = absurd (ne refl)
  first-ne-null (cons e s) ne = not_null e

  -- No node of a segment is at NULL.
  pub has-ne-null :
      {last after b p : Ptr} {xs : Cells A} (a : Ptr)
      → Seg h last after b p xs
      → has a xs ≡ true
      → (a == null) ≡ false
  has-ne-null a nil i = cc
  has-ne-null a (cons e s) i = let n = e.ne_null in ground (arith, has-ne-null a s)

  pub Seg-last :
      {last after b p : Ptr} {xs : Cells A}
      → Seg h last after b p xs
      → xs ≢ []
      → (c : Ptr) × (v : A) × Points h last c after v
  Seg-last nil ne = absurd (ne refl)
  Seg-last (cons {v} {xs = []} e s) ne = here e s
    where
      here :
          {last after b p q : Ptr} {v : A}
          → Points h p b q v
          → Seg h last after p q []
          → (c : Ptr) × (v : A) × Points h last c after v
      here {b} {v} e nil = (b, v, e)
  Seg-last (cons {xs = x ∷ xs} e s) ne = Seg-last s (cc)

-- The case of one node.
Seg-single :
    {A : Type 0} {h g : Nodes A} {last after after' b p q : Ptr} {v : A}
    → Seg h last after p q []
    → Points h p b q v
    → ((c : Ptr) (w : A) → Points h last c after w → Points g last c after' w)
    → Seg g last after' b p ((p, v) ∷ [])
Seg-single nil e relinked = cons (relinked _ _ e) nil

module _ {A : Type 0} {h g : Nodes A} {last after : Ptr} where
  -- A new successor of the last node.
  pub Seg-relink :
      {b p : Ptr} {xs : Cells A} (after' : Ptr)
      → Seg h last after b p xs
      → Distinct xs
      → xs ≢ []
      → ((c : Ptr) (v : A) → Points h last c after v → Points g last c after' v)
      → ((a : Ptr) → has a xs ≡ true → a ≢ last → g a ≡ h a)
      → Seg g last after' b p xs
  Seg-relink after' nil d ne relinked same = absurd (ne refl)
  Seg-relink after' (cons {v} {xs = []} e s) d ne relinked same = Seg-single s e relinked
  Seg-relink after' (cons {p} {xs = x ∷ xs} e s) d ne relinked same =
      let inside : has last (x ∷ xs) ≡ true = has-last s (cc) in
      cons (record { ne_null = e.ne_null; holds = same p (ground arith) (λ r. cc d.0) ∙ e.holds })
        (Seg-relink after' s d.1 (cc) relinked λ a i. same a (ground arith))

  -- A new predecessor of the first node.
  pub Seg-reprev :
      {b p : Ptr} {xs : Cells A} (b' : Ptr)
      → Seg h last after b p xs
      → Distinct xs
      → xs ≢ []
      → ((q : Ptr) (v : A) → Points h p b q v → Points g p b' q v)
      → ((a : Ptr) → has a xs ≡ true → a ≢ p → g a ≡ h a)
      → Seg g last after b' p xs
  Seg-reprev b' nil d ne moved same = absurd (ne refl)
  Seg-reprev b' (cons {p} e s) d ne moved same =
      cons (moved _ _ e) (Seg-frame s λ a i. same a (ground arith) (λ r. cc d.0))
