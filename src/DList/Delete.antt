-- ===== src/DList/Delete.antt =====
-- `dlist_delete`: the list afterwards.
pub mod Runs
mod Links
use wsn_test_platform.Shared.{
  ℕ, ◌+◌, ◌≤◌, ◌<◌, Bool, true, false, not, Option, none, some, List, [], ◌∷◌, ◌++◌, ◌≡◌, ◌≢◌, ◌⊎◌,
  inl, inr, refl, sym, ap, subst, ◌∙◌, arith, ◌==◌, ltb, if◌then◌else◌, length, length-append,
  get_elem?, get_elem?-append_length, get_elem?_past, Bool-cases, fault, ok, Returns, returns, Ret,
  ret_ok,
}
use native.Mathlib.Decide.{dec_lt}
use wsn_test_platform.DList.{DList, dlist_delete, size_max}
use wsn_test_platform.DList.Heap.{Ptr, null, Memory}
use wsn_test_platform.DList.Cells.{Cells, has, Distinct}
use wsn_test_platform.DList.Segment.{Seg, not_null}
use wsn_test_platform.DList.Locate.{
  IsList, Located, Seg-ends, dlist_get_node-found, dlist_get_node-none, dlist_get_node-empty,
}
use wsn_test_platform.DList.Positions.{delete_at, delete_at_past}
use wsn_test_platform.DList.Places.{Located-get_elem?, Located-delete_at}
use wsn_test_platform.DList.Delete.Runs.{destroyed_with}
use wsn_test_platform.DList.Delete.Links.{Deleted, unlink_node-Deleted}

-- What is known of the memory `g` after the element `gone`, if there is one, was deleted.
abbrev pub Gone : {A : Type 0} → Bool → Memory A → Option (Ptr × A) → Memory A → Type 0
Gone d m none g = g ≡ m
Gone d m (some (p, v)) g = (g.nodes p ≡ none) × (g.destroyed ≡ destroyed_with d m.destroyed v)

-- What `dlist_delete` makes of a list.
pub record DeleteOk {A : Type 0} (m : Memory A) (l : DList) (index : ℕ) (xs : Cells A)
    (out : Ret × Option DList) (g : Memory A) : Type 0 where
  pub result : out.0 ≡ ret_ok
  pub header : DList
  pub header_eq : out.1 ≡ some header
  pub list : IsList g header (delete_at index xs)
  pub gone : Gone l.data_destroy m (get_elem? xs index) g
  pub same : (a : Ptr) → has a xs ≡ false → (a == null) ≡ false → g.nodes a ≡ m.nodes a

module _ {A : Type 0} {m : Memory A} {l : DList} {xs : Cells A} (index : ℕ) where
  delete_inside :
      IsList m l xs
      → length xs ≤ size_max
      → index < length xs
      → Returns (DeleteOk m l index xs) (dlist_delete (some l) index m)
  unfolding dlist_delete
  delete_inside is fits inside =
      let (c, w, found) =
        dlist_get_node-found m l index is.chain inside (omega (arith, is.counted)) in
      let grown = ap length w.splits ∙ length-append w.front ((c, w.v) ∷ w.back) in
      let d =
        unlink_node-Deleted m l w.front w.back w.before w.here w.behind
          (subst Distinct w.splits is.distinct) (omega (arith, grown, is.counted))
          (omega (arith, is.counted)) in
      let cn : (c == null) ≡ false = not_null w.here in
      rw (found, cn, d.runs)
        (returns (record {
          result = refl;
          header = d.header;
          header_eq = refl;
          list = subst (IsList d.after d.header) (Located-delete_at w) d.list;
          gone =
              subst (λ o. Gone l.data_destroy m o d.after) (sym (Located-get_elem? w))
                (d.freed, d.logged);
          same = λ a o n. d.same a (subst (λ ys. has a ys ≡ false) w.splits o) n;
        }))

  delete_outside :
      IsList m l xs
      → xs ≢ []
      → length xs ≤ index
      → Returns (DeleteOk m l index xs) (dlist_delete (some l) index m)
  unfolding dlist_delete
  delete_outside is ne outside =
      rw (dlist_get_node-none m l index is.chain ne outside (omega (arith, is.counted))) (
        returns (record {
          result = refl;
          header = l;
          header_eq = refl;
          list = rw (delete_at_past index xs outside) is;
          gone = rw (get_elem?_past xs index outside) refl;
          same = λ a o n. refl;
        }))

  -- On a list with elements, fewer than 2 ^ 32, `dlist_delete` succeeds, takes the element at the index out of the
  -- list, frees its node and hands its datum to the destroy callback if one is set; past the end it
  -- changes nothing. No other node is touched.
  pub dlist_delete-IsList :
      IsList m l xs
      → xs ≢ []
      → length xs ≤ size_max
      → Returns (DeleteOk m l index xs) (dlist_delete (some l) index m)
  dlist_delete-IsList is ne fits = elim (dec_lt index (length xs)) [
    | yes inside ↦ delete_inside is fits inside
    | no outside ↦ delete_outside is ne (omega arith)
  ]

-- On an empty list `dlist_delete` reads through a NULL head, whatever the index.
pub dlist_delete_empty :
    {A : Type 0} {m : Memory A} {l : DList} (index : ℕ)
    → IsList m l []
    → dlist_delete (some l) index m ≡ fault
unfolding dlist_delete
dlist_delete_empty {m} {l} index is = rw (dlist_get_node-empty m l index false (Seg-ends is.chain))
