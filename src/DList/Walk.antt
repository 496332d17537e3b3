-- ===== src/DList/Walk.antt =====
-- The operations that walk the list from its head: `dlist_find`, `dlist_foreach`, `dlist_destroy`.
use wsn_test_platform.Shared.{
  ℕ, zero, suc, ◌+◌, ◌<◌, Bool, true, false, none, some, List, [], ◌∷◌, ◌≡◌, refl, ap, ◌∙◌, arith,
  if◌then◌else◌, length, Bool-cases, inl, inr, ok, Returns, returns, Returns-mono, Ret, ret_ok,
}
use wsn_test_platform.DList.{
  DList, is_stop, find_loop, dlist_find, foreach_loop, dlist_foreach, destroy_loop, dlist_destroy,
}
use wsn_test_platform.DList.Heap.{Ptr, null, Memory}
use wsn_test_platform.DList.Cells.{Cells, has, Distinct, differ}
use wsn_test_platform.DList.Segment.{Seg, nil, cons, not_null, load-ok, Seg-frame}
use wsn_test_platform.DList.Locate.{IsList}
use wsn_test_platform.DList.Delete.Runs.{destroyed_with, dlist_node_destroy-run}

module _ {A : Type 0} where
  -- The position of the first datum that `compare` accepts, or the length if there is none.
  abbrev pub find_index : (A → Bool) → Cells A → ℕ
  find_index compare [] = 0
  find_index compare ((p, v) ∷ xs) = if compare v then 0 else suc (find_index compare xs)

  -- The data are visited in order until the callback answers RET_STOP; the last answer is returned.
  abbrev pub visit_all : {V : Type 0} → (A → V → V × Ret) → V → Ret → Cells A → V × Ret
  visit_all visit v ret [] = (v, ret)
  visit_all visit v ret ((p, x) ∷ xs) =
      if is_stop ret then (v, ret) else visit_all visit (visit x v).0 (visit x v).1 xs

  -- What the destroy callback has been given after all data were destroyed.
  abbrev pub destroyed_all : Bool → List A → Cells A → List A
  destroyed_all d vs [] = vs
  destroyed_all d vs ((p, v) ∷ xs) = destroyed_all d (destroyed_with d vs v) xs

module _ {A : Type 0} {m : Memory A} {last z : Ptr} where
  find_loop-Seg :
      (k : ℕ) (compare : A → Bool) (index : ℕ) {b p : Ptr} {xs : Cells A}
      → z ≡ null
      → Seg m.nodes last z b p xs
      → length xs < k
      → find_loop k compare index p m ≡ ok (index + find_index compare xs) m
  unfolding find_loop
  find_loop-Seg zero compare index e s fuel = absurd (omega arith)
  find_loop-Seg (suc k) compare index e nil fuel = rw e (ap (λ n. ok n m) (omega arith))
  find_loop-Seg (suc k) compare index e (cons {v} {xs} d s) fuel =
      rw (not_null d, load-ok m d)
        (elim (Bool-cases (compare v)) [
          | inl hit ↦ rw hit (ap (λ n. ok n m) (omega arith))
          | inr miss ↦ rw miss (
              find_loop-Seg k compare (index + 1) e s (omega arith)
              ∙ ap (λ n. ok n m) (omega arith))
        ])

  foreach_loop-Seg :
      {V : Type 0} (k : ℕ) (visit : A → V → V × Ret) (v : V) (ret : Ret) {b p : Ptr} {xs : Cells A}
      → z ≡ null
      → Seg m.nodes last z b p xs
      → length xs < k
      → foreach_loop k visit v ret p m ≡ ok (visit_all visit v ret xs) m
  unfolding foreach_loop
  foreach_loop-Seg zero visit v ret e s fuel = absurd (omega arith)
  foreach_loop-Seg (suc k) visit v ret e nil fuel = rw e
  foreach_loop-Seg (suc k) visit v ret e (cons {v = x} d s) fuel =
      rw (not_null d) (elim (Bool-cases (is_stop ret)) [
        | inl stop ↦ rw stop
        | inr go ↦
            rw (go, load-ok m d)
              (foreach_loop-Seg k visit (visit x v).0 (visit x v).1 e s (omega arith))
      ])

-- What `destroy_loop` leaves: no node of the list, the other nodes as they were, and every datum
-- handed to the callback in order.
pub record Emptied {A : Type 0} (d : Bool) (m : Memory A) (xs : Cells A) (g : Memory A)
    : Type 0 where
  pub freed : (a : Ptr) → has a xs ≡ true → g.nodes a ≡ none
  pub same : (a : Ptr) → has a xs ≡ false → g.nodes a ≡ m.nodes a
  pub logged : g.destroyed ≡ destroyed_all d m.destroyed xs

module _ {A : Type 0} {last z : Ptr} (d : Bool) where
  destroy_loop-Emptied :
      (k : ℕ) (m : Memory A) {b p : Ptr} {xs : Cells A}
      → z ≡ null
      → Seg m.nodes last z b p xs
      → Distinct xs
      → length xs < k
      → Returns (λ _ g. Emptied d m xs g) (destroy_loop k d p m)
  unfolding destroy_loop
  destroy_loop-Emptied zero m e s dist fuel = absurd (omega arith)
  destroy_loop-Emptied (suc k) m e nil dist fuel =
      rw e (returns (record { freed = λ a i. cc; same = λ a o. refl; logged = refl }))
  destroy_loop-Emptied (suc k) m e (cons {p} {xs} pt s) dist fuel =
      let (g, run, gone, logged) = dlist_node_destroy-run m pt d in
      rw (not_null pt, load-ok m pt, run)
        (Returns-mono
          (destroy_loop-Emptied k g e (Seg-frame s λ a i. gone.off a (differ a p xs i dist.0))
            dist.1 (omega arith))
          λ u g' em. record {
            freed = λ a i. ground (arith, em.freed a, em.same a, gone.at);
            same = λ a o. em.same a (ground arith) ∙ gone.off a (ground arith);
            logged = em.logged ∙ ap (λ vs. destroyed_all d vs xs) logged;
          })

module _ {A : Type 0} {m : Memory A} {l : DList} {xs : Cells A} where
  -- `dlist_find` gives the position of the first datum that the callback accepts, or the length of
  -- the list if it accepts none, and writes nothing.
  pub dlist_find-find_index :
      (compare : A → Bool)
      → IsList m l xs
      → dlist_find (some l) compare m ≡ ok (find_index compare xs) m
  unfolding dlist_find
  dlist_find-find_index compare is =
      find_loop-Seg (l.length + 1) compare 0 refl is.chain (omega (arith, is.counted))
      ∙ ap (λ n. ok n m) (omega arith)

  -- `dlist_foreach` visits the data in order up to the first RET_STOP, and writes nothing itself.
  pub dlist_foreach-visit_all :
      {V : Type 0} (visit : A → V → V × Ret) (v : V)
      → IsList m l xs
      → dlist_foreach (some l) (some visit) v m ≡ ok (visit_all visit v ret_ok xs) m
  unfolding dlist_foreach
  dlist_foreach-visit_all visit v is =
      foreach_loop-Seg (l.length + 1) visit v ret_ok refl is.chain (omega (arith, is.counted))

  -- `dlist_destroy` frees every node of the list and no other, and hands every datum to the destroy
  -- callback, in order, if one is set.
  pub dlist_destroy-Emptied :
      IsList m l xs → Returns (λ _ g. Emptied l.data_destroy m xs g) (dlist_destroy (some l) m)
  unfolding dlist_destroy
  dlist_destroy-Emptied is =
      destroy_loop-Emptied l.data_destroy (l.length + 1) m refl is.chain is.distinct
        (omega (arith, is.counted))
