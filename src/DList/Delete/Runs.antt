-- ===== src/DList/Delete/Runs.antt =====
-- The writes of `dlist_delete` at the node `c`.
use wsn_test_platform.Shared.{
  ◌+◌, ◌-◌, ◌%◌, ◌^◌, Bool, true, false, not, Option, none, some, List, [], ◌∷◌, ◌++◌, ◌≡◌, ◌≢◌,
  ◌⊎◌, inl, inr, refl, ap, ◌∙◌, arith, ◌==◌, if◌then◌else◌, Bool-cases, ok, pure,
}
use wsn_test_platform.DList.{DList, unlink_node, dlist_node_destroy}
use wsn_test_platform.DList.Heap.{
  Ptr, null, node, DListNode, Nodes, Memory, write, set_prev, set_next, log_destroy,
}
use wsn_test_platform.DList.Segment.{Points, not_null, load-ok, set_prev-ok, set_next-ok, free-ok}

-- The memory `g` is `m` but for the node at `p`, and no datum was destroyed in between.
pub record OnlyAt {A : Type 0} (p : Ptr) (c : Option (DListNode A)) (m g : Memory A) : Type 0 where
  pub at : g.nodes p ≡ c
  pub off : (a : Ptr) → (a == p) ≡ false → g.nodes a ≡ m.nodes a

-- What the destroy callback has been given after a node with the datum `v` is destroyed.
abbrev pub destroyed_with : {A : Type 0} → Bool → List A → A → List A
destroyed_with d vs v = if d then vs ++ (v ∷ []) else vs

module _ {A : Type 0} (m : Memory A) {b c q : Ptr} {v : A} (e : Points m.nodes c b q v) where
  pub dlist_node_destroy-run :
      (d : Bool)
      → (g : Memory A) × (dlist_node_destroy d c m ≡ ok tt g)
        × OnlyAt c none m g
        × (g.destroyed ≡ destroyed_with d m.destroyed v)
  unfolding dlist_node_destroy
  dlist_node_destroy-run d =
      let m₁ = write m c (some (node null q v)) in
      let m₂ = write m₁ c (some (node null null v)) in
      let m₃ = record m₂ { destroyed = destroyed_with d m.destroyed v } in
      let e₁ : Points m₁.nodes c null q v = record { ne_null = e.ne_null; holds = ground arith } in
      let e₂ : Points m₂.nodes c null null v = record {
        ne_null = e.ne_null;
        holds = ground arith;
      } in
      let e₃ : Points m₃.nodes c null null v = record {
        ne_null = e.ne_null;
        holds = ground arith;
      } in
      let logged : (if d then log_destroy v else pure tt) m₂ ≡ ok tt m₃ =
        elim d
          as (λ d'.
            (if d' then log_destroy v else pure tt) m₂
            ≡ ok tt (record m₂ { destroyed = destroyed_with d' m.destroyed v })) [
              | true ↦ refl
              | false ↦ refl
            ] in
      (
        write m₃ c none,
        rw (
          not_null e,
          set_prev-ok m e null,
          set_next-ok m₁ e₁ null,
          load-ok m₂ e₂,
          logged,
          free-ok m₃ e₃,
        ),
        record { at = ground arith; off = λ a n. ground arith },
        refl,
      )

-- The neighbours of the node `c`: NULL, or nodes that point to it.
abbrev pub Before : {A : Type 0} → Nodes A → Ptr → Ptr → Type 0
Before {A} h b c = (b ≡ null) ⊎ ((b' : Ptr) × (w : A) × Points h b b' c w)

abbrev pub Behind : {A : Type 0} → Nodes A → Ptr → Ptr → Type 0
Behind {A} h q c = (q ≡ null) ⊎ ((q' : Ptr) × (u : A) × Points h q c q' u)

-- `g` is `m` with the node before `c` linked to `q`, and with the node behind `c` linked to `b`.
pub record Bypassed {A : Type 0} (m : Memory A) (b c q : Ptr) (g : Memory A) : Type 0 where
  pub next : (b' : Ptr) (w : A) → Points m.nodes b b' c w → g.nodes b ≡ some (node b' q w)
  pub prev : (q' : Ptr) (u : A) → Points m.nodes q c q' u → g.nodes q ≡ some (node b q' u)
  pub off : (a : Ptr) → (a == b) ≡ false → (a == q) ≡ false → g.nodes a ≡ m.nodes a
  pub kept : g.destroyed ≡ m.destroyed

module _ {A : Type 0} (m : Memory A) (b c q : Ptr) where
  link_next :
      Before m.nodes b c
      → (g : Memory A) × ((if not (b == null) then set_next b q else pure tt) m ≡ ok tt g)
        × (g.destroyed ≡ m.destroyed)
        × ((b' : Ptr) (w : A) → Points m.nodes b b' c w → g.nodes b ≡ some (node b' q w))
        × ((a : Ptr) → (a == b) ≡ false → g.nodes a ≡ m.nodes a)
  link_next (inl e) = (m, rw e, refl, λ b' w d. absurd (d.ne_null e), λ a n. refl)
  link_next (inr (b', w, d)) = (
    write m b (some (node b' q w)),
    rw (not_null d, set_next-ok m d q),
    refl,
    λ b'' w' d'. ground (arith, d.holds, d'.holds),
    λ a n. ground arith,
  )

  link_prev :
      Behind m.nodes q c
      → (g : Memory A) × ((if not (q == null) then set_prev q b else pure tt) m ≡ ok tt g)
        × (g.destroyed ≡ m.destroyed)
        × ((q' : Ptr) (u : A) → Points m.nodes q c q' u → g.nodes q ≡ some (node b q' u))
        × ((a : Ptr) → (a == q) ≡ false → g.nodes a ≡ m.nodes a)
  link_prev (inl e) = (m, rw e, refl, λ q' u d. absurd (d.ne_null e), λ a n. refl)
  link_prev (inr (q', u, d)) = (
    write m q (some (node b q' u)),
    rw (not_null d, set_prev-ok m d b),
    refl,
    λ q'' u' d'. ground (arith, d.holds, d'.holds),
    λ a n. ground arith,
  )

-- The header after a node was taken away whose successor was `q`.
abbrev pub shortened : DList → Ptr → Ptr → DList
shortened l c q = record l {
  head = if c == l.head then q else l.head;
  length = (l.length + 2 ^ 32 - 1) % 2 ^ 32;
}

-- What `unlink_node` makes of the memory.
pub record Unlinked {A : Type 0} (m : Memory A) (l : DList) (b c q : Ptr) (v : A) : Type 0 where
  pub bypassed : Memory A
  pub after : Memory A
  pub runs : unlink_node l c m ≡ ok (shortened l c q) after
  pub links : Bypassed m b c q bypassed
  pub gone : OnlyAt c none bypassed after
  pub logged : after.destroyed ≡ destroyed_with l.data_destroy m.destroyed v

module _ {A : Type 0} (m : Memory A) {b c q : Ptr} where
  -- A neighbour behind `c` is still one after the node at `b` has changed.
  Behind-kept :
      (m₁ : Memory A)
      → Behind m.nodes q c
      → ((b == q) ≡ false) ⊎ (b ≡ null)
      → ((a : Ptr) → (a == b) ≡ false → m₁.nodes a ≡ m.nodes a)
      → Behind m₁.nodes q c
  Behind-kept m₁ (inl e) bq off = inl e
  Behind-kept m₁ (inr (q', u, d)) bq off =
      inr (q', u, record { ne_null = d.ne_null; holds = off q (apart d.ne_null bq) ∙ d.holds })
    where
      apart : q ≢ null → ((b == q) ≡ false) ⊎ (b ≡ null) → (q == b) ≡ false
      apart n (inl e) = ground arith
      apart n (inr e) = ground arith

  links-Bypassed :
      (m₁ m₂ : Memory A)
      → Behind m.nodes q c
      → ((b == q) ≡ false) ⊎ (b ≡ null)
      → (m₁.destroyed ≡ m.destroyed)
      → ((b' : Ptr) (w : A) → Points m.nodes b b' c w → m₁.nodes b ≡ some (node b' q w))
      → ((a : Ptr) → (a == b) ≡ false → m₁.nodes a ≡ m.nodes a)
      → (m₂.destroyed ≡ m₁.destroyed)
      → ((q' : Ptr) (u : A) → Points m₁.nodes q c q' u → m₂.nodes q ≡ some (node b q' u))
      → ((a : Ptr) → (a == q) ≡ false → m₂.nodes a ≡ m₁.nodes a)
      → Bypassed m b c q m₂
  links-Bypassed m₁ m₂ pq bq kept₁ on₁ off₁ kept₂ on₂ off₂ = record {
    next = λ b' w d. off₂ b (left d.ne_null bq) ∙ on₁ b' w d;
    prev = λ q' u d.
        on₂ q' u (record { ne_null = d.ne_null; holds = off₁ q (right d.ne_null bq) ∙ d.holds });
    off = λ a n₁ n₂. off₂ a n₂ ∙ off₁ a n₁;
    kept = kept₂ ∙ kept₁;
  }
    where
      left : b ≢ null → ((b == q) ≡ false) ⊎ (b ≡ null) → (b == q) ≡ false
      left n (inl e) = e
      left n (inr e) = absurd (n e)

      right : q ≢ null → ((b == q) ≡ false) ⊎ (b ≡ null) → (q == b) ≡ false
      right n (inl e) = ground arith
      right n (inr e) = ground arith

module _ {A : Type 0} (m : Memory A) (l : DList) {b c q : Ptr} {v : A} where
  assemble :
      (m₁ m₂ m₃ : Memory A)
      → Points m.nodes c b q v
      → Points m₁.nodes c b q v
      → (if not (b == null) then set_next b q else pure tt) m ≡ ok tt m₁
      → (if not (q == null) then set_prev q b else pure tt) m₁ ≡ ok tt m₂
      → dlist_node_destroy l.data_destroy c m₂ ≡ ok tt m₃
      → unlink_node l c m ≡ ok (shortened l c q) m₃
  unfolding unlink_node
  assemble m₁ m₂ m₃ e e₁ run₁ run₂ run₃ = elim (Bool-cases (c == l.head)) [
    | inl first ↦ rw (load-ok m e, first, run₁, load-ok m₁ e₁, run₂, run₃)
    | inr later ↦ rw (load-ok m e, later, run₁, load-ok m₁ e₁, run₂, run₃)
  ]

  pub unlink_node-Unlinked :
      Points m.nodes c b q v
      → Before m.nodes b c
      → Behind m.nodes q c
      → (c == b) ≡ false
      → (c == q) ≡ false
      → ((b == q) ≡ false) ⊎ (b ≡ null)
      → Unlinked m l b c q v
  unlink_node-Unlinked e pb pq cb cq bq =
      let (m₁, run₁, kept₁, on₁, off₁) = link_next m b c q pb in
      let e₁ : Points m₁.nodes c b q v = record {
        ne_null = e.ne_null;
        holds = off₁ c cb ∙ e.holds;
      } in
      let (m₂, run₂, kept₂, on₂, off₂) = link_prev m₁ b c q (Behind-kept m m₁ pq bq off₁) in
      let e₂ : Points m₂.nodes c b q v = record {
        ne_null = e.ne_null;
        holds = off₂ c cq ∙ e₁.holds;
      } in
      let (m₃, run₃, gone, logged) = dlist_node_destroy-run m₂ e₂ l.data_destroy in
      record {
        bypassed = m₂;
        after = m₃;
        runs = assemble m₁ m₂ m₃ e e₁ run₁ run₂ run₃;
        links = links-Bypassed m m₁ m₂ pq bq kept₁ on₁ off₁ kept₂ on₂ off₂;
        gone = gone;
        logged = logged ∙ ap (λ vs. destroyed_with l.data_destroy vs v) (kept₂ ∙ kept₁);
      }
