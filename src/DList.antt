-- ===== src/DList.antt =====
-- common/dlist.c: a doubly linked list with a cached length. The nodes live in a heap; `struct
-- _DList` lives outside it, so that an operation that updates one returns the new value, and a
-- pointer to it that may be NULL is an `Option`. What `malloc` returns for a node is the argument
-- `fresh`, 0 when it fails. `size_t` has 32 bits, as on the ARM board.
mod Heap
mod Cells
pub mod Positions
pub mod Client
mod Places
pub mod Segment
pub mod Locate
pub mod Insert
pub mod Delete
pub mod Walk
pub mod Access
mod Tests
use wsn_test_platform.Shared.{
  ℕ, zero, suc, ◌+◌, ◌-◌, ◌%◌, ◌^◌, Option, none, some, List, [], ◌∷◌, ◌++◌, Bool, true, false, not,
  ◌&&◌, ◌||◌, Ret, ret_ok, ret_oom, ret_stop, ret_invalid_params, ret_fail, Run, ok, fault,
  out_of_fuel, Cmd, pure, ◌>>=◌, ◌>>◌, ◌==◌, ltb, if◌then◌else◌,
}
use Heap.{load, store, set_prev, set_next, set_item, free, log_destroy}
pub use Heap.{Ptr, null, node, Nodes, Memory, DListNode, update, write}

-- `data_destroy` says whether the callback is set; a call of it is logged in the memory.
pub record DList : Type 0 where
  pub head : Ptr
  pub length : ℕ
  pub data_destroy : Bool

-- `(size_t)-1`
abbrev pub size_max : ℕ
size_max = 0xffff_ffff

abbrev pub is_stop : Ret → Bool
is_stop ret_stop = true
is_stop _ = false

module _ {A : Type 0} where
  pub dlist_node_create : Ptr → A → Cmd (Memory A) Ptr
  dlist_node_create fresh x =
      if fresh == null then pure null else store fresh (some (node null null x)) >> pure fresh

  pub dlist_node_destroy : Bool → Ptr → Cmd (Memory A) (Unit {0})
  unfolding load set_prev set_next free
  dlist_node_destroy data_destroy p = if p == null then pure tt else do
    set_prev p null
    set_next p null
    n ← load p
    if data_destroy then log_destroy n.item else pure tt
    free p

  -- The loop of `dlist_get_node`: the node reached and what is left of the index.
  get_node_loop : ℕ → Ptr → ℕ → Cmd (Memory A) (Ptr × ℕ)
  get_node_loop zero iter index = λ _. out_of_fuel
  get_node_loop (suc k) iter index = do
    n ← load iter
    if not (n.next == null) && ltb 0 index
        then get_node_loop k n.next (index - 1)
        else pure (iter, index)

  -- A list of `length` nodes takes `length` rounds at most.
  pub dlist_get_node : DList → ℕ → Bool → Cmd (Memory A) Ptr
  dlist_get_node l index return_last_if_outrange = do
    (iter, left) ← get_node_loop (l.length + 1) l.head index
    pure (if ltb 0 left && not return_last_if_outrange then null else iter)

  -- What follows the creation of the node; `l` has its length counted up.
  pub insert_node : DList → ℕ → Ptr → Cmd (Memory A) DList
  insert_node l index node = if l.head == null then pure (record l { head = node }) else do
    cursor ← dlist_get_node l index true
    if ltb index l.length
        then (do
          l' ← if l.head == cursor then pure (record l { head = node }) else (do
            c ← load cursor
            set_prev node c.prev
            c ← load cursor
            set_next c.prev node
            pure l)
          set_next node cursor
          set_prev cursor node
          pure l')
        else (do set_next cursor node; set_prev node cursor; pure l)

  pub dlist_insert : Ptr → Option DList → ℕ → A → Cmd (Memory A) (Ret × Option DList)
  dlist_insert fresh none index x = pure (ret_invalid_params, none)
  dlist_insert fresh (some l) index x = do
    node ← dlist_node_create fresh x
    if node == null then pure (ret_oom, some l) else (do
      l' ← insert_node (record l { length = (l.length + 1) % 2 ^ 32 }) index node
      pure (ret_ok, some l'))

  pub dlist_append : Ptr → Option DList → A → Cmd (Memory A) (Ret × Option DList)
  unfolding dlist_insert
  dlist_append fresh l x = dlist_insert fresh l size_max x

  pub dlist_prepend : Ptr → Option DList → A → Cmd (Memory A) (Ret × Option DList)
  unfolding dlist_insert
  dlist_prepend fresh l x = dlist_insert fresh l 0 x

  -- What `dlist_delete` does at a node that it has found.
  pub unlink_node : DList → Ptr → Cmd (Memory A) DList
  unlink_node l cursor = do
    c ← load cursor
    l' ← (if cursor == l.head then pure (record l { head = c.next }) else pure l)
    if not (c.prev == null) then set_next c.prev c.next else pure tt
    c ← load cursor
    if not (c.next == null) then set_prev c.next c.prev else pure tt
    dlist_node_destroy l'.data_destroy cursor
    pure (record l' { length = (l'.length + 2 ^ 32 - 1) % 2 ^ 32 })

  pub dlist_delete : Option DList → ℕ → Cmd (Memory A) (Ret × Option DList)
  dlist_delete none index = pure (ret_invalid_params, none)
  dlist_delete (some l) index = do
    cursor ← dlist_get_node l index false
    l' ← (if not (cursor == null) then unlink_node l cursor else pure l)
    pure (ret_ok, some l')

  pub dlist_set_by_index : Option DList → ℕ → A → Cmd (Memory A) Ret
  dlist_set_by_index none index x = pure ret_invalid_params
  dlist_set_by_index (some l) index x = do
    cursor ← dlist_get_node l index false
    if cursor == null then pure ret_fail else set_item cursor x >> pure ret_ok

  -- The second part is what `*data` holds afterwards, if it was written.
  pub dlist_get_by_index : Option DList → ℕ → Cmd (Memory A) (Ret × Option A)
  dlist_get_by_index none index = pure (ret_invalid_params, none)
  dlist_get_by_index (some l) index = do
    cursor ← dlist_get_node l index false
    if cursor == null
        then pure (ret_fail, none)
        else (do n ← load cursor; pure (ret_ok, some n.item))

  -- `dlist_length` and `dlist_find` do not test `thiz`.
  pub dlist_length : Option DList → Cmd (Memory A) ℕ
  dlist_length none = λ _. fault
  dlist_length (some l) = pure l.length

  find_loop : ℕ → (A → Bool) → ℕ → Ptr → Cmd (Memory A) ℕ
  find_loop zero compare index iter = λ _. out_of_fuel
  find_loop (suc k) compare index iter = if iter == null then pure index else do
    n ← load iter
    if compare n.item then pure index else find_loop k compare (index + 1) n.next

  pub dlist_find : Option DList → (A → Bool) → Cmd (Memory A) ℕ
  dlist_find none compare = λ _. fault
  dlist_find (some l) compare = find_loop (l.length + 1) compare 0 l.head

  -- The callback `visit` acts on a state of its own.
  foreach_loop : {V : Type 0} → ℕ → (A → V → V × Ret) → V → Ret → Ptr → Cmd (Memory A) (V × Ret)
  foreach_loop zero visit v ret iter = λ _. out_of_fuel
  foreach_loop (suc k) visit v ret iter =
      if iter == null || is_stop ret
      then pure (v, ret)
      else (do n ← load iter; let (v', ret') = visit n.item v; foreach_loop k visit v' ret' n.next)

  -- `none` for the list or for the callback is NULL.
  pub dlist_foreach :
      {V : Type 0} → Option DList → Option (A → V → V × Ret) → V → Cmd (Memory A) (V × Ret)
  dlist_foreach none visit v = pure (v, ret_invalid_params)
  dlist_foreach (some l) none v = pure (v, ret_invalid_params)
  dlist_foreach (some l) (some visit) v = foreach_loop (l.length + 1) visit v ret_ok l.head

  destroy_loop : ℕ → Bool → Ptr → Cmd (Memory A) (Unit {0})
  destroy_loop zero data_destroy iter = λ _. out_of_fuel
  destroy_loop (suc k) data_destroy iter = if iter == null then pure tt else do
    n ← load iter
    dlist_node_destroy data_destroy iter
    destroy_loop k data_destroy n.next

  pub dlist_destroy : Option DList → Cmd (Memory A) (Unit {0})
  dlist_destroy none = λ _. fault
  dlist_destroy (some l) = destroy_loop (l.length + 1) l.data_destroy l.head

-- The argument says whether `malloc` gives memory for the list itself.
pub dlist_create : Bool → Bool → Option DList
dlist_create allocated data_destroy =
    if allocated
    then some (record { head = null; length = 0; data_destroy = data_destroy })
    else none
