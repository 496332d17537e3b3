-- ===== src/DList/Heap.antt =====
-- The heap of list nodes of common/dlist.c. A pointer is an address, NULL is 0, and an access to
-- NULL or to an address that holds no node is a fault.
use wsn_test_platform.Shared.{
  ℕ, Option, none, some, List, [], ◌∷◌, ◌++◌, ok, fault, Cmd, ◌>>=◌, ◌>>◌, ◌==◌, if◌then◌else◌,
}

abbrev pub Ptr : Type 0
Ptr = ℕ

abbrev pub null : Ptr
null = 0

pub record DListNode (A : Type 0) : Type 0 where
  pub prev : Ptr
  pub next : Ptr
  pub item : A

abbrev pub node : {A : Type 0} → Ptr → Ptr → A → DListNode A
node b q x = record { prev = b; next = q; item = x }

abbrev pub Nodes : Type 0 → Type 0
Nodes A = Ptr → Option (DListNode A)

-- `destroyed` lists the data handed to the destroy callback, the oldest first.
pub record Memory (A : Type 0) : Type 0 where
  pub nodes : Nodes A
  pub destroyed : List A

module _ {A : Type 0} where
  abbrev pub update : Nodes A → Ptr → Option (DListNode A) → Nodes A
  update h p c a = if a == p then c else h a

  abbrev pub write : Memory A → Ptr → Option (DListNode A) → Memory A
  write m p c = record m { nodes = update m.nodes p c }

  abbrev pub store : Ptr → Option (DListNode A) → Cmd (Memory A) (Unit {0})
  store p c m = ok tt (write m p c)

  unfoldable pub load : Ptr → Cmd (Memory A) (DListNode A)
  load p m = if p == null then fault else elim (m.nodes p) [ none ↦ fault | some n ↦ ok n m ]

  unfoldable pub set_prev : Ptr → Ptr → Cmd (Memory A) (Unit {0})
  set_prev p b = do n ← load p; store p (some (record n { prev = b }))

  unfoldable pub set_next : Ptr → Ptr → Cmd (Memory A) (Unit {0})
  set_next p q = do n ← load p; store p (some (record n { next = q }))

  unfoldable pub set_item : Ptr → A → Cmd (Memory A) (Unit {0})
  set_item p x = do n ← load p; store p (some (record n { item = x }))

  unfoldable pub free : Ptr → Cmd (Memory A) (Unit {0})
  free p = load p >> store p none

  abbrev pub log_destroy : A → Cmd (Memory A) (Unit {0})
  log_destroy x m = ok tt (record m { destroyed = m.destroyed ++ (x ∷ []) })
