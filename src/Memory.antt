-- ===== src/Memory.antt =====
-- The memory that case_studies/pic/src/bag.c works on: chunks at addresses, and commands that read
-- and write them. The types of the chunk and of the bag are those of case_studies/pic/include/bag.h.
pub mod Points
pub mod Returns
pub mod Allocator
use optitrust.Prelude.{
  ℕ, ◌+◌, ◌<◌, ◌≡◌, Bool, Option, none, some, List, [], ◌∷◌, ◌==◌, if◌then◌else◌, get_elem?, set,
}

abbrev pub Ptr : Type 0
Ptr = ℕ

abbrev pub null : Ptr
null = 0

-- `items` is the array of CHUNK_SIZE particles, of which the first `size` are in use.
pub record Chunk (P : Type 0) : Type 0 where
  pub next : Ptr
  pub size : ℕ
  pub items : List P

-- Every write goes to the front, and `none` marks an address that was given back.
abbrev pub Heap : Type 0 → Type 0
Heap P = List (Ptr × Option (Chunk P))

abbrev pub cell : {P : Type 0} → Heap P → Ptr → Option (Chunk P)
cell [] a = none
cell ((p, c) ∷ h) a = if p == a then c else cell h a

-- `pool` is what the allocator of chunks keeps beside the heap.
pub record State (Pool P : Type 0) : Type 0 where
  pub heap : Heap P
  pub pool : Pool

-- `exited` is exit(EXIT_FAILURE), `fault` an access that C leaves undefined.
pub data Run (Pool P A : Type 0) : Type 0 where
  ok : A → State Pool P → Run Pool P A
  exited fault out_of_fuel : Run Pool P A

abbrev pub Cmd : Type 0 → Type 0 → Type 0 → Type 0
Cmd Pool P A = State Pool P → Run Pool P A

module _ {Pool P : Type 0} where
  abbrev pub pure : {A : Type 0} → A → Cmd Pool P A
  pure a st = ok a st

  abbrev pub and_then : {A B : Type 0} → Run Pool P A → (A → Cmd Pool P B) → Run Pool P B
  and_then (ok a st) k = k a st
  and_then exited k = exited
  and_then fault k = fault
  and_then out_of_fuel k = out_of_fuel

  infixl 5 ◌>>=◌ ◌>>◌
  abbrev pub ◌>>=◌ : {A B : Type 0} → Cmd Pool P A → (A → Cmd Pool P B) → Cmd Pool P B
  m >>= k = λ st. and_then (m st) k

  abbrev pub ◌>>◌ : {B : Type 0} → Cmd Pool P (Unit {0}) → Cmd Pool P B → Cmd Pool P B
  m >> n = m >>= λ _. n

  abbrev pub write : State Pool P → Ptr → Option (Chunk P) → State Pool P
  write st p c = record st { heap = (p, c) ∷ st.heap }

  -- `*p`, a fault at `NULL` and at an address that holds no chunk
  unfoldable pub load : Ptr → Cmd Pool P (Chunk P)
  load p st = if p == null then fault else elim (cell st.heap p) [ none ↦ fault | some c ↦ ok c st ]

  abbrev store : Ptr → Chunk P → Cmd Pool P (Unit {0})
  store p c st = ok tt (write st p (some c))

  -- `p->next = q`
  unfoldable pub set_next : Ptr → Ptr → Cmd Pool P (Unit {0})
  set_next p q = do c ← load p; store p (record c { next = q })

  -- `p->size = n`
  unfoldable pub set_size : Ptr → ℕ → Cmd Pool P (Unit {0})
  set_size p n = do c ← load p; store p (record c { size = n })

  abbrev pub or_fault : {A : Type 0} → Option A → Cmd Pool P A
  or_fault none st = fault
  or_fault (some x) st = ok x st

  -- `p->items[i]`, a fault outside the array
  unfoldable pub get_item : Ptr → ℕ → Cmd Pool P P
  get_item p i = do c ← load p; or_fault (get_elem? c.items i)

  -- `p->items[i] = x`
  unfoldable pub set_item : Ptr → ℕ → P → Cmd Pool P (Unit {0})
  set_item p i x = do
    c ← load p
    _ ← or_fault (get_elem? c.items i)
    store p (record c { items = set c.items i x })
