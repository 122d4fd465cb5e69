-- ===== src/Bag.antt =====
-- case_studies/pic/src/bag.c: bags of particles, each a chain of chunks. A `bag*` parameter that the
-- function updates is returned. CHUNK_SIZE is `capacity`; each `while` loop runs on fuel.
pub mod Chain
pub mod Shape
pub mod Init
pub mod Push
pub mod Append
pub mod Walk
pub mod Iterate
use optitrust.Prelude.{
  ℕ, zero, suc, ◌+◌, ◌-◌, ◌^◌, Bool, true, false, ◌||◌, Option, none, some, ◌==◌, ltb,
  if◌then◌else◌,
}
use optitrust.Memory.{
  Ptr, null, Chunk, State, Run, Cmd, fault, out_of_fuel, pure, ◌>>=◌, ◌>>◌, load, set_next,
  set_size, get_item, set_item,
}
use optitrust.Memory.Allocator.{Allocator}

pub record Bag : Type 0 where
  pub front : Ptr
  pub back : Ptr

-- `bag_iter`; its field `iter_chunk` may be left pointing at a chunk that was freed.
pub record Iter : Type 0 where
  pub destructive : Bool
  pub iter_chunk : Ptr
  pub size : ℕ
  pub index : ℕ

-- The `particle*` that points at `p->items[i]`.
pub record Item : Type 0 where
  pub chunk : Ptr
  pub index : ℕ

pub bag_nullify : Bag
bag_nullify = record { front = null; back = null }

unfoldable pub bag_swap : Bag → Bag → Bag × Bag
bag_swap b1 b2 = (b2, b1)

-- `&(it->iter_chunk->items[it->index])`
abbrev pub bag_iter_item : Iter → Item
bag_iter_item it = record { chunk = it.iter_chunk; index = it.index }

-- `int` addition, which C leaves undefined past INT_MAX
abbrev pub int_add : {Pool P : Type 0} → ℕ → ℕ → Cmd Pool P ℕ
int_add a b = if ltb (a + b) (2 ^ 31) then pure (a + b) else λ _. fault

module _ {Pool P : Type 0} (A : Allocator Pool P) (capacity : ℕ) where
  pub bag_init_using : Ptr → Cmd Pool P Bag
  bag_init_using c = do set_size c 0; set_next c null; pure (record { front = c; back = c })

  pub bag_init : Cmd Pool P Bag
  bag_init = do c ← A.alloc; bag_init_using c

  pub bag_append : Bag → Bag → Cmd Pool P (Bag × Bag)
  bag_append b other = if other.front == null then pure (b, other) else do
    set_next b.back other.front
    other' ← bag_init
    pure (record b { back = other.back }, other')

  size_loop : ℕ → Ptr → ℕ → Cmd Pool P ℕ
  size_loop zero c size = λ _. out_of_fuel
  size_loop (suc k) c size =
      if c == null
      then pure size
      else do ch ← load c; size' ← int_add size ch.size; size_loop k ch.next size'

  pub bag_size : ℕ → Bag → Cmd Pool P ℕ
  unfolding size_loop
  bag_size fuel b = size_loop fuel b.front 0

  pub bag_add_front_chunk_serial : Bag → Cmd Pool P Bag
  bag_add_front_chunk_serial b = do
    c ← A.alloc
    set_size c 0
    set_next c b.front
    pure (record b { front = c })

  pub bag_push_serial : Bag → P → Cmd Pool P Bag
  bag_push_serial b p = do
    ch ← load b.front
    set_size b.front (ch.size + 1)
    set_item b.front ch.size p
    if ch.size == capacity - 1 then bag_add_front_chunk_serial b else pure b

  pub bag_push : Bag → P → Cmd Pool P Bag
  bag_push b p = bag_push_serial b p

  pub chunk_next : Ptr → Bool → Cmd Pool P Ptr
  chunk_next c destructive = do
    ch ← load c
    if destructive then A.free c >> pure ch.next else pure ch.next

  free_loop : ℕ → Ptr → Cmd Pool P (Unit {0})
  free_loop zero c = λ _. out_of_fuel
  free_loop (suc k) c = if c == null then pure tt else do c' ← chunk_next c true; free_loop k c'

  pub bag_free : ℕ → Bag → Cmd Pool P (Unit {0})
  unfolding free_loop
  bag_free fuel b = free_loop fuel b.front

  pub bag_iter_load_chunk : Iter → Ptr → Cmd Pool P Iter
  bag_iter_load_chunk it c = do
    ch ← load c
    pure (record it { iter_chunk = c; size = ch.size; index = 0 })

  pub skip_loop : ℕ → Ptr → Bool → Cmd Pool P Ptr
  skip_loop zero c destructive = λ _. out_of_fuel
  skip_loop (suc k) c destructive = if c == null then pure c else do
    ch ← load c
    if ch.size == 0 then (do c' ← chunk_next c destructive; skip_loop k c' destructive) else pure c

  pub bag_iter_skip_empty_chunks : ℕ → Iter → Cmd Pool P Iter
  bag_iter_skip_empty_chunks fuel it = do
    c ← skip_loop fuel it.iter_chunk it.destructive
    if c == it.iter_chunk
        then pure it
        else if c == null
        then pure (record it { iter_chunk = null; size = 0; index = 0 })
        else bag_iter_load_chunk it c

  pub bag_iter_init : Bag → Bool → Cmd Pool P Iter
  bag_iter_init b destructive =
      bag_iter_load_chunk
        (record { destructive = destructive; iter_chunk = null; size = 0; index = 0 }) b.front

  -- The iterator, and the pointer that is returned, `none` for NULL.
  pub bag_iter_get : ℕ → Iter → Cmd Pool P (Iter × Option Item)
  bag_iter_get fuel it =
      if it.size == 0
      then (do
        it' ← bag_iter_skip_empty_chunks fuel it
        if (it'.iter_chunk == null) || (it'.size == 0)
            then pure (it', none)
            else pure (it', some (bag_iter_item it')))
      else pure (it, some (bag_iter_item it))

  pub bag_iter_begin_common : ℕ → Bag → Bool → Cmd Pool P (Iter × Option Item)
  bag_iter_begin_common fuel b destructive = do
    it ← bag_iter_init b destructive
    bag_iter_get fuel it

  pub bag_iter_begin : ℕ → Bag → Cmd Pool P (Iter × Option Item)
  bag_iter_begin fuel b = bag_iter_begin_common fuel b false

  unfoldable pub bag_iter_destructive_begin : ℕ → Bag → Cmd Pool P (Iter × Option Item)
  bag_iter_destructive_begin fuel b = bag_iter_begin_common fuel b true

  pub bag_iter_next : ℕ → Iter → Cmd Pool P (Iter × Option Item)
  bag_iter_next fuel it =
      let it' : Iter = record it { index = it.index + 1 } in
      if it'.index == it'.size
      then (do
        cnext ← chunk_next it'.iter_chunk it'.destructive
        if cnext == null
            then pure (it', none)
            else (do it'' ← bag_iter_load_chunk it' cnext; bag_iter_get fuel it''))
      else bag_iter_get fuel it'

  -- The loop of `bag_iter_ho_basic`. `body` may use the state `s` of the caller beside the memory;
  -- `rounds` bounds the iterations, `fuel` the empty chunks that are skipped at once.
  pub ho_loop :
      {S : Type 0} → ℕ → ℕ → (Item → S → Cmd Pool P S) → Iter × Option Item → S → Cmd Pool P S
  ho_loop zero fuel body r s = λ _. out_of_fuel
  ho_loop (suc k) fuel body (it, none) s = pure s
  ho_loop (suc k) fuel body (it, some p) s = do
    s' ← body p s
    r ← bag_iter_next fuel it
    ho_loop k fuel body r s'

  pub bag_iter_ho_basic :
      {S : Type 0} → ℕ → ℕ → Bag → (Item → S → Cmd Pool P S) → Bool → S → Cmd Pool P S
  bag_iter_ho_basic rounds fuel b body destructive s = do
    r ← bag_iter_begin_common fuel b destructive
    ho_loop rounds fuel body r s

  -- for (int i = 0; i < nb; i++) body(&c->items[i]), with `left` rounds to go
  pub items_loop : {S : Type 0} → ℕ → ℕ → Ptr → (Item → S → Cmd Pool P S) → S → Cmd Pool P S
  items_loop zero i c body s = pure s
  items_loop (suc left) i c body s = do
    s' ← body (record { chunk = c; index = i }) s
    items_loop left (i + 1) c body s'

  pub chunk_loop : {S : Type 0} → ℕ → Ptr → (Item → S → Cmd Pool P S) → Bool → S → Cmd Pool P S
  chunk_loop zero c body destructive s = λ _. out_of_fuel
  chunk_loop (suc k) c body destructive s = if c == null then pure s else do
    ch ← load c
    s' ← items_loop ch.size 0 c body s
    c' ← chunk_next c destructive
    chunk_loop k c' body destructive s'

  pub bag_iter_ho_chunk :
      {S : Type 0} → ℕ → Bag → (Item → S → Cmd Pool P S) → Bool → S → Cmd Pool P S
  bag_iter_ho_chunk fuel b body destructive s = chunk_loop fuel b.front body destructive s
