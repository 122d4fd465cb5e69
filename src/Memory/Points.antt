-- ===== src/Memory/Points.antt =====
-- What each access does at an address that holds a chunk.
use optitrust.Prelude.{ℕ, ◌≡◌, ◌≢◌, false, some, arith, ◌==◌, get_elem?, set}
use optitrust.Memory.{
  Ptr, null, Chunk, State, cell, write, ok, load, set_next, set_size, get_item, set_item,
}

pub record Points {Pool P : Type 0} (st : State Pool P) (p : Ptr) (c : Chunk P) : Type 0 where
  pub ne_null : p ≢ null
  pub holds : cell st.heap p ≡ some c

module _ {Pool P : Type 0} {st : State Pool P} {p : Ptr} {c : Chunk P} (e : Points st p c) where
  pub not_null : (p == null) ≡ false
  not_null = let ne = e.ne_null in ground arith

  pub load-ok : load p st ≡ ok c st
  unfolding load
  load-ok = rw (not_null, e.holds)

  pub set_next-ok : (q : Ptr) → set_next p q st ≡ ok tt (write st p (some (record c { next = q })))
  unfolding set_next
  set_next-ok q = rw load-ok

  pub set_size-ok : (n : ℕ) → set_size p n st ≡ ok tt (write st p (some (record c { size = n })))
  unfolding set_size
  set_size-ok n = rw load-ok

  pub get_item-ok : (i : ℕ) {x : P} → get_elem? c.items i ≡ some x → get_item p i st ≡ ok x st
  unfolding get_item
  get_item-ok i h = rw (load-ok, h)

  pub set_item-ok :
      (i : ℕ) (x : P) {y : P}
      → get_elem? c.items i ≡ some y
      → set_item p i x st ≡ ok tt (write st p (some (record c { items = set c.items i x })))
  unfolding set_item
  set_item-ok i x h = rw (load-ok, h)

  pub Points-write : (d : Chunk P) → Points (write st p (some d)) p d
  Points-write d = let ne = e.ne_null in ground arith
