-- ===== src/Bag/Chain.antt =====
-- Chains of chunks: the shape that bag.c draws above its code, from `front` by `next` to the end.
use optitrust.Prelude.{
  ℕ, ◌≤◌, ◌≡◌, refl, sym, ap, ◌∙◌, Bool, true, false, ◌||◌, List, [], ◌∷◌, ◌++◌, arith, ◌==◌,
  length, take, length-take, append_assoc,
}
use optitrust.Memory.{Ptr, Chunk, State, cell}
use optitrust.Memory.Points.{Points}

-- What a chain stands for: the address of each chunk and the particles that it holds, in order.
abbrev pub Cells : Type 0 → Type 0
Cells P = List (Ptr × List P)

module _ {P : Type 0} where
  abbrev pub has : Ptr → Cells P → Bool
  has a [] = false
  has a ((p, _) ∷ cs) = (p == a) || has a cs

  -- All particles of a chain.
  unfoldable pub elems : Cells P → List P
  elems [] = []
  elems ((_, xs) ∷ cs) = xs ++ elems cs

  -- The address of the last chunk.
  unfoldable pub last_ptr : Ptr → Cells P → Ptr
  last_ptr d [] = d
  last_ptr d ((p, _) ∷ cs) = last_ptr p cs

  pub elems-append : (cs ds : Cells P) → elems (cs ++ ds) ≡ elems cs ++ elems ds
  unfolding elems
  elems-append [] ds = refl
  elems-append ((p, xs) ∷ cs) ds =
      ap (λ ys. xs ++ ys) (elems-append cs ds) ∙ sym (append_assoc xs _ _)

  pub last_ptr-append :
      (d : Ptr) (cs : Cells P) (q : Ptr) (ys : List P) (ds : Cells P)
      → last_ptr d (cs ++ (q, ys) ∷ ds) ≡ last_ptr q ds
  unfolding last_ptr
  last_ptr-append d [] q ys ds = refl
  last_ptr-append d ((p, xs) ∷ cs) q ys ds = last_ptr-append p cs q ys ds

  pub has-last_ptr :
      (p : Ptr) (xs : List P) (cs : Cells P) → has (last_ptr p cs) ((p, xs) ∷ cs) ≡ true
  unfolding last_ptr
  has-last_ptr p xs [] = ground arith
  has-last_ptr p xs ((q, ys) ∷ cs) = ground (arith, has-last_ptr q ys cs)

  pub has-append : (a : Ptr) (cs ds : Cells P) → has a (cs ++ ds) ≡ (has a cs || has a ds)
  has-append a [] ds = refl
  has-append a ((p, _) ∷ cs) ds = ground (arith, has-append a cs ds)

  -- The chunk at `p` leads to `q` and holds `xs`.
  pub record Holds {Pool : Type 0} (capacity : ℕ) (st : State Pool P) (p q : Ptr) (xs : List P)
      : Type 0 where
    pub chunk : Chunk P
    pub points : Points st p chunk
    pub places : length chunk.items ≡ capacity
    pub leads : chunk.next ≡ q
    pub fits : chunk.size ≤ capacity
    pub contents : take chunk.size chunk.items ≡ xs

  pub size-eq :
      {Pool : Type 0} {capacity : ℕ} {st : State Pool P} {p q : Ptr} {xs : List P}
      (e : Holds capacity st p q xs)
      → e.chunk.size ≡ length xs
  size-eq e =
      sym
        (length-take e.chunk.size e.chunk.items (let f = e.fits in let g = e.places in omega arith))
      ∙ ap length e.contents

  -- From `p` the `next` pointers lead through the distinct chunks `cs` to `stop`.
  pub data Seg {Pool : Type 0} (capacity : ℕ) (st : State Pool P) (stop : Ptr)
      : Ptr → Cells P → Type 0 where
    nil : Seg capacity st stop stop []
    cons :
        {p q : Ptr} {xs : List P} {cs : Cells P}
        → Holds capacity st p q xs
        → has p cs ≡ false
        → Seg capacity st stop q cs
        → Seg capacity st stop p ((p, xs) ∷ cs)

  module _ {Pool : Type 0} {capacity : ℕ} {st : State Pool P} where
    pub Holds-same :
        {st' : State Pool P} {p q : Ptr} {xs : List P}
        → Holds capacity st p q xs
        → cell st'.heap p ≡ cell st.heap p
        → Holds capacity st' p q xs
    Holds-same e same = record {
      chunk = e.chunk;
      points = record { ne_null = e.points.ne_null; holds = same ∙ e.points.holds };
      places = e.places;
      leads = e.leads;
      fits = e.fits;
      contents = e.contents;
    }

    -- A segment survives any change that spares its own addresses.
    pub Seg-same :
        {st' : State Pool P} {stop p : Ptr} {cs : Cells P}
        → Seg capacity st stop p cs
        → ((a : Ptr) → has a cs ≡ true → cell st'.heap a ≡ cell st.heap a)
        → Seg capacity st' stop p cs
    Seg-same nil same = nil
    Seg-same (cons {p} e out s) same =
        cons (Holds-same e (same p (ground arith))) out (Seg-same s λ a i. same a (ground arith))

    -- Once the last chunk leads to `stop'`, so does the segment; its other chunks are as before.
    pub Seg-relink :
        {st' : State Pool P} {stop stop' q p : Ptr} {xs : List P} {cs : Cells P}
        → Holds capacity st p q xs
        → has p cs ≡ false
        → Seg capacity st stop q cs
        → ((ys : List P)
            → Holds capacity st (last_ptr p cs) stop ys
            → Holds capacity st' (last_ptr p cs) stop' ys)
        → ((a : Ptr) → (a == last_ptr p cs) ≡ false → cell st'.heap a ≡ cell st.heap a)
        → Seg capacity st' stop' p ((p, xs) ∷ cs)
    unfolding last_ptr
    Seg-relink e out nil turned same = cons (turned _ e) out nil
    Seg-relink {p} e out (cons {p = r} {xs = ys} {cs = ds} e' out' s) turned same =
        cons (Holds-same e (same p (ground (arith, has-last_ptr r ys ds)))) out
          (Seg-relink e' out' s turned same)

    pub Seg-append :
        {stop q p : Ptr} {ds cs : Cells P}
        → Seg capacity st q p cs
        → Seg capacity st stop q ds
        → ((a : Ptr) → has a cs ≡ true → has a ds ≡ false)
        → Seg capacity st stop p (cs ++ ds)
    Seg-append nil t apart = t
    Seg-append (cons {p} {cs} e out s) t apart =
        cons e (rw (has-append p cs, out) (apart p (ground arith)))
          (Seg-append s t λ a i. apart a (ground arith))
