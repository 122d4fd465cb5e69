-- ===== src/Grid/Corners.antt =====
-- The corners of a cell: the cell itself and its successors on the torus, in the order of the bits of
-- the corner's number.
use native.Mathlib.Nat.{mod-lt, mod-eq_of_lt, mod_self}
use optitrust.Prelude.{
  ℕ, ◌+◌, ◌*◌, ◌%◌, ◌<◌, ◌≤◌, ◌≡◌, ◌⊎◌, inl, inr, refl, ap, ◌∙◌, sym, some, arith, dec_lt,
  get_elem?, length, AllBelow,
}
use mathlib.Core.Option.{some-injective}
use optitrust.Prelude.Int.{pos, pos_part}
use optitrust.Grid.{Grid, Coord, wrap, nb_cells, cell_of_coord, coord_of_cell, indices_of_corners}
use optitrust.Grid.Coords.{
  IsGrid, OnGrid, cell_of_coord-lt, coord_of_cell-cell_of_coord, cell_of_coord-coord_of_cell,
  wrap_lem,
}

-- The coordinates of the corner of a cell that is `d`, `e` and `f` steps away from it.
abbrev pub corner : Grid → ℕ → ℕ → ℕ → ℕ → Coord
corner g id_cell d e f = record {
  i_x = ((coord_of_cell g id_cell).i_x + d) % g.grid_x;
  i_y = ((coord_of_cell g id_cell).i_y + e) % g.grid_y;
  i_z = ((coord_of_cell g id_cell).i_z + f) % g.grid_z;
}

abbrev pub cell_at : Grid → Coord → ℕ
cell_at g c = cell_of_coord g c.i_x c.i_y c.i_z

wrap_pos : (n m : ℕ) → 0 < m → pos_part (wrap m (pos n)) ≡ n % m
wrap_pos n m h = let (e, _) = wrap_lem n m h in ap pos_part e

wrap-lt : (n m : ℕ) → 0 < m → pos_part (wrap m (pos n)) < m
wrap-lt n m h = rw (wrap_pos n m h) (mod-lt n h)

pub coords-lt :
    (g : Grid) {i j k : ℕ}
    → i < g.grid_x
    → j < g.grid_y
    → k < g.grid_z
    → cell_of_coord g i j k < nb_cells g
coords-lt g {i} {j} {k} hi hj hk =
    cell_of_coord-lt g (record { i_x = i; i_y = j; i_z = k })
      (record { in_x = hi; in_y = hj; in_z = hk })

same_mod : (x m : ℕ) → x < m → (x + 0) % m ≡ x
same_mod x m h = mod-eq_of_lt (omega arith) ∙ omega arith

two_cases : (d : ℕ) → d < 2 → (d ≡ 0) ⊎ (d ≡ 1)
two_cases d h = ground arith

module _ (g : Grid) (id_cell : ℕ) (is : IsGrid g) (h : id_cell < nb_cells g) where
  corner-OnGrid : (d e f : ℕ) → OnGrid g (corner g id_cell d e f)
  corner-OnGrid d e f = record {
    in_x = mod-lt _ is.pos_x;
    in_y = mod-lt _ is.pos_y;
    in_z = mod-lt _ is.pos_z;
  }

  indices_of_corners_lem :
      (d e f : ℕ)
      → d < 2
      → e < 2
      → f < 2
      → get_elem? (indices_of_corners g id_cell) (4 * d + 2 * e + f)
        ≡ some (cell_at g (corner g id_cell d e f))
  unfolding indices_of_corners
  indices_of_corners_lem d e f hd he hf =
      let (on, _) = cell_of_coord-coord_of_cell g id_cell is h in
      let c = coord_of_cell g id_cell in
      let x = same_mod c.i_x g.grid_x on.in_x in
      let y = same_mod c.i_y g.grid_y on.in_y in
      let z = same_mod c.i_z g.grid_z on.in_z in
      let x2 = wrap_pos (c.i_x + 1) g.grid_x is.pos_x in
      let y2 = wrap_pos (c.i_y + 1) g.grid_y is.pos_y in
      let z2 = wrap_pos (c.i_z + 1) g.grid_z is.pos_z in
      elim (two_cases d hd) [
        | inl d0 ↦ elim (two_cases e he) [
          | inl e0 ↦ elim (two_cases f hf) [
            | inl f0 ↦ rw (d0, e0, f0, x, y, z) refl
            | inr f1 ↦ rw (d0, e0, f1, x, y, z2) refl
          ]
          | inr e1 ↦ elim (two_cases f hf) [
            | inl f0 ↦ rw (d0, e1, f0, x, y2, z) refl
            | inr f1 ↦ rw (d0, e1, f1, x, y2, z2) refl
          ]
        ]
        | inr d1 ↦ elim (two_cases e he) [
          | inl e0 ↦ elim (two_cases f hf) [
            | inl f0 ↦ rw (d1, e0, f0, x2, y, z) refl
            | inr f1 ↦ rw (d1, e0, f1, x2, y, z2) refl
          ]
          | inr e1 ↦ elim (two_cases f hf) [
            | inl f0 ↦ rw (d1, e1, f0, x2, y2, z) refl
            | inr f1 ↦ rw (d1, e1, f1, x2, y2, z2) refl
          ]
        ]
      ]

  -- On a grid with a cell, corner 4 * d + 2 * e + f of a cell of the grid is the cell d steps away from
  -- it in the first direction, e in the second and f in the third, on the torus; it is a cell of the grid.
  pub indices_of_corners-nb_cells :
      (d e f : ℕ)
      → d < 2
      → e < 2
      → f < 2
      → (get_elem? (indices_of_corners g id_cell) (4 * d + 2 * e + f)
          ≡ some (cell_at g (corner g id_cell d e f)))
        × (cell_at g (corner g id_cell d e f) < nb_cells g)
  indices_of_corners-nb_cells d e f hd he hf = (
    indices_of_corners_lem d e f hd he hf,
    cell_of_coord-lt g (corner g id_cell d e f) (corner-OnGrid d e f),
  )

pub length-indices_of_corners : (g : Grid) (id_cell : ℕ) → length (indices_of_corners g id_cell) ≡ 8
unfolding indices_of_corners
length-indices_of_corners g id_cell = refl

-- All corners of a cell of the grid are cells of the grid.
pub indices_of_corners-AllBelow :
    (g : Grid) (id_cell : ℕ)
    → IsGrid g
    → id_cell < nb_cells g
    → AllBelow (nb_cells g) (indices_of_corners g id_cell)
unfolding indices_of_corners
indices_of_corners-AllBelow g id_cell is h =
    let (on, _) = cell_of_coord-coord_of_cell g id_cell is h in
    let x2 = wrap-lt _ g.grid_x is.pos_x in
    let y2 = wrap-lt _ g.grid_y is.pos_y in
    let z2 = wrap-lt _ g.grid_z is.pos_z in
    (
      coords-lt g on.in_x on.in_y on.in_z,
      (
        coords-lt g on.in_x on.in_y z2,
        (
          coords-lt g on.in_x y2 on.in_z,
          (
            coords-lt g on.in_x y2 z2,
            (
              coords-lt g x2 on.in_y on.in_z,
              (coords-lt g x2 on.in_y z2, (coords-lt g x2 y2 on.in_z, (coords-lt g x2 y2 z2, tt))),
            ),
          ),
        ),
      ),
    )

-- Steps below two that lead to one place are the same when there are two places.
next_cases : (x m : ℕ) → x < m → ((x + 1) % m ≡ x + 1) ⊎ ((x + 1 ≡ m) × ((x + 1) % m ≡ 0))
next_cases x m h = elim (dec_lt (x + 1) m) [
  | yes p ↦ inl (mod-eq_of_lt p)
  | no p ↦ let e : x + 1 ≡ m = omega arith in inr (e, ap (λ (t : ℕ). t % m) e ∙ mod_self m)
]

step_differs {ℓ} : {A : Type ℓ} (x m : ℕ) → 2 ≤ m → x < m → x ≡ (x + 1) % m → A
step_differs x m two h e = elim (next_cases x m h) [
  | inl p ↦ absurd (omega arith)
  | inr (last, p) ↦ absurd (omega arith)
]

step-injective :
    (x m d d' : ℕ) → 2 ≤ m → x < m → d < 2 → d' < 2 → (x + d) % m ≡ (x + d') % m → d ≡ d'
step-injective x m d d' two h hd hd' e =
    let stay = same_mod x m h in
    elim (two_cases d hd) [
      | inl d0 ↦ elim (two_cases d' hd') [
        | inl d0' ↦ d0 ∙ sym d0'
        | inr d1' ↦
            step_differs x m two h
              (sym stay ∙ ap (λ t. (x + t) % m) (sym d0) ∙ e ∙ ap (λ t. (x + t) % m) d1')
      ]
      | inr d1 ↦ elim (two_cases d' hd') [
        | inl d0' ↦
            step_differs x m two h
              (sym stay ∙ ap (λ t. (x + t) % m) (sym d0') ∙ sym e ∙ ap (λ t. (x + t) % m) d1)
        | inr d1' ↦ d1 ∙ sym d1'
      ]
    ]

-- On a grid with at least two cells in each direction, the eight corners of a cell are eight cells.
pub corner-injective :
    (g : Grid) (id_cell d e f d' e' f' : ℕ)
    → 2 ≤ g.grid_x
    → 2 ≤ g.grid_y
    → 2 ≤ g.grid_z
    → id_cell < nb_cells g
    → d < 2
    → e < 2
    → f < 2
    → d' < 2
    → e' < 2
    → f' < 2
    → get_elem? (indices_of_corners g id_cell) (4 * d + 2 * e + f)
      ≡ get_elem? (indices_of_corners g id_cell) (4 * d' + 2 * e' + f')
    → (d ≡ d') × (e ≡ e') × (f ≡ f')
corner-injective g id_cell d e f d' e' f' sx sy sz h hd he hf hd' he' hf' same =
    let is : IsGrid g = record { pos_x = omega arith; pos_y = omega arith; pos_z = omega arith } in
    let (on, _) = cell_of_coord-coord_of_cell g id_cell is h in
    let at = indices_of_corners_lem g id_cell is h d e f hd he hf in
    let at' = indices_of_corners_lem g id_cell is h d' e' f' hd' he' hf' in
    let cells = some-injective _ _ (sym at ∙ same ∙ at') in
    let coords =
      sym (
        coord_of_cell-cell_of_coord g (corner g id_cell d e f) (corner-OnGrid g id_cell is h d e f))
      ∙ ap (coord_of_cell g) cells
      ∙ coord_of_cell-cell_of_coord g (corner g id_cell d' e' f')
          (corner-OnGrid g id_cell is h d' e' f') in
    (
      step-injective _ g.grid_x d d' sx on.in_x hd hd' (ap (λ (c : Coord). c.i_x) coords),
      step-injective _ g.grid_y e e' sy on.in_y he he' (ap (λ (c : Coord). c.i_y) coords),
      step-injective _ g.grid_z f f' sz on.in_z hf hf' (ap (λ (c : Coord). c.i_z) coords),
    )
