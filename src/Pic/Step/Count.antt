-- ===== src/Pic/Step/Count.antt =====
-- The number of particles over a step.
use native.Mathlib.Nat.{ℕ_set}
use mathlib.Core.List.{Perm, Permᴰ, foldl}
use optitrust.Prelude.{
  ℕ, suc, zero, ◌+◌, ◌<◌, ◌≤◌, ◌≡◌, refl, ap, ◌∙◌, inl, inr, Bool, true, false, Bool-cases, List,
  [], ◌∷◌, ◌==◌, arith, if◌then◌else◌, length,
}
use optitrust.Prelude.Int.{pos}
use optitrust.Reals.{Reals, IsExact}
use optitrust.Particle.{Vect, Particle}
use optitrust.Bag.Chain.{Cells, elems}
use optitrust.Grid.{nb_cells}
use optitrust.Pic.{Parameters, Corners, id_cell_of_pos}
use optitrust.Pic.Positions.{IsOrderedBox, id_cell_of_pos-wrap_area}
use optitrust.Pic.Step.{Sim, moved, step}
use optitrust.Pic.Step.Whole.{IsWorld, step-IsWorld}
use optitrust.Pic.Field.{Array3}
use optitrust.Pic.Field.Arrays.{IsSolver}
use optitrust.Grid.Coords.{IsGrid}
use optitrust.Memory.{State}
use optitrust.Memory.Returns
use optitrust.Memory.Returns.{Returns}
use optitrust.Memory.Allocator.{Allocator, IsAllocator, Region}
use optitrust.Pic.Step.Arrivals.{arrive, arrivals, corners_of, located}

length-Permᴰ {ℓ} : {X : Type ℓ} {xs ys : List X} → Permᴰ xs ys → length xs ≡ length ys
length-Permᴰ Permᴰ.nil = refl
length-Permᴰ (Permᴰ.cons e d) = ap suc (length-Permᴰ d)
length-Permᴰ (Permᴰ.swap e e') = refl
length-Permᴰ (Permᴰ.trans d d') = length-Permᴰ d ∙ length-Permᴰ d'

length-Perm {ℓ} : {X : Type ℓ} {xs ys : List X} → Perm xs ys → length xs ≡ length ys
length-Perm e = ∥∥₁_rec (ℕ_set _ _) length-Permᴰ e

-- f first + ... + f (first + left - 1)
abbrev pub sum_from : ℕ → ℕ → (ℕ → ℕ) → ℕ
sum_from zero first f = 0
sum_from (suc left) first f = f first + sum_from left (first + 1) f

sum_from-ext :
    (left first : ℕ) (f g : ℕ → ℕ)
    → ((i : ℕ) → first ≤ i → i < first + left → f i ≡ g i)
    → sum_from left first f ≡ sum_from left first g
sum_from-ext zero first f g e = refl
sum_from-ext (suc left) first f g e =
    let here = e first (omega arith) (omega arith) in
    let rest = sum_from-ext left (first + 1) f g (λ i lo hi. e i (omega arith) (omega arith)) in
    omega (arith, here, rest)

sum_from-zero : (left first : ℕ) → sum_from left first (λ i. 0) ≡ 0
sum_from-zero zero first = refl
sum_from-zero (suc left) first = omega (arith, sum_from-zero left (first + 1))

-- One more at one index.
abbrev bump : ℕ → (ℕ → ℕ) → ℕ → ℕ
bump k f j = if k == j then suc (f j) else f j

sum_from-bump :
    (left first k : ℕ) (f : ℕ → ℕ)
    → first ≤ k
    → k < first + left
    → sum_from left first (bump k f) ≡ suc (sum_from left first f)
sum_from-bump zero first k f lo hi = absurd (omega arith)
sum_from-bump (suc left) first k f lo hi = elim (Bool-cases (k == first)) [
  | inl here ↦
      let same =
        sum_from-ext left (first + 1) (bump k f) f
          (λ i lo' hi'. (let off : (k == i) ≡ false = ground (arith, here, lo') in rw off refl)) in
      rw here (omega (arith, same))
  | inr off ↦
      let rest = sum_from-bump left (first + 1) k f (ground (arith, off, lo)) (omega arith) in
      rw off (omega (arith, rest))
]

module _ {S : Type 0} (R : Reals S) (p : Parameters S) where
  -- Every particle is in a cell of the grid.
  abbrev AllIn : List (Particle S) → Type 0
  AllIn [] = Unit
  AllIn (q ∷ qs) = ((k : ℕ) × (id_cell_of_pos R p q.pos ≡ pos k) × (k < nb_cells p.grid)) × AllIn qs

  sum-located :
      (qs : List (Particle S))
      → AllIn qs
      → sum_from (nb_cells p.grid) 0 (λ j. length (located R p j qs)) ≡ length qs
  sum-located [] all = sum_from-zero (nb_cells p.grid) 0
  sum-located (q ∷ qs) ((k, here, h), all) =
      let f : ℕ → ℕ = λ j. length (located R p j qs) in
      sum_from-ext (nb_cells p.grid) 0 (λ j. length (located R p j (q ∷ qs))) (bump k f)
        (λ j lo hi. rw here (length_if (k == j) q (located R p j qs)))
      ∙ sum_from-bump (nb_cells p.grid) 0 k f (omega arith) (omega arith)
      ∙ ap suc (sum-located qs all)
    where
      length_if :
          (b : Bool) (x : Particle S) (xs : List (Particle S))
          → length (if b then x ∷ xs else xs) ≡ (if b then suc (length xs) else length xs)
      length_if true x xs = refl
      length_if false x xs = refl

  module _ (box : IsOrderedBox R p) where
    arrive-AllIn :
        (fc : Corners (Vect S)) (done xs : List (Particle S))
        → AllIn done
        → AllIn (foldl (arrive R p fc) done xs)
    unfolding moved
    arrive-AllIn fc done [] all = all
    arrive-AllIn fc done (x ∷ xs) all =
        let (c, _, here, h) = id_cell_of_pos-wrap_area R p _ box in
        arrive-AllIn fc (moved R p fc x ∷ done) xs ((_, here, h), all)

    arrivals-AllIn :
        (field : List (Vect S)) (cells : ℕ → Cells (Particle S)) (left first : ℕ)
        (done : List (Particle S))
        → AllIn done
        → AllIn (arrivals R p field cells left first done)
    arrivals-AllIn field cells zero first done all = all
    arrivals-AllIn field cells (suc left) first done all =
        arrivals-AllIn field cells left (first + 1) _
          (arrive-AllIn (corners_of R p field first) done (elems (cells first)) all)

  length-arrive :
      (fc : Corners (Vect S)) (done xs : List (Particle S))
      → length (foldl (arrive R p fc) done xs) ≡ length xs + length done
  length-arrive fc done [] = omega arith
  length-arrive fc done (x ∷ xs) = length-arrive fc (moved R p fc x ∷ done) xs ∙ omega arith

  length-arrivals :
      (field : List (Vect S)) (cells : ℕ → Cells (Particle S)) (left first : ℕ)
      (done : List (Particle S))
      → length (arrivals R p field cells left first done)
        ≡ sum_from left first (λ i. length (elems (cells i))) + length done
  length-arrivals field cells zero first done = omega arith
  length-arrivals field cells (suc left) first done =
      let one = length-arrive (corners_of R p field first) done (elems (cells first)) in
      length-arrivals field cells left (first + 1) _ ∙ omega (arith, one)

-- All particles of the cells of the grid.
abbrev pub particles : {S : Type 0} → Parameters S → (ℕ → Cells (Particle S)) → ℕ
particles p cells = sum_from (nb_cells p.grid) 0 (λ i. length (elems (cells i)))

module _ {S Pool : Type 0} (R : Reals S) (p : Parameters S) {A : Allocator Pool (Particle S)}
    {capacity : ℕ} (L : IsAllocator A capacity) (rounds fuel : ℕ)
    (poisson : Array3 S → Array3 S × Array3 S × Array3 S) (exact : IsExact R) (grid : IsGrid p.grid)
    (box : IsOrderedBox R p) (places : 0 < capacity) (solver : IsSolver p.grid poisson) where
  -- With exact arithmetic, on a grid with a cell, with chunks of at least one place, a solver that gives
  -- whole arrays and enough fuel for every bag: a step neither loses nor makes particles.
  pub step-particles :
      (st : State Pool (Particle S)) (u : Region) (sim : Sim S) (cells : ℕ → Cells (Particle S))
      → IsWorld R p L st u sim cells
      → ((i : ℕ)
          → i < nb_cells p.grid
          → (length (cells i) < fuel) × (length (elems (cells i)) < rounds))
      → Returns
          (λ sim' st'.
            (u' : Region) × (cells' : ℕ → Cells (Particle S)) × IsWorld R p L st' u' sim' cells'
            × (particles p cells' ≡ particles p cells))
          (step R p A capacity rounds fuel poisson sim st)
  step-particles st u sim cells w enough =
      let come = arrivals R p sim.field cells (nb_cells p.grid) 0 [] in
      let all = arrivals-AllIn R p box sim.field cells (nb_cells p.grid) 0 [] tt in
      let sum = length-arrivals R p sim.field cells (nb_cells p.grid) 0 [] in
      Returns.mono
        (step-IsWorld R p L rounds fuel poisson exact grid box places solver st u sim cells w
          enough)
        λ sim' st' (u', cells', w', each). (
          u',
          cells',
          w',
          sum_from-ext (nb_cells p.grid) 0 (λ j. length (elems (cells' j)))
                (λ j. length (located R p j come)) (λ j lo hi. length-Perm (each j (omega arith)))
              ∙ sum-located R p come all
              ∙ sum
              ∙ omega arith,
        )
