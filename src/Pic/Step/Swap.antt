-- ===== src/Pic/Step/Swap.antt =====
-- `swap_cells`: the bags of the next step become those of the current one.
use optitrust.Prelude.{
  ℕ, suc, zero, ◌+◌, ◌<◌, ◌≤◌, ◌≡◌, refl, sym, ap, ◌∙◌, inl, inr, false, Bool-cases, Option, none,
  List, [], ◌∷◌, ◌==◌, arith, length, length-set, dec_lt, get_elem?, get_elem?-lt, get_elem?-set,
  set,
}
use optitrust.Memory.{State, ok}
use optitrust.Memory.Allocator.{Region}
use optitrust.Reals.{Reals}
use optitrust.Particle.{Particle}
use optitrust.Bag.{Bag, bag_swap}
use optitrust.Bag.Chain.{Cells}
use optitrust.Memory.Allocator.{Allocator}
use optitrust.Pic.{Parameters}
use optitrust.Pic.Bags.{Slot, cur, next, same_slot, Owned}
use optitrust.Pic.Step.{Sim, swap_cells}
use optitrust.Pic.Step.Arrivals.{bag_at}

abbrev pub flip : Slot → Slot
flip (cur i) = next i
flip (next i) = cur i

same_slot-flip : (s t : Slot) → same_slot (flip s) (flip t) ≡ same_slot s t
same_slot-flip (cur i) (cur j) = refl
same_slot-flip (cur i) (next j) = refl
same_slot-flip (next i) (cur j) = refl
same_slot-flip (next i) (next j) = refl

pub Owned-flip :
    {Pool P : Type 0} (capacity : ℕ) (st : State Pool P) (u : Region) (at at' : Slot → Option Bag)
    (c : Slot → Option (Cells P))
    → ((s : Slot) → at' s ≡ at (flip s))
    → Owned capacity st u at c
    → Owned capacity st u at' (λ s. c (flip s))
Owned-flip capacity st u at at' c swapped o = record {
  bags = λ s cs e. (let (b, here, is) = o.bags (flip s) cs e in (b, swapped s ∙ here, is));
  apart = λ s t ne a h. o.apart (flip s) (flip t) (same_slot-flip s t ∙ ne) a h;
}

get_elem?-none : {B : Type 0} (xs : List B) (i : ℕ) → length xs ≤ i → get_elem? xs i ≡ none
get_elem?-none [] i h = refl
get_elem?-none (x ∷ xs) zero h = absurd (omega arith)
get_elem?-none (x ∷ xs) (suc i) h = get_elem?-none xs i (omega arith)

-- Arrays of one length that agree at every index of one of them agree everywhere.
same_everywhere :
    {B : Type 0} (n : ℕ) (xs ys : List B)
    → length xs ≡ n
    → length ys ≡ n
    → ((i : ℕ) → i < n → get_elem? xs i ≡ get_elem? ys i)
    → (i : ℕ) → get_elem? xs i ≡ get_elem? ys i
same_everywhere n xs ys hx hy e i = elim (dec_lt i n) [
  | yes lt ↦ e i lt
  | no ge ↦ get_elem?-none xs i (omega arith) ∙ sym (get_elem?-none ys i (omega arith))
]

module _ {S Pool : Type 0} (R : Reals S) (p : Parameters S) (A : Allocator Pool (Particle S))
    (capacity : ℕ) where
  -- `sim` with other arrays of bags, which agree with its own before `first` and are swapped from there
  -- up to `n`.
  record Swapped (n first : ℕ) (sim sim' : Sim S) : Type 0 where
    size_cur : length sim'.bags_cur ≡ n
    size_next : length sim'.bags_next ≡ n
    same_deposit : sim'.deposit ≡ sim.deposit
    same_field : sim'.field ≡ sim.field
    before :
        (i : ℕ)
        → i < first
        → (get_elem? sim'.bags_cur i ≡ get_elem? sim.bags_cur i)
          × (get_elem? sim'.bags_next i ≡ get_elem? sim.bags_next i)
    behind :
        (i : ℕ)
        → first ≤ i
        → i < n
        → (get_elem? sim'.bags_cur i ≡ get_elem? sim.bags_next i)
          × (get_elem? sim'.bags_next i ≡ get_elem? sim.bags_cur i)

  abbrev swapped_one : Sim S → ℕ → Bag → Bag → Sim S
  swapped_one sim i b other = record sim {
    bags_cur = set sim.bags_cur i other;
    bags_next = set sim.bags_next i b;
  }

  swap_cells-Swapped :
      (left first n : ℕ) (sim : Sim S) (st : State Pool (Particle S))
      → first + left ≡ n
      → length sim.bags_cur ≡ n
      → length sim.bags_next ≡ n
      → (sim' : Sim S) × (swap_cells R p A capacity left first sim st ≡ ok sim' st)
        × Swapped n first sim sim'
  unfolding swap_cells bag_swap
  swap_cells-Swapped zero first n sim st e hc hn = (
    sim,
    refl,
    record {
      size_cur = hc;
      size_next = hn;
      same_deposit = refl;
      same_field = refl;
      before = λ i h. (refl, refl);
      behind = λ i lo hi. absurd (omega arith);
    },
  )
  swap_cells-Swapped (suc left) first n sim st e hc hn =
      let (b, eb) = get_elem?-lt sim.bags_cur first (omega arith) in
      let (other, eo) = get_elem?-lt sim.bags_next first (omega arith) in
      let one = swapped_one sim first b other in
      let (sim', run, w) =
        swap_cells-Swapped left (first + 1) n one st (omega arith)
          (length-set sim.bags_cur first other ∙ hc) (length-set sim.bags_next first b ∙ hn) in
      (
        sim',
        rw (eb, eo) run,
        record {
          size_cur = w.size_cur;
          size_next = w.size_next;
          same_deposit = w.same_deposit;
          same_field = w.same_field;
          before = λ i h.
              (let (x, y) = w.before i (omega arith) in
                let off : (first == i) ≡ false = ground (arith, h) in
                (
                  x ∙ get_elem?-set sim.bags_cur first i other (omega arith) ∙ rw off refl,
                  y ∙ get_elem?-set sim.bags_next first i b (omega arith) ∙ rw off refl,
                ));
          behind = λ i lo hi. elim (Bool-cases (first == i)) [
            | inl here ↦
                let at : first ≡ i = ground (arith, here) in
                let (x, y) = w.before i (omega arith) in
                (
                  x
                      ∙ get_elem?-set sim.bags_cur first i other (omega arith)
                      ∙ rw here (sym eo ∙ ap (get_elem? sim.bags_next) at),
                  y
                      ∙ get_elem?-set sim.bags_next first i b (omega arith)
                      ∙ rw here (sym eb ∙ ap (get_elem? sim.bags_cur) at),
                )
            | inr off ↦
                let (x, y) = w.behind i (ground (arith, off, lo)) hi in
                (
                  x ∙ get_elem?-set sim.bags_next first i b (omega arith) ∙ rw off refl,
                  y ∙ get_elem?-set sim.bags_cur first i other (omega arith) ∙ rw off refl,
                )
          ];
        },
      )

  -- The loop over all cells swaps every bag of `bagsCur` with that of `bagsNext`.
  pub swap_cells-flip :
      (n : ℕ) (sim : Sim S) (st : State Pool (Particle S))
      → length sim.bags_cur ≡ n
      → length sim.bags_next ≡ n
      → (sim' : Sim S) × (swap_cells R p A capacity n 0 sim st ≡ ok sim' st)
        × (length sim'.bags_cur ≡ n)
        × (length sim'.bags_next ≡ n)
        × (sim'.deposit ≡ sim.deposit)
        × (sim'.field ≡ sim.field)
        × ((s : Slot) → bag_at sim' s ≡ bag_at sim (flip s))
  swap_cells-flip n sim st hc hn =
      let (sim', run, w) = swap_cells-Swapped n 0 n sim st (omega arith) hc hn in
      (sim', run, w.size_cur, w.size_next, w.same_deposit, w.same_field, λ s. everywhere sim' w s)
    where
      everywhere :
          (sim' : Sim S) → Swapped n 0 sim sim' → (s : Slot) → bag_at sim' s ≡ bag_at sim (flip s)
      everywhere sim' w (cur i) =
          same_everywhere n sim'.bags_cur sim.bags_next w.size_cur hn
            (λ j h. (let (x, _) = w.behind j (omega arith) h in x)) i
      everywhere sim' w (next i) =
          same_everywhere n sim'.bags_next sim.bags_cur w.size_next hc
            (λ j h. (let (_, y) = w.behind j (omega arith) h in y)) i
