-- ===== src/RowSum/Window.antt =====
-- The sum of a window of the source, and how it slides.
use optitrust.Prelude.{
  ℕ, zero, suc, ◌+◌, ◌-◌, ◌*◌, ◌%◌, ◌^◌, ◌<◌, ◌≡◌, sym, ◌∙◌, refl, ap, arith, Option, some, none,
  List, [], ◌∷◌, length, get_elem?, get_elem?-lt, AllBelow,
}
use optitrust.RowSum.{add16, slide16}

abbrev or_zero : Option ℕ → ℕ
or_zero none = 0
or_zero (some x) = x

-- The element of a row, zero out of bounds.
abbrev pub pixel : List ℕ → ℕ → ℕ
pixel S q = or_zero (get_elem? S q)

pub get_elem?-pixel : (S : List ℕ) (q : ℕ) → q < length S → get_elem? S q ≡ some (pixel S q)
get_elem?-pixel S q h =
    let (x, e) = get_elem?-lt S q h in e ∙ ap (λ (o : Option ℕ). some (or_zero o)) (sym e)

pub pixel_lt : (S : List ℕ) (q : ℕ) → AllBelow 256 S → pixel S q < 256
pixel_lt [] q h = omega arith
pixel_lt (x ∷ S) zero (h, hs) = h
pixel_lt (x ∷ S) (suc q) (h, hs) = pixel_lt S q hs

-- S[q] + S[q + cn] + … , of `w` elements
unfoldable pub window : List ℕ → ℕ → ℕ → ℕ → ℕ
window S cn zero q = 0
window S cn (suc w) q = window S cn w q + pixel S (q + w * cn)

pub window-next :
    (S : List ℕ) (cn w w' q x : ℕ)
    → w' ≡ w + 1
    → x ≡ q + w * cn
    → window S cn w q + pixel S x ≡ window S cn w' q
unfolding window
window-next S cn w w' q x next e = (let s : w' ≡ suc w = omega (arith, next) in rw (s, e) refl)

pub window_zero : (S : List ℕ) (cn q : ℕ) → window S cn 0 q ≡ 0
unfolding window
window_zero S cn q = refl

-- The next window has the element behind this one, and not its first.
pub window-slide :
    (S : List ℕ) (cn w q : ℕ)
    → window S cn w (q + cn) + pixel S q ≡ window S cn w q + pixel S (q + w * cn)
unfolding window
window-slide S cn zero q = (let e : q + 0 * cn ≡ q = omega arith in rw e (omega arith))
window-slide S cn (suc w) q =
    let ih = window-slide S cn w q in
    let e : q + cn + w * cn ≡ q + suc w * cn = omega arith in rw e (omega (arith, ih))

-- What the destination gets.
abbrev pub filtered : List ℕ → ℕ → ℕ → ℕ → ℕ
filtered S cn w q = window S cn w q % 2 ^ 16

pub add16-filtered :
    (S : List ℕ) (cn w w' q x s : ℕ)
    → s ≡ filtered S cn w q
    → w' ≡ w + 1
    → x ≡ q + w * cn
    → add16 s (pixel S x) ≡ filtered S cn w' q
add16-filtered S cn w w' q x s e next at =
    let n = window-next S cn w w' q x next at in rw (e, sym n) (omega arith)

pub slide16-filtered :
    (S : List ℕ) (cn w q q' x s : ℕ)
    → AllBelow 256 S
    → s ≡ filtered S cn w q
    → q' ≡ q + cn
    → x ≡ q + w * cn
    → slide16 s (pixel S x) (pixel S q) ≡ filtered S cn w q'
slide16-filtered S cn w q q' x s small e next at =
    let slide = window-slide S cn w q in
    let lt = pixel_lt S q small in rw (e, next, at) (omega (arith, slide, lt))

-- Every window of the destination lies within the source.
pub window-lt : (cn w n k q : ℕ) → k < w → q < n * cn → q + k * cn < (n + w - 1) * cn
window-lt cn w n k q hk hq =
    let e : n + w - 1 ≡ n + k + (w - 1 - k) = omega arith in rw e (omega (arith, hq))

-- The element behind a window of the destination but the last lies within the source.
pub slide-lt : (cn w n q : ℕ) → 0 < n → q + cn < n * cn → q + w * cn < (n + w - 1) * cn
slide-lt cn w n q pos hq =
    let e : n + w - 1 ≡ n - 1 + w = omega arith in
    let s : n ≡ n - 1 + 1 = omega arith in
    let f : n * cn ≡ (n - 1) * cn + cn = ap (λ (m : ℕ). m * cn) s ∙ omega arith in
    rw e (omega (arith, hq, f))
