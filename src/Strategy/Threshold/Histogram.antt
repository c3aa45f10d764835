-- ===== src/Strategy/Threshold/Histogram.antt =====
-- Sums over the histogram of a list of pages are counts of pages.
use mathlib.Core.Path.{ap₂}
use ubturbo.Prelude.{
  ℕ, zero, suc, ◌+◌, ◌<◌, ◌≡◌, refl, Bool, ◌&&◌, List, [], ◌∷◌, arith, ◌==◌, if◌then◌else◌, All,
  leb, ltb, ◌∙◌,
}
use ubturbo.Strategy.Actc.{ActcData, SelectionMode, select_top_k, select_bottom_k, count_pages}
use ubturbo.Strategy.Threshold.{descending, ascending, visited}
use ubturbo.Strategy.Threshold.Order.{sum_if}

-- How many pages that pass the test have this frequency.
abbrev pub histogram : (ActcData → Bool) → List ActcData → ℕ → ℕ
histogram test ps f = count_pages (λ p. test p && (p.freq == f)) ps

-- One page adds one to the bucket of its frequency.
abbrev point : Bool → ℕ → ℕ → ℕ
point on f i = if on && (f == i) then 1 else 0

point-descending :
    (g : ℕ → Bool) (on : Bool) (f n : ℕ)
    → sum_if g (point on f) (descending n) ≡ (if on && ltb f n && g f then 1 else 0)
point-descending g on f zero = ground arith
point-descending g on f (suc n) = ground (arith, point-descending g on f n)

point-ascending :
    (g : ℕ → Bool) (on : Bool) (f n from : ℕ)
    → sum_if g (point on f) (ascending n from)
      ≡ (if on && leb from f && ltb f (from + n) && g f then 1 else 0)
point-ascending g on f zero from = ground arith
point-ascending g on f (suc n) from = ground (arith, point-ascending g on f n (from + 1))

point-descending_all :
    (g : ℕ → Bool) (on : Bool) (f n : ℕ)
    → f < n
    → sum_if g (point on f) (descending n) ≡ (if on && g f then 1 else 0)
point-descending_all g on f n h = ground (arith, point-descending g on f n)

point-ascending_all :
    (g : ℕ → Bool) (on : Bool) (f n : ℕ)
    → f < n
    → sum_if g (point on f) (ascending n 0) ≡ (if on && g f then 1 else 0)
point-ascending_all g on f n h = ground (arith, point-ascending g on f n 0)

point-visited :
    (mode : SelectionMode) (g : ℕ → Bool) (on : Bool) (f : ℕ)
    → f < 256
    → sum_if g (point on f) (visited mode) ≡ (if on && g f then 1 else 0)
point-visited select_top_k g on f h = point-descending_all g on f 256 h
point-visited select_bottom_k g on f h = point-ascending_all g on f 256 h

sum_if-add :
    (g : ℕ → Bool) (b c : ℕ → ℕ) (is : List ℕ)
    → sum_if g (λ i. b i + c i) is ≡ sum_if g b is + sum_if g c is
sum_if-add g b c [] = omega arith
sum_if-add g b c (i ∷ is) = ground (arith, sum_if-add g b c is)

sum_if-zero : (g : ℕ → Bool) (is : List ℕ) → sum_if g (λ _. 0) is ≡ 0
sum_if-zero g [] = refl
sum_if-zero g (i ∷ is) = ground (arith, sum_if-zero g is)

-- The frequencies of the pages are bytes.
abbrev pub AreBytes : List ActcData → Type 0
AreBytes ps = All (λ p. p.freq < 256) ps

pub sum_if-histogram :
    (mode : SelectionMode) (g : ℕ → Bool) (test : ActcData → Bool) (ps : List ActcData)
    → AreBytes ps
    → sum_if g (histogram test ps) (visited mode) ≡ count_pages (λ p. test p && g p.freq) ps
sum_if-histogram mode g test [] h = sum_if-zero g (visited mode)
sum_if-histogram mode g test (p ∷ ps) h =
    sum_if-add g (point (test p) p.freq) (histogram test ps) (visited mode)
    ∙ ap₂ ◌+◌ (point-visited mode g (test p) p.freq h.0) (sum_if-histogram mode g test ps h.1)

pub sum_if-ext :
    (g : ℕ → Bool) (b c : ℕ → ℕ)
    → ((i : ℕ) → b i ≡ c i)
    → (is : List ℕ) → sum_if g b is ≡ sum_if g c is
sum_if-ext g b c h [] = refl
sum_if-ext g b c h (i ∷ is) = ground (arith, h i, sum_if-ext g b c h is)
