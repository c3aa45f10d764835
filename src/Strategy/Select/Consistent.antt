-- ===== src/Strategy/Select/Consistent.antt =====
-- The scan data of a node agree with each other: the buckets count the pages, and a collection
-- keeps them so.
use ubturbo.Prelude.{
  ◌∷◌, List, ◌≤◌, ◌+◌, suc, not, sym, ◌≡◌, some, ap, ◌∙◌, ◌<◌, arith, Bool, ◌^◌, ℕ, ◌&&◌, true, [],
  refl, All, length,
}
use ubturbo.Strategy.Actc.{ActcData, eligible, count_pages}
use ubturbo.Strategy.Threshold.Histogram.{histogram, AreBytes}
use ubturbo.Strategy.Collect.{Collected}
use ubturbo.Strategy.Collect.Picks.{Picks, rest, leave, pick}
use ubturbo.Strategy.Collect.Buckets.{chosen}
use ubturbo.Strategy.Select.{ScanNode, remain_buckets}

-- A page that `freqBuckets` counts: not a white-listed page of a local node.
abbrev pub counted : Bool → ActcData → Bool
counted from_local p = not (from_local && p.is_white_list_page)

abbrev pub IsClean : Bool → List ActcData → Type 0
IsClean from_local ps = All (λ p. p.is_selected ≡ true → counted from_local p ≡ true) ps

pub record IsConsistent (from_local : Bool) (n : ScanNode) (ps : List ActcData) : Type 0 where
  pub stored : n.actc_data ≡ some ps
  pub whole : length ps ≡ n.actc_len
  pub small : n.actc_len < 2 ^ 31
  pub bytes : AreBytes ps
  pub clean : IsClean from_local ps
  pub freq_counts : (f : ℕ) → n.freq_buckets f ≡ histogram (counted from_local) ps f
  pub selected_counts : (f : ℕ) → n.selected_buckets f ≡ histogram chosen ps f

pub count_pages-le : (test : ActcData → Bool) (ps : List ActcData) → count_pages test ps ≤ length ps
count_pages-le test [] = omega arith
count_pages-le test (p ∷ ps) = ground (arith, count_pages-le test ps)

histogram-split :
    (from_local : Bool) (ps : List ActcData) (f : ℕ)
    → IsClean from_local ps
    → histogram (eligible from_local) ps f + histogram chosen ps f
      ≡ histogram (counted from_local) ps f
histogram-split from_local [] f h = omega arith
histogram-split from_local (p ∷ ps) f h = ground (arith, h.0, histogram-split from_local ps f h.1)

-- What the two kinds of buckets leave is the histogram of the eligible pages.
pub remain_buckets-eq-histogram :
    {from_local : Bool} {n : ScanNode} {ps : List ActcData}
    → IsConsistent from_local n ps
    → (f : ℕ) → remain_buckets n f ≡ histogram (eligible from_local) ps f
remain_buckets-eq-histogram {from_local} {n} {ps} v f =
    ground (arith, v.freq_counts f, v.selected_counts f, histogram-split from_local ps f v.clean)

module _ (from_local : Bool) (Ok : ActcData → Type 0)
    (sound : (p : ActcData) → Ok p → eligible from_local p ≡ true) where
  pub length-Picks :
      {i : ℕ} {ps ps' : List ActcData} {addr : List ℕ}
      → Picks Ok i ps addr ps'
      → length ps' ≡ length ps
  length-Picks (rest ps) = refl
  length-Picks (leave p q) = ap suc (length-Picks q)
  length-Picks (pick p w q) = ap suc (length-Picks q)

  pub Picks-AreBytes :
      {i : ℕ} {ps ps' : List ActcData} {addr : List ℕ}
      → Picks Ok i ps addr ps'
      → AreBytes ps
      → AreBytes ps'
  Picks-AreBytes (rest ps) h = h
  Picks-AreBytes (leave p q) h = (h.0, Picks-AreBytes q h.1)
  Picks-AreBytes (pick p w q) h = (h.0, Picks-AreBytes q h.1)

  pub Picks-IsClean :
      {i : ℕ} {ps ps' : List ActcData} {addr : List ℕ}
      → Picks Ok i ps addr ps'
      → IsClean from_local ps
      → IsClean from_local ps'
  Picks-IsClean (rest ps) h = h
  Picks-IsClean (leave p q) h = (h.0, Picks-IsClean q h.1)
  Picks-IsClean (pick p w q) h = (λ _. ground (arith, sound p w), Picks-IsClean q h.1)

  pub histogram-Picks :
      {i : ℕ} {ps ps' : List ActcData} {addr : List ℕ}
      → Picks Ok i ps addr ps'
      → (f : ℕ) → histogram (counted from_local) ps' f ≡ histogram (counted from_local) ps f
  histogram-Picks (rest ps) f = refl
  histogram-Picks (leave p q) f = ground (arith, histogram-Picks q f)
  histogram-Picks (pick p w q) f = ground (arith, histogram-Picks q f)

  -- Each collected position is one eligible page fewer.
  pub eligible-Picks :
      {i : ℕ} {ps ps' : List ActcData} {addr : List ℕ}
      → Picks Ok i ps addr ps'
      → count_pages (eligible from_local) ps' + length addr ≡ count_pages (eligible from_local) ps
  eligible-Picks (rest ps) = omega arith
  eligible-Picks (leave p q) = ground (arith, eligible-Picks q)
  eligible-Picks (pick p w q) = ground (arith, sound p w, eligible-Picks q)

  -- A collection keeps the scan data of the node consistent.
  pub Picks-IsConsistent :
      (n : ScanNode) {ps : List ActcData} (c : Collected)
      → IsConsistent from_local n ps
      → Picks Ok 0 ps c.addr c.pages
      → ((f : ℕ)
          → c.selected f + histogram chosen ps f
            ≡ n.selected_buckets f + histogram chosen c.pages f)
      → IsConsistent from_local
          (record n { actc_data = some c.pages; selected_buckets = c.selected })
          c.pages
  Picks-IsConsistent n c v q sel = record {
    stored = refl;
    whole = omega (arith, length-Picks q, v.whole);
    small = v.small;
    bytes = Picks-AreBytes q v.bytes;
    clean = Picks-IsClean q v.clean;
    freq_counts = λ f. v.freq_counts f ∙ sym (histogram-Picks q f);
    selected_counts = λ f. omega (arith, sel f, v.selected_counts f);
  }
