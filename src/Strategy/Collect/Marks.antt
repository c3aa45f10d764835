-- ===== src/Strategy/Collect/Marks.antt =====
-- Where the marks of a node stand before and after a collection.
use ubturbo.Prelude.{
  [], Bool, ℕ, arith, ◌≡◌, List, ◌∷◌, ◌||◌, ◌+◌, ◌≤◌, true, false, if◌then◌else◌, ◌==◌, length,
}
use ubturbo.Strategy.Actc.{ActcData}
use ubturbo.Strategy.Collect.Picks.{Picks, rest, leave, pick, Rising, Picks-Rising}

abbrev pub contains : List ℕ → ℕ → Bool
contains [] a = false
contains (x ∷ xs) a = x == a || contains xs a

-- Is the page at position `a` marked, when the list starts at position `i`?
abbrev pub marked_from : ℕ → List ActcData → ℕ → Bool
marked_from i [] a = false
marked_from i (p ∷ ps) a = if i == a then p.is_selected else marked_from (i + 1) ps a

Rising-ge : (i n a : ℕ) (l : List ℕ) → Rising i n l → contains l a ≡ true → i ≤ a
Rising-ge i n a [] r h = cc
Rising-ge i n a (x ∷ l) r h = ground (arith, Rising-ge (x + 1) n a l r.2)

module _ {Ok : ActcData → Type 0} (sound : (p : ActcData) → Ok p → p.is_selected ≡ false) where
  past :
      {i : ℕ} {ps ps' : List ActcData} {addr : List ℕ} (a : ℕ)
      → Picks Ok i ps addr ps'
      → contains addr a ≡ true
      → i ≤ a
  past {i} {ps} {addr = addr} a q h =
      Rising-ge i (i + length ps) a addr (Picks-Rising (omega arith) q) h

  -- A collected page was not marked before, and is marked after.
  pub Picks-fresh :
      {i : ℕ} {ps ps' : List ActcData} {addr : List ℕ} (a : ℕ)
      → Picks Ok i ps addr ps'
      → contains addr a ≡ true
      → (marked_from i ps a ≡ false) × (marked_from i ps' a ≡ true)
  Picks-fresh a (rest ps) h = cc
  Picks-fresh a (leave p q) h = ground (arith, past a q h, Picks-fresh a q h)
  Picks-fresh a (pick p w q) h = ground (arith, sound p w, past a q, Picks-fresh a q)

  -- No mark is taken away.
  pub Picks-keeps :
      {i : ℕ} {ps ps' : List ActcData} {addr : List ℕ} (a : ℕ)
      → Picks Ok i ps addr ps'
      → marked_from i ps a ≡ true
      → marked_from i ps' a ≡ true
  Picks-keeps a (rest ps) h = h
  Picks-keeps a (leave p q) h = ground (arith, Picks-keeps a q)
  Picks-keeps a (pick p w q) h = ground (arith, Picks-keeps a q)
