-- ===== src/Strategy/Collect/Picks.antt =====
-- What a collection pass may do to the pages of a node, as a relation between the pages before, the
-- positions collected and the pages after.
use ubturbo.Prelude.{ℕ, ◌+◌, ◌≤◌, ◌<◌, true, List, [], ◌∷◌, arith, length}
use ubturbo.Strategy.Actc.{ActcData}

-- From position `i` on, each page is left as it is, or its position is collected and it is marked;
-- `Ok` says which pages may be collected.
pub data Picks (Ok : ActcData → Type 0) : ℕ → List ActcData → List ℕ → List ActcData → Type 0 where
  rest : {i : ℕ} (ps : List ActcData) → Picks Ok i ps [] ps
  leave :
      {i : ℕ} (p : ActcData) {ps ps' : List ActcData} {addr : List ℕ}
      → Picks Ok (i + 1) ps addr ps'
      → Picks Ok i (p ∷ ps) addr (p ∷ ps')
  pick :
      {i : ℕ} (p : ActcData) {ps ps' : List ActcData} {addr : List ℕ}
      → Ok p
      → Picks Ok (i + 1) ps addr ps'
      → Picks Ok i (p ∷ ps) (i ∷ addr) (record p { is_selected = true } ∷ ps')

-- The positions rise strictly from `i` on and stay below `n`.
abbrev pub Rising : ℕ → ℕ → List ℕ → Type 0
Rising i n [] = Unit {0}
Rising i n (a ∷ l) = (i ≤ a) × (a < n) × Rising (a + 1) n l

Rising-mono : {i j : ℕ} (n : ℕ) (l : List ℕ) → i ≤ j → Rising j n l → Rising i n l
Rising-mono n [] h r = tt
Rising-mono n (a ∷ l) h r = (omega arith, r.1, r.2)

pub Picks-Rising :
    {Ok : ActcData → Type 0} {i n : ℕ} {ps ps' : List ActcData} {addr : List ℕ}
    → i + length ps ≤ n
    → Picks Ok i ps addr ps'
    → Rising i n addr
Picks-Rising h (rest ps) = tt
Picks-Rising {i = i} {n = n} h (leave p {addr = addr} q) =
    Rising-mono n addr (omega arith) (Picks-Rising (omega arith) q)
Picks-Rising h (pick p w q) = (omega arith, omega arith, Picks-Rising (omega arith) q)

pub Picks-map :
    {P Q : ActcData → Type 0} {i : ℕ} {ps ps' : List ActcData} {addr : List ℕ}
    → ((p : ActcData) → P p → Q p)
    → Picks P i ps addr ps'
    → Picks Q i ps addr ps'
Picks-map f (rest ps) = rest ps
Picks-map f (leave p q) = leave p (Picks-map f q)
Picks-map f (pick p w q) = pick p (f p w) (Picks-map f q)
