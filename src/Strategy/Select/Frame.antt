-- ===== src/Strategy/Select/Frame.antt =====
-- What a write to one migration list leaves of the others.
use ubturbo.Prelude.{ℕ, ◌≢◌, ◌≡◌, ◌⊎◌, arith}
use ubturbo.Strategy.Select.{Work, MigList, set_list}

module _ (w : Work) (from to : ℕ) (l : MigList) where
  pub set_list_self : (set_list w from to l).mlist from to ≡ l
  set_list_self = ground arith

  pub set_list_ne :
      (a b : ℕ) → (a ≢ from) ⊎ (b ≢ to) → (set_list w from to l).mlist a b ≡ w.mlist a b
  set_list_ne a b h = ground arith
