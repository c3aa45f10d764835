-- ===== src/Strategy/Actc.antt =====
-- plugins/smap/src/user/manage/manage.h: one scanned page with its access count, and the selection
-- modes of plugins/smap/src/user/strategy/separate_strategy.h.
use ubturbo.Prelude.{ℕ, ◌+◌, Bool, not, ◌&&◌, List, [], ◌∷◌, ltb, if◌then◌else◌}

-- `actc_t` is a byte, so a frequency indexes the buckets.
abbrev pub freq_buckets_size : ℕ
freq_buckets_size = 256

pub data SelectionMode : Type 0 where
  select_top_k select_bottom_k : SelectionMode

pub record ActcData : Type 0 where
  pub freq : ℕ
  pub is_white_list_page : Bool
  pub is_selected : Bool
  pub prior : ℕ

-- `freq` comes strictly before the threshold in the order in which the mode takes pages.
abbrev pub beyond : SelectionMode → ℕ → ℕ → Bool
beyond select_top_k freq threshold = ltb threshold freq
beyond select_bottom_k freq threshold = ltb freq threshold

-- A page that a pass over the node may take: not selected before, and not a white-listed page of a
-- local node.
abbrev pub eligible : Bool → ActcData → Bool
eligible from_local p = not p.is_selected && not (from_local && p.is_white_list_page)

-- How many of the pages satisfy a test.
abbrev pub count_pages : (ActcData → Bool) → List ActcData → ℕ
count_pages test [] = 0
count_pages test (p ∷ ps) = (if test p then 1 else 0) + count_pages test ps
