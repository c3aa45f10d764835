-- ===== src/Migration/Compensation/Totals.antt =====
-- The stats hold what the results say, whatever their number and order.
use ubturbo.Migration.Message.{MigEntry, get_mig_list_success_pages}
use ubturbo.Result.{err, Ensures, Ensures-bind, ok, Result, Ensures-elim}
use ubturbo.Migration.Compensation.{
  change_stat, SwapPairStat, with_stat, has_stat, fresh_stat, is_pair, count_entries, count_entry,
  is_local_to_remote, add_out, is_remote_to_local, add_back,
}
use ubturbo.Prelude.{
  [], ◌^◌, arith, ◌≡◌, ◌++◌, true, ◌+◌, ◌<◌, List, ◌∷◌, ℕ, leb, if_ind, length, false, ◌&&◌, Bool,
  if◌then◌else◌, ◌∙◌, not,
}
use mathlib.Core.List.{◌++◌}

abbrev pub gone_out : List SwapPairStat → ℕ
gone_out [] = 0
gone_out (s ∷ ss) = s.local_to_remote_success + gone_out ss

gone_out-append : (xs ys : List SwapPairStat) → gone_out (xs ++ ys) ≡ gone_out xs + gone_out ys
gone_out-append [] ys = omega arith
gone_out-append (x ∷ xs) ys = omega (arith, gone_out-append xs ys)

-- A change that adds `n` to each stat's pages out, below the limit of a word.
abbrev AddsOut : ℕ → (SwapPairStat → SwapPairStat) → Type 0
AddsOut n f =
    (s : SwapPairStat)
    → s.local_to_remote_success + n < 2 ^ 64
    → (f s).local_to_remote_success ≡ s.local_to_remote_success + n

change_stat-out :
    (n : ℕ) (f : SwapPairStat → SwapPairStat) (pid l r : ℕ) (ss : List SwapPairStat)
    → AddsOut n f
    → has_stat pid l r ss ≡ true
    → gone_out ss + n < 2 ^ 64
    → gone_out (change_stat f pid l r ss) ≡ gone_out ss + n
unfolding change_stat has_stat
change_stat-out n f pid l r [] a h w = absurd (cc)
change_stat-out n f pid l r (s ∷ ss) a h w =
    if_ind (λ (t : List SwapPairStat). gone_out t ≡ gone_out (s ∷ ss) + n) (is_pair pid l r s)
      (λ _. omega (arith, a s (omega (arith, w))))
      (λ no.
        omega (arith, change_stat-out n f pid l r ss a (ground (arith, no, h)) (omega (arith, w))))

with_stat-out :
    (k n : ℕ) (f : SwapPairStat → SwapPairStat) (pid l r : ℕ) (ss : List SwapPairStat)
    → AddsOut n f
    → gone_out ss + n < 2 ^ 64
    → Ensures (λ t. gone_out t ≡ gone_out ss + n) (with_stat k f pid l r ss)
unfolding with_stat
with_stat-out k n f pid l r ss a w =
    if_ind (Ensures (λ (t : List SwapPairStat). gone_out t ≡ gone_out ss + n)) (has_stat pid l r ss)
      (λ h. change_stat-out n f pid l r ss a h w)
      (λ _.
        if_ind (Ensures (λ (t : List SwapPairStat). gone_out t ≡ gone_out ss + n))
          (leb k (length ss)) (λ _. tt)
          (λ _. omega (
            arith,
            gone_out-append ss (f (fresh_stat pid l r) ∷ []),
            a (fresh_stat pid l r) (omega (arith, w)),
          )))

-- The pages that the results say went out for grouped processes.
abbrev pub success_out : (ℕ → Bool) → ℕ → List MigEntry → ℕ
success_out is_grouped k [] = 0
success_out is_grouped k (m ∷ ms) =
    (if is_grouped m.pid && is_local_to_remote k m then get_mig_list_success_pages m else 0)
    + success_out is_grouped k ms

module _ (max_stats : ℕ) (is_grouped : ℕ → Bool) (k : ℕ) where
  abbrev Counts : List SwapPairStat → ℕ → List SwapPairStat → Type 0
  Counts ss n t = gone_out t ≡ gone_out ss + n

  by_direction :
      (g o : Bool) (n : ℕ) (ss : List SwapPairStat) (out other same : Result (List SwapPairStat))
      → gone_out ss + (if g && o then n else 0) < 2 ^ 64
      → (gone_out ss + n < 2 ^ 64 → Ensures (Counts ss n) out)
      → (gone_out ss < 2 ^ 64 → Ensures (Counts ss 0) other)
      → Ensures (Counts ss 0) same
      → Ensures
          (Counts ss (if g && o then n else 0))
          (if not g then same else if o then out else other)
  by_direction true true n ss out other same w x y z = x w
  by_direction true false n ss out other same w x y z = y (omega (arith, w))
  by_direction false o n ss out other same w x y z = z

  count_entry-out :
      (m : MigEntry) (ss : List SwapPairStat)
      → let n =
          if is_grouped m.pid && is_local_to_remote k m then get_mig_list_success_pages m else 0 in
        gone_out ss + n < 2 ^ 64 → Ensures (Counts ss n) (count_entry max_stats is_grouped k m ss)
  unfolding count_entry
  count_entry-out m ss w =
      let success = get_mig_list_success_pages m in
      by_direction (is_grouped m.pid) (is_local_to_remote k m) success ss
        (with_stat max_stats (add_out success) m.pid m.from m.to ss)
        (if is_remote_to_local k m
          then with_stat max_stats (add_back success) m.pid m.to m.from ss
          else ok ss)
        (ok ss) w
        (λ v.
          with_stat-out max_stats success (add_out success) m.pid m.from m.to ss
            (λ s h. omega (arith, h)) v)
        (λ v.
          if_ind (Ensures (Counts ss 0)) (is_remote_to_local k m)
            (λ _.
              with_stat-out max_stats 0 (add_back success) m.pid m.to m.from ss (λ s h. omega arith)
                (omega (arith, v)))
            (λ _. omega arith))
        (omega arith)

  Ensures-weaken :
      (ss t : List SwapPairStat) (n a : ℕ)
      → gone_out t + a ≡ gone_out ss + n
      → (r : Result (List SwapPairStat)) → Ensures (Counts t a) r
      → Ensures (Counts ss n) r
  Ensures-weaken ss t n a e (ok x) h = h ∙ e
  Ensures-weaken ss t n a e (err x) h = tt

  count_entries-out :
      (ms : List MigEntry) (ss : List SwapPairStat)
      → gone_out ss + success_out is_grouped k ms < 2 ^ 64
      → Ensures
          (Counts ss (success_out is_grouped k ms))
          (count_entries max_stats is_grouped k ms ss)
  unfolding count_entries
  count_entries-out [] ss w = omega arith
  count_entries-out (m ∷ ms) ss w =
      let n =
        if is_grouped m.pid && is_local_to_remote k m then get_mig_list_success_pages m else 0 in
      Ensures-bind (Counts ss n) (Counts ss (success_out is_grouped k (m ∷ ms)))
        (count_entry max_stats is_grouped k m ss) (count_entries max_stats is_grouped k ms)
        (count_entry-out m ss (omega (arith, w)))
        λ t e.
          Ensures-weaken ss t (n + success_out is_grouped k ms) (success_out is_grouped k ms)
            (omega (arith, e)) (count_entries max_stats is_grouped k ms t)
            (count_entries-out ms t (omega (arith, e, w)))

-- When `BuildGroupedSwapCompPlans` has counted all results without an error, its stats hold, all
-- together, exactly the pages that the results say went from local to remote nodes for grouped
-- processes, if these are fewer than 2 ^ 64.
pub count_entries-gone_out :
    (max_stats : ℕ) (is_grouped : ℕ → Bool) (nr_local_numa : ℕ) (ms : List MigEntry)
    (ss : List SwapPairStat)
    → success_out is_grouped nr_local_numa ms < 2 ^ 64
    → count_entries max_stats is_grouped nr_local_numa ms [] ≡ ok ss
    → gone_out ss ≡ success_out is_grouped nr_local_numa ms
count_entries-gone_out max_stats is_grouped k ms ss w h =
    Ensures-elim (λ (t : List SwapPairStat). gone_out t ≡ success_out is_grouped k ms)
      (count_entries max_stats is_grouped k ms []) ss
      (Ensures-map (count_entries max_stats is_grouped k ms [])
        (count_entries-out max_stats is_grouped k ms [] (omega (arith, w))))
      h
  where
    Ensures-map :
        (r : Result (List SwapPairStat))
        → Ensures (λ t. gone_out t ≡ 0 + success_out is_grouped k ms) r
        → Ensures (λ t. gone_out t ≡ success_out is_grouped k ms) r
    Ensures-map (ok x) e = omega (arith, e)
    Ensures-map (err x) e = tt
