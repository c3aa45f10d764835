-- ===== src/Migration/Threads/Results.antt =====
-- What `AggregateSubMigResults` adds up.
use ubturbo.Migration.Threads.Share.{sum_threads, pages_of}
use native.Mathlib.Decide.{ℕ_discrete}
use mathlib.Core.Path.{subst}
use ubturbo.Migration.Message.{MigEntry, get_mig_list_success_pages}
use ubturbo.Migration.Threads.{
  aggregate_thread, SubEntry, add_result, Subs, aggregate_sub_mig_results,
}
use ubturbo.Prelude.{
  ◌∷◌, arith, ◌≡◌, refl, Bool, ◌∙◌, ◌+◌, ℕ, List, ◌<◌, ◌^◌, [], ◌==◌, if◌then◌else◌, update, true,
  zero, suc, false, ◌≤◌, sym, update_self, All, update_ne, ap, inr, inl, Bool-cases, ◌⊎◌,
}

-- The pages that one thread loses of entry `j`: all of them when its ioctl failed, else those that
-- the kernel reports.
abbrev pub lost_in : Bool → ℕ → List SubEntry → ℕ
lost_in failed j [] = 0
lost_in failed j (s ∷ ss) =
    (if s.orig_idx == j
      then (if failed then s.entry.nr else s.entry.failed_mig_nr + s.entry.failed_isolated_nr)
      else 0)
    + lost_in failed j ss

abbrev lost : MigEntry → ℕ
lost m = m.failed_mig_nr + m.failed_isolated_nr

abbrev loses : Bool → MigEntry → ℕ
loses failed s = if failed then s.nr else s.failed_mig_nr + s.failed_isolated_nr

-- The sums do not wrap.
add_result-lost :
    (failed : Bool) (s m : MigEntry)
    → lost m + loses failed s < 2 ^ 64
    → (lost (add_result failed s m) ≡ lost m + loses failed s) × ((add_result failed s m).nr ≡ m.nr)
add_result-lost true s m h = ground (arith, h)
add_result-lost false s m h = ground (arith, h)

module _ (failed : Bool) (j : ℕ) where
  -- What writing the entry of index `o` does to that of index `j`.
  abbrev Adds : MigEntry → (ℕ → MigEntry) → ℕ → MigEntry → Type 0
  Adds s ms o m =
      (lost m ≡ lost (ms j) + (if o == j then loses failed s else 0)) × (m.nr ≡ (ms j).nr)

  Adds-here :
      (s v : MigEntry) (ms : ℕ → MigEntry)
      → lost v ≡ lost (ms j) + loses failed s
      → v.nr ≡ (ms j).nr
      → Adds s ms j (update ms j v j)
  Adds-here s v ms e k = subst (Adds s ms j) (sym (update_self ms j v)) (ground (arith, e), k)

  write-Adds :
      (s : MigEntry) (ms : ℕ → MigEntry) (o : ℕ)
      → lost (ms j) + (if o == j then loses failed s else 0) < 2 ^ 64
      → Adds s ms o (update ms o (add_result failed s (ms o)) j)
  write-Adds s ms o h = elim (ℕ_discrete o j) [
    | yes e ↦
        let r = add_result-lost failed s (ms j) (ground (arith, h, e)) in
        subst (λ (o : ℕ). Adds s ms o (update ms o (add_result failed s (ms o)) j)) (sym e)
          (Adds-here s (add_result failed s (ms j)) ms r.0 r.1)
    | no n ↦
        subst (Adds s ms o) (sym (update_ne ms o (add_result failed s (ms o)) j λ e. n (sym e)))
          (ground (arith, n), refl)
  ]

  aggregate_thread-lost :
      (ss : List SubEntry) (ms : ℕ → MigEntry)
      → lost (ms j) + lost_in failed j ss < 2 ^ 64
      → let m = aggregate_thread failed ss ms j in
        (lost m ≡ lost (ms j) + lost_in failed j ss) × (m.nr ≡ (ms j).nr)
  unfolding aggregate_thread
  aggregate_thread-lost [] ms h = (omega arith, refl)
  aggregate_thread-lost (s ∷ ss) ms h =
      let ms' = update ms s.orig_idx (add_result failed s.entry (ms s.orig_idx)) in
      let one : Adds s.entry ms s.orig_idx (ms' j) =
        write-Adds s.entry ms s.orig_idx (omega (arith, h)) in
      let rest = aggregate_thread-lost ss ms' (omega (arith, h, one.0)) in
      (omega (arith, one.0, rest.0), rest.1 ∙ one.1)

abbrev sum_from : (ℕ → ℕ) → ℕ → ℕ → ℕ
sum_from f zero i = 0
sum_from f (suc k) i = f i + sum_from f k (i + 1)

module _ (failed : ℕ → Bool) (subs : Subs) (j : ℕ) where
  aggregate_lost :
      (k i : ℕ) (ms : ℕ → MigEntry)
      → lost (ms j) + sum_from (λ i. lost_in (failed i) j (subs i)) k i < 2 ^ 64
      → let m = aggregate_sub_mig_results failed subs k i ms j in
        (lost m ≡ lost (ms j) + sum_from (λ i. lost_in (failed i) j (subs i)) k i)
        × (m.nr ≡ (ms j).nr)
  unfolding aggregate_sub_mig_results
  aggregate_lost zero i ms h = (omega arith, refl)
  aggregate_lost (suc k) i ms h =
      let one = aggregate_thread-lost (failed i) j (subs i) ms (omega (arith, h)) in
      let rest =
        aggregate_lost k (i + 1) (aggregate_thread (failed i) (subs i) ms)
          (omega (arith, h, one.0)) in
      (omega (arith, one.0, rest.0), rest.1 ∙ one.1)

-- An entry as the message carries it: no failure is counted yet.
abbrev pub IsFresh : MigEntry → Type 0
IsFresh m = (m.failed_mig_nr ≡ 0) × ((m.failed_isolated_nr ≡ 0) × (m.nr < 2 ^ 64))

-- The kernel reports no more failures of an entry than it has pages.
abbrev pub IsHonest : SubEntry → Type 0
IsHonest s = s.entry.failed_mig_nr + s.entry.failed_isolated_nr ≤ s.entry.nr

lost_in-le :
    (failed : Bool) (j : ℕ) (ss : List SubEntry)
    → All IsHonest ss
    → lost_in failed j ss ≤ pages_of j ss
lost_in-le failed j [] h = omega arith
lost_in-le true j (s ∷ ss) h = ground (arith, lost_in-le true j ss h.1)
lost_in-le false j (s ∷ ss) h = ground (arith, h.0, lost_in-le false j ss h.1)

lost_in-failed : (j : ℕ) (ss : List SubEntry) → lost_in true j ss ≡ pages_of j ss
lost_in-failed j [] = refl
lost_in-failed j (s ∷ ss) = ground (arith, lost_in-failed j ss)

-- The pages of entry `j` in the threads that did not fail.
abbrev pub kept : (ℕ → Bool) → Subs → ℕ → ℕ → ℕ
kept failed subs j i = if failed i then 0 else pages_of j (subs i)

sum_from-threads : (f : ℕ → ℕ) (k i : ℕ) → sum_threads f (i + k) ≡ sum_threads f i + sum_from f k i
sum_from-threads f zero i =
    let e : sum_threads f (i + 0) ≡ sum_threads f i = ap (sum_threads f) (omega arith) in
    omega (arith, e)
sum_from-threads f (suc k) i =
    let p : i + suc k ≡ (i + 1) + k = omega arith in
    let q : i + 1 ≡ suc i = omega arith in
    let e = ap (sum_threads f) p in
    let d = ap (sum_threads f) q in omega (arith, e, d, sum_from-threads f k (i + 1))

sum_threads-le :
    (f g : ℕ → ℕ) (t : ℕ) → ((i : ℕ) → i < t → f i ≤ g i) → sum_threads f t ≤ sum_threads g t
sum_threads-le f g zero h = omega arith
sum_threads-le f g (suc t) h =
    omega (arith, h t (omega arith), sum_threads-le f g t λ i k. h i (omega arith))

sum_threads-add :
    (f g : ℕ → ℕ) (t : ℕ) → sum_threads (λ i. f i + g i) t ≡ sum_threads f t + sum_threads g t
sum_threads-add f g zero = omega arith
sum_threads-add f g (suc t) = omega (arith, sum_threads-add f g t)

module _ (failed : ℕ → Bool) (subs : Subs) (j : ℕ) where
  abbrev pub lost_at : ℕ → ℕ
  lost_at i = lost_in (failed i) j (subs i)

  covered : (i : ℕ) → pages_of j (subs i) ≤ lost_at i + kept failed subs j i
  covered i = elim (Bool-cases (failed i)) [
    | inl y ↦ ground (arith, y, lost_in-failed j (subs i))
    | inr n ↦ ground (arith, n)
  ]

  -- What the results say of one entry.
  abbrev pub IsCounted : ℕ → (ℕ → MigEntry) → Type 0
  IsCounted t ms =
      let m = aggregate_sub_mig_results failed subs t 0 ms j in
      (get_mig_list_success_pages m ≤ sum_threads (kept failed subs j) t)
      × ((m.success_to_user ≡ false)
          ⊎ (get_mig_list_success_pages m + sum_threads lost_at t ≡ (ms j).nr))

  success_counted :
      (m : MigEntry) (k l n : ℕ)
      → m.nr ≡ n
      → lost m ≡ l
      → l ≤ n
      → n ≤ l + k
      → (get_mig_list_success_pages m ≤ k)
        × ((m.success_to_user ≡ false) ⊎ (get_mig_list_success_pages m + l ≡ n))
  unfolding get_mig_list_success_pages
  success_counted m k l n e f h g = (
    ground (arith, e, f, h, g),
    elim (Bool-cases m.success_to_user) [
      | inl y ↦ inr (ground (arith, e, f, h, g, y))
      | inr z ↦ inl z
    ],
  )

-- When the kernel reports no more failures of an entry than it has pages, for an entry with no failure
-- yet whose pages are all shared among `t` threads, `AggregateSubMigResults` leaves it so that
-- `GetMigListSuccessPages` counts no more than the pages of the threads whose ioctl succeeded, and, if
-- any thread reports to the user, exactly the entry's pages less those lost.
pub aggregate_sub_mig_results-IsCounted :
    (failed : ℕ → Bool) (subs : Subs) (j t : ℕ) (ms : ℕ → MigEntry)
    → IsFresh (ms j)
    → ((i : ℕ) → All IsHonest (subs i))
    → sum_threads (λ i. pages_of j (subs i)) t ≡ (ms j).nr
    → IsCounted failed subs j t ms
aggregate_sub_mig_results-IsCounted failed subs j t ms fresh honest all =
    let z : 0 + t ≡ t = omega arith in
    let total : sum_from (lost_at failed subs j) t 0 ≡ sum_threads (lost_at failed subs j) t =
      omega (
        arith,
        sum_from-threads (lost_at failed subs j) t 0,
        ap (sum_threads (lost_at failed subs j)) z,
      ) in
    let below =
      sum_threads-le (lost_at failed subs j) (λ i. pages_of j (subs i)) t
        λ i k. lost_in-le (failed i) j (subs i) (honest i) in
    let cover =
      sum_threads-le (λ i. pages_of j (subs i))
        (λ i. (lost_at failed subs j) i + kept failed subs j i) t λ i k. covered failed subs j i in
    let r = aggregate_lost failed subs j t 0 ms (omega (arith, fresh, total, below, all)) in
    success_counted failed subs j (aggregate_sub_mig_results failed subs t 0 ms j)
      (sum_threads (kept failed subs j) t) (sum_threads (lost_at failed subs j) t) (ms j).nr r.1
      (omega (arith, r.0, fresh, total)) (omega (arith, below, all))
      (omega (arith, cover, all, sum_threads-add (lost_at failed subs j) (kept failed subs j) t))
