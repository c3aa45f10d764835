-- ===== src/Migration/Threads/Share.antt =====
-- How `BuildSubMigrateMsgs` shares the pages of an entry among the threads.
use ubturbo.Result.{ok, Ensures-elim, Ensures}
use ubturbo.Migration.Threads.{
  SubEntry, split_loop, Subs, sub_entry, split_entries, build_sub_migrate_msgs,
}
use ubturbo.Migration.Message.{MigEntry}
use mathlib.Core.Path.{subst}
use native.Mathlib.Omega.{div_fact, div_any, mod_fact}
use native.Mathlib.Decide.{ℕ_discrete}
use ubturbo.Prelude.{
  ◌+◌, arith, ◌%◌, ◌<◌, suc, ◌++◌, ◌&&◌, zero, List, ◌^◌, ◌∷◌, ◌/◌, ℕ, [], ◌≡◌, if◌then◌else◌, ltb,
  ◌==◌, leb, refl, if_ind, u64, update, ◌-◌, All, ◌≤◌, ◌*◌, sym, min, ◌∙◌, not, Bool,
}

-- The pages of entry `j` in one thread's message.
abbrev pub pages_of : ℕ → List SubEntry → ℕ
pages_of j [] = 0
pages_of j (s ∷ ss) = (if s.orig_idx == j then s.entry.nr else 0) + pages_of j ss

-- The number of pages of an entry, 0 past the end.
abbrev pub nr_at : List MigEntry → ℕ → ℕ
nr_at [] i = 0
nr_at (m ∷ ms) zero = m.nr
nr_at (m ∷ ms) (suc i) = nr_at ms i

-- The sum over the threads below `t`.
abbrev pub sum_threads : (ℕ → ℕ) → ℕ → ℕ
sum_threads f zero = 0
sum_threads f (suc t) = sum_threads f t + f t

abbrev one_more : ℕ → ℕ → ℕ
one_more i rem = if ltb i rem then 1 else 0

-- The share of thread `i` of `t` in `n` pages.
abbrev pub share : ℕ → ℕ → ℕ → ℕ
share t i n = if n == 0 then 0 else n / t + one_more i (n % t)

pages_of-append :
    (j : ℕ) (xs ys : List SubEntry) → pages_of j (xs ++ ys) ≡ pages_of j xs + pages_of j ys
pages_of-append j [] ys = omega arith
pages_of-append j (x ∷ xs) ys = omega (arith, pages_of-append j xs ys)

pages_of-give :
    (j j' i i' : ℕ) (subs : Subs) (x : SubEntry)
    → x.orig_idx ≡ j
    → pages_of j' (update subs i (subs i ++ (x ∷ [])) i')
      ≡ pages_of j' (subs i') + (if (i == i') && (j == j') then x.entry.nr else 0)
pages_of-give j j' i i' subs x e = ground (arith, e, pages_of-append j' (subs i) (x ∷ []))

module _ (chunk rem j : ℕ) (m : MigEntry) (word : chunk + 1 < 2 ^ 64) (j' i' : ℕ) where
  abbrev given : ℕ → ℕ → ℕ
  given k i = if (j == j') && (leb i i' && ltb i' (i + k)) then chunk + one_more i' rem else 0

  split_loop_pages :
      (k i offset : ℕ) (subs : Subs)
      → pages_of j' (split_loop chunk rem j m k i offset subs i')
        ≡ pages_of j' (subs i') + given k i
  unfolding split_loop
  split_loop_pages zero i offset subs = ground arith
  split_loop_pages (suc k) i offset subs =
      let n = u64 (chunk + one_more i rem) in
      let exact : n ≡ chunk + one_more i rem = ground (arith, word) in
      let x = sub_entry j m n offset in
      let subs' = update subs i (subs i ++ (x ∷ [])) in
      let skipped = split_loop_pages k (i + 1) offset subs in
      let gave = split_loop_pages k (i + 1) (u64 (offset + n)) subs' in
      let one = pages_of-give j j' i i' subs x refl in
      if_ind (λ (r : Subs). pages_of j' (r i') ≡ pages_of j' (subs i') + given (suc k) i) (n == 0)
        (λ z. ground (arith, skipped, exact, z)) (λ z. ground (arith, gave, one, exact, z))

div_le : (a t : ℕ) → 0 < t → a / t ≤ a
div_le a zero h = absurd (omega arith)
div_le a (suc k) h = omega (arith, div_fact a k)

nr_at-past :
    (m : MigEntry) (ms : List MigEntry) (j j' : ℕ)
    → j < j'
    → nr_at (m ∷ ms) (j' - j) ≡ nr_at ms (j' - (j + 1))
nr_at-past m ms j j' h =
    let e : j' - j ≡ suc (j' - (j + 1)) = omega (arith, h) in
    subst (λ (d : ℕ). nr_at (m ∷ ms) d ≡ nr_at ms (j' - (j + 1))) (sym e) refl

nr_at-here :
    (m : MigEntry) (ms : List MigEntry) (j j' : ℕ) → j ≡ j' → nr_at (m ∷ ms) (j' - j) ≡ m.nr
nr_at-here m ms j j' h =
    let e : j' - j ≡ 0 = omega (arith, h) in subst (λ (d : ℕ). nr_at (m ∷ ms) d ≡ m.nr) (sym e) refl

abbrev joins : ℕ → ℕ → ℕ → List MigEntry → ℕ → ℕ
joins t i' j ms j' = if leb j j' then share t i' (nr_at ms (j' - j)) else 0

module _ (t i' : ℕ) (some_thread : 0 < t) (in_range : i' < t) where
  abbrev Words : List MigEntry → Type 0
  Words ms = All (λ (m : MigEntry). m.nr + 1 < 2 ^ 64) ms

  step_pages :
      (j : ℕ) (m : MigEntry) (subs : Subs) (j' : ℕ)
      → m.nr + 1 < 2 ^ 64
      → pages_of j'
          ((if m.nr == 0 then subs else split_loop (m.nr / t) (m.nr % t) j m t 0 0 subs) i')
        ≡ pages_of j' (subs i') + (if j == j' then share t i' m.nr else 0)
  step_pages j m subs j' w =
      if_ind
        (λ (r : Subs).
          pages_of j' (r i') ≡ pages_of j' (subs i') + (if j == j' then share t i' m.nr else 0))
        (m.nr == 0) (λ z. ground (arith, z)) (λ z. ground (arith, z, loop, in_range))
    where
      small : m.nr / t + 1 < 2 ^ 64
      small = omega (arith, div_le m.nr t some_thread, w)

      loop :
          pages_of j' (split_loop (m.nr / t) (m.nr % t) j m t 0 0 subs i')
          ≡ pages_of j' (subs i') + given (m.nr / t) (m.nr % t) j m small j' i' t 0
      loop = split_loop_pages (m.nr / t) (m.nr % t) j m small j' i' t 0 0 subs

  join_step :
      (m : MigEntry) (ms : List MigEntry) (j j' before after : ℕ)
      → after ≡ before + (if j == j' then share t i' m.nr else 0)
      → after + joins t i' (j + 1) ms j' ≡ before + joins t i' j (m ∷ ms) j'
  join_step m ms j j' before after h = elim (ℕ_discrete j j') [
    | yes e ↦ ground (arith, h, e, nr_at-here m ms j j')
    | no n ↦ ground (arith, h, n, nr_at-past m ms j j')
  ]

  split_entries_pages :
      (j : ℕ) (ms : List MigEntry) (subs : Subs) (j' : ℕ)
      → Words ms
      → pages_of j' (split_entries t j ms subs i') ≡ pages_of j' (subs i') + joins t i' j ms j'
  unfolding split_entries
  split_entries_pages j [] subs j' w = ground arith
  split_entries_pages j (m ∷ ms) subs j' w =
      split_entries_pages (j + 1) ms
        (if m.nr == 0 then subs else split_loop (m.nr / t) (m.nr % t) j m t 0 0 subs) j' w.1
      ∙ join_step m ms j j' (pages_of j' (subs i')) _ (step_pages j m subs j' w.0)

-- The shares add up.
sum_shares : (t chunk rem : ℕ) → sum_threads (λ i. chunk + one_more i rem) t ≡ t * chunk + min t rem
sum_shares zero chunk rem = omega arith
sum_shares (suc t) chunk rem = ground (arith, sum_shares t chunk rem)

sum_threads-cong :
    (f g : ℕ → ℕ) (t : ℕ) → ((i : ℕ) → i < t → f i ≡ g i) → sum_threads f t ≡ sum_threads g t
sum_threads-cong f g zero h = refl
sum_threads-cong f g (suc t) h =
    omega (arith, h t (omega arith), sum_threads-cong f g t λ i k. h i (omega arith))

sum_zeros : (t : ℕ) → sum_threads (λ _. 0) t ≡ 0
sum_zeros zero = refl
sum_zeros (suc t) = omega (arith, sum_zeros t)

mod_small : (n t : ℕ) → 0 < t → n % t ≤ t
mod_small n zero h = absurd (omega arith)
mod_small n (suc k) h = omega (arith, mod_fact n k)

sum-share : (t n : ℕ) → 0 < t → sum_threads (λ i. share t i n) t ≡ n
sum-share t n h = elim (ℕ_discrete n 0) [
  | yes e ↦
      sum_threads-cong (λ i. share t i n) (λ _. 0) t (λ i k. ground (arith, e))
      ∙ sum_zeros t
      ∙ sym e
  | no ne ↦
      sum_threads-cong (λ i. share t i n) (λ i. n / t + one_more i (n % t)) t
        (λ i k. ground (arith, ne))
      ∙ sum_shares t (n / t) (n % t)
      ∙ omega (arith, div_any n t, mod_small n t h)
]

joins-zero : (t i : ℕ) (ms : List MigEntry) (j : ℕ) → 0 + joins t i 0 ms j ≡ share t i (nr_at ms j)
joins-zero t i ms j =
    let e : j ≡ j - 0 = omega arith in
    subst (λ (d : ℕ). 0 + (if leb 0 j then share t i (nr_at ms d) else 0) ≡ share t i (nr_at ms j))
      e (ground arith)

-- What one entry gets: each thread its share, all together the entry.
abbrev pub IsShared : ℕ → List MigEntry → Subs → Type 0
IsShared t ms subs =
    (j : ℕ)
    → ((i : ℕ) → i < t → pages_of j (subs i) ≡ share t i (nr_at ms j))
      × (sum_threads (λ i. pages_of j (subs i)) t ≡ nr_at ms j)

-- When `BuildSubMigrateMsgs` returns 0 for entries below 2 ^ 64 - 1 pages, each thread has its share
-- of every entry, `nr / nrThreads` pages and one more for the first threads, and the shares add up to
-- the entry.
pub build_sub_migrate_msgs-IsShared :
    (can_alloc : Bool) (t : ℕ) (ms : List MigEntry) (subs : Subs)
    → All (λ (m : MigEntry). m.nr + 1 < 2 ^ 64) ms
    → build_sub_migrate_msgs can_alloc t ms ≡ ok subs
    → IsShared t ms subs
unfolding build_sub_migrate_msgs
build_sub_migrate_msgs-IsShared can_alloc t ms subs w h =
    Ensures-elim (IsShared t ms) (build_sub_migrate_msgs can_alloc t ms) subs
      (if_ind (Ensures (IsShared t ms)) (t == 0) (λ _. tt)
        λ n.
          if_ind (Ensures (IsShared t ms)) (not can_alloc) (λ _. tt)
            λ _. shared (ground (arith, n)))
      h
  where
    shared : 0 < t → IsShared t ms (split_entries t 0 ms λ _. [])
    shared p j =
        let each : (i : ℕ)
            → i < t
            → pages_of j (split_entries t 0 ms (λ _. []) i) ≡ share t i (nr_at ms j) =
          λ i k. split_entries_pages t i p k 0 ms (λ _. []) j w ∙ joins-zero t i ms j in
        (
          each,
          sum_threads-cong (λ i. pages_of j (split_entries t 0 ms (λ _. []) i))
                (λ i. share t i (nr_at ms j)) t each
              ∙ sum-share t (nr_at ms j) p,
        )
