-- ===== src/Pair/Allocate/Conserved.antt =====
-- What `AllocateRemotePairRequest` moves from the remaining pages to the requests.
use ubturbo.Pair.Distribute.Shares.{distribute_pair_request_pages-Within}
use ubturbo.Pair.Distribute.{u64_sum, distribute_pair_request_pages}
use ubturbo.Pair.Requests.{add_each}
use ubturbo.Pair.Allocate.{rooms, allocate_remote_pair_request, take_each}
use ubturbo.Pair.Distribute.Floors.{All2, sum, u64_sum-exact}
use ubturbo.Prelude.{
  [], ◌≤◌, true, ℕ, ◌∷◌, false, Bool, ◌≡◌, ◌||◌, List, arith, ◌-◌, if◌then◌else◌, if_ind, leb,
  length, u32_max, min, refl, ◌+◌, not, ◌^◌, ◌<◌, ◌==◌, u64, max,
}

abbrev pub SameLength : List Bool → List ℕ → List ℕ → List ℕ → Type 0
SameLength active nr_pages requests remaining =
    (length nr_pages ≡ length active)
    × (length requests ≡ length active)
    × (length remaining ≡ length active)

room-le : (t : Bool) (q r : ℕ) → (if t then 0 else min r (u32_max - q)) ≤ r
room-le true q r = omega arith
room-le false q r = omega arith

rooms-Within :
    (active : List Bool) (nr_pages requests remaining : List ℕ)
    → SameLength active nr_pages requests remaining
    → All2 (λ r w. w ≤ r) remaining (rooms active nr_pages requests remaining)
      × (sum (rooms active nr_pages requests remaining) ≤ sum remaining)
rooms-Within [] nr_pages requests [] h = (tt, omega arith)
rooms-Within [] nr_pages requests (r ∷ remaining) h = absurd (omega (arith, h.2))
rooms-Within (a ∷ active) [] requests remaining h = absurd (omega (arith, h.0))
rooms-Within (a ∷ active) (n ∷ nr_pages) [] remaining h = absurd (omega (arith, h.1))
rooms-Within (a ∷ active) (n ∷ nr_pages) (q ∷ requests) [] h = absurd (omega (arith, h.2))
rooms-Within (a ∷ active) (n ∷ nr_pages) (q ∷ requests) (r ∷ remaining) h =
    let (fits, total) =
      rooms-Within active nr_pages requests remaining
        (omega (arith, h.0), omega (arith, h.1), omega (arith, h.2)) in
    let here = room-le (not a || n == 0 || leb u32_max q) q r in
    ((here, fits), omega (arith, here, total))

All2-trans :
    (xs ws ys : List ℕ)
    → All2 (λ x w. w ≤ x) xs ws
    → All2 (λ w y. y ≤ w) ws ys
    → All2 (λ x y. y ≤ x) xs ys
All2-trans [] [] [] h k = tt
All2-trans [] [] (y ∷ ys) h k = absurd k
All2-trans [] (w ∷ ws) ys h k = absurd h
All2-trans (x ∷ xs) [] ys h k = absurd h
All2-trans (x ∷ xs) (w ∷ ws) [] h k = absurd k
All2-trans (x ∷ xs) (w ∷ ws) (y ∷ ys) h k = (omega (arith, h.0, k.0), All2-trans xs ws ys h.1 k.1)

-- Pages that are added here and taken there.
moved :
    (requests remaining ys : List ℕ)
    → length requests ≡ length remaining
    → All2 (λ r y. y ≤ r) remaining ys
    → sum requests + sum ys < 2 ^ 64
    → sum remaining < 2 ^ 64
    → (sum (add_each requests ys) ≡ sum requests + sum ys)
      × (sum (take_each remaining ys) + sum ys ≡ sum remaining)
unfolding add_each take_each
moved [] [] [] h fits small left = (omega arith, omega arith)
moved [] [] (y ∷ ys) h fits small left = absurd fits
moved [] (r ∷ remaining) ys h fits small left = absurd (omega arith)
moved (q ∷ requests) [] ys h fits small left = absurd (omega arith)
moved (q ∷ requests) (r ∷ remaining) [] h fits small left = absurd fits
moved (q ∷ requests) (r ∷ remaining) (y ∷ ys) h fits small left =
    let (added, taken) =
      moved requests remaining ys (omega arith) fits.1 (omega arith) (omega arith) in
    let sum_word : u64 (q + y) ≡ q + y = omega arith in
    let rest_word : u64 (r + 2 ^ 64 - y) ≡ r - y = omega (arith, fits.0) in
    rw (sum_word, rest_word) (omega (arith, added), omega (arith, taken, fits.0))

-- `AllocateRemotePairRequest` takes from the remaining pages exactly what it adds to the requests; the
-- requests for the node reach what is asked for, or all the room that there is, and are left alone
-- where they are enough.
pub allocate_remote_pair_request-Conserved :
    (active : List Bool) (nr_pages requests remaining : List ℕ) (requested : ℕ)
    → SameLength active nr_pages requests remaining
    → sum requests + sum remaining < 2 ^ 64
    → (sum (allocate_remote_pair_request active nr_pages requested requests remaining).0
          + sum (allocate_remote_pair_request active nr_pages requested requests remaining).1
        ≡ sum requests + sum remaining)
      × (sum (allocate_remote_pair_request active nr_pages requested requests remaining).0
          ≡ max
              (sum requests)
              (min requested (sum requests + sum (rooms active nr_pages requests remaining))))
unfolding allocate_remote_pair_request
allocate_remote_pair_request-Conserved active nr_pages requests remaining requested h small =
    let (fits, room) = rooms-Within active nr_pages requests remaining h in
    let total = sum requests in
    let ws = rooms active nr_pages requests remaining in
    let exact : u64_sum 0 requests ≡ total =
      rw (u64_sum-exact 0 requests (omega arith)) (omega arith) in
    let (given, within) =
      distribute_pair_request_pages-Within (requested - total) ws (omega arith) in
    let ys = distribute_pair_request_pages (requested - total) ws in
    let (added, taken) =
      moved requests remaining ys (omega (arith, h.1, h.2)) (All2-trans remaining ws ys fits within)
        (omega arith) (omega arith) in
    rw exact (
      if_ind
        (λ (p : List ℕ × List ℕ).
          (sum p.0 + sum p.1 ≡ total + sum remaining)
          × (sum p.0 ≡ max total (min requested (total + sum ws))))
        (leb requested total) (λ enough. (refl, ground arith))
        (λ more. (omega arith, ground arith)))
