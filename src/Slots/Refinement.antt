-- ===== src/Slots/Refinement.antt =====
-- A slot as its users see it: a process that is there, then on its way out, then gone.
use mathlib.Core.Path.{subst}
use ubturbo.Prelude.{
  ◌≡◌, some, ℕ, none, ◌⊎◌, ◌-◌, true, false, ◌+◌, inr, arith, inl, refl, ◌<◌, if◌then◌else◌, ◌==◌,
  if_ind,
}
use ubturbo.Slots.{
  reads, takes, checks, undoes, releases, begins, drops, reads_refs, swaps, frees, sets_free,
  slot_free, slot_reserved, slot_inuse, slot_removing, read_state, begin_remove, swap_state,
  SlotState, free_attr, After, read_refs, release_ref, take_ref, set_free, drop_ref, undo_ref,
  check_state, Slot, decrease, one_of, Move, step,
}
use ubturbo.Slots.Lifetime.{IsOwned, Reached, Reached-Owned}

-- The number of threads that hold the process, until it is gone.
pub data Life : Type 0 where
  live dying : ℕ → Life
  dead : Life

-- Only a live process is acquired, and only one that nobody holds is disposed of.
pub data LifeStep : Life → Life → Type 0 where
  acquire : (h : ℕ) → LifeStep (live h) (live (h + 1))
  release_live : (h : ℕ) → 0 < h → LifeStep (live h) (live (h - 1))
  release_dying : (h : ℕ) → 0 < h → LifeStep (dying h) (dying (h - 1))
  retire : (h : ℕ) → LifeStep (live h) (dying h)
  dispose : LifeStep (dying 0) dead

abbrev pub life : SlotState → Slot → Life
life slot_inuse c = live c.holding
life slot_removing c = dying c.holding
life slot_reserved c = if c.has_attr then dying 0 else dead
life slot_free c = dead

-- A step of the slot is a step of the process, or none.
abbrev pub Refines : Life → SlotState × Slot → Type 0
Refines l (st, c) = (life st c ≡ l) ⊎ LifeStep l (life st c)

abbrev RefinesAll : Life → After → Type 0
RefinesAll l none = Unit
RefinesAll l (some after) = Refines l after

one_of-Refines :
    (l : Life) (n : ℕ) (after : SlotState × Slot)
    → (0 < n → Refines l after)
    → RefinesAll l (one_of n (some after))
one_of-Refines l n after h =
    if_ind (RefinesAll l) (n == 0) (λ _. tt) (λ some_thread. h (ground arith))

-- A reference given back by a thread that does not hold the process.
decrease-Refines :
    (st : SlotState) (c : Slot) (l : Life) → life st c ≡ l → Refines l (st, decrease c)
decrease-Refines slot_inuse c l h =
    if_ind (λ d. Refines l (slot_inuse, d)) (c.refs == 1) (λ _. inl h) (λ _. inl h)
decrease-Refines slot_removing c l h =
    if_ind (λ d. Refines l (slot_removing, d)) (c.refs == 1) (λ _. inl h) (λ _. inl h)
decrease-Refines slot_reserved c l h =
    if_ind (λ d. Refines l (slot_reserved, d)) (c.refs == 1) (λ _. inl h) (λ _. inl h)
decrease-Refines slot_free c l h = inl h

read_state-Refines : (st : SlotState) (c : Slot) → RefinesAll (life st c) (read_state st c)
unfolding read_state
read_state-Refines slot_inuse c = one_of-Refines _ c.idle _ (λ pos. inl refl)
read_state-Refines slot_removing c = one_of-Refines _ c.idle _ (λ pos. inl refl)
read_state-Refines slot_reserved c = one_of-Refines _ c.idle _ (λ pos. inl refl)
read_state-Refines slot_free c = one_of-Refines _ c.idle _ (λ pos. inl refl)

take_ref-Refines : (st : SlotState) (c : Slot) → RefinesAll (life st c) (take_ref st c)
unfolding take_ref
take_ref-Refines slot_inuse c = one_of-Refines _ c.looking _ (λ pos. inl refl)
take_ref-Refines slot_removing c = one_of-Refines _ c.looking _ (λ pos. inl refl)
take_ref-Refines slot_reserved c = one_of-Refines _ c.looking _ (λ pos. inl refl)
take_ref-Refines slot_free c = one_of-Refines _ c.looking _ (λ pos. inl refl)

check_state-Refines : (st : SlotState) (c : Slot) → RefinesAll (life st c) (check_state st c)
unfolding check_state
check_state-Refines slot_inuse c = one_of-Refines _ c.checking _ (λ pos. inr (acquire c.holding))
check_state-Refines slot_removing c = one_of-Refines _ c.checking _ (λ pos. inl refl)
check_state-Refines slot_reserved c = one_of-Refines _ c.checking _ (λ pos. inl refl)
check_state-Refines slot_free c = one_of-Refines _ c.checking _ (λ pos. inl refl)

undo_ref-Refines : (st : SlotState) (c : Slot) → RefinesAll (life st c) (undo_ref st c)
unfolding undo_ref
undo_ref-Refines st c =
    one_of-Refines _ c.undoing _
      (λ pos. decrease-Refines st (record c { undoing = c.undoing - 1 }) (life st c) (same st c))
  where
    same : (st : SlotState) (c : Slot) → life st (record c { undoing = c.undoing - 1 }) ≡ life st c
    same slot_inuse c = refl
    same slot_removing c = refl
    same slot_reserved c = refl
    same slot_free c = refl

drop_ref-Refines : (st : SlotState) (c : Slot) → RefinesAll (life st c) (drop_ref st c)
unfolding drop_ref
drop_ref-Refines st c =
    one_of-Refines _ c.dropping _
      (λ pos. decrease-Refines st (record c { dropping = c.dropping - 1 }) (life st c) (same st c))
  where
    same :
        (st : SlotState) (c : Slot) → life st (record c { dropping = c.dropping - 1 }) ≡ life st c
    same slot_inuse c = refl
    same slot_removing c = refl
    same slot_reserved c = refl
    same slot_free c = refl

release_ref-Refines :
    (st : SlotState) (c : Slot) → IsOwned st c → RefinesAll (life st c) (release_ref st c)
unfolding release_ref
release_ref-Refines slot_inuse c h = one_of-Refines _ c.holding _ (λ pos.
    if_ind (λ d. Refines (live c.holding) (slot_inuse, d)) (c.refs == 1)
      (λ _. inr (release_live c.holding pos)) (λ _. inr (release_live c.holding pos)))
release_ref-Refines slot_removing c h = one_of-Refines _ c.holding _ (λ pos.
    if_ind (λ d. Refines (dying c.holding) (slot_removing, d)) (c.refs == 1)
      (λ _. inr (release_dying c.holding pos)) (λ _. inr (release_dying c.holding pos)))
release_ref-Refines slot_reserved c h = one_of-Refines _ c.holding _ (λ pos. absurd (grind arith))
release_ref-Refines slot_free c h = one_of-Refines _ c.holding _ (λ pos. absurd (grind arith))

begin_remove-Refines : (st : SlotState) (c : Slot) → RefinesAll (life st c) (begin_remove st c)
unfolding begin_remove
begin_remove-Refines slot_inuse c = one_of-Refines _ c.idle _ (λ pos. inr (retire c.holding))
begin_remove-Refines slot_removing c = one_of-Refines _ c.idle _ (λ pos. inl refl)
begin_remove-Refines slot_reserved c = one_of-Refines _ c.idle _ (λ pos. inl refl)
begin_remove-Refines slot_free c = one_of-Refines _ c.idle _ (λ pos. inl refl)

read_refs-Refines : (st : SlotState) (c : Slot) → RefinesAll (life st c) (read_refs st c)
unfolding read_refs
read_refs-Refines slot_inuse c = one_of-Refines _ c.reclaiming _ (λ pos.
    if_ind (λ d. Refines (life slot_inuse c) (slot_inuse, d)) (c.refs == 0) (λ _. inl refl)
      (λ _. inl refl))
read_refs-Refines slot_removing c = one_of-Refines _ c.reclaiming _ (λ pos.
    if_ind (λ d. Refines (life slot_removing c) (slot_removing, d)) (c.refs == 0) (λ _. inl refl)
      (λ _. inl refl))
read_refs-Refines slot_reserved c = one_of-Refines _ c.reclaiming _ (λ pos.
    if_ind (λ d. Refines (life slot_reserved c) (slot_reserved, d)) (c.refs == 0) (λ _. inl refl)
      (λ _. inl refl))
read_refs-Refines slot_free c = one_of-Refines _ c.reclaiming _ (λ pos. inl refl)

swap_state-Refines :
    (st : SlotState) (c : Slot) → IsOwned st c → RefinesAll (life st c) (swap_state st c)
unfolding swap_state
swap_state-Refines slot_inuse c h = one_of-Refines _ c.swapping _ (λ pos. inl refl)
swap_state-Refines slot_removing c h = one_of-Refines _ c.swapping _ (λ pos.
    let unheld : c.holding ≡ 0 = grind arith in
    let there : c.has_attr ≡ true = h.2.1 in inl (rw (there, unheld)))
swap_state-Refines slot_reserved c h = one_of-Refines _ c.swapping _ (λ pos. inl refl)
swap_state-Refines slot_free c h = one_of-Refines _ c.swapping _ (λ pos. inl refl)

free_attr-Refines :
    (st : SlotState) (c : Slot) → IsOwned st c → RefinesAll (life st c) (free_attr st c)
unfolding free_attr
free_attr-Refines slot_inuse c h = one_of-Refines _ c.freeing _ (λ pos. absurd (grind arith))
free_attr-Refines slot_removing c h = one_of-Refines _ c.freeing _ (λ pos. absurd (grind arith))
free_attr-Refines slot_reserved c h =
    one_of-Refines _ c.freeing _
      (λ pos. let there : c.has_attr ≡ true = grind arith in inr (rw there dispose))
free_attr-Refines slot_free c h = one_of-Refines _ c.freeing _ (λ pos. absurd (grind arith))

set_free-Refines :
    (st : SlotState) (c : Slot) → IsOwned st c → RefinesAll (life st c) (set_free st c)
unfolding set_free
set_free-Refines slot_inuse c h = one_of-Refines _ c.clearing _ (λ pos. absurd (grind arith))
set_free-Refines slot_removing c h = one_of-Refines _ c.clearing _ (λ pos. absurd (grind arith))
set_free-Refines slot_reserved c h =
    one_of-Refines _ c.clearing _
      (λ pos. let gone : c.has_attr ≡ false = grind arith in inl (rw gone))
set_free-Refines slot_free c h = one_of-Refines _ c.clearing _ (λ pos. absurd (grind arith))

step-Refines :
    (m : Move) (st : SlotState) (c : Slot) → IsOwned st c → RefinesAll (life st c) (step m st c)
step-Refines reads st c h = read_state-Refines st c
step-Refines takes st c h = take_ref-Refines st c
step-Refines checks st c h = check_state-Refines st c
step-Refines undoes st c h = undo_ref-Refines st c
step-Refines releases st c h = release_ref-Refines st c h
step-Refines begins st c h = begin_remove-Refines st c
step-Refines drops st c h = drop_ref-Refines st c
step-Refines reads_refs st c h = read_refs-Refines st c
step-Refines swaps st c h = swap_state-Refines st c h
step-Refines frees st c h = free_attr-Refines st c h
step-Refines sets_free st c h = set_free-Refines st c h

-- Every move of fewer than 2 ^ 31 threads on a slot, as long as it is not given to another process,
-- is a step of the life of its process or changes nothing of it: a thread acquires only a process
-- that has not been removed, and the attributes are freed only after a removal, when nobody holds
-- the process.
pub Reached-Refines :
    (n : ℕ) (m : Move) {st st' : SlotState} {c c' : Slot}
    → n < 2147483648
    → Reached n st c
    → step m st c ≡ some (st', c')
    → (life st' c' ≡ life st c) ⊎ LifeStep (life st c) (life st' c')
Reached-Refines n m {st} {c} few reached e =
    subst (RefinesAll (life st c)) e (step-Refines m st c (Reached-Owned n st c few reached))
