-- ===== src/Slots/Lifetime.antt =====
-- What the protocol of a slot guarantees while the slot is not given to another process.
use mathlib.Core.Path.{subst}
use ubturbo.Prelude.{true, some, ◌+◌, ◌≡◌, ◌⊎◌, ℕ, false, none, ◌<◌, arith, if_ind, ◌==◌, refl, inr}
use ubturbo.Slots.{
  reads, takes, checks, undoes, releases, begins, drops, reads_refs, swaps, frees, sets_free,
  slot_free, slot_reserved, slot_inuse, slot_removing, SlotState, Slot, take_ref, read_state, After,
  one_of, swap_state, free_attr, undo_ref, drop_ref, release_ref, begin_remove, read_refs, set_free,
  check_state, Move, step,
}

-- The threads that own a reference.
abbrev pub owners : Slot → ℕ
owners c = c.checking + c.holding + c.undoing + c.dropping

abbrev threads : Slot → ℕ
threads c = c.idle + c.looking + owners c + c.reclaiming + c.swapping + c.freeing + c.clearing

-- What holds in each state. In use, the slot itself owns a reference.
abbrev pub InState : SlotState → Slot → Type 0
InState slot_inuse c =
    (c.refs ≡ owners c + 1)
    × (c.has_attr ≡ true)
    × (c.dropping + c.reclaiming + c.swapping + c.freeing + c.clearing ≡ 0)
InState slot_removing c =
    (c.refs ≡ owners c)
    × (c.has_attr ≡ true)
    × (c.freeing + c.clearing ≡ 0)
    × ((c.swapping ≡ 0) ⊎ (c.holding + c.dropping ≡ 0))
    × (0 < c.refs + c.reclaiming + c.swapping)
InState slot_reserved c =
    (c.refs ≡ owners c)
    × (c.holding + c.dropping ≡ 0)
    × (((c.freeing ≡ 1) × (c.clearing ≡ 0) × (c.has_attr ≡ true))
        ⊎ ((c.freeing ≡ 0) × (c.clearing ≡ 1) × (c.has_attr ≡ false)))
InState slot_free c =
    (c.refs ≡ owners c)
    × (c.holding + c.dropping ≡ 0)
    × (c.freeing + c.clearing ≡ 0)
    × (c.has_attr ≡ false)

-- Fewer than 2 ^ 31 threads, and none in `PidSlotAdd`.
abbrev pub IsOwned : SlotState → Slot → Type 0
IsOwned st c = (threads c < 2147483648) × (c.filling + c.counting + c.publishing ≡ 0) × InState st c

abbrev pub Next : After → Type 0
Next none = Unit
Next (some (st, c)) = IsOwned st c

one_of-Next : (n : ℕ) (after : After) → (0 < n → Next after) → Next (one_of n after)
one_of-Next n after h = if_ind Next (n == 0) (λ _. tt) (λ some_thread. h (ground arith))

read_state-Next : (st : SlotState) (c : Slot) → IsOwned st c → Next (read_state st c)
unfolding read_state
read_state-Next slot_inuse c h = one_of-Next c.idle _ (λ pos. grind arith)
read_state-Next slot_removing c h = one_of-Next c.idle _ (λ pos. grind arith)
read_state-Next slot_reserved c h = one_of-Next c.idle _ (λ pos. grind arith)
read_state-Next slot_free c h = one_of-Next c.idle _ (λ pos. grind arith)

take_ref-Next : (st : SlotState) (c : Slot) → IsOwned st c → Next (take_ref st c)
unfolding take_ref
take_ref-Next slot_inuse c h = one_of-Next c.looking _ (λ pos. grind arith)
take_ref-Next slot_removing c h = one_of-Next c.looking _ (λ pos. grind arith)
take_ref-Next slot_reserved c h = one_of-Next c.looking _ (λ pos. grind arith)
take_ref-Next slot_free c h = one_of-Next c.looking _ (λ pos. grind arith)

check_state-Next : (st : SlotState) (c : Slot) → IsOwned st c → Next (check_state st c)
unfolding check_state
check_state-Next slot_inuse c h = one_of-Next c.checking _ (λ pos. grind arith)
check_state-Next slot_removing c h = one_of-Next c.checking _ (λ pos. grind arith)
check_state-Next slot_reserved c h = one_of-Next c.checking _ (λ pos. grind arith)
check_state-Next slot_free c h = one_of-Next c.checking _ (λ pos. grind arith)

undo_ref-Next : (st : SlotState) (c : Slot) → IsOwned st c → Next (undo_ref st c)
unfolding undo_ref
undo_ref-Next slot_inuse c h = one_of-Next c.undoing _ (λ pos. grind arith)
undo_ref-Next slot_removing c h = one_of-Next c.undoing _ (λ pos. grind arith)
undo_ref-Next slot_reserved c h = one_of-Next c.undoing _ (λ pos. grind arith)
undo_ref-Next slot_free c h = one_of-Next c.undoing _ (λ pos. grind arith)

release_ref-Next : (st : SlotState) (c : Slot) → IsOwned st c → Next (release_ref st c)
unfolding release_ref
release_ref-Next slot_inuse c h = one_of-Next c.holding _ (λ pos. grind arith)
release_ref-Next slot_removing c h = one_of-Next c.holding _ (λ pos. grind arith)
release_ref-Next slot_reserved c h = one_of-Next c.holding _ (λ pos. grind arith)
release_ref-Next slot_free c h = one_of-Next c.holding _ (λ pos. grind arith)

begin_remove-Next : (st : SlotState) (c : Slot) → IsOwned st c → Next (begin_remove st c)
unfolding begin_remove
begin_remove-Next slot_inuse c h = one_of-Next c.idle _ (λ pos. grind arith)
begin_remove-Next slot_removing c h = one_of-Next c.idle _ (λ pos. grind arith)
begin_remove-Next slot_reserved c h = one_of-Next c.idle _ (λ pos. grind arith)
begin_remove-Next slot_free c h = one_of-Next c.idle _ (λ pos. grind arith)

drop_ref-Next : (st : SlotState) (c : Slot) → IsOwned st c → Next (drop_ref st c)
unfolding drop_ref
drop_ref-Next slot_inuse c h = one_of-Next c.dropping _ (λ pos. grind arith)
drop_ref-Next slot_removing c h = one_of-Next c.dropping _ (λ pos. grind arith)
drop_ref-Next slot_reserved c h = one_of-Next c.dropping _ (λ pos. grind arith)
drop_ref-Next slot_free c h = one_of-Next c.dropping _ (λ pos. grind arith)

read_refs-Next : (st : SlotState) (c : Slot) → IsOwned st c → Next (read_refs st c)
unfolding read_refs
read_refs-Next slot_inuse c h = one_of-Next c.reclaiming _ (λ pos. grind arith)
read_refs-Next slot_removing c h = one_of-Next c.reclaiming _ (λ pos. grind arith)
read_refs-Next slot_reserved c h = one_of-Next c.reclaiming _ (λ pos. grind arith)
read_refs-Next slot_free c h = one_of-Next c.reclaiming _ (λ pos. grind arith)

swap_state-Next : (st : SlotState) (c : Slot) → IsOwned st c → Next (swap_state st c)
unfolding swap_state
swap_state-Next slot_inuse c h = one_of-Next c.swapping _ (λ pos. grind arith)
swap_state-Next slot_removing c h = one_of-Next c.swapping _ (λ pos. grind arith)
swap_state-Next slot_reserved c h = one_of-Next c.swapping _ (λ pos. grind arith)
swap_state-Next slot_free c h = one_of-Next c.swapping _ (λ pos. grind arith)

free_attr-Next : (st : SlotState) (c : Slot) → IsOwned st c → Next (free_attr st c)
unfolding free_attr
free_attr-Next slot_inuse c h = one_of-Next c.freeing _ (λ pos. grind arith)
free_attr-Next slot_removing c h = one_of-Next c.freeing _ (λ pos. grind arith)
free_attr-Next slot_reserved c h = one_of-Next c.freeing _ (λ pos. grind arith)
free_attr-Next slot_free c h = one_of-Next c.freeing _ (λ pos. grind arith)

set_free-Next : (st : SlotState) (c : Slot) → IsOwned st c → Next (set_free st c)
unfolding set_free
set_free-Next slot_inuse c h = one_of-Next c.clearing _ (λ pos. grind arith)
set_free-Next slot_removing c h = one_of-Next c.clearing _ (λ pos. grind arith)
set_free-Next slot_reserved c h = one_of-Next c.clearing _ (λ pos. grind arith)
set_free-Next slot_free c h = one_of-Next c.clearing _ (λ pos. grind arith)

step-Next : (m : Move) (st : SlotState) (c : Slot) → IsOwned st c → Next (step m st c)
step-Next reads = read_state-Next
step-Next takes = take_ref-Next
step-Next checks = check_state-Next
step-Next undoes = undo_ref-Next
step-Next releases = release_ref-Next
step-Next begins = begin_remove-Next
step-Next drops = drop_ref-Next
step-Next reads_refs = read_refs-Next
step-Next swaps = swap_state-Next
step-Next frees = free_attr-Next
step-Next sets_free = set_free-Next

-- A slot that has just been published for a process, before `n` threads use it.
abbrev pub published : ℕ → Slot
published n = record {
  refs = 1;
  has_attr = true;
  idle = n;
  looking = 0;
  checking = 0;
  holding = 0;
  undoing = 0;
  dropping = 0;
  reclaiming = 0;
  swapping = 0;
  freeing = 0;
  clearing = 0;
  filling = 0;
  counting = 0;
  publishing = 0;
}

-- The slots that the moves of the threads reach, in any order.
pub data Reached (n : ℕ) : SlotState → Slot → Type 0 where
  start : Reached n slot_inuse (published n)
  move :
      (m : Move) {st st' : SlotState} {c c' : Slot}
      → Reached n st c
      → step m st c ≡ some (st', c')
      → Reached n st' c'

pub Reached-Owned :
    (n : ℕ) (st : SlotState) (c : Slot) → n < 2147483648 → Reached n st c → IsOwned st c
Reached-Owned n _ _ few start = grind arith
Reached-Owned n st' c' few (move m {st} {c} r e) =
    subst Next e (step-Next m st c (Reached-Owned n st c few r))

abbrev pub IsSafe : Slot → Type 0
IsSafe c =
    ((c.holding ≡ 0) ⊎ (c.has_attr ≡ true))
    × ((c.freeing ≡ 0) ⊎ ((c.freeing ≡ 1) × (c.has_attr ≡ true) × (c.holding ≡ 0)))

state-Safe : (st : SlotState) (c : Slot) → InState st c → IsSafe c
state-Safe slot_inuse c h = grind arith
state-Safe slot_removing c h = grind arith
state-Safe slot_reserved c h = grind arith
state-Safe slot_free c h = grind arith

state-Settled :
    (st : SlotState) (c : Slot)
    → owners c + c.reclaiming + c.swapping + c.freeing + c.clearing ≡ 0
    → InState st c
    → ((st ≡ slot_inuse) × (c.has_attr ≡ true) × (c.refs ≡ 1))
      ⊎ ((st ≡ slot_free) × (c.has_attr ≡ false) × (c.refs ≡ 0))
state-Settled slot_inuse c quiet h = grind arith
state-Settled slot_removing c quiet h = absurd (grind arith)
state-Settled slot_reserved c quiet h = absurd (grind arith)
state-Settled slot_free c quiet h = inr (refl, h.3, grind arith)

module _ (n : ℕ) (few : n < 2147483648) {st : SlotState} {c : Slot} (reached : Reached n st c) where
  -- However the moves of fewer than 2 ^ 31 threads interleave, as long as the slot is not given to
  -- another process: while a thread holds a slot that `PidSlotGetRef` returned, its `attr` is there;
  -- and a thread that is about to free `attr` is the only one, finds it there, and no thread holds
  -- the slot.
  pub Reached-Safe : IsSafe c
  Reached-Safe = state-Safe st c (Reached-Owned n st c few reached).2

  -- Once all threads are outside of the functions and none holds the slot, a slot that was removed is
  -- free, its `attr` freed and its reference count 0; otherwise it is in use with one reference.
  pub Reached-Settled :
      owners c + c.reclaiming + c.swapping + c.freeing + c.clearing ≡ 0
      → ((st ≡ slot_inuse) × (c.has_attr ≡ true) × (c.refs ≡ 1))
        ⊎ ((st ≡ slot_free) × (c.has_attr ≡ false) × (c.refs ≡ 0))
  Reached-Settled quiet = state-Settled st c quiet (Reached-Owned n st c few reached).2
