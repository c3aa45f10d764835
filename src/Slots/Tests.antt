-- ===== src/Slots/Tests.antt =====
-- Threads at a slot, move by move.
use ubturbo.Slots.Refinement.{dying, life, LifeStep, Reached-Refines}
use ubturbo.Prelude.{refl, arith, none, ◌⊎◌, some, ◌≡◌, false, true}
use ubturbo.Slots.Lifetime.{start, move, Reached, IsSafe, published, Reached-Safe, Reached-Settled}
use ubturbo.Slots.{
  reads, takes, checks, releases, begins, drops, reads_refs, swaps, frees, sets_free, slot_free,
  slot_reserved, slot_inuse, slot_removing, Slot, release_ref, SlotState, read_state, After,
  read_refs, take_ref, free_attr, check_state, swap_state, set_free, begin_remove, drop_ref,
  reserve, publish, set_refs, fill,
}

-- A thread takes a reference while another removes the process, and gives it back.
abbrev used : Slot
used = record (published 1) { refs = 1; holding = 1 }

abbrev reached_held : Reached 2 slot_removing used
unfolding read_state take_ref check_state begin_remove drop_ref
reached_held =
    move drops (move begins (move checks (move takes (move reads start refl) refl) refl) refl) refl

Reached-Safe_example : IsSafe used
Reached-Safe_example = Reached-Safe 2 (omega arith) reached_held

-- Its last reference given back, the slot is reclaimed.
abbrev gone : Slot
gone = record (published 2) { refs = 0; has_attr = false }

abbrev reached_gone : Reached 2 slot_free gone
unfolding release_ref read_refs swap_state free_attr set_free
reached_gone =
    move sets_free
      (move frees (move swaps (move reads_refs (move releases reached_held refl) refl) refl) refl)
      refl

Reached-Settled_example :
    ((slot_free ≡ slot_inuse) × (gone.has_attr ≡ true) × (gone.refs ≡ 1))
    ⊎ ((slot_free ≡ slot_free) × (gone.has_attr ≡ false) × (gone.refs ≡ 0))
Reached-Settled_example = Reached-Settled 2 (omega arith) reached_gone (omega arith)

-- What `PidSlotAdd` allows: a thread that has read the state of the first process takes its
-- reference while the slot is being given to a second one, whose `refs` is then set over it.
abbrev then_do : (SlotState → Slot → After) → After → After
then_do f none = none
then_do f (some (st, c)) = f st c

abbrev reused : After
reused = then_do free_attr (
    then_do swap_state (
      then_do read_refs (
        then_do drop_ref (
          then_do begin_remove (
            then_do check_state (
              then_do publish (
                then_do set_refs (
                  then_do take_ref (
                    then_do fill (
                      then_do reserve (
                        then_do set_free (
                          then_do free_attr (
                            then_do swap_state (
                              then_do read_refs (
                                then_do drop_ref (
                                  then_do begin_remove
                                    (read_state slot_inuse (published 3))))))))))))))))))

-- The second process is removed and freed while that thread holds its slot.
freed_while_held :
    reused
    ≡ some (
      slot_reserved,
      record (published 1) { refs = 0; has_attr = false; holding = 1; clearing = 1 },
    )
unfolding read_state take_ref check_state begin_remove drop_ref read_refs swap_state free_attr
    set_free reserve fill set_refs publish
freed_while_held = refl

-- The holder gives the last reference back.
Reached-Refines_example :
    (life slot_removing (record used { refs = 0; holding = 0; reclaiming = 1 }) ≡ dying 1)
    ⊎ LifeStep
        (dying 1)
        (life slot_removing (record used { refs = 0; holding = 0; reclaiming = 1 }))
unfolding release_ref
Reached-Refines_example = Reached-Refines 2 releases (omega arith) reached_held refl
