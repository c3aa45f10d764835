-- ===== src/Slots.antt =====
-- The slot of a managed process, plugins/smap/src/user/manage/manage.c: `PidSlotGetRef` (and the body
-- of `PidSlotCollectRefs`), `PidSlotReleaseRefs`, `PidSlotRemove`, `PidSlotTryReclaim` and
-- `PidSlotAdd`, which run at the same time and without a lock. One slot, which all threads look for;
-- between two accesses to its atomic variables a thread stands at a place of its function, and the
-- threads at the same place are counted.
pub mod Lifetime
pub mod Refinement
mod Tests
use ubturbo.Prelude.{Option, Bool, some, ◌-◌, true, none, false, ◌+◌, ℕ, if◌then◌else◌, ◌==◌, u32}

pub data SlotState : Type 0 where
  slot_free slot_reserved slot_inuse slot_removing : SlotState

-- `refs`, whether `attr` is there, and the numbers of threads: outside of all functions; with a state
-- read as in use; with a reference taken; with the slot to use; with a reference to give back;
-- with a removal to finish; before the read of `refs`, the swap, the release and the last write of
-- `PidSlotTryReclaim`; and before each write of `PidSlotAdd`.
pub record Slot : Type 0 where
  pub refs : ℕ
  pub has_attr : Bool
  pub idle : ℕ
  pub looking : ℕ
  pub checking : ℕ
  pub holding : ℕ
  pub undoing : ℕ
  pub dropping : ℕ
  pub reclaiming : ℕ
  pub swapping : ℕ
  pub freeing : ℕ
  pub clearing : ℕ
  pub filling : ℕ
  pub counting : ℕ
  pub publishing : ℕ

abbrev pub After : Type 0
After = Option (SlotState × Slot)

-- A move of one of `n` threads; there is none when there is no such thread.
abbrev pub one_of : ℕ → After → After
one_of n after = if n == 0 then none else after

-- `EnvAtomicRead(&s->state) == PID_SLOT_INUSE`, the first of `PidSlotGetRef`; if not, it goes on to
-- another slot.
unfoldable pub read_state : SlotState → Slot → After
read_state slot_inuse c =
    one_of c.idle (some (slot_inuse, record c { idle = c.idle - 1; looking = c.looking + 1 }))
read_state st c = one_of c.idle (some (st, c))

unfoldable pub take_ref : SlotState → Slot → After
take_ref st c = one_of c.looking (
    some (
      st,
      record c { looking = c.looking - 1; refs = u32 (c.refs + 1); checking = c.checking + 1 },
    ))

unfoldable pub check_state : SlotState → Slot → After
check_state slot_inuse c =
    one_of c.checking
      (some (slot_inuse, record c { checking = c.checking - 1; holding = c.holding + 1 }))
check_state st c =
    one_of c.checking (some (st, record c { checking = c.checking - 1; undoing = c.undoing + 1 }))

-- `AtomicDecrease(&s->refs, 1) == 1`: who takes the last reference goes on to reclaim the slot.
abbrev pub decrease : Slot → Slot
decrease c =
    if c.refs == 1
    then record c { refs = 0; reclaiming = c.reclaiming + 1 }
    else record c { refs = u32 (c.refs + 4294967295); idle = c.idle + 1 }

unfoldable pub undo_ref : SlotState → Slot → After
undo_ref st c = one_of c.undoing (some (st, decrease (record c { undoing = c.undoing - 1 })))

unfoldable pub release_ref : SlotState → Slot → After
release_ref st c = one_of c.holding (some (st, decrease (record c { holding = c.holding - 1 })))

-- The swap of `PidSlotRemove`; if it fails, nothing happens.
unfoldable pub begin_remove : SlotState → Slot → After
begin_remove slot_inuse c =
    one_of c.idle (some (slot_removing, record c { idle = c.idle - 1; dropping = c.dropping + 1 }))
begin_remove st c = one_of c.idle (some (st, c))

unfoldable pub drop_ref : SlotState → Slot → After
drop_ref st c = one_of c.dropping (some (st, decrease (record c { dropping = c.dropping - 1 })))

unfoldable pub read_refs : SlotState → Slot → After
read_refs st c = one_of c.reclaiming (
    some (
      st,
      if c.refs == 0
          then record c { reclaiming = c.reclaiming - 1; swapping = c.swapping + 1 }
          else record c { reclaiming = c.reclaiming - 1; idle = c.idle + 1 },
    ))

unfoldable pub swap_state : SlotState → Slot → After
swap_state slot_removing c =
    one_of c.swapping
      (some (slot_reserved, record c { swapping = c.swapping - 1; freeing = c.freeing + 1 }))
swap_state st c =
    one_of c.swapping (some (st, record c { swapping = c.swapping - 1; idle = c.idle + 1 }))

-- `FreeProceccesAttr(s->attr); s->attr = NULL; s->pid = 0;`
unfoldable pub free_attr : SlotState → Slot → After
free_attr st c =
    one_of c.freeing
      (some (st, record c { freeing = c.freeing - 1; has_attr = false; clearing = c.clearing + 1 }))

unfoldable pub set_free : SlotState → Slot → After
set_free st c =
    one_of c.clearing (some (slot_free, record c { clearing = c.clearing - 1; idle = c.idle + 1 }))

-- `PidSlotAdd`: the swap, `pid` and `attr`, `refs`, and the state.
unfoldable pub reserve : SlotState → Slot → After
reserve slot_free c =
    one_of c.idle (some (slot_reserved, record c { idle = c.idle - 1; filling = c.filling + 1 }))
reserve st c = one_of c.idle (some (st, c))

unfoldable pub fill : SlotState → Slot → After
fill st c =
    one_of c.filling
      (some (st, record c { filling = c.filling - 1; has_attr = true; counting = c.counting + 1 }))

unfoldable pub set_refs : SlotState → Slot → After
set_refs st c =
    one_of c.counting
      (some (st, record c { counting = c.counting - 1; refs = 1; publishing = c.publishing + 1 }))

unfoldable pub publish : SlotState → Slot → After
publish st c =
    one_of c.publishing
      (some (slot_inuse, record c { publishing = c.publishing - 1; idle = c.idle + 1 }))

-- The moves of the threads that use or remove the process of the slot.
pub data Move : Type 0 where
  reads takes checks undoes releases begins drops reads_refs swaps frees sets_free : Move

abbrev pub step : Move → SlotState → Slot → After
step reads = read_state
step takes = take_ref
step checks = check_state
step undoes = undo_ref
step releases = release_ref
step begins = begin_remove
step drops = drop_ref
step reads_refs = read_refs
step swaps = swap_state
step frees = free_attr
step sets_free = set_free
