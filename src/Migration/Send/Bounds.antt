-- ===== src/Migration/Send/Bounds.antt =====
-- The bounds of a message, of its threads and of a compensation.
use ubturbo.Errno.{done, fail}
use ubturbo.Errno.{Status}
use ubturbo.Migration.Send.{
  AddrList, add_mig_list, build_comp_mig_list_from_scan, decide_thread_num, is_none,
  sig_thread_mig_out, is_thread_num_invalid, total_nr, less_mig_out_huge_page_thre,
  more_mig_out_huge_page_thre,
}
use ubturbo.Prelude.{
  false, ◌≡◌, ◌∷◌, ◌⊎◌, ◌||◌, inl, [], Bool, ◌≤◌, arith, true, inr, refl, ℕ, not, List, if_ind, leb,
  ◌==◌, length-append, length, min,
}

-- A message that the kernel takes stays one, and an error leaves it as it is.
abbrev pub IsWithin : ℕ → List AddrList → Status × List AddrList → Type 0
IsWithin max_count msg (done, msg') = length msg' ≤ max_count
IsWithin max_count msg (fail e, msg') = msg' ≡ msg

-- `AddMigList` keeps a message within the limit of the kernel, and with an error leaves it unchanged.
pub add_mig_list-IsWithin :
    (max_count : ℕ) (can_alloc : Bool) (msg : List AddrList) (l : AddrList)
    → length msg ≤ max_count
    → IsWithin max_count msg (add_mig_list max_count can_alloc msg l)
unfolding add_mig_list
add_mig_list-IsWithin k can_alloc msg l h =
    if_ind (IsWithin k msg) ((l.nr == 0) || is_none l.addr) (λ _. h)
      λ _.
        if_ind (IsWithin k msg) (leb k (length msg)) (λ _. refl)
          λ n.
            if_ind (IsWithin k msg) (not can_alloc) (λ _. refl)
              λ _. ground (arith, n, length-append msg (l ∷ []))

-- `DecideThreadNum` decides on one thread, or on a number that `RunMultiThreadedMigrate` accepts; on
-- more than one only for a message of huge pages without shared memory.
pub decide_thread_num_accepted :
    (is_huge any_shared : Bool) (nrs : List ℕ)
    → let n = decide_thread_num is_huge any_shared nrs in
      ((n ≡ sig_thread_mig_out) ⊎ (is_thread_num_invalid n ≡ false))
      × ((n ≡ sig_thread_mig_out) ⊎ ((is_huge ≡ true) × (any_shared ≡ false)))
unfolding decide_thread_num
decide_thread_num_accepted false any_shared nrs = (inl refl, inl refl)
decide_thread_num_accepted true any_shared nrs =
    let total = total_nr nrs 0 in
    if_ind Accepted ((total == 0) || leb total less_mig_out_huge_page_thre)
      (λ _. (inl refl, inl refl))
      λ _.
        if_ind Accepted any_shared (λ _. (inl refl, inl refl))
          λ s.
            if_ind Accepted (leb total more_mig_out_huge_page_thre) (λ _. (inr refl, inr (refl, s)))
              (λ _. (inr refl, inr (refl, s)))
  where
    Accepted : ℕ → Type 0
    Accepted n =
        ((n ≡ sig_thread_mig_out) ⊎ (is_thread_num_invalid n ≡ false))
        × ((n ≡ sig_thread_mig_out) ⊎ ((true ≡ true) × (any_shared ≡ false)))

-- `BuildCompMigListFromScan` builds no more pages than are needed, scanned on the source and free on
-- the destination; unless it freezes the plan it builds all that are needed.
pub build_comp_mig_list_from_scan-bounds :
    (need source_pages dest_free_pages : ℕ) (has_data can_alloc : Bool)
    → let r = build_comp_mig_list_from_scan need source_pages dest_free_pages has_data can_alloc in
      (r.built ≤ min (min need source_pages) dest_free_pages)
      × ((r.should_freeze ≡ true) ⊎ (r.built ≡ need))
unfolding build_comp_mig_list_from_scan
build_comp_mig_list_from_scan-bounds need source_pages dest_free_pages has_data can_alloc =
    ground arith
