-- ===== src/Rpc/Tracking/Bounds.antt =====
-- What the decoders of requests with arrays accept, whatever bytes a client sends.
use ubturbo.Rpc.Buffer.Laws.{from_data-Accepts, copy_out-Accepts}
use native.Mathlib.Decide.{dec_lt}
use ubturbo.Rpc.Buffer.{has_data, Runtime, IsLawful, Buffer, value_at, Accepts}
use ubturbo.Rpc.Bytes.{Layout, array_of, drop, IsByte, int_layout, le_value-lt}
use ubturbo.Rpc.Tracking.{
  scaled, decode_remove_tracking_request, max_nr_tracking, decode_add_tracking_request,
  decode_enable_migrate_request,
}
use ubturbo.Prelude.{
  ap, ◌≤◌, refl, zero, ◌<◌, suc, ◌*◌, ◌^◌, ◌≡◌, List, ℕ, length, arith, some, ◌+◌, ltb, if_ind, All,
  u64, false, not, ◌||◌,
}

pub length-array_of :
    {M : Type 0} (L : Layout M) (n : ℕ) (bs : List ℕ) → length (array_of L n bs) ≡ n
length-array_of L zero bs = refl
length-array_of L (suc n) bs = ap suc (length-array_of L n (drop L.size bs))

-- A `len` whose array fits the caller's is not negative and at most 40.
tracked_len : (len : ℕ) → len < 2 ^ 32 → scaled 4 len ≤ 160 → (len ≤ 40) × (scaled 4 len ≡ 4 * len)
tracked_len len h k = ground arith

module _ (R : Runtime) (lawful : IsLawful R) where
  -- A copy that `memcpy_s` does not refuse is no larger than its destination.
  copied-le : (dest_max count : ℕ) → R.memcpy_s dest_max count ≡ 0 → count ≤ dest_max
  copied-le dest_max count h = elim (dec_lt dest_max count) [
    | yes large ↦ absurd (lawful.memcpy_s-large dest_max count large h)
    | no fits ↦ omega arith
  ]

  -- The `len` that stands at the head of the bytes, once the copy of its array is made.
  copied_len :
      (bs : List ℕ)
      → All IsByte bs
      → R.memcpy_s 160 (scaled 4 (value_at int_layout 0 bs)) ≡ 0
      → (value_at int_layout 0 bs ≤ 40)
        × (scaled 4 (value_at int_layout 0 bs) ≡ 4 * value_at int_layout 0 bs)
  copied_len bs h copied =
      tracked_len (value_at int_layout 0 bs) (le_value-lt 4 bs h)
        (copied-le 160 (scaled 4 (value_at int_layout 0 bs)) copied)

-- No wrap in the size that a `len` up to 40 asks for.
long_enough :
    (have size n base : ℕ)
    → ltb have (u64 (base + size)) ≡ false
    → size ≡ 4 * n
    → n ≤ 120
    → base ≤ 12
    → base + 4 * n ≤ have
long_enough have size n base h e small base_small = ground arith

module _ (R : Runtime) (lawful : IsLawful R) (buffer : Buffer)
    (bytes : (bs : List ℕ) → buffer.data_bytes ≡ some bs → All IsByte bs) where
  remove-InBounds :
      Accepts
        (λ v. (v.1 ≤ max_nr_tracking) × (length v.0 ≡ v.1) × (8 + 4 * v.1 ≤ buffer.len))
        (decode_remove_tracking_request R buffer)
  unfolding decode_remove_tracking_request
  remove-InBounds =
      if_ind (Accepts _) (ltb buffer.len 4) (λ _. tt)
        (λ _. from_data-Accepts _ buffer _ (λ bs e.
          let len = value_at int_layout 0 bs in
          if_ind (Accepts _) (ltb buffer.len (u64 (8 + scaled 4 len))) (λ _. tt)
            (λ long. copy_out-Accepts _ (R.memcpy_s 160 (scaled 4 len)) _ (λ copied.
              let fits = copied_len R lawful bs (bytes bs e) copied in
              (
                fits.0,
                length-array_of int_layout len (drop 8 bs),
                long_enough buffer.len (scaled 4 len) len 8 long fits.1 (omega (arith, fits.0))
                    (omega arith),
              )))))

  enable-InBounds :
      Accepts
        (λ v. (v.1 ≤ max_nr_tracking) × (length v.0 ≡ v.1) × (12 + 4 * v.1 ≤ buffer.len))
        (decode_enable_migrate_request R buffer)
  unfolding decode_enable_migrate_request
  enable-InBounds =
      if_ind (Accepts _) (ltb buffer.len 4) (λ _. tt)
        (λ _. from_data-Accepts _ buffer _ (λ bs e.
          let len = value_at int_layout 0 bs in
          if_ind (Accepts _) (ltb buffer.len (u64 (12 + scaled 4 len))) (λ _. tt)
            (λ long. copy_out-Accepts _ (R.memcpy_s 160 (scaled 4 len)) _ (λ copied.
              let fits = copied_len R lawful bs (bytes bs e) copied in
              (
                fits.0,
                length-array_of int_layout len (drop 12 bs),
                long_enough buffer.len (scaled 4 len) len 12 long fits.1 (omega (arith, fits.0))
                    (omega arith),
              )))))

  add-InBounds :
      Accepts
        (λ v.
          (v.3 ≤ max_nr_tracking)
          × (length v.0 ≡ v.3)
          × (length v.1 ≡ v.3)
          × (length v.2 ≡ v.3)
          × (8 + 12 * v.3 ≤ buffer.len))
        (decode_add_tracking_request R buffer)
  unfolding decode_add_tracking_request
  add-InBounds =
      if_ind (Accepts _) (ltb buffer.len 4 || not (has_data buffer)) (λ _. tt)
        (λ _. from_data-Accepts _ buffer _ (λ bs e.
          let len = value_at int_layout 0 bs in
          let size = scaled 4 len in
          if_ind (Accepts _) (ltb buffer.len (u64 (8 + size + size + size))) (λ _. tt)
            (λ long. copy_out-Accepts _ (R.memcpy_s 160 size) _ (λ copied.
              copy_out-Accepts _ (R.memcpy_s 160 size) _ (λ _.
                copy_out-Accepts _ (R.memcpy_s 160 size) _ (λ _.
                  let fits = copied_len R lawful bs (bytes bs e) copied in
                  (
                    fits.0,
                    length-array_of int_layout len (drop 8 bs),
                    length-array_of int_layout len (drop (8 + size) bs),
                    length-array_of int_layout len (drop (8 + size + size) bs),
                    ground (arith, fits.0, fits.1, long),
                  )))))))

  -- Whatever bytes a client sends, what the decoders of the three calls on processes accept has a
  -- `len` of at most MAX_NR_TRACKING, arrays of `len` elements, and stands before `len` of the buffer.
  pub tracking_requests-InBounds :
      Accepts
        (λ v.
          (v.3 ≤ max_nr_tracking)
          × (length v.0 ≡ v.3)
          × (length v.1 ≡ v.3)
          × (length v.2 ≡ v.3)
          × (8 + 12 * v.3 ≤ buffer.len))
        (decode_add_tracking_request R buffer)
      × Accepts
          (λ v. (v.1 ≤ max_nr_tracking) × (length v.0 ≡ v.1) × (8 + 4 * v.1 ≤ buffer.len))
          (decode_remove_tracking_request R buffer)
      × Accepts
          (λ v. (v.1 ≤ max_nr_tracking) × (length v.0 ≡ v.1) × (12 + 4 * v.1 ≤ buffer.len))
          (decode_enable_migrate_request R buffer)
  tracking_requests-InBounds = (add-InBounds, remove-InBounds, enable-InBounds)
