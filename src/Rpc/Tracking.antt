-- ===== src/Rpc/Tracking.antt =====
-- EncodeRequest and DecodeRequest of the codecs of src/smap/smap_handler_msg.cpp whose request holds
-- arrays: the three calls on a list of processes, and the frequency of remote nodes. A `len` is an
-- `int` by its bit pattern; an array of the caller's is a list, of `len` elements or more.
pub mod Arrays
pub mod Add
pub mod RoundTrip
pub mod Bounds
use ubturbo.Rpc.Bytes.{Layout, u16_layout, int_layout, array_bytes, array_of, drop}
use ubturbo.Rpc.Buffer.{
  has_data, got, fault, Decoded, Runtime, Buffer, Piece, refused, Encoded, fault, returned,
  einval_code, copy_pieces, encode, copied_or_reset, smap_reset_buf, from_data, piece, value_at,
  copy_out,
}
use ubturbo.Prelude.{
  ◌||◌, [], suc, not, Option, ◌-◌, false, ◌*◌, ◌∷◌, List, ℕ, zero, ◌+◌, some, none, Bool, ltb,
  if◌then◌else◌, length, is_negative, u64,
}

abbrev pub max_nr_tracking : ℕ
max_nr_tracking = 40

-- An `int` widened to 64 bits, and `width * len` in `size_t`.
abbrev pub widen : ℕ → ℕ
widen n = if is_negative n then n + 18446744069414584320 else n

abbrev pub scaled : ℕ → ℕ → ℕ
scaled width len = u64 (width * widen len)

-- The source of a copy of `len` elements of the array.
abbrev pub array_piece : Layout ℕ → ℕ → List ℕ → Piece
array_piece L len elements = record { count = scaled L.size len; source = array_bytes L elements }

module _ (R : Runtime) (buffer : Buffer) where
  abbrev pub encode_remove_tracking_request : List ℕ → ℕ → ℕ → Encoded
  encode_remove_tracking_request pid_arr len flag =
      encode R buffer (u64 (8 + scaled 4 len)) false
        (piece int_layout len ∷ piece int_layout flag ∷ array_piece int_layout len pid_arr ∷ [])

  -- `len` of the buffer is set before the allocation.
  abbrev pub encode_enable_migrate_request : List ℕ → ℕ → ℕ → ℕ → Encoded
  encode_enable_migrate_request pid_arr len enable flags =
      let size = u64 (12 + scaled 4 len) in
      encode R (record buffer { len = size }) size false
        (piece int_layout len
          ∷ piece int_layout enable
          ∷ piece int_layout flags
          ∷ array_piece int_layout len pid_arr
          ∷ [])

  -- The copy to an offset from the null pointer: one that `memcpy_s` does not refuse is a fault.
  unfoldable pub null_copy : ℕ → Encoded
  null_copy zero = fault
  null_copy (suc code) = returned (smap_reset_buf buffer) (suc code)

  -- After the copy of `scanTime`, failed or not, comes that of `duration`.
  unfoldable pub add_duration : ℕ → ℕ → Piece → ℕ × List ℕ → Encoded
  add_duration size copied p (zero, bs) =
      copied_or_reset R buffer size false (copy_pieces R size (p ∷ []) copied bs)
  add_duration size copied p (suc code, bs) = null_copy (R.memcpy_s (size - copied) p.count)

  unfoldable pub add_scan_time : ℕ → ℕ → Piece → Piece → ℕ × List ℕ → Encoded
  add_scan_time size copied p q (zero, bs) =
      add_duration size (copied + p.count) q (copy_pieces R size (p ∷ []) copied bs)
  add_scan_time size copied p q (suc code, bs) = returned (smap_reset_buf buffer) (suc code)

  unfoldable pub add_arrays : ℕ → List ℕ → List ℕ → List ℕ → ℕ → ℕ → Option (List ℕ) → Encoded
  add_arrays size pid_arr scan_time duration len scan_type none =
      returned (record buffer { data_bytes = none; len = size }) einval_code
  add_arrays size pid_arr scan_time duration len scan_type (some bs) =
      add_scan_time size (8 + scaled 4 len) (array_piece int_layout len scan_time)
        (array_piece int_layout len duration)
        (copy_pieces R size
          (piece int_layout len
            ∷ piece int_layout scan_type
            ∷ array_piece int_layout len pid_arr
            ∷ [])
          0 bs)

  abbrev pub encode_add_tracking_request : List ℕ → List ℕ → List ℕ → ℕ → ℕ → Encoded
  encode_add_tracking_request pid_arr scan_time duration len scan_type =
      let size = u64 (8 + scaled 4 len + scaled 4 len + scaled 4 len) in
      add_arrays size pid_arr scan_time duration len scan_type (R.new_bytes size)

  -- `length` is a `uint16_t`.
  abbrev pub encode_query_remote_numa_freq_request : List ℕ → ℕ → Encoded
  encode_query_remote_numa_freq_request numa length =
      let size = length * 2 + 2 in
      encode R (record buffer { len = size }) size false
        (piece u16_layout length
          ∷ record { count = length * 2; source = array_bytes u16_layout numa }
          ∷ [])

module _ (R : Runtime) (buffer : Buffer) where
  -- The arrays, `len` and `scanType`.
  unfoldable pub decode_add_tracking_request : Decoded (List ℕ × List ℕ × List ℕ × ℕ × ℕ)
  decode_add_tracking_request =
      if ltb buffer.len int_layout.size || not (has_data buffer)
      then refused einval_code
      else from_data buffer (λ bs.
        let len = value_at int_layout 0 bs in
        let size = scaled 4 len in
        let code = R.memcpy_s (4 * max_nr_tracking) size in
        if ltb buffer.len (u64 (8 + size + size + size))
        then refused einval_code
        else copy_out code (
            copy_out code (
              copy_out code (
                got (
                  array_of int_layout len (drop 8 bs),
                  array_of int_layout len (drop (8 + size) bs),
                  array_of int_layout len (drop (8 + size + size) bs),
                  len,
                  value_at int_layout 4 bs,
                )))))

  unfoldable pub decode_remove_tracking_request : Decoded (List ℕ × ℕ × ℕ)
  decode_remove_tracking_request =
      if ltb buffer.len int_layout.size
      then refused einval_code
      else from_data buffer (λ bs.
        let len = value_at int_layout 0 bs in
        let size = scaled 4 len in
        if ltb buffer.len (u64 (8 + size))
        then refused einval_code
        else copy_out (R.memcpy_s (4 * max_nr_tracking) size)
            (got (array_of int_layout len (drop 8 bs), len, value_at int_layout 4 bs)))

  unfoldable pub decode_enable_migrate_request : Decoded (List ℕ × ℕ × ℕ × ℕ)
  decode_enable_migrate_request =
      if ltb buffer.len int_layout.size
      then refused einval_code
      else from_data buffer (λ bs.
        let len = value_at int_layout 0 bs in
        let size = scaled 4 len in
        if ltb buffer.len (u64 (12 + size))
        then refused einval_code
        else copy_out (R.memcpy_s (4 * max_nr_tracking) size) (
            got (
              array_of int_layout len (drop 12 bs),
              len,
              value_at int_layout 4 bs,
              value_at int_layout 8 bs,
            )))

  -- The array is allocated; `has_memory` tells whether that succeeds.
  unfoldable pub decode_query_remote_numa_freq_request : Bool → Decoded (List ℕ × ℕ)
  decode_query_remote_numa_freq_request has_memory =
      if ltb buffer.len u16_layout.size
      then refused einval_code
      else from_data buffer (λ bs.
        let length = value_at u16_layout 0 bs in
        if ltb buffer.len (2 + length * 2) || not has_memory
        then refused einval_code
        else copy_out (R.memcpy_s (length * 2) (length * 2))
            (got (array_of u16_layout length (drop 2 bs), length)))
