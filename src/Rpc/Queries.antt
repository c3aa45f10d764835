-- ===== src/Rpc/Queries.antt =====
-- The responses, client functions and handlers of the three queries: QueryVmFreq, QueryProcessConfig
-- and QueryRemoteNumaFreq of src/smap. What the library finds, and the state `S` it leaves, is a
-- parameter. A decoder that returns IPC_ERROR is `refused`; the caller's arrays are large enough.
use ubturbo.Rpc.Tracking.{decode_query_remote_numa_freq_request, max_nr_tracking}
use ubturbo.Rpc.Requests.{decode_query_vm_freq_request, decode_query_process_config_request}
use ubturbo.Prelude.{
  ◌*◌, Bool, ◌||◌, zero, List, false, [], suc, ℕ, ◌∷◌, not, true, ◌+◌, if◌then◌else◌, ltb, ◌==◌,
  length, int_lt, is_negative,
}
use ubturbo.Rpc.Buffer.{
  got, returned, bad_read, refused, Runtime, Decoded, ipc_error, Buffer, from_data, Encoded, encode,
  value_at, no_buffer, piece,
}
use ubturbo.Rpc.Server.{finished, crashed, Handled, turbo_error, reply}
use ubturbo.Rpc.Bytes.{Layout, int_layout, u16_layout, u64_layout, array_of, drop, array_bytes}
pub mod RoundTrip
pub mod Limit
pub mod Calls

-- The return value -1.
abbrev pub minus_one : ℕ
minus_one = 4294967295

abbrev pub remote_numa_bits : ℕ
remote_numa_bits = 18

module _ (R : Runtime) (buffer : Buffer) where
  -- No copy of an empty array.
  abbrev pub encode_query_vm_freq_response : List ℕ → ℕ → ℕ → Encoded
  encode_query_vm_freq_response freq length_out return_value =
      encode R buffer (8 + length_out * 2) true (
        piece int_layout return_value
        ∷ piece int_layout length_out
        ∷ (if length_out == 0
            then []
            else record { count = length_out * 2; source = array_bytes u16_layout freq } ∷ []))

  abbrev pub encode_query_process_config_response :
      {P : Type 0} → Layout P → List P → ℕ → ℕ → Encoded
  encode_query_process_config_response L payload out return_value =
      if is_negative out || int_lt max_nr_tracking out
      then returned buffer minus_one
      else encode R buffer (8 + L.size * out) true (
          piece int_layout return_value
          ∷ piece int_layout out
          ∷ (if out == 0
              then []
              else record { count = out * L.size; source = array_bytes L payload } ∷ []))

  abbrev pub encode_query_remote_numa_freq_response : List ℕ → ℕ → ℕ → Encoded
  encode_query_remote_numa_freq_response freq len return_value =
      if ltb remote_numa_bits len
      then returned buffer minus_one
      else encode R buffer (2 + 8 * len + 4) true (
          piece int_layout return_value
          ∷ piece u16_layout len
          ∷ record { count = len * 8; source = array_bytes u64_layout freq }
          ∷ [])

-- The copy into the caller's array, whose size is given as that of the source.
abbrev copy_back : {V : Type 0} → ℕ → Decoded V → Decoded V
copy_back zero next = next
copy_back (suc code) next = refused ipc_error

module _ (R : Runtime) (buffer : Buffer) where
  -- The array, its length, and what the library returned.
  abbrev pub decode_query_vm_freq_response : Decoded (List ℕ × ℕ × ℕ)
  decode_query_vm_freq_response =
      if ltb buffer.len 8
      then refused ipc_error
      else from_data buffer (λ bs.
        let return_value = value_at int_layout 0 bs in
        let length = value_at int_layout 4 bs in
        if length == 0
        then got ([], length, return_value)
        else if ltb buffer.len (8 + length * 2)
        then refused ipc_error
        else copy_back (R.memcpy_s (length * 2) (length * 2))
            (got (array_of u16_layout length (drop 8 bs), length, return_value)))

  abbrev pub decode_query_process_config_response :
      {P : Type 0} → Layout P → Decoded (List P × ℕ × ℕ)
  decode_query_process_config_response L =
      if ltb buffer.len 8
      then refused ipc_error
      else from_data buffer (λ bs.
        let return_value = value_at int_layout 0 bs in
        let out = value_at int_layout 4 bs in
        if is_negative out || int_lt max_nr_tracking out
        then refused ipc_error
        else if out == 0
        then got ([], out, return_value)
        else if ltb buffer.len (8 + out * L.size)
        then refused ipc_error
        else copy_back (R.memcpy_s (out * L.size) (out * L.size))
            (got (array_of L out (drop 8 bs), out, return_value)))

  abbrev pub decode_query_remote_numa_freq_response : Decoded (List ℕ × ℕ × ℕ)
  decode_query_remote_numa_freq_response =
      if ltb buffer.len 6
      then refused ipc_error
      else from_data buffer (λ bs.
        let out = value_at u16_layout 4 bs in
        if ltb remote_numa_bits out
        then refused ipc_error
        else if ltb buffer.len (6 + out * 8)
        then refused ipc_error
        else copy_back (R.memcpy_s (out * 8) (out * 8))
            (got (array_of u64_layout out (drop 6 bs), out, value_at int_layout 0 bs)))

module _ {S : Type 0} (R : Runtime) where
  -- The library gives the array, its length and a return value. The handler allocates the array that
  -- the library fills; `has_memory` tells whether that succeeds.
  abbrev freq_answer :
      Bool → (ℕ × ℕ × ℕ → S → (List ℕ × ℕ × ℕ) × S) → Decoded (ℕ × ℕ × ℕ) → S → Handled S
  freq_answer false library (got v) s = finished turbo_error no_buffer s
  freq_answer true library (got v) s =
      let result = library v s in
      reply (encode_query_vm_freq_response R no_buffer result.0.0 result.0.1 result.0.2) result.1
  freq_answer has_memory library (refused code) s = finished turbo_error no_buffer s
  freq_answer has_memory library bad_read s = crashed

  abbrev pub smap_query_freq_handler :
      Bool → (ℕ × ℕ × ℕ → S → (List ℕ × ℕ × ℕ) × S) → Buffer → S → Handled S
  smap_query_freq_handler has_memory library input s =
      freq_answer has_memory library (decode_query_vm_freq_request input) s

  abbrev config_answer :
      {P : Type 0} → Layout P → (ℕ × ℕ → S → (List P × ℕ × ℕ) × S) → Decoded (ℕ × ℕ) → S → Handled S
  config_answer L library (got (nid, in_len)) s =
      let result = library (nid, in_len) s in
      if not (int_lt 0 in_len)
      then finished turbo_error no_buffer s
      else reply
          (encode_query_process_config_response R no_buffer L result.0.0 result.0.1 result.0.2)
          result.1
  config_answer L library (refused code) s = finished turbo_error no_buffer s
  config_answer L library bad_read s = crashed

  abbrev pub smap_query_process_config_handler :
      {P : Type 0} → Layout P → (ℕ × ℕ → S → (List P × ℕ × ℕ) × S) → Buffer → S → Handled S
  smap_query_process_config_handler L library input s =
      config_answer L library (decode_query_process_config_request input) s

  abbrev numa_answer : (List ℕ × ℕ → S → (List ℕ × ℕ) × S) → Decoded (List ℕ × ℕ) → S → Handled S
  numa_answer library (got (numa, len)) s =
      let result = library (numa, len) s in
      reply (encode_query_remote_numa_freq_response R no_buffer result.0.0 len result.0.1) result.1
  numa_answer library (refused code) s = finished turbo_error no_buffer s
  numa_answer library bad_read s = crashed

  abbrev pub smap_query_remote_numa_freq_handler :
      Bool → (List ℕ × ℕ → S → (List ℕ × ℕ) × S) → Buffer → S → Handled S
  smap_query_remote_numa_freq_handler has_memory library input s =
      numa_answer library (decode_query_remote_numa_freq_request R input has_memory) s
