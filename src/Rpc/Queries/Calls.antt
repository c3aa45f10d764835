-- ===== src/Rpc/Queries/Calls.antt =====
-- The client's functions for the queries, src/smap/client/smap_client.cpp: the return value, and what
-- was written to the caller's array with its length. A pointer is given or not.
use ubturbo.Limits.{max_4k_processes_cnt}
use ubturbo.Rpc.Tracking.{encode_query_remote_numa_freq_request}
use ubturbo.Rpc.Requests.{encode_query_vm_freq_request, encode_query_process_config_request}
use ubturbo.Rpc.Queries.{
  remote_numa_bits, decode_query_remote_numa_freq_response, decode_query_process_config_response,
  decode_query_vm_freq_response,
}
use ubturbo.Rpc.Bytes.{Layout}
use ubturbo.Prelude.{
  List, ◌||◌, not, Option, zero, ℕ, none, some, suc, Bool, ◌==◌, ltb, if◌then◌else◌, length, int_lt,
}
use ubturbo.Rpc.Buffer.{
  got, fault, returned, bad_read, refused, Runtime, Buffer, Decoded, Encoded, ipc_error,
  einval_code, no_buffer,
}

-- The name that a query calls the server by.
pub data Query : Type 0 where
  query_freq query_process_config query_remote_numa_freq : Query

abbrev pub QueryCaller : Type 0 → Type 0
QueryCaller S = Query → Buffer → S → ℕ × Buffer × S

-- A decoder that fails leaves IPC_ERROR to return and the caller's array alone.
abbrev pub decoded_or_error :
    {P : Type 0} → Decoded (List P × ℕ × ℕ) → Decoded (ℕ × Option (List P × ℕ))
decoded_or_error (got (found, n, return_value)) = got (return_value, some (found, n))
decoded_or_error (refused code) = got (ipc_error, none)
decoded_or_error bad_read = bad_read

module _ {S P : Type 0} where
  abbrev query_answered :
      (Buffer → Decoded (List P × ℕ × ℕ)) → ℕ × Buffer × S → Decoded (ℕ × Option (List P × ℕ)) × S
  query_answered decode (zero, recv, s) = (decoded_or_error (decode recv), s)
  query_answered decode (suc ipc, recv, s) = (got (suc ipc, none), s)

  abbrev pub query :
      QueryCaller S
      → Query
      → Encoded
      → (Buffer → Decoded (List P × ℕ × ℕ))
      → S
      → Decoded (ℕ × Option (List P × ℕ)) × S
  query caller f fault decode s = (bad_read, s)
  query caller f (returned send (suc code)) decode s = (got (ipc_error, none), s)
  query caller f (returned send zero) decode s = query_answered decode (caller f send s)

-- The answer of another length than was asked for is an error, though its array has been written.
abbrev pub of_length : ℕ → Decoded (ℕ × Option (List ℕ × ℕ)) → Decoded (ℕ × Option (List ℕ × ℕ))
of_length length (got (r, some (freq, out_len))) =
    got (if out_len == length then r else ipc_error, some (freq, out_len))
of_length length other = other

module _ {S : Type 0} (R : Runtime) (caller : QueryCaller S) where
  abbrev pub ubturbo_smap_freq_query : Bool → ℕ → ℕ → ℕ → S → Decoded (ℕ × Option (List ℕ × ℕ)) × S
  ubturbo_smap_freq_query has_pointers pid length_in data_source s =
      if not has_pointers
      then (got (einval_code, none), s)
      else if length_in == 0
      then (got (einval_code, none), s)
      else query caller query_freq
          (encode_query_vm_freq_request R no_buffer pid length_in data_source)
          (decode_query_vm_freq_response R) s

  abbrev pub ubturbo_smap_process_config_query :
      {P : Type 0} → Layout P → Bool → ℕ → ℕ → S → Decoded (ℕ × Option (List P × ℕ)) × S
  ubturbo_smap_process_config_query L has_pointers nid in_len s =
      if not has_pointers
      then (got (einval_code, none), s)
      else if not (int_lt 0 in_len) || int_lt max_4k_processes_cnt in_len
      then (got (einval_code, none), s)
      else query caller query_process_config
          (encode_query_process_config_request R no_buffer nid in_len)
          (λ recv. decode_query_process_config_response R recv L) s

  abbrev pub ubturbo_smap_remote_numa_freq_query :
      Bool → List ℕ → ℕ → S → Decoded (ℕ × Option (List ℕ × ℕ)) × S
  ubturbo_smap_remote_numa_freq_query has_pointers numa length s =
      if not has_pointers
      then (got (einval_code, none), s)
      else if length == 0 || ltb remote_numa_bits length
      then (got (einval_code, none), s)
      else let result =
          query caller query_remote_numa_freq
            (encode_query_remote_numa_freq_request R no_buffer numa length)
            (decode_query_remote_numa_freq_response R) s in
        (of_length length result.0, result.1)
