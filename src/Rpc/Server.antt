-- ===== src/Rpc/Server.antt =====
-- The handlers of src/smap/server/turbo_module_smap.cpp: decode the request, call the function of the
-- smap library, encode its return value. The library's functions are parameters that change a state
-- `S`; the handlers of the two queries are left out.
pub mod Equivalence
use ubturbo.Rpc.Tracking.{
  decode_add_tracking_request, decode_enable_migrate_request, decode_remove_tracking_request,
}
use ubturbo.Rpc.Replies.{
  encode_urgent_migrate_out_response, encode_stop_response, encode_is_running_response,
  encode_set_run_mode_response, encode_remove_tracking_response, encode_add_tracking_response,
  encode_init_response, encode_enable_migrate_response, encode_enable_node_response,
  encode_migrate_remote_numa_response, encode_set_remote_numa_info_response,
  encode_migrate_out_sync_response, encode_migrate_pid_remote_numa_response,
  encode_migrate_out_response, encode_migrate_out_grouped_response, encode_migrate_back_response,
  encode_remove_response,
}
use ubturbo.Rpc.Bytes.{Layout}
use ubturbo.Rpc.Requests.{
  decode_set_run_mode_request, decode_init_request, decode_urgent_migrate_out_request,
  decode_enable_node_request, decode_migrate_out_request, decode_remove_request,
  decode_set_remote_numa_info_request, decode_migrate_out_sync_request,
  decode_migrate_remote_numa_request, decode_migrate_out_grouped_request,
  decode_migrate_pid_remote_numa_request, decode_migrate_back_request,
}
use ubturbo.Prelude.{suc, Bool, ℕ, List, zero}
use ubturbo.Rpc.Buffer.{
  got, fault, returned, bad_read, refused, Buffer, Encoded, Decoded, Runtime, no_buffer,
}

-- The return value and the output buffer of a handler, and the state it leaves.
pub data Handled (S : Type 0) : Type 0 where
  finished : ℕ → Buffer → S → Handled S
  crashed : Handled S

abbrev pub turbo_error : ℕ
turbo_error = 1

module _ {S : Type 0} where
  abbrev pub reply : Encoded → S → Handled S
  reply (returned output zero) s = finished 0 output s
  reply (returned output (suc code)) s = finished turbo_error output s
  reply fault s = crashed

  abbrev pub handle : {V : Type 0} → Decoded V → (V → S → ℕ × S) → (ℕ → Encoded) → S → Handled S
  handle (got v) library encode_response s =
      let result = library v s in reply (encode_response result.0) result.1
  handle (refused code) library encode_response s = finished turbo_error no_buffer s
  handle bad_read library encode_response s = crashed

module _ {S : Type 0} (R : Runtime) {M : Type 0} (L : Layout M) where
  abbrev pub smap_migrate_out_handler : (M × ℕ → S → ℕ × S) → Buffer → S → Handled S
  smap_migrate_out_handler library input s =
      handle (decode_migrate_out_request L input) library (encode_migrate_out_response R no_buffer)
        s

  abbrev pub smap_migrate_out_grouped_handler : (M × ℕ → S → ℕ × S) → Buffer → S → Handled S
  smap_migrate_out_grouped_handler library input s =
      handle (decode_migrate_out_grouped_request L input) library
        (encode_migrate_out_grouped_response R no_buffer) s

  abbrev pub smap_remove_handler : (M × ℕ → S → ℕ × S) → Buffer → S → Handled S
  smap_remove_handler library input s =
      handle (decode_remove_request L input) library (encode_remove_response R no_buffer) s

  abbrev pub smap_migrate_out_sync_handler : (M × ℕ × ℕ → S → ℕ × S) → Buffer → S → Handled S
  smap_migrate_out_sync_handler library input s =
      handle (decode_migrate_out_sync_request L input) library
        (encode_migrate_out_sync_response R no_buffer) s

  abbrev pub smap_migrate_back_handler : (M → S → ℕ × S) → Buffer → S → Handled S
  smap_migrate_back_handler library input s =
      handle (decode_migrate_back_request L input) library
        (encode_migrate_back_response R no_buffer) s

  abbrev pub smap_enable_node_handler : (M → S → ℕ × S) → Buffer → S → Handled S
  smap_enable_node_handler library input s =
      handle (decode_enable_node_request L input) library (encode_enable_node_response R no_buffer)
        s

  abbrev pub set_smap_remote_numa_info_handler : (M → S → ℕ × S) → Buffer → S → Handled S
  set_smap_remote_numa_info_handler library input s =
      handle (decode_set_remote_numa_info_request L input) library
        (encode_set_remote_numa_info_response R no_buffer) s

  abbrev pub smap_migrate_remote_numa_handler : (M → S → ℕ × S) → Buffer → S → Handled S
  smap_migrate_remote_numa_handler library input s =
      handle (decode_migrate_remote_numa_request L input) library
        (encode_migrate_remote_numa_response R no_buffer) s

  abbrev pub smap_migrate_pid_remote_numa_handler : (M → S → ℕ × S) → Buffer → S → Handled S
  smap_migrate_pid_remote_numa_handler library input s =
      handle (decode_migrate_pid_remote_numa_request L input) library
        (encode_migrate_pid_remote_numa_response R no_buffer) s

module _ {S : Type 0} (R : Runtime) where
  -- The page type is saved to a file before; that it could not be is only logged.
  abbrev pub smap_init_handler : (ℕ → S → S) → (ℕ → S → ℕ × S) → Buffer → S → Handled S
  smap_init_handler save_page_type library input s =
      handle (decode_init_request input)
        (λ page_type s'. library page_type (save_page_type page_type s'))
        (encode_init_response R no_buffer) s

  -- The input is not read.
  abbrev pub smap_stop_handler : (S → ℕ × S) → Buffer → S → Handled S
  smap_stop_handler library input s =
      let result = library s in reply (encode_stop_response R no_buffer result.0) result.1

  abbrev pub smap_is_running_handler : (S → Bool) → Buffer → S → Handled S
  smap_is_running_handler library input s =
      reply (encode_is_running_response R no_buffer (library s)) s

  -- What the encoder returns is ignored.
  abbrev urgent_reply : Encoded → S → Handled S
  urgent_reply (returned output code) s = finished 0 output s
  urgent_reply fault s = crashed

  abbrev urgent_handle : Decoded ℕ → (ℕ → S → S) → S → Handled S
  urgent_handle (got size) library s =
      urgent_reply (encode_urgent_migrate_out_response R no_buffer) (library size s)
  urgent_handle (refused code) library s = finished turbo_error no_buffer s
  urgent_handle bad_read library s = crashed

  abbrev pub smap_urgent_migrate_out_handler : (ℕ → S → S) → Buffer → S → Handled S
  smap_urgent_migrate_out_handler library input s =
      urgent_handle (decode_urgent_migrate_out_request input) library s

  abbrev pub set_smap_run_mode_handler : (ℕ → S → ℕ × S) → Buffer → S → Handled S
  set_smap_run_mode_handler library input s =
      handle (decode_set_run_mode_request input) library (encode_set_run_mode_response R no_buffer)
        s

  abbrev pub smap_add_process_tracking_handler :
      (List ℕ × List ℕ × List ℕ × ℕ × ℕ → S → ℕ × S) → Buffer → S → Handled S
  smap_add_process_tracking_handler library input s =
      handle (decode_add_tracking_request R input) library
        (encode_add_tracking_response R no_buffer) s

  abbrev pub smap_remove_process_tracking_handler :
      (List ℕ × ℕ × ℕ → S → ℕ × S) → Buffer → S → Handled S
  smap_remove_process_tracking_handler library input s =
      handle (decode_remove_tracking_request R input) library
        (encode_remove_tracking_response R no_buffer) s

  abbrev pub smap_enable_process_migrate_handler :
      (List ℕ × ℕ × ℕ × ℕ → S → ℕ × S) → Buffer → S → Handled S
  smap_enable_process_migrate_handler library input s =
      handle (decode_enable_migrate_request R input) library
        (encode_enable_migrate_response R no_buffer) s
