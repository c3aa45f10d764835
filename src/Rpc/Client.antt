-- ===== src/Rpc/Client.antt =====
-- The functions of src/smap/client/smap_client.cpp, and `UBTurboFunctionCaller` of the ipc client as
-- a parameter: what it returns and the bytes it brings for the name of a function and the bytes to
-- send. `S` is the state of the server's side. A pointer is an Option, and memory is not counted.
use ubturbo.Rpc.Replies.{
  decode_is_running_response, decode_stop_response, decode_set_run_mode_response,
  decode_migrate_remote_numa_response, decode_migrate_back_response, decode_enable_node_response,
  decode_set_remote_numa_info_response, decode_remove_tracking_response,
  decode_migrate_out_grouped_response, decode_migrate_out_sync_response,
  decode_migrate_out_response, decode_migrate_pid_remote_numa_response, decode_init_response,
  decode_remove_response, decode_enable_migrate_response, decode_add_tracking_response,
}
use ubturbo.Rpc.Tracking.{
  max_nr_tracking, encode_add_tracking_request, encode_remove_tracking_request,
  encode_enable_migrate_request,
}
use ubturbo.Rpc.Requests.{
  encode_urgent_migrate_out_request, encode_set_run_mode_request, encode_is_running_request,
  encode_stop_request, encode_migrate_out_request, encode_migrate_out_sync_request,
  encode_migrate_out_grouped_request, encode_migrate_pid_remote_numa_request, encode_init_request,
  encode_migrate_back_request, encode_set_remote_numa_info_request, encode_enable_node_request,
  encode_remove_request, encode_migrate_remote_numa_request,
}
use ubturbo.Rpc.Bytes.{Layout}
use ubturbo.Prelude.{
  ℕ, Option, not, ◌||◌, some, Bool, true, none, suc, false, zero, List, if◌then◌else◌, int_lt,
}
use ubturbo.Rpc.Buffer.{
  got, fault, returned, bad_read, Encoded, Buffer, Runtime, Decoded, no_buffer, einval_code,
  ipc_error,
}

-- The names that the functions call the server by.
pub data Function : Type 0 where
  call_migrate_out call_migrate_out_grouped call_migrate_back call_remove call_node_enable
        call_start call_stop call_urgent_migrate_out call_process_tracking_add
        call_process_tracking_remove call_process_migrate_enable call_remote_numa_info_set
        call_run_mode_set call_is_running call_migrate_out_sync call_remote_numa_migrate
        call_pid_remote_numa_migrate :
      Function

abbrev pub Caller : Type 0 → Type 0
Caller S = Function → Buffer → S → ℕ × Buffer × S

module _ {S : Type 0} where
  -- What comes after the call of `UBTurboFunctionCaller`.
  abbrev answered : (Buffer → Decoded ℕ) → ℕ × Buffer × S → Decoded ℕ × S
  answered decode (zero, recv, s) = (decode recv, s)
  answered decode (suc ipc, recv, s) = (got (suc ipc), s)

  -- Send what was encoded and decode the answer.
  abbrev pub call : Caller S → Function → Encoded → (Buffer → Decoded ℕ) → S → Decoded ℕ × S
  call caller f fault decode s = (bad_read, s)
  call caller f (returned send (suc code)) decode s = (got ipc_error, s)
  call caller f (returned send zero) decode s = answered decode (caller f send s)

module _ {S : Type 0} (R : Runtime) (caller : Caller S) {M : Type 0} (L : Layout M) where
  abbrev pub ubturbo_smap_migrate_out : Option M → ℕ → S → Decoded ℕ × S
  ubturbo_smap_migrate_out none page_type s = (got einval_code, s)
  ubturbo_smap_migrate_out (some msg) page_type s =
      call caller call_migrate_out (encode_migrate_out_request R L no_buffer msg page_type)
        decode_migrate_out_response s

  abbrev pub ubturbo_smap_migrate_out_grouped : Option M → ℕ → S → Decoded ℕ × S
  ubturbo_smap_migrate_out_grouped none page_type s = (got einval_code, s)
  ubturbo_smap_migrate_out_grouped (some msg) page_type s =
      call caller call_migrate_out_grouped
        (encode_migrate_out_grouped_request R L no_buffer msg page_type)
        decode_migrate_out_grouped_response s

  abbrev pub ubturbo_smap_remove : Option M → ℕ → S → Decoded ℕ × S
  ubturbo_smap_remove none page_type s = (got einval_code, s)
  ubturbo_smap_remove (some msg) page_type s =
      call caller call_remove (encode_remove_request R L no_buffer msg page_type)
        decode_remove_response s

  abbrev pub ubturbo_smap_migrate_out_sync : Option M → ℕ → ℕ → S → Decoded ℕ × S
  ubturbo_smap_migrate_out_sync none page_type max_wait_time s = (got einval_code, s)
  ubturbo_smap_migrate_out_sync (some msg) page_type max_wait_time s =
      call caller call_migrate_out_sync
        (encode_migrate_out_sync_request R L no_buffer msg page_type max_wait_time)
        decode_migrate_out_sync_response s

  abbrev pub ubturbo_smap_migrate_back : Option M → S → Decoded ℕ × S
  ubturbo_smap_migrate_back none s = (got einval_code, s)
  ubturbo_smap_migrate_back (some msg) s =
      call caller call_migrate_back (encode_migrate_back_request R L no_buffer msg)
        decode_migrate_back_response s

  abbrev pub ubturbo_smap_node_enable : Option M → S → Decoded ℕ × S
  ubturbo_smap_node_enable none s = (got einval_code, s)
  ubturbo_smap_node_enable (some msg) s =
      call caller call_node_enable (encode_enable_node_request R L no_buffer msg)
        decode_enable_node_response s

  abbrev pub ubturbo_smap_remote_numa_info_set : Option M → S → Decoded ℕ × S
  ubturbo_smap_remote_numa_info_set none s = (got einval_code, s)
  ubturbo_smap_remote_numa_info_set (some msg) s =
      call caller call_remote_numa_info_set (encode_set_remote_numa_info_request R L no_buffer msg)
        decode_set_remote_numa_info_response s

  abbrev pub ubturbo_smap_remote_numa_migrate : Option M → S → Decoded ℕ × S
  ubturbo_smap_remote_numa_migrate none s = (got einval_code, s)
  ubturbo_smap_remote_numa_migrate (some msg) s =
      call caller call_remote_numa_migrate (encode_migrate_remote_numa_request R L no_buffer msg)
        decode_migrate_remote_numa_response s

  abbrev pub ubturbo_smap_pid_remote_numa_migrate : Option M → S → Decoded ℕ × S
  ubturbo_smap_pid_remote_numa_migrate none s = (got einval_code, s)
  ubturbo_smap_pid_remote_numa_migrate (some msg) s =
      call caller call_pid_remote_numa_migrate
        (encode_migrate_pid_remote_numa_request R L no_buffer msg)
        decode_migrate_pid_remote_numa_response s

module _ {S : Type 0} (R : Runtime) (caller : Caller S) where
  -- `InitLog` refuses a null log function.
  abbrev pub ubturbo_smap_start : ℕ → Bool → S → Decoded ℕ × S
  ubturbo_smap_start page_type false s = (got einval_code, s)
  ubturbo_smap_start page_type true s =
      call caller call_start (encode_init_request R no_buffer page_type) decode_init_response s

  abbrev pub ubturbo_smap_stop : S → Decoded ℕ × S
  ubturbo_smap_stop s =
      call caller call_stop (encode_stop_request R no_buffer) decode_stop_response s

  -- The answer is dropped.
  abbrev pub ubturbo_smap_urgent_migrate_out : ℕ → S → S
  ubturbo_smap_urgent_migrate_out size s =
      (call caller call_urgent_migrate_out (encode_urgent_migrate_out_request R no_buffer size)
        (λ recv. got 0) s).1

  abbrev pub ubturbo_smap_run_mode_set : ℕ → S → Decoded ℕ × S
  ubturbo_smap_run_mode_set run_mode s =
      call caller call_run_mode_set (encode_set_run_mode_request R no_buffer run_mode)
        decode_set_run_mode_response s

  -- `len <= 0 || len > MAX_NR_MIGOUT`
  abbrev bad_len : ℕ → Bool
  bad_len len = not (int_lt 0 len) || int_lt max_nr_tracking len

  abbrev pub ubturbo_smap_process_tracking_add :
      Option (List ℕ) → Option (List ℕ) → Option (List ℕ) → ℕ → ℕ → S → Decoded ℕ × S
  ubturbo_smap_process_tracking_add (some pid_arr) (some scan_time) (some duration) len scan_type
        s =
      if bad_len len
      then (got einval_code, s)
      else call caller call_process_tracking_add
          (encode_add_tracking_request R no_buffer pid_arr scan_time duration len scan_type)
          decode_add_tracking_response s
  ubturbo_smap_process_tracking_add pid_arr scan_time duration len scan_type s =
      (got einval_code, s)

  abbrev pub ubturbo_smap_process_tracking_remove : Option (List ℕ) → ℕ → ℕ → S → Decoded ℕ × S
  ubturbo_smap_process_tracking_remove none len flag s = (got einval_code, s)
  ubturbo_smap_process_tracking_remove (some pid_arr) len flag s =
      if bad_len len
      then (got einval_code, s)
      else call caller call_process_tracking_remove
          (encode_remove_tracking_request R no_buffer pid_arr len flag)
          decode_remove_tracking_response s

  abbrev pub ubturbo_smap_process_migrate_enable : Option (List ℕ) → ℕ → ℕ → ℕ → S → Decoded ℕ × S
  ubturbo_smap_process_migrate_enable none len enable flags s = (got einval_code, s)
  ubturbo_smap_process_migrate_enable (some pid_arr) len enable flags s =
      if bad_len len
      then (got einval_code, s)
      else call caller call_process_migrate_enable
          (encode_enable_migrate_request R no_buffer pid_arr len enable flags)
          decode_enable_migrate_response s

  abbrev running_answer : ℕ × Buffer × S → Decoded Bool × S
  running_answer (zero, recv, s) = (decode_is_running_response recv, s)
  running_answer (suc ipc, recv, s) = (got false, s)

  abbrev running_call : Encoded → S → Decoded Bool × S
  running_call fault s = (bad_read, s)
  running_call (returned send (suc code)) s = (got false, s)
  running_call (returned send zero) s = running_answer (caller call_is_running send s)

  abbrev pub ubturbo_smap_is_running : S → Decoded Bool × S
  ubturbo_smap_is_running s = running_call (encode_is_running_request R no_buffer) s
