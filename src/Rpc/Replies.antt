-- ===== src/Rpc/Replies.antt =====
-- EncodeResponse and DecodeResponse of the codecs of src/smap/smap_handler_msg.cpp. A decoder returns
-- what the library's function returned, or IPC_ERROR in its place.
use ubturbo.Prelude.{ℕ, not, [], ◌∷◌, Bool, true, ◌==◌, if◌then◌else◌, ltb}
use ubturbo.Rpc.Bytes.{int_layout, bool_layout}
use ubturbo.Rpc.Buffer.{
  got, Buffer, Runtime, Encoded, Decoded, encode, piece, ipc_error, from_data, value_at,
}

module _ (R : Runtime) (buffer : Buffer) where
  abbrev pub int_response : ℕ → Encoded
  int_response return_value =
      encode R buffer int_layout.size true (piece int_layout return_value ∷ [])

  abbrev pub encode_migrate_out_response : ℕ → Encoded
  encode_migrate_out_response = int_response

  abbrev pub encode_migrate_out_grouped_response : ℕ → Encoded
  encode_migrate_out_grouped_response = int_response

  abbrev pub encode_migrate_back_response : ℕ → Encoded
  encode_migrate_back_response = int_response

  abbrev pub encode_remove_response : ℕ → Encoded
  encode_remove_response = int_response

  abbrev pub encode_enable_node_response : ℕ → Encoded
  encode_enable_node_response = int_response

  abbrev pub encode_init_response : ℕ → Encoded
  encode_init_response = int_response

  abbrev pub encode_stop_response : ℕ → Encoded
  encode_stop_response = int_response

  abbrev pub encode_add_tracking_response : ℕ → Encoded
  encode_add_tracking_response = int_response

  abbrev pub encode_remove_tracking_response : ℕ → Encoded
  encode_remove_tracking_response = int_response

  abbrev pub encode_enable_migrate_response : ℕ → Encoded
  encode_enable_migrate_response = int_response

  abbrev pub encode_set_remote_numa_info_response : ℕ → Encoded
  encode_set_remote_numa_info_response = int_response

  abbrev pub encode_set_run_mode_response : ℕ → Encoded
  encode_set_run_mode_response = int_response

  abbrev pub encode_migrate_out_sync_response : ℕ → Encoded
  encode_migrate_out_sync_response = int_response

  abbrev pub encode_migrate_remote_numa_response : ℕ → Encoded
  encode_migrate_remote_numa_response = int_response

  abbrev pub encode_migrate_pid_remote_numa_response : ℕ → Encoded
  encode_migrate_pid_remote_numa_response = int_response

  -- Four bytes as `new` gives them.
  abbrev pub encode_urgent_migrate_out_response : Encoded
  encode_urgent_migrate_out_response = encode R buffer int_layout.size true []

  -- A `bool` is one byte.
  abbrev pub encode_is_running_response : Bool → Encoded
  encode_is_running_response running =
      encode R buffer bool_layout.size true (piece bool_layout (if running then 1 else 0) ∷ [])

module _ (buffer : Buffer) where
  abbrev pub int_of_response : Decoded ℕ
  int_of_response =
      if ltb buffer.len int_layout.size
      then got ipc_error
      else from_data buffer (λ bs. got (value_at int_layout 0 bs))

  abbrev pub decode_migrate_out_response : Decoded ℕ
  decode_migrate_out_response = int_of_response

  abbrev pub decode_migrate_out_grouped_response : Decoded ℕ
  decode_migrate_out_grouped_response = int_of_response

  abbrev pub decode_migrate_back_response : Decoded ℕ
  decode_migrate_back_response = int_of_response

  abbrev pub decode_remove_response : Decoded ℕ
  decode_remove_response = int_of_response

  abbrev pub decode_enable_node_response : Decoded ℕ
  decode_enable_node_response = int_of_response

  abbrev pub decode_init_response : Decoded ℕ
  decode_init_response = int_of_response

  abbrev pub decode_stop_response : Decoded ℕ
  decode_stop_response = int_of_response

  abbrev pub decode_add_tracking_response : Decoded ℕ
  decode_add_tracking_response = int_of_response

  abbrev pub decode_remove_tracking_response : Decoded ℕ
  decode_remove_tracking_response = int_of_response

  abbrev pub decode_enable_migrate_response : Decoded ℕ
  decode_enable_migrate_response = int_of_response

  abbrev pub decode_set_remote_numa_info_response : Decoded ℕ
  decode_set_remote_numa_info_response = int_of_response

  abbrev pub decode_set_run_mode_response : Decoded ℕ
  decode_set_run_mode_response = int_of_response

  abbrev pub decode_migrate_out_sync_response : Decoded ℕ
  decode_migrate_out_sync_response = int_of_response

  abbrev pub decode_migrate_remote_numa_response : Decoded ℕ
  decode_migrate_remote_numa_response = int_of_response

  abbrev pub decode_migrate_pid_remote_numa_response : Decoded ℕ
  decode_migrate_pid_remote_numa_response = int_of_response

  -- IPC_ERROR is returned as a `bool`, and is `true`.
  abbrev pub decode_is_running_response : Decoded Bool
  decode_is_running_response =
      if ltb buffer.len bool_layout.size
      then got (not (ipc_error == 0))
      else from_data buffer (λ bs. got (not (value_at bool_layout 0 bs == 0)))
