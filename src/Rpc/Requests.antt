-- ===== src/Rpc/Requests.antt =====
-- EncodeRequest and DecodeRequest of the codecs of src/smap/smap_handler_msg.cpp whose request has a
-- fixed size. `buffer` is the caller's buffer, `msg` a struct of the layout that is given.
pub mod RoundTrip
use ubturbo.Rpc.Buffer.{
  has_data, got, Buffer, Runtime, Encoded, Decoded, from_data, encode, refused, piece, einval_code,
  value_at,
}
use ubturbo.Rpc.Bytes.{Layout, u64_layout, int_layout}
use ubturbo.Prelude.{◌*◌, not, false, ◌+◌, [], ℕ, ◌||◌, ◌∷◌, ltb, if◌then◌else◌}

-- A request that is a page type and a struct.
module _ (R : Runtime) {M : Type 0} (L : Layout M) (buffer : Buffer) (msg : M) (page_type : ℕ) where
  abbrev int_and_struct : Encoded
  int_and_struct =
      encode R buffer (int_layout.size + L.size) false
        (piece int_layout page_type ∷ piece L msg ∷ [])

  abbrev pub encode_migrate_out_request : Encoded
  encode_migrate_out_request = int_and_struct

  abbrev pub encode_migrate_out_grouped_request : Encoded
  encode_migrate_out_grouped_request = int_and_struct

  abbrev pub encode_remove_request : Encoded
  encode_remove_request = int_and_struct

  -- The wait time stands between the two.
  abbrev pub encode_migrate_out_sync_request : ℕ → Encoded
  encode_migrate_out_sync_request max_wait_time =
      encode R buffer (int_layout.size + u64_layout.size + L.size) false
        (piece int_layout page_type ∷ piece u64_layout max_wait_time ∷ piece L msg ∷ [])

-- A request that is one struct or one word.
module _ (R : Runtime) {M : Type 0} (L : Layout M) (buffer : Buffer) (msg : M) where
  abbrev pub one_value : Encoded
  one_value = encode R buffer L.size false (piece L msg ∷ [])

  abbrev pub encode_migrate_back_request : Encoded
  encode_migrate_back_request = one_value

  abbrev pub encode_enable_node_request : Encoded
  encode_enable_node_request = one_value

  abbrev pub encode_set_remote_numa_info_request : Encoded
  encode_set_remote_numa_info_request = one_value

  abbrev pub encode_migrate_remote_numa_request : Encoded
  encode_migrate_remote_numa_request = one_value

  abbrev pub encode_migrate_pid_remote_numa_request : Encoded
  encode_migrate_pid_remote_numa_request = one_value

module _ (R : Runtime) (buffer : Buffer) where
  abbrev pub encode_init_request : ℕ → Encoded
  encode_init_request page_type = one_value R int_layout buffer page_type

  abbrev pub encode_urgent_migrate_out_request : ℕ → Encoded
  encode_urgent_migrate_out_request size = one_value R u64_layout buffer size

  abbrev pub encode_set_run_mode_request : ℕ → Encoded
  encode_set_run_mode_request run_mode = one_value R int_layout buffer run_mode

  -- Four bytes as `new` gives them: nothing is copied.
  abbrev pub encode_stop_request : Encoded
  encode_stop_request = encode R buffer int_layout.size false []

  abbrev pub encode_is_running_request : Encoded
  encode_is_running_request = encode R buffer int_layout.size false []

  abbrev pub encode_query_vm_freq_request : ℕ → ℕ → ℕ → Encoded
  encode_query_vm_freq_request pid length_in data_source =
      encode R buffer (int_layout.size + int_layout.size + int_layout.size) false
        (piece int_layout pid ∷ piece int_layout length_in ∷ piece int_layout data_source ∷ [])

  -- `len` is set before the allocation.
  abbrev pub encode_query_process_config_request : ℕ → ℕ → Encoded
  encode_query_process_config_request nid in_len =
      encode R (record buffer { len = int_layout.size * 2 }) (int_layout.size * 2) false
        (piece int_layout nid ∷ piece int_layout in_len ∷ [])

module _ {M : Type 0} (L : Layout M) (buffer : Buffer) where
  abbrev struct_and_int : Decoded (M × ℕ)
  struct_and_int =
      from_data buffer (λ bs. got (value_at L int_layout.size bs, value_at int_layout 0 bs))

  abbrev pub decode_migrate_out_request : Decoded (M × ℕ)
  decode_migrate_out_request =
      if ltb buffer.len (int_layout.size + L.size) || not (has_data buffer)
      then refused einval_code
      else struct_and_int

  abbrev pub decode_migrate_out_grouped_request : Decoded (M × ℕ)
  decode_migrate_out_grouped_request =
      if ltb buffer.len (int_layout.size + L.size) || not (has_data buffer)
      then refused einval_code
      else struct_and_int

  abbrev pub decode_remove_request : Decoded (M × ℕ)
  decode_remove_request =
      if ltb buffer.len (int_layout.size + L.size) then refused einval_code else struct_and_int

  abbrev pub decode_migrate_out_sync_request : Decoded (M × ℕ × ℕ)
  decode_migrate_out_sync_request =
      if ltb buffer.len (int_layout.size + u64_layout.size + L.size)
      then refused einval_code
      else from_data buffer (λ bs. got (
        value_at L (int_layout.size + u64_layout.size) bs,
        value_at int_layout 0 bs,
        value_at u64_layout int_layout.size bs,
      ))

  abbrev pub one_value_of : Decoded M
  one_value_of =
      if ltb buffer.len L.size
      then refused einval_code
      else from_data buffer (λ bs. got (value_at L 0 bs))

  abbrev pub decode_migrate_back_request : Decoded M
  decode_migrate_back_request = one_value_of

  abbrev pub decode_enable_node_request : Decoded M
  decode_enable_node_request = one_value_of

  abbrev pub decode_set_remote_numa_info_request : Decoded M
  decode_set_remote_numa_info_request = one_value_of

  abbrev pub decode_migrate_remote_numa_request : Decoded M
  decode_migrate_remote_numa_request = one_value_of

  abbrev pub decode_migrate_pid_remote_numa_request : Decoded M
  decode_migrate_pid_remote_numa_request = one_value_of

module _ (buffer : Buffer) where
  abbrev pub decode_init_request : Decoded ℕ
  decode_init_request = one_value_of int_layout buffer

  abbrev pub decode_urgent_migrate_out_request : Decoded ℕ
  decode_urgent_migrate_out_request = one_value_of u64_layout buffer

  abbrev pub decode_set_run_mode_request : Decoded ℕ
  decode_set_run_mode_request = one_value_of int_layout buffer

  abbrev pub decode_query_vm_freq_request : Decoded (ℕ × ℕ × ℕ)
  decode_query_vm_freq_request =
      if ltb buffer.len (int_layout.size + int_layout.size + int_layout.size)
      then refused einval_code
      else from_data buffer
          (λ bs. got (value_at int_layout 0 bs, value_at int_layout 4 bs, value_at int_layout 8 bs))

  abbrev pub decode_query_process_config_request : Decoded (ℕ × ℕ)
  decode_query_process_config_request =
      if ltb buffer.len (int_layout.size + int_layout.size)
      then refused einval_code
      else from_data buffer (λ bs. got (value_at int_layout 0 bs, value_at int_layout 4 bs))
