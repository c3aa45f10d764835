-- ===== src/Rpc/Requests/RoundTrip.antt =====
-- The requests of a fixed size come back from their decoders as they were sent.
use ubturbo.Rpc.Requests.{
  decode_migrate_out_request, decode_migrate_out_sync_request, one_value_of, one_value,
  encode_migrate_out_sync_request, encode_migrate_out_request, decode_migrate_out_grouped_request,
  encode_migrate_out_grouped_request, decode_remove_request, encode_remove_request,
  decode_init_request, decode_migrate_back_request, decode_query_vm_freq_request,
  encode_init_request, encode_migrate_back_request, encode_query_vm_freq_request,
  decode_query_process_config_request, decode_enable_node_request, decode_set_run_mode_request,
  encode_set_run_mode_request, encode_enable_node_request, encode_query_process_config_request,
  decode_urgent_migrate_out_request, decode_set_remote_numa_info_request,
  encode_set_remote_numa_info_request, encode_urgent_migrate_out_request,
  decode_migrate_remote_numa_request, encode_migrate_remote_numa_request,
  decode_migrate_pid_remote_numa_request, encode_migrate_pid_remote_numa_request,
}
use ubturbo.Rpc.Buffer.Laws.{IsExact, encode-exact}
use ubturbo.Rpc.Bytes.{Layout, int_layout, u64_layout, le_bytes, le_value-le_bytes}
use ubturbo.Prelude.{◌≤◌, ◌<◌, ◌^◌, [], ◌≡◌, ◌+◌, ◌++◌, refl, arith, ◌∷◌, false, ℕ, some, List, ltb}
use ubturbo.Rpc.Buffer.{got, value_at, Runtime, IsLawful, Buffer, piece, received}

pub piece-Exact : {M : Type 0} (L : Layout M) (m : M) → IsExact (piece L m)
piece-Exact L m = (L.size_pos, L.length-to_bytes m)

pub ltb_self : (n : ℕ) → ltb n n ≡ false
ltb_self n = ground arith

-- An `int` and a 64-bit number at the head of a buffer.
pub int-head :
    (n : ℕ) (rest : List ℕ) → n < 2 ^ 32 → value_at int_layout 0 (le_bytes 4 n ++ rest) ≡ n
int-head n rest h = le_value-le_bytes 4 n rest h

pub u64-head :
    (n : ℕ) (rest : List ℕ) → n < 2 ^ 64 → value_at u64_layout 0 (le_bytes 8 n ++ rest) ≡ n
u64-head n rest h = le_value-le_bytes 8 n rest h

module _ (R : Runtime) (lawful : IsLawful R) {M : Type 0} (L : Layout M) (buffer : Buffer) (msg : M)
    (page_type : ℕ) (bs : List ℕ) where
  -- A migration or a removal request that is encoded into memory arrives as it was sent.
  pub int_and_struct-round_trip :
      L.size ≤ 2000000000
      → L.Fits msg
      → page_type < 2 ^ 32
      → R.new_bytes (4 + L.size) ≡ some bs
      → (received
            (decode_migrate_out_request L)
            (encode_migrate_out_request R L buffer msg page_type)
          ≡ some (got (msg, page_type)))
        × (received
              (decode_migrate_out_grouped_request L)
              (encode_migrate_out_grouped_request R L buffer msg page_type)
            ≡ some (got (msg, page_type)))
        × (received (decode_remove_request L) (encode_remove_request R L buffer msg page_type)
            ≡ some (got (msg, page_type)))
  int_and_struct-round_trip small fits_msg fits_type new =
      rw
        (
          encode-exact R lawful buffer (4 + L.size) false
              (piece int_layout page_type ∷ piece L msg ∷ []) bs
              (piece-Exact int_layout page_type, (piece-Exact L msg, tt)) (omega arith)
              (omega arith) new,
          ltb_self (4 + L.size),
          L.of_bytes-to_bytes msg [] fits_msg,
          int-head page_type (L.to_bytes msg ++ []) fits_type,
        )
        (refl, refl, refl)

  -- The same for the request that waits: the page type, the wait time and the message.
  pub migrate_out_sync-round_trip :
      (max_wait_time : ℕ)
      → L.size ≤ 2000000000
      → L.Fits msg
      → page_type < 2 ^ 32
      → max_wait_time < 2 ^ 64
      → R.new_bytes (12 + L.size) ≡ some bs
      → received
          (decode_migrate_out_sync_request L)
          (encode_migrate_out_sync_request R L buffer msg page_type max_wait_time)
        ≡ some (got (msg, page_type, max_wait_time))
  migrate_out_sync-round_trip wait small fits_msg fits_type fits_wait new =
      rw
        (
          encode-exact R lawful buffer (12 + L.size) false
              (piece int_layout page_type ∷ piece u64_layout wait ∷ piece L msg ∷ []) bs
              (
                piece-Exact int_layout page_type,
                (piece-Exact u64_layout wait, (piece-Exact L msg, tt)),
              )
              (omega arith) (omega arith) new,
          ltb_self (12 + L.size),
          L.of_bytes-to_bytes msg [] fits_msg,
          int-head page_type (le_bytes 8 wait ++ (L.to_bytes msg ++ [])) fits_type,
          u64-head wait (L.to_bytes msg ++ []) fits_wait,
        )
        refl

  one_value-round_trip :
      L.size ≤ 2000000000
      → L.Fits msg
      → R.new_bytes L.size ≡ some bs
      → received (one_value_of L) (one_value R L buffer msg) ≡ some (got msg)
  one_value-round_trip small fits_msg new =
      rw
        (
          encode-exact R lawful buffer L.size false (piece L msg ∷ []) bs (piece-Exact L msg, tt)
              (omega arith) (omega arith) new,
          ltb_self L.size,
          L.of_bytes-to_bytes msg [] fits_msg,
        )
        refl

module _ (R : Runtime) (lawful : IsLawful R) {M : Type 0} (L : Layout M) (buffer : Buffer) where
  -- A request that is one struct arrives as it was sent: taking memory back, enabling a node, the
  -- limits of a remote node, and the two migrations between remote nodes.
  pub struct-round_trip :
      (msg : M) (bs : List ℕ)
      → L.size ≤ 2000000000
      → L.Fits msg
      → R.new_bytes L.size ≡ some bs
      → (received (decode_migrate_back_request L) (encode_migrate_back_request R L buffer msg)
          ≡ some (got msg))
        × (received (decode_enable_node_request L) (encode_enable_node_request R L buffer msg)
            ≡ some (got msg))
        × (received
              (decode_set_remote_numa_info_request L)
              (encode_set_remote_numa_info_request R L buffer msg)
            ≡ some (got msg))
        × (received
              (decode_migrate_remote_numa_request L)
              (encode_migrate_remote_numa_request R L buffer msg)
            ≡ some (got msg))
        × (received
              (decode_migrate_pid_remote_numa_request L)
              (encode_migrate_pid_remote_numa_request R L buffer msg)
            ≡ some (got msg))
  struct-round_trip msg bs small fits new =
      let same = one_value-round_trip R lawful L buffer msg 0 bs small fits new in
      (same, same, same, same, same)

module _ (R : Runtime) (lawful : IsLawful R) (buffer : Buffer) (bs : List ℕ) where
  word-round_trip :
      (n size : ℕ) (more : List ℕ)
      → n < 2 ^ 32
      → size < 2 ^ 64
      → R.new_bytes 4 ≡ some bs
      → R.new_bytes 8 ≡ some more
      → (received decode_init_request (encode_init_request R buffer n) ≡ some (got n))
        × (received decode_set_run_mode_request (encode_set_run_mode_request R buffer n)
            ≡ some (got n))
        × (received decode_urgent_migrate_out_request
              (encode_urgent_migrate_out_request R buffer size)
            ≡ some (got size))
  word-round_trip n size more fits_n fits_size new_4 new_8 =
      let same =
        one_value-round_trip R lawful int_layout buffer n 0 bs (omega arith) fits_n new_4 in
      (
        same,
        same,
        one_value-round_trip R lawful u64_layout buffer size 0 more (omega arith) fits_size new_8,
      )

  query-round_trip :
      (a b c : ℕ) (more : List ℕ)
      → a < 2 ^ 32
      → b < 2 ^ 32
      → c < 2 ^ 32
      → R.new_bytes 12 ≡ some bs
      → R.new_bytes 8 ≡ some more
      → (received decode_query_vm_freq_request (encode_query_vm_freq_request R buffer a b c)
          ≡ some (got (a, b, c)))
        × (received decode_query_process_config_request
              (encode_query_process_config_request R buffer a b)
            ≡ some (got (a, b)))
  query-round_trip a b c more ha hb hc new_12 new_8 =
      rw
        (
          encode-exact R lawful buffer 12 false
              (piece int_layout a ∷ piece int_layout b ∷ piece int_layout c ∷ []) bs
              (piece-Exact int_layout a, (piece-Exact int_layout b, (piece-Exact int_layout c, tt)))
              (omega arith) refl new_12,
          encode-exact R lawful (record buffer { len = 8 }) 8 false
              (piece int_layout a ∷ piece int_layout b ∷ []) more
              (piece-Exact int_layout a, (piece-Exact int_layout b, tt)) (omega arith) refl new_8,
          int-head a (le_bytes 4 b ++ (le_bytes 4 c ++ [])) ha,
          int-head b (le_bytes 4 c ++ []) hb,
          int-head c [] hc,
        )
        (refl, refl)

module _ (R : Runtime) (lawful : IsLawful R) (buffer : Buffer) where
  -- The requests that consist of words arrive as they were sent, when the words fit their types and
  -- there is memory: start, run mode, urgent migration, and the queries of a frequency and of
  -- configurations.
  pub scalar-round_trip :
      (n size a b c : ℕ) (bs_4 bs_8 bs_12 : List ℕ)
      → n < 2 ^ 32
      → size < 2 ^ 64
      → a < 2 ^ 32
      → b < 2 ^ 32
      → c < 2 ^ 32
      → R.new_bytes 4 ≡ some bs_4
      → R.new_bytes 8 ≡ some bs_8
      → R.new_bytes 12 ≡ some bs_12
      → (received decode_init_request (encode_init_request R buffer n) ≡ some (got n))
        × (received decode_set_run_mode_request (encode_set_run_mode_request R buffer n)
            ≡ some (got n))
        × (received decode_urgent_migrate_out_request
              (encode_urgent_migrate_out_request R buffer size)
            ≡ some (got size))
        × (received decode_query_vm_freq_request (encode_query_vm_freq_request R buffer a b c)
            ≡ some (got (a, b, c)))
        × (received decode_query_process_config_request
              (encode_query_process_config_request R buffer a b)
            ≡ some (got (a, b)))
  scalar-round_trip n size a b c bs_4 bs_8 bs_12 fits_n fits_size fits_a fits_b fits_c new_4 new_8
        new_12 =
      let (init, mode, urgent) =
        word-round_trip R lawful buffer bs_4 n size bs_8 fits_n fits_size new_4 new_8 in
      let (freq, config) =
        query-round_trip R lawful buffer bs_12 a b c bs_8 fits_a fits_b fits_c new_12 new_8 in
      (init, mode, urgent, freq, config)
