-- ===== src/Rpc/Tracking/RoundTrip.antt =====
-- The requests that hold arrays come back from their decoders as they were sent.
use ubturbo.Rpc.Bytes.{int_layout}
use ubturbo.Rpc.Tracking.{
  decode_remove_tracking_request, encode_remove_tracking_request, decode_enable_migrate_request,
  encode_enable_migrate_request, encode_add_tracking_request, decode_add_tracking_request,
}
use ubturbo.Prelude.{◌<◌, ◌+◌, ℕ, ◌^◌, ◌*◌, ◌≤◌, some, List, ◌≡◌, length, All}
use ubturbo.Rpc.Buffer.{got, Runtime, IsLawful, Buffer, received}
use ubturbo.Rpc.Tracking.Arrays.{remove-round_trip, enable-round_trip}
use ubturbo.Rpc.Tracking.Add.{add-round_trip}

module _ (R : Runtime) (lawful : IsLawful R) (buffer : Buffer) (len : ℕ) (pos : 0 < len)
    (small : len ≤ 40) (pids times periods : List ℕ) (enough : length pids ≡ len)
    (times_enough : length times ≡ len) (periods_enough : length periods ≡ len)
    (fits : All int_layout.Fits pids) (times_fit : All int_layout.Fits times)
    (periods_fit : All int_layout.Fits periods) where
  -- The three calls on processes arrive as they were sent, when their `len` is between 1 and 40, the
  -- arrays have `len` elements, every number fits its type, and there is memory.
  pub tracking_requests-round_trip :
      (scan_type flag enable flags : ℕ) (bs_add bs_remove bs_enable : List ℕ)
      → scan_type < 2 ^ 32
      → flag < 2 ^ 32
      → enable < 2 ^ 32
      → flags < 2 ^ 32
      → R.new_bytes (8 + 12 * len) ≡ some bs_add
      → R.new_bytes (8 + 4 * len) ≡ some bs_remove
      → R.new_bytes (12 + 4 * len) ≡ some bs_enable
      → (received
            (decode_add_tracking_request R)
            (encode_add_tracking_request R buffer pids times periods len scan_type)
          ≡ some (got (pids, times, periods, len, scan_type)))
        × (received
              (decode_remove_tracking_request R)
              (encode_remove_tracking_request R buffer pids len flag)
            ≡ some (got (pids, len, flag)))
        × (received
              (decode_enable_migrate_request R)
              (encode_enable_migrate_request R buffer pids len enable flags)
            ≡ some (got (pids, len, enable, flags)))
  tracking_requests-round_trip type flag enable flags bs_a bs_r bs_e h_type h_flag h_en h_flags a r
        e =
      (
        add-round_trip R lawful buffer bs_a len pos small pids enough fits times periods
            times_enough periods_enough type a times_fit periods_fit h_type,
        remove-round_trip R lawful buffer bs_r len pos small pids enough fits flag h_flag r,
        enable-round_trip R lawful buffer bs_e len pos small pids enough fits enable flags h_en
            h_flags e,
      )
