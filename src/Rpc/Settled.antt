-- ===== src/Rpc/Settled.antt =====
-- What ten of the encoders leave when they fail.
use ubturbo.Rpc.Replies.{encode_migrate_out_response, encode_is_running_response}
use ubturbo.Rpc.Tracking.{encode_remove_tracking_request, encode_enable_migrate_request, scaled}
use ubturbo.Rpc.Requests.{
  encode_migrate_out_request, encode_migrate_out_sync_request, encode_migrate_back_request,
  encode_query_vm_freq_request, encode_query_process_config_request, encode_stop_request,
}
use ubturbo.Rpc.Buffer.Laws.{IsSettled, encode_into-Settled}
use ubturbo.Rpc.Bytes.{Layout}
use ubturbo.Rpc.Buffer.{Runtime, Buffer}
use ubturbo.Prelude.{List, ◌+◌, false, ℕ, true, u64}

module _ (R : Runtime) {M : Type 0} (L : Layout M) (buffer : Buffer) (msg : M) where
  -- Whatever the allocator and `memcpy_s` do, each of these ten encoders leaves bytes to send when it
  -- returns 0, and no memory that the caller would have to free when it returns an error: the requests
  -- MigrateOut, MigrateOutSync, MigrateBack, QueryVmFreq, QueryProcessConfig, Stop,
  -- RemoveProcessTracking and EnableProcessMigrate, and the responses MigrateOut and IsRunning.
  -- AddProcessTracking is not among them.
  pub encoders-Settled :
      (a b c : ℕ) (pids : List ℕ)
      → IsSettled (encode_migrate_out_request R L buffer msg a)
        × IsSettled (encode_migrate_out_sync_request R L buffer msg a b)
        × IsSettled (encode_migrate_back_request R L buffer msg)
        × IsSettled (encode_query_vm_freq_request R buffer a b c)
        × IsSettled (encode_query_process_config_request R buffer a b)
        × IsSettled (encode_stop_request R buffer)
        × IsSettled (encode_remove_tracking_request R buffer pids a b)
        × IsSettled (encode_enable_migrate_request R buffer pids a b c)
        × IsSettled (encode_migrate_out_response R buffer a)
        × IsSettled (encode_is_running_response R buffer true)
  encoders-Settled a b c pids = (
    encode_into-Settled R buffer _ false _ _,
    encode_into-Settled R buffer _ false _ _,
    encode_into-Settled R buffer _ false _ _,
    encode_into-Settled R buffer _ false _ _,
    encode_into-Settled R (record buffer { len = 8 }) _ false _ _,
    encode_into-Settled R buffer _ false _ _,
    encode_into-Settled R buffer _ false _ _,
    encode_into-Settled R (record buffer { len = u64 (12 + scaled 4 a) }) _ false _ _,
    encode_into-Settled R buffer _ true _ _,
    encode_into-Settled R buffer _ true _ _,
  )
