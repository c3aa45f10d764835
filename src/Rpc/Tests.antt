-- ===== src/Rpc/Tests.antt =====
-- The calls at concrete inputs: fresh memory is full of sevens, and a message is one `int`.
use ubturbo.Rpc.Queries.RoundTrip.{replies-round_trip}
use ubturbo.Rpc.Queries.Limit.{query_process_config-IsAnswered, IsAnswered}
use ubturbo.Rpc.Queries.{
  smap_query_process_config_handler, decode_query_vm_freq_response, encode_query_vm_freq_response,
  decode_query_process_config_response, encode_query_process_config_response,
  decode_query_remote_numa_freq_response, encode_query_remote_numa_freq_response,
}
use ubturbo.Rpc.Tracking.RoundTrip.{tracking_requests-round_trip}
use ubturbo.Rpc.Settled.{encoders-Settled}
use ubturbo.Rpc.Server.Equivalence.{message_calls-equivalence, message_limit, arrived, Delivers}
use ubturbo.Rpc.Tracking.Bounds.{tracking_requests-InBounds}
use ubturbo.Rpc.Requests.RoundTrip.{
  int_and_struct-round_trip, struct-round_trip, migrate_out_sync-round_trip, scalar-round_trip,
}
use ubturbo.Rpc.Replies.{encode_migrate_out_response, encode_is_running_response}
use ubturbo.Rpc.Requests.{
  decode_query_vm_freq_request, encode_migrate_out_request, decode_migrate_back_request,
  decode_init_request, decode_migrate_out_sync_request, decode_migrate_out_request,
  encode_migrate_out_sync_request, encode_query_vm_freq_request, encode_migrate_back_request,
  decode_migrate_out_grouped_request, encode_init_request, decode_set_run_mode_request,
  encode_migrate_out_grouped_request, decode_query_process_config_request,
  encode_query_process_config_request, decode_enable_node_request, encode_stop_request,
  decode_remove_request, encode_enable_node_request, encode_set_run_mode_request,
  encode_remove_request, decode_urgent_migrate_out_request, decode_set_remote_numa_info_request,
  encode_set_remote_numa_info_request, encode_urgent_migrate_out_request,
  decode_migrate_remote_numa_request, encode_migrate_remote_numa_request,
  decode_migrate_pid_remote_numa_request, encode_migrate_pid_remote_numa_request,
}
use ubturbo.Rpc.Tracking.{
  decode_add_tracking_request, max_nr_tracking, encode_add_tracking_request,
  decode_remove_tracking_request, encode_remove_tracking_request, decode_enable_migrate_request,
  encode_enable_migrate_request,
}
use ubturbo.Rpc.Bytes.{IsByte, int_layout}
use ubturbo.Rpc.Buffer.Laws.{IsSettled}
use ubturbo.Prelude.{
  List, false, ◌≤◌, ap, ◌*◌, [], ◌∷◌, some, arith, refl, ◌+◌, zero, suc, ℕ, ◌≡◌, true, ltb,
  if◌then◌else◌, All, length, if_ind,
}
use ubturbo.Rpc.Buffer.{
  got, returned, copy_pieces, received, Runtime, Buffer, IsLawful, Accepts, encode_into, no_buffer,
}
use ubturbo.Rpc.Server.{
  finished, crashed, Handled, smap_remove_handler, smap_migrate_out_handler,
  smap_migrate_out_grouped_handler,
}
use ubturbo.Rpc.Client.{
  call_remove, call_migrate_out, call_migrate_out_grouped, Caller, ubturbo_smap_migrate_out,
  ubturbo_smap_migrate_out_grouped, ubturbo_smap_remove, Function,
}

abbrev sevens : ℕ → List ℕ
sevens zero = []
sevens (suc n) = 7 ∷ sevens n

length-sevens : (n : ℕ) → length (sevens n) ≡ n
length-sevens zero = refl
length-sevens (suc n) = ap suc (length-sevens n)

abbrev runtime : Runtime
runtime = record {
  new_bytes = λ n. some (sevens n);
  memcpy_s = λ dest_max count. if ltb dest_max count then 34 else 0;
}

some_lem : (xs ys : List ℕ) → some xs ≡ some ys → xs ≡ ys
some_lem xs ys h = cc h

runtime-Lawful : IsLawful runtime
runtime-Lawful = record {
  new-length = λ n bs h. rw (← some_lem (sevens n) bs h) (length-sevens n);
  memcpy_s-fits = λ d c pos small fits. ground arith;
  memcpy_s-large = λ d c large. ground arith;
}

sent_bytes :
    encode_migrate_out_request runtime int_layout no_buffer 258 1
    ≡ returned
        (record {
          data_bytes = some (1 ∷ 0 ∷ 0 ∷ 0 ∷ 2 ∷ 1 ∷ 0 ∷ 0 ∷ []);
          len = 8;
          with_free = false;
        })
        0
unfolding copy_pieces encode_into
sent_bytes = refl

int_and_struct-round_trip_example :
    (received
        (decode_migrate_out_request int_layout)
        (encode_migrate_out_request runtime int_layout no_buffer 258 1)
      ≡ some (got (258, 1)))
    × (received
          (decode_migrate_out_grouped_request int_layout)
          (encode_migrate_out_grouped_request runtime int_layout no_buffer 258 1)
        ≡ some (got (258, 1)))
    × (received
          (decode_remove_request int_layout)
          (encode_remove_request runtime int_layout no_buffer 258 1)
        ≡ some (got (258, 1)))
int_and_struct-round_trip_example =
    int_and_struct-round_trip runtime runtime-Lawful int_layout no_buffer 258 1 (sevens 8)
      (omega arith) (omega arith) (omega arith) refl

migrate_out_sync-round_trip_example :
    received
      (decode_migrate_out_sync_request int_layout)
      (encode_migrate_out_sync_request runtime int_layout no_buffer 258 1 60000)
    ≡ some (got (258, 1, 60000))
migrate_out_sync-round_trip_example =
    migrate_out_sync-round_trip runtime runtime-Lawful int_layout no_buffer 258 1 (sevens 16) 60000
      (omega arith) (omega arith) (omega arith) (omega arith) refl

struct-round_trip_example :
    (received
        (decode_migrate_back_request int_layout)
        (encode_migrate_back_request runtime int_layout no_buffer 300)
      ≡ some (got 300))
    × (received
          (decode_enable_node_request int_layout)
          (encode_enable_node_request runtime int_layout no_buffer 300)
        ≡ some (got 300))
    × (received
          (decode_set_remote_numa_info_request int_layout)
          (encode_set_remote_numa_info_request runtime int_layout no_buffer 300)
        ≡ some (got 300))
    × (received
          (decode_migrate_remote_numa_request int_layout)
          (encode_migrate_remote_numa_request runtime int_layout no_buffer 300)
        ≡ some (got 300))
    × (received
          (decode_migrate_pid_remote_numa_request int_layout)
          (encode_migrate_pid_remote_numa_request runtime int_layout no_buffer 300)
        ≡ some (got 300))
struct-round_trip_example =
    struct-round_trip runtime runtime-Lawful int_layout no_buffer 300 (sevens 4) (omega arith)
      (omega arith) refl

scalar-round_trip_example :
    (received decode_init_request (encode_init_request runtime no_buffer 1) ≡ some (got 1))
    × (received decode_set_run_mode_request (encode_set_run_mode_request runtime no_buffer 1)
        ≡ some (got 1))
    × (received decode_urgent_migrate_out_request
          (encode_urgent_migrate_out_request runtime no_buffer 9000000000)
        ≡ some (got 9000000000))
    × (received decode_query_vm_freq_request
          (encode_query_vm_freq_request runtime no_buffer 900 64 0)
        ≡ some (got (900, 64, 0)))
    × (received decode_query_process_config_request
          (encode_query_process_config_request runtime no_buffer 900 64)
        ≡ some (got (900, 64)))
scalar-round_trip_example =
    scalar-round_trip runtime runtime-Lawful no_buffer 1 9000000000 900 64 0 (sevens 4) (sevens 8)
      (sevens 12) (omega arith) (omega arith) (omega arith) (omega arith) (omega arith) refl refl
      refl

abbrev two_pids : List ℕ
two_pids = 900 ∷ 901 ∷ []

abbrev two_times : List ℕ
two_times = 50 ∷ 100 ∷ []

tracking_requests-round_trip_example :
    (received
        (decode_add_tracking_request runtime)
        (encode_add_tracking_request runtime no_buffer two_pids two_times two_times 2 0)
      ≡ some (got (two_pids, two_times, two_times, 2, 0)))
    × (received
          (decode_remove_tracking_request runtime)
          (encode_remove_tracking_request runtime no_buffer two_pids 2 0)
        ≡ some (got (two_pids, 2, 0)))
    × (received
          (decode_enable_migrate_request runtime)
          (encode_enable_migrate_request runtime no_buffer two_pids 2 1 0)
        ≡ some (got (two_pids, 2, 1, 0)))
tracking_requests-round_trip_example =
    tracking_requests-round_trip runtime runtime-Lawful no_buffer 2 (omega arith) (omega arith)
      two_pids two_times two_times refl refl refl (omega arith, (omega arith, tt))
      (omega arith, (omega arith, tt)) (omega arith, (omega arith, tt)) 0 0 1 0 (sevens 32)
      (sevens 16) (sevens 20) (omega arith) (omega arith) (omega arith) (omega arith) refl refl refl

-- A `len` of -1 passes the test of the length, since 8 - 4 is 4, and `memcpy_s` refuses the copy.
abbrev hostile : Buffer
hostile = record {
  data_bytes = some (255 ∷ 255 ∷ 255 ∷ 255 ∷ 0 ∷ 0 ∷ 0 ∷ 0 ∷ []);
  len = 8;
  with_free = false;
}

hostile_bytes : (bs : List ℕ) → hostile.data_bytes ≡ some bs → All IsByte bs
hostile_bytes bs h = rw (← some_lem (255 ∷ 255 ∷ 255 ∷ 255 ∷ 0 ∷ 0 ∷ 0 ∷ 0 ∷ []) bs h) (
  omega arith,
  (
    omega arith,
    (omega arith, (omega arith, (omega arith, (omega arith, (omega arith, (omega arith, tt)))))),
  ),
)

tracking_requests-InBounds_example :
    Accepts
      (λ v.
        (v.3 ≤ max_nr_tracking)
        × (length v.0 ≡ v.3)
        × (length v.1 ≡ v.3)
        × (length v.2 ≡ v.3)
        × (8 + 12 * v.3 ≤ 8))
      (decode_add_tracking_request runtime hostile)
    × Accepts
        (λ v. (v.1 ≤ max_nr_tracking) × (length v.0 ≡ v.1) × (8 + 4 * v.1 ≤ 8))
        (decode_remove_tracking_request runtime hostile)
    × Accepts
        (λ v. (v.1 ≤ max_nr_tracking) × (length v.0 ≡ v.1) × (12 + 4 * v.1 ≤ 8))
        (decode_enable_migrate_request runtime hostile)
tracking_requests-InBounds_example =
    tracking_requests-InBounds runtime runtime-Lawful hostile hostile_bytes

encoders-Settled_example :
    IsSettled (encode_migrate_out_request runtime int_layout no_buffer 258 1)
    × IsSettled (encode_migrate_out_sync_request runtime int_layout no_buffer 258 1 2)
    × IsSettled (encode_migrate_back_request runtime int_layout no_buffer 258)
    × IsSettled (encode_query_vm_freq_request runtime no_buffer 1 2 3)
    × IsSettled (encode_query_process_config_request runtime no_buffer 1 2)
    × IsSettled (encode_stop_request runtime no_buffer)
    × IsSettled (encode_remove_tracking_request runtime no_buffer two_pids 1 2)
    × IsSettled (encode_enable_migrate_request runtime no_buffer two_pids 1 2 3)
    × IsSettled (encode_migrate_out_response runtime no_buffer 1)
    × IsSettled (encode_is_running_response runtime no_buffer true)
encoders-Settled_example = encoders-Settled runtime int_layout no_buffer 258 1 2 3 two_pids

-- A library that adds up what it gets and counts the calls, and a transport that runs the handlers on
-- requests within its limit.
abbrev library : ℕ × ℕ → ℕ → ℕ × ℕ
library (msg, page_type) s = (msg + page_type, suc s)

abbrev transported : Handled ℕ → ℕ × Buffer × ℕ
transported (finished zero out s) = (0, arrived out, s)
transported (finished (suc code) out s) = (5, no_buffer, s)
transported crashed = (5, no_buffer, 0)

abbrev caller_of : (Buffer → ℕ → Handled ℕ) → Buffer → ℕ → ℕ × Buffer × ℕ
caller_of handler send s =
    let answer = transported (handler (arrived send) s) in
    if ltb message_limit send.len then (1, no_buffer, s) else answer

caller_of-Delivers : (handler : Buffer → ℕ → Handled ℕ) → Delivers (caller_of handler) handler
caller_of-Delivers handler send out s s' carried_send carried_out h =
    if_ind (λ (r : ℕ × Buffer × ℕ). r ≡ (0, arrived out, s')) (ltb message_limit send.len)
      (λ long. absurd (ground (arith, long, carried_send.3))) (λ _. rw h refl)

abbrev handler_of : Function → Buffer → ℕ → Handled ℕ
handler_of call_remove = smap_remove_handler runtime int_layout library
handler_of call_migrate_out_grouped = smap_migrate_out_grouped_handler runtime int_layout library
handler_of f = smap_migrate_out_handler runtime int_layout library

abbrev caller : Caller ℕ
caller f = caller_of (handler_of f)

message_calls-equivalence_example :
    (ubturbo_smap_migrate_out runtime caller int_layout (some 258) 1 41 ≡ (got 259, 42))
    × (ubturbo_smap_migrate_out_grouped runtime caller int_layout (some 258) 1 41 ≡ (got 259, 42))
    × (ubturbo_smap_remove runtime caller int_layout (some 258) 1 41 ≡ (got 259, 42))
message_calls-equivalence_example =
    message_calls-equivalence runtime runtime runtime-Lawful runtime-Lawful int_layout caller 258 1
      41 (omega arith) (omega arith) (omega arith) (sevens 8) (sevens 4) refl library library
      library refl (omega arith) (omega arith) (omega arith)
      (caller_of-Delivers (handler_of call_migrate_out))
      (caller_of-Delivers (handler_of call_migrate_out_grouped))
      (caller_of-Delivers (handler_of call_remove))

replies-round_trip_example :
    (received
        (decode_query_vm_freq_response runtime)
        (encode_query_vm_freq_response runtime no_buffer (5 ∷ 0 ∷ 9 ∷ []) 3 0)
      ≡ some (got (5 ∷ 0 ∷ 9 ∷ [], 3, 0)))
    × (received
          (λ recv. decode_query_process_config_response runtime recv int_layout)
          (encode_query_process_config_response runtime no_buffer int_layout two_pids 2 0)
        ≡ some (got (two_pids, 2, 0)))
    × (received
          (decode_query_remote_numa_freq_response runtime)
          (encode_query_remote_numa_freq_response runtime no_buffer (70000 ∷ []) 1 0)
        ≡ some (got (70000 ∷ [], 1, 0)))
replies-round_trip_example =
    replies-round_trip runtime runtime-Lawful no_buffer 0 (omega arith) int_layout (omega arith)
      (5 ∷ 0 ∷ 9 ∷ []) (70000 ∷ []) two_pids (sevens 14) (sevens 16) (sevens 14)
      (omega arith, (omega arith, (omega arith, tt))) (omega arith) (omega arith, (omega arith, tt))
      (omega arith) (omega arith, tt) (omega arith) (omega arith) refl refl refl

-- A library that finds 41 configurations and returns 0.
abbrev crowded : ℕ × ℕ → ℕ → (List ℕ × ℕ × ℕ) × ℕ
crowded question s = ((sevens 41, 41, 0), s)

sevens-Fit : (n : ℕ) → All int_layout.Fits (sevens n)
sevens-Fit zero = tt
sevens-Fit (suc n) = (omega arith, sevens-Fit n)

query_process_config-IsAnswered_example :
    (send : Buffer) × (encode_query_process_config_request runtime no_buffer 4 300
      ≡ returned send 0)
    × IsAnswered runtime int_layout
        (sevens 41)
        0
        5
        (smap_query_process_config_handler runtime int_layout crowded send 5)
query_process_config-IsAnswered_example =
    query_process_config-IsAnswered runtime int_layout runtime-Lawful crowded 4 300 0 5 5
      (sevens 41) (sevens 8) (sevens 172) (omega arith) (omega arith) (omega arith) (omega arith)
      (sevens-Fit 41) (omega arith) (omega arith) refl refl refl
