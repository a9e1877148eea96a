-- ===== src/Stratum/Examples.antt =====
-- The theorems on the Stratum client at concrete inputs, and runs of its functions.
use m45_gamma_firmware.Base.{
  ℕ, ◌+◌, ◌≡◌, refl, ◌∙◌, inr, Bool, true, false, none, some, List, [], ◌∷◌, ◌++◌, arith, length,
  take, drop, replicate, All,
}
use m45_gamma_firmware.Base.Int.{pos, ltb_ℤ, add_ℤ, sub_ℤ}
use m45_gamma_firmware.Stratum.Text.{codes}
use m45_gamma_firmware.Stratum.Scheduler.{
  Slot, zero_slot, build_frame, has_work, ready_pool_weights, pool_slice_scheduler_next,
}
use m45_gamma_firmware.Stratum.Scheduler.Frame.{total_jobs, frame_weights, Served, build_frame_lem}
use m45_gamma_firmware.Stratum.Scheduler.Slices.{total_chunks}
use m45_gamma_firmware.Stratum.Scheduler.Drain.{run, Drained}
use m45_gamma_firmware.Stratum.Scheduler.Run.{frame_of, pool_slice_scheduler_next_lem}
use m45_gamma_firmware.Stratum.Json.{
  needs_escape, append_json_string_fast, submit_message, stratum_buffer_size,
}
use m45_gamma_firmware.Stratum.Json.Quote.{fit, quote, escapes, append_json_string_lem}
use m45_gamma_firmware.Stratum.Json.Reader.{read_string, plain, append_json_string_fast-read_string}
use m45_gamma_firmware.Stratum.Json.Submit.{request_text, submit_message_lem}
use m45_gamma_firmware.Hex.{uint32_to_hex8}
use m45_gamma_firmware.Stratum.Notify.{Heap, Spans, parse_mining_notify_fast, parse_mining_notify}
use m45_gamma_firmware.Stratum.Notify.Print.{notify_line}
use m45_gamma_firmware.Stratum.Notify.Agree.{params_json, parse_mining_notify_fast_lem}
use m45_gamma_firmware.Stratum.Requests.{
  Waiting, mark_share_request, take_share_request, Client, handle_share_response,
}
use m45_gamma_firmware.Stratum.Requests.Wait.{mark_all, take_share_request_lem}
use m45_gamma_firmware.Stratum.Requests.Once.{handle_share_response_lem}
use m45_gamma_firmware.Stratum.Lines.{
  RxBuffer, line, without_cr, receive_jsonrpc_line, consume_jsonrpc_line,
}
use m45_gamma_firmware.Stratum.Lines.Stream.{stream, reads_of, Roomy, receive_jsonrpc_line_lem}
use m45_gamma_firmware.Stratum.Blocks.{PoolBlocks, note_hash, stale, recent_block_hash}
use m45_gamma_firmware.Stratum.Blocks.Stale.{note_hash-stale}
use m45_gamma_firmware.Stratum.Pools.{PoolConfig}

build_frame_lem_example :
    ((total_jobs (build_frame (99 ∷ 0 ∷ 1 ∷ []) (99 + 0 + 1)) ≡ 80)
      × (frame_weights (build_frame (99 ∷ 0 ∷ 1 ∷ []) (99 + 0 + 1)) ≡ 99 ∷ 0 ∷ 1 ∷ []))
    × All (Served (99 + 0 + 1)) (build_frame (99 ∷ 0 ∷ 1 ∷ []) (99 + 0 + 1))
build_frame_lem_example =
    build_frame_lem 99 0 1 (omega arith) (omega arith) (omega arith) (omega arith)

abbrev two_pools : List Bool
two_pools = false ∷ true ∷ true ∷ []

abbrev two_weights : List ℕ
two_weights = 0 ∷ 30 ∷ 10 ∷ []

abbrev idle : List Slot
idle = zero_slot ∷ zero_slot ∷ zero_slot ∷ []

pool_slice_scheduler_next_lem_example : Drained two_pools (frame_of two_pools two_weights) (
    run
      (total_chunks (frame_of two_pools two_weights))
      idle
      two_pools
      (ready_pool_weights two_pools two_weights))
pool_slice_scheduler_next_lem_example =
    pool_slice_scheduler_next_lem idle false true true 0 30 10 (omega arith) (omega arith)
      (omega arith) (unfold has_work in refl) (unfold ready_pool_weights in omega arith)

-- The first slices of that frame.
first_slices :
    run 3 idle two_pools (ready_pool_weights two_pools two_weights)
    ≡ (1, 12) ∷ (2, 10) ∷ (1, 12) ∷ []
unfolding pool_slice_scheduler_next ready_pool_weights ltb_ℤ add_ℤ sub_ℤ
first_slices = refl

abbrev user : List ℕ
user = codes "bc1q\"x\n"

quoted_user : quote user ≡ codes "\"bc1q\\\"x\\n\""
unfolding escapes
quoted_user = refl

abbrev line_out : List ℕ
line_out = codes "[\"bc1q\\\"x\\n\""

append_json_string_fast-read_string_example :
    (take 1 line_out ≡ codes "[")
    × (read_string plain (drop 1 (drop 1 line_out) ++ codes ",1]") ≡ some (user, codes ",1]"))
append_json_string_fast-read_string_example =
    append_json_string_fast-read_string 32 (codes "[") user line_out (codes ",1]")
      (written ∙ (unfold escapes in refl))
  where
    written : append_json_string_fast 32 (codes "[") (some user) ≡ fit 32 (codes "[") (quote user)
    written = (append_json_string_lem 32 (codes "[") (some user)).1

submit_message_lem_example :
    submit_message
      (pos 42)
      (some user)
      (some (codes "4f"))
      (some (codes "0001"))
      none
      305419896
      8192
    ≡ fit stratum_buffer_size [] (
        request_text (pos 42) (
          user
          ∷ codes "4f"
          ∷ codes "0001"
          ∷ []
          ∷ uint32_to_hex8 305419896
          ∷ uint32_to_hex8 8192
          ∷ []))
submit_message_lem_example =
    submit_message_lem (pos 42) (some user) (some (codes "4f")) (some (codes "0001")) none 305419896
      8192

abbrev heap : Heap
heap = record {
  work = true;
  job_id = true;
  prev_block_hash = true;
  coinbase_1 = true;
  coinbase_2 = true;
  merkle_branches = true;
}

abbrev zeros : ℕ → List ℕ
zeros n = replicate n b'0'

abbrev message : Spans
message = record {
  job_id = codes "1f";
  prev_block_hash = zeros 64;
  coinbase_1 = codes "0100";
  coinbase_2 = codes "ff";
  branches = zeros 64 ∷ zeros 64 ∷ [];
  version = codes "20000000";
  nbits = codes "1703a30c";
  ntime = codes "66Aa0001";
  clean_jobs = true;
}

parse_mining_notify_fast_lem_example :
    parse_mining_notify_fast heap (notify_line message)
    ≡ parse_mining_notify heap (params_json message)
parse_mining_notify_fast_lem_example = parse_mining_notify_fast_lem heap message (
    unfold needs_escape in
    (((refl, refl), (refl, refl)), ((refl, (refl, tt)), ((refl, refl), refl))))

abbrev nothing_waits : Waiting
nothing_waits = record { slots = replicate 16 (0, 0); next = 4294967290 }

abbrev later_shares : List (ℕ × ℕ)
later_shares = (43, 1) ∷ (44, 2) ∷ []

take_share_request_lem_example :
    ((take_share_request (mark_all (mark_share_request nothing_waits 42 2) later_shares) 42).1
      ≡ some 2)
    × ((take_share_request
          (take_share_request (mark_all (mark_share_request nothing_waits 42 2) later_shares) 42).0
          42).1
        ≡ none)
take_share_request_lem_example =
    take_share_request_lem nothing_waits 42 2 later_shares refl (omega arith) (ground arith)
      (ground arith) (omega arith)

abbrev client : Client
client = record {
  shares = record { slots = (42, 2) ∷ (0, 0) ∷ []; next = 1 };
  responses = record { slots = []; next = 0 };
  accepted = 7;
  rejected = 0;
  pool_accepted = 3 ∷ 2 ∷ 2 ∷ [];
  pool_rejected = 0 ∷ 0 ∷ 0 ∷ [];
  response_time_ms = 0;
  pool_response_time_ms = 0 ∷ 0 ∷ 0 ∷ [];
}

abbrev answer : List ℕ
answer = codes "{\"id\":42,\"result\":true,\"error\":null}"

handle_share_response_lem_example :
    handle_share_response (handle_share_response client 2 answer 100).0 2 answer 200
    ≡ ((handle_share_response client 2 answer 100).0, false)
handle_share_response_lem_example =
    handle_share_response_lem client 2 2 answer 100 200 (ground arith)

-- The response is counted the first time.
answer_counts : (handle_share_response client 2 answer 100).0.accepted ≡ 8
unfolding handle_share_response
answer_counts = refl

abbrev pool_blocks : PoolBlocks
pool_blocks = record { current = codes "aa"; recent = [] ∷ [] ∷ [] ∷ [] ∷ []; next = 3 }

note_hash-stale_example :
    note_hash (note_hash pool_blocks (codes "bb")).0 (codes "aa")
    ≡ ((note_hash pool_blocks (codes "bb")).0, stale)
note_hash-stale_example =
    note_hash-stale pool_blocks (codes "bb") (omega arith) (omega arith) (omega arith) refl
      (unfold recent_block_hash in refl) refl

abbrev pool_config : PoolConfig
pool_config = record {
  multi_pool_enabled = true;
  pool_host = codes "a.b";
  pool_port = 3333;
  pool_user = user;
  pool_difficulty_auto = true;
  aux_pools =
      record { enabled = true; host = codes "c.d"; port = 3333; user = []; share_percent = 30 }
      ∷ [];
}

abbrev empty_buffer : RxBuffer
empty_buffer = record { content = []; size = 0 }

abbrev parts_of_lines : List (List ℕ)
parts_of_lines = codes "{}" ∷ codes "\r" ∷ codes "\nnext" ∷ []

receive_jsonrpc_line_lem_example :
    (b' : RxBuffer) × ((left : List (List ℕ)) × ((receive_jsonrpc_line true
            (reads_of parts_of_lines)
            empty_buffer
          ≡ (b', line (without_cr (codes "{}\r")) (length (codes "{}\r") + 1), reads_of left))
        × (((consume_jsonrpc_line b' (length (codes "{}\r") + 1)).content ++ stream left
              ≡ codes "next")
            × Roomy (consume_jsonrpc_line b' (length (codes "{}\r") + 1)))))
receive_jsonrpc_line_lem_example =
    receive_jsonrpc_line_lem parts_of_lines empty_buffer (codes "{}\r") (codes "next")
      (omega arith, (omega arith, (omega arith, tt))) refl (omega arith) (inr refl)
