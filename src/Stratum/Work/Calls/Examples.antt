-- ===== src/Stratum/Work/Calls/Examples.antt =====
-- The theorem on a notification at a concrete input.
use m45_gamma_firmware.Base.{
  ◌≡◌, refl, inl, true, false, none, some, [], ◌∷◌, map, arith, set, replicate,
}
use m45_gamma_firmware.Stratum.Blocks.{
  Blocks, no_blocks, note_current_block, note_hash, recent_block_hash, remember_previous_block,
}
use m45_gamma_firmware.Stratum.Work.{Session, Queued, reset_marker, session_setup}
use m45_gamma_firmware.Stratum.Work.Sample.{ShortList, short_queue}
use m45_gamma_firmware.Stratum.Work.Task.{Task, PoolWork, no_work, take_queued, drain_available}
use m45_gamma_firmware.Stratum.Work.World.{World, free}
use m45_gamma_firmware.Stratum.Work.Calls.{reset_all, handle_mining_notify_work}
use m45_gamma_firmware.Stratum.Work.Calls.Notified.{arrival_of, handle_mining_notify_work_lem}

-- The first pool has worked on a block, and its job task holds work of it.
abbrev old_block : Blocks
old_block = record {
  pools = record no_blocks { current = 97 ∷ [] } ∷ no_blocks ∷ no_blocks ∷ [];
  current_block_seq = 1;
}

abbrev old_task : Task
old_task = record {
  pools = record no_work { work = some 7 } ∷ no_work ∷ no_work ∷ [];
  current_epoch = 4;
  next_dispatch_us = 50;
}

abbrev old_world : World
old_world = record {
  work_epoch = 4;
  pool_epochs = 4 ∷ 0 ∷ 0 ∷ [];
  work_paused = false;
  job_id = 0;
  active_jobs = replicate 128 none;
  holder = free;
  task = old_task;
}

abbrev ready_session : Session
ready_session = record {
  connected = true;
  setup_ready = true;
  runtime_disabled = false;
  extranonce_bin = some (1 ∷ 2 ∷ []);
  extranonce_len = 2;
  extranonce_2_len = 8;
  pool_difficulty = 4607182418800017408;
  version_mask = 0;
}

abbrev old_queue : ShortList
old_queue = (record (reset_marker false 0 4 4) { work = some 7 } ∷ [], omega arith)

abbrev new_work : Queued
new_work = record {
  work = some 8;
  epoch = 5;
  pool_epoch = 5;
  queued_us = 100;
  pool_id = 0;
  reset_all = false;
  extranonce_bin = some (1 ∷ 2 ∷ []);
  extranonce_len = 2;
  extranonce_2_len = 8;
  pool_difficulty = 4607182418800017408;
  version_mask = 0;
}

handle_mining_notify_work_lem_example :
    let (b', w', q') =
      handle_mining_notify_work short_queue false ready_session true 0 0 0 8
        (98 ∷ [])
        false
        100
        old_block
        old_world
        old_queue in
    let marker = reset_marker true 0 w'.work_epoch 0 in
    (w' ≡ reset_all old_world)
    × (q'.0 ≡ marker ∷ new_work ∷ [])
    × (drain_available (arrival_of w' marker ∷ arrival_of w' new_work ∷ []) old_task ≡ record {
      pools = set (map (λ (_ : PoolWork). no_work) old_task.pools) 0 (take_queued new_work);
      current_epoch = w'.work_epoch;
      next_dispatch_us = 0;
    })
unfolding note_current_block note_hash recent_block_hash remember_previous_block session_setup
    reset_all
handle_mining_notify_work_lem_example =
    handle_mining_notify_work_lem short_queue ready_session true 0 0 8 (98 ∷ []) false 100 old_block
      old_world old_queue old_task new_work (inl refl) refl refl
