-- ===== src/Stratum/Events.antt =====
-- The last accepted submissions for the status page: `g_share_events` of main/stratum_minimal.c.
use m45_gamma_firmware.Base.{
  ℕ, zero, suc, ◌+◌, ◌-◌, ◌%◌, ◌^◌, List, [], ◌∷◌, ltb, ◌==◌, if◌then◌else◌, get_or, set,
}
mod Examples
pub mod Kept

abbrev pub share_event_max : ℕ
share_event_max = 32

-- A difficulty is the 64 bits of its double.
pub record ShareEvent : Type 0 where
  pub sequence : ℕ
  pub timestamp_us : ℕ
  pub difficulty : ℕ

abbrev pub no_event : ShareEvent
no_event = record { sequence = 0; timestamp_us = 0; difficulty = 0 }

-- `g_share_events`, `g_share_event_next`, `g_share_event_count` and `g_share_event_sequence`
pub record ShareEvents : Type 0 where
  pub events : List ShareEvent
  pub next : ℕ
  pub count : ℕ
  pub sequence : ℕ

-- Zero is left out when the number wraps.
unfoldable pub next_sequence : ℕ → ℕ
next_sequence sequence =
    let raised = (sequence + 1) % 2 ^ 32 in if raised == 0 then (raised + 1) % 2 ^ 32 else raised

pub record_share_event : ShareEvents → ℕ → ℕ → ShareEvents
unfolding next_sequence
record_share_event s timestamp_us difficulty = record {
  events = set s.events s.next (record {
    sequence = next_sequence s.sequence;
    timestamp_us = timestamp_us;
    difficulty = difficulty;
  });
  next = (s.next + 1) % share_event_max % 256;
  count = if ltb s.count share_event_max then s.count + 1 else s.count;
  sequence = next_sequence s.sequence;
}

-- The loop of `stratum_minimal_get_share_events` from the index `first`.
pub copy_events : List ShareEvent → ℕ → ℕ → List ShareEvent
copy_events events first zero = []
copy_events events first (suc n) =
    get_or events (first % share_event_max) no_event ∷ copy_events events (first + 1) n

-- The buffer has room for `max_events`, none if it is null.
pub get_share_events : ShareEvents → ℕ → List ShareEvent
unfolding copy_events
get_share_events s max_events =
    let count = if ltb s.count max_events then s.count else max_events in
    let oldest = (s.next + share_event_max - s.count) % share_event_max in
    let first = (oldest + s.count - count) % share_event_max in
    if max_events == 0 then [] else copy_events s.events first count
