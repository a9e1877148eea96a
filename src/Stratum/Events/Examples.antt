-- ===== src/Stratum/Events/Examples.antt =====
-- The theorem on the last submissions at a concrete input, with more than the ring keeps.
use m45_gamma_firmware.Base.{ℕ, ◌≡◌, List, [], ◌∷◌, replicate}
use m45_gamma_firmware.Stratum.Events.{get_share_events}
use m45_gamma_firmware.Stratum.Events.Kept.{no_events, record_all, numbered, get_share_events_lem}

abbrev shares : List (ℕ × ℕ)
shares = replicate 33 (5, 6)

get_share_events_lem_example :
    get_share_events (record_all no_events shares) 2
    ≡ record { sequence = 32; timestamp_us = 5; difficulty = 6 }
      ∷ record { sequence = 33; timestamp_us = 5; difficulty = 6 }
      ∷ []
unfolding numbered
get_share_events_lem_example = get_share_events_lem shares 2
