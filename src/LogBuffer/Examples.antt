-- ===== src/LogBuffer/Examples.antt =====
-- The log ring on a fresh buffer.
use m45_gamma_firmware.Base.{ℕ, refl, some, [], ◌∷◌, ◌++◌, arith, replicate, length-replicate}
use m45_gamma_firmware.LogBuffer.{LogState, append_log_bytes, copy_since}
use m45_gamma_firmware.LogBuffer.Stream.{Logs, append_log_bytes-Logs}
use m45_gamma_firmware.LogBuffer.Readers.{Reads, copy_since-Logs}

abbrev fresh : LogState
fresh = record { buffer = some (replicate 16384 0); seq = 0; capture_until_us = 100 }

fresh-Logs : Logs fresh []
fresh-Logs = (
  replicate 16384 0,
  refl,
  refl,
  record { size = length-replicate {A = ℕ} 16384 0; reads = λ i lt le. absurd (omega arith) },
)

append_log_bytes-Logs_example :
    Logs (append_log_bytes fresh (1 ∷ 2 ∷ 3 ∷ [])) ([] ++ (1 ∷ 2 ∷ 3 ∷ []))
append_log_bytes-Logs_example =
    append_log_bytes-Logs fresh [] (1 ∷ 2 ∷ 3 ∷ []) fresh-Logs (omega arith) (omega arith)

three-Logs : Logs (append_log_bytes fresh (1 ∷ 2 ∷ 3 ∷ [])) (1 ∷ 2 ∷ 3 ∷ [])
three-Logs = append_log_bytes-Logs fresh [] (1 ∷ 2 ∷ 3 ∷ []) fresh-Logs (omega arith) (omega arith)

copy_since-Logs_example :
    Reads (1 ∷ 2 ∷ 3 ∷ []) 1 8 (copy_since (append_log_bytes fresh (1 ∷ 2 ∷ 3 ∷ [])) 1 8)
copy_since-Logs_example =
    copy_since-Logs (append_log_bytes fresh (1 ∷ 2 ∷ 3 ∷ [])) (1 ∷ 2 ∷ 3 ∷ []) 1 8 three-Logs
      (omega arith) (omega arith) (omega arith)
