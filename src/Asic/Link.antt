-- ===== src/Asic/Link.antt =====
-- The receiving side of main/bitmain_asic.c, over the `SERIAL_rx` of main/asic_serial.c.
pub mod Accept
use m45_gamma_firmware.Base.{
  ℕ, ◌+◌, ◌*◌, bit_or, Bool, true, false, ◌&&◌, ◌||◌, not, some, List, [], ◌∷◌, ltb, leb, ◌==◌,
  if◌then◌else◌, length, get_or, drop,
}
use m45_gamma_firmware.Asic.Crc.{crc5}

pub data EspErr : Type 0 where
  esp_ok esp_fail invalid_arg : EspErr

-- What `uart_read_bytes` hands over: its error -1, or the bytes that came in time (at most as many
-- as were asked for).
pub data Read : Type 0 where
  failed : Read
  bytes : List ℕ → Read

-- The return value of `SERIAL_rx` (negative, or a count) with the bytes it put into the buffer.
pub data Rx : Type 0 where
  rx_error : Rx
  rx : ℕ → List ℕ → Rx

unfoldable pub serial_rx : ℕ → Read → Rx
serial_rx size failed = if size == 0 then rx 0 [] else rx_error
serial_rx size (bytes bs) =
    if size == 0 then rx 0 [] else if ltb 32767 (length bs) then rx 32767 bs else rx (length bs) bs

-- Two bytes of a buffer, the first one high.
abbrev pub be16_at : List ℕ → ℕ → ℕ
be16_at buffer i = bit_or (get_or buffer i 0 * 256) (get_or buffer (i + 1) 0)

unfoldable pub validate_preamble : List ℕ → Bool
validate_preamble buffer = be16_at buffer 0 == 0xaa55

-- One round of the loop of `count_asic_chips` on a response of full length: its three tests.
pub chip_response_ok : ℕ → List ℕ → Bool
unfolding validate_preamble crc5
chip_response_ok chip_id buffer =
    if not (validate_preamble buffer)
    then false
    else if not (be16_at buffer 2 == chip_id)
    then false
    else crc5 (some (drop 2 buffer)) == 0

-- The `while (true)` of `count_asic_chips`; the list is what the UART delivers, round by round, and
-- once it is used up nothing more arrives, so that `SERIAL_rx` returns 0.
count_loop : ℕ → ℕ → ℕ → ℕ → List Read → ℕ
unfolding chip_response_ok serial_rx
count_loop asic_count chip_id size chip_counter [] = chip_counter
count_loop asic_count chip_id size chip_counter (read ∷ reads) = elim (serial_rx size read) [
  | rx_error ↦ chip_counter
  | rx received buffer ↦
      let skip = count_loop asic_count chip_id size chip_counter reads in
      let next = count_loop asic_count chip_id size (chip_counter + 1) reads in
      if received == 0
      then chip_counter
      else if not (received == size)
      then chip_counter
      else if not (chip_response_ok chip_id buffer)
      then skip
      else if ltb 0 asic_count && leb asic_count (chip_counter + 1)
      then chip_counter + 1
      else next
]

pub count_asic_chips : ℕ → ℕ → ℕ → List Read → ℕ
unfolding count_loop
count_asic_chips asic_count chip_id chip_id_response_length reads =
    if chip_id_response_length == 0 || ltb 16 chip_id_response_length
    then 0
    else count_loop asic_count chip_id chip_id_response_length 0 reads

-- The result of `receive_work`, the bytes left in the caller's buffer, and whether the receive
-- queue was flushed.
pub record Received : Type 0 where
  pub err : EspErr
  pub buffer : List ℕ
  pub cleared : Bool

-- `buffer_size` counts from 0; negative sizes answer like 0. It is not 1, where the source reads
-- behind the buffer: what it finds there is not modelled.
unfoldable pub receive_work : ℕ → Read → Received
unfolding serial_rx validate_preamble crc5
receive_work buffer_size read =
    if buffer_size == 0 || ltb 65535 buffer_size
    then record { err = invalid_arg; buffer = []; cleared = false }
    else elim (serial_rx buffer_size read) [
      | rx_error ↦ record { err = esp_fail; buffer = []; cleared = false }
      | rx received buf ↦
          if received == 0
          then record { err = esp_fail; buffer = buf; cleared = false }
          else if not (received == buffer_size)
          then record { err = esp_fail; buffer = buf; cleared = true }
          else if not (validate_preamble buf)
          then record { err = esp_fail; buffer = buf; cleared = true }
          else if not (crc5 (some (drop 2 buf)) == 0)
          then record { err = esp_fail; buffer = buf; cleared = true }
          else record { err = esp_ok; buffer = buf; cleared = false }
    ]
