-- ===== src/Asic/Examples.antt =====
-- The ASIC driver on concrete packets.
use m45_gamma_firmware.Base.{
  ℕ, ◌+◌, ◌*◌, ◌%◌, ◌^◌, ◌<◌, bit_xor, ◌≡◌, refl, true, none, some, List, [], ◌∷◌, ◌++◌, arith,
  get_or, replicate, All,
}
use m45_gamma_firmware.Mining.Job.{BmJob}
use m45_gamma_firmware.Asic.Crc.{crc5, crc5_bit, crc5_bits, crc5_bytes}
use m45_gamma_firmware.Asic.Crc.Detect.{IsByte}
use m45_gamma_firmware.Asic.Crc.Division.{checksum, bits_of, remainder}
use m45_gamma_firmware.Asic.Link.{
  Read, esp_ok, esp_fail, bytes, failed, receive_work, serial_rx, validate_preamble,
  count_asic_chips,
}
use m45_gamma_firmware.Asic.Link.Accept.{
  IsFrame, receive_work_flip, is_answer, count_asic_chips_lem,
}
use m45_gamma_firmware.Asic.Bm1370.{nonce_result, WorkSlots, send_work}
use m45_gamma_firmware.Asic.Bm1370.Results.{send_work-nonce_result, send_all, send_work-send_all}

-- An answer of seven bytes with a good CRC-5.
abbrev answer : List ℕ
answer = 0xaa ∷ 0x55 ∷ 0x13 ∷ 0x70 ∷ 0x00 ∷ 0x00 ∷ 0x08 ∷ []

answer-IsByte : All IsByte answer
answer-IsByte = (
  omega arith,
  (omega arith, (omega arith, (omega arith, (omega arith, (omega arith, (omega arith, tt)))))),
)

answer-IsFrame : IsFrame 7 answer
unfolding checksum bits_of remainder
answer-IsFrame = record {
  first = 0x13;
  others = 0x70 ∷ 0x00 ∷ 0x00 ∷ 0x08 ∷ [];
  layout = refl;
  full = refl;
  checked = refl;
}

receive_work_flip_example :
    ((receive_work 7
        (bytes (0xaa ∷ 0x55 ∷ (0x13 ∷ []) ++ (bit_xor 0x70 (2 ^ 4) ∷ 0x00 ∷ 0x00 ∷ 0x08 ∷ [])))).err
      ≡ esp_fail)
    × ((receive_work 7 (
          bytes (
            0xaa ∷ 0x55 ∷ (0x13 ∷ []) ++ (bit_xor 0x70 (2 ^ 4) ∷ 0x00 ∷ 0x00 ∷ 0x08 ∷ [])))).cleared
        ≡ true)
receive_work_flip_example =
    receive_work_flip 7 0xaa 0x55 (0x13 ∷ []) (0x00 ∷ 0x00 ∷ 0x08 ∷ []) 0x70 4 (omega arith)
      accepted (omega arith, tt) (omega arith) (omega arith, (omega arith, (omega arith, tt)))
      (omega arith)
  where
    accepted : (receive_work 7 (bytes answer)).err ≡ esp_ok
    accepted =
        unfold receive_work serial_rx validate_preamble crc5 crc5_bytes crc5_bits crc5_bit in refl

-- The same with a bit of the checksum wrong, and with another chip's id.
abbrev damaged : List ℕ
damaged = 0xaa ∷ 0x55 ∷ 0x13 ∷ 0x70 ∷ 0x00 ∷ 0x00 ∷ 0x09 ∷ []

abbrev other_chip : List ℕ
other_chip = 0xaa ∷ 0x55 ∷ 0x13 ∷ 0x71 ∷ 0x00 ∷ 0x00 ∷ 0x08 ∷ []

abbrev chip_reads : List Read
chip_reads =
    bytes answer ∷ bytes damaged ∷ bytes other_chip ∷ bytes answer ∷ failed ∷ bytes answer ∷ []

seven_bytes : (a b : ℕ) → a < 256 → b < 256 → All IsByte (0xaa ∷ 0x55 ∷ 0x13 ∷ a ∷ 0 ∷ 0 ∷ b ∷ [])
seven_bytes a b ha hb =
    (omega arith, (omega arith, (omega arith, (ha, (omega arith, (omega arith, (hb, tt)))))))

count_asic_chips_lem_example : count_asic_chips 4 0x1370 7 chip_reads ≡ 2
unfolding is_answer checksum bits_of remainder
count_asic_chips_lem_example =
    count_asic_chips_lem 4 0x1370 7 chip_reads (omega arith) (omega arith) (
      answer-IsByte,
      (
        seven_bytes 0x70 0x09 (omega arith) (omega arith),
        (seven_bytes 0x71 0x08 (omega arith) (omega arith), (answer-IsByte, (answer-IsByte, tt))),
      ),
    )

-- A nonce with the address 128 of chip 1 of 2 in its bits 17 to 24.
abbrev second_chip : List ℕ
second_chip = 0xaa ∷ 0x55 ∷ 0x01 ∷ 0x00 ∷ 0x00 ∷ 0x00 ∷ 0x00 ∷ 0x30 ∷ 0x00 ∷ 0x00 ∷ 0x80 ∷ []

abbrev job : BmJob
job = record {
  version = 0x20000000;
  prev_block_hash = replicate 32 7;
  merkle_root = replicate 32 9;
  ntime = 1;
  target = 2;
  starting_nonce = 0;
  header_prefix = [];
  ntime_hex = [];
  num_midstates = 1;
  midstate = [];
  midstate1 = [];
  midstate2 = [];
  midstate3 = [];
}

abbrev slots : WorkSlots
slots = record { id = 0; active_jobs = replicate 128 none; valid_jobs = replicate 128 0 }

send_work-nonce_result_example :
    let t = (send_work slots 5 job).0 in
    let r = nonce_result 128 second_chip in
    (r.job_id ≡ t.id)
    × (r.small_core_id ≡ 0)
    × (get_or t.active_jobs r.job_id none ≡ some 5)
    × (t.id % 8 ≡ 0)
send_work-nonce_result_example =
    send_work-nonce_result slots 5 0 128 job second_chip refl (omega arith) (omega arith) id_byte
  where
    id_byte : get_or second_chip 7 0 ≡ (send_work slots 5 job).0.id * 2 + 0
    id_byte = unfold send_work in refl

send_work-send_all_example :
    let t = (send_work slots 5 job).0 in
    get_or (send_all t ((6, job) ∷ (7, job) ∷ [])).active_jobs t.id none ≡ some 5
send_work-send_all_example =
    send_work-send_all slots 5 job ((6, job) ∷ (7, job) ∷ []) (omega arith) (omega arith)
