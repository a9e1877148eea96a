-- ===== src/Asic/Link/Accept.antt =====
-- What the receiver accepts, and how many chips it counts.
use m45_gamma_firmware.Base.{
  ℕ, ◌+◌, ◌*◌, ◌/◌, ◌%◌, ◌^◌, ◌≤◌, ◌<◌, min, bit_or, bit_xor, ◌≡◌, refl, ◌⊎◌, Bool, true, false,
  ◌&&◌, not, List, [], ◌∷◌, ◌++◌, arith, ◌==◌, if◌then◌else◌, length, All, length-append,
}
use m45_gamma_firmware.Base.Bits.{bit_or_fields}
use m45_gamma_firmware.Asic.Crc.Detect.{IsByte, crc5_detects_flip}
use m45_gamma_firmware.Asic.Crc.Division.{checksum, crc5-checksum}
use m45_gamma_firmware.Asic.Link.{
  esp_ok, esp_fail, Read, failed, bytes, serial_rx, validate_preamble, chip_response_ok, count_loop,
  count_asic_chips, receive_work,
}

-- A frame as the ASIC sends it: the bytes 0xAA and 0x55, and behind them at least a byte, with a
-- checksum of zero.
pub record IsFrame (size : ℕ) (bs : List ℕ) : Type 0 where
  pub first : ℕ
  pub others : List ℕ
  pub layout : bs ≡ 0xAA ∷ 0x55 ∷ first ∷ others
  pub full : length bs ≡ size
  pub checked : checksum first others ≡ 0

-- Two bytes as a word.
word_of : (p q : ℕ) → q < 256 → bit_or (p * 256) q ≡ p * 256 + q
word_of p q hq = bit_or_fields 8 p q hq

-- An accepted frame in which a single bit behind the preamble is flipped is refused with ESP_FAIL,
-- and the receive queue is flushed.
pub receive_work_flip :
    (size p q : ℕ) (front back : List ℕ) (b k : ℕ)
    → size ≤ 32767
    → (receive_work size (bytes (p ∷ q ∷ front ++ (b ∷ back)))).err ≡ esp_ok
    → All IsByte front
    → b < 256
    → All IsByte back
    → k < 8
    → ((receive_work size (bytes (p ∷ q ∷ front ++ (bit_xor b (2 ^ k) ∷ back)))).err ≡ esp_fail)
      × ((receive_work size (bytes (p ∷ q ∷ front ++ (bit_xor b (2 ^ k) ∷ back)))).cleared ≡ true)
unfolding receive_work serial_rx validate_preamble
receive_work_flip size p q front back b k small ok hf hb hk h = ground (
  arith,
  length-append front (b ∷ back),
  length-append front (bit_xor b (2 ^ k) ∷ back),
  crc5_detects_flip front back b k hf hb hk h,
)

-- The responses that come before the first error, gap or short read.
abbrev pub full_reads : ℕ → List Read → List (List ℕ)
full_reads size [] = []
full_reads size (failed ∷ reads) = []
full_reads size (bytes bs ∷ reads) = if length bs == size then bs ∷ full_reads size reads else []

-- The answer of a chip: the bytes 0xAA and 0x55, the chip's id with its high byte first, and more,
-- where all behind the first two has a checksum of zero.
unfoldable pub is_answer : ℕ → List ℕ → Bool
unfolding checksum
is_answer chip_id [] = false
is_answer chip_id (p ∷ []) = false
is_answer chip_id (p ∷ q ∷ []) = false
is_answer chip_id (p ∷ q ∷ high ∷ []) = false
is_answer chip_id (p ∷ q ∷ high ∷ low ∷ others) =
    (p == 0xAA)
    && ((q == 0x55)
        && ((high == chip_id / 256)
            && ((low == chip_id % 256) && (checksum high (low ∷ others) == 0))))

abbrev pub answers : ℕ → List (List ℕ) → ℕ
answers chip_id [] = 0
answers chip_id (bs ∷ rest) = (if is_answer chip_id bs then 1 else 0) + answers chip_id rest

-- The count of answers among these, cut at the expected number unless that is 0.
abbrev pub expected_count : ℕ → ℕ → ℕ
expected_count asic_count n = if asic_count == 0 then n else min asic_count n

-- All that is read are bytes.
abbrev pub AllBytes : List Read → Type 0
AllBytes [] = Unit
AllBytes (failed ∷ reads) = AllBytes reads
AllBytes (bytes bs ∷ reads) = All IsByte bs × AllBytes reads

same_test :
    (a b c d e : Bool) (x : Bool)
    → x ≡ (a && b)
    → (if not x then false else if not (c && d) then false else e) ≡ (a && (b && (c && (d && e))))
same_test a b c d e x h = ground (arith, h)

word_test :
    (p q word : ℕ)
    → q < 256
    → (bit_or (p * 256) q == word) ≡ ((p == word / 256) && (q == word % 256))
word_test p q word hq = ground (arith, word_of p q hq)

chip_response_ok-is_answer :
    (chip_id size : ℕ) (bs : List ℕ)
    → 4 ≤ size
    → length bs ≡ size
    → All IsByte bs
    → chip_response_ok chip_id bs ≡ is_answer chip_id bs
unfolding chip_response_ok validate_preamble is_answer
chip_response_ok-is_answer chip_id size [] long full hb = absurd (omega (arith, full, long))
chip_response_ok-is_answer chip_id size (p ∷ []) long full hb = absurd (omega (arith, full, long))
chip_response_ok-is_answer chip_id size (p ∷ q ∷ []) long full hb =
    absurd (omega (arith, full, long))
chip_response_ok-is_answer chip_id size (p ∷ q ∷ high ∷ []) long full hb =
    absurd (omega (arith, full, long))
chip_response_ok-is_answer chip_id size (p ∷ q ∷ high ∷ low ∷ others) long full
      (hp, (hq, (hhigh, (hlow, hothers)))) =
    let sum = crc5-checksum high (low ∷ others) hhigh (hlow, hothers) in
    rw (word_test p q 0xAA55 hq, word_test high low chip_id hlow, sum)
      (same_test (p == 0xAA) (q == 0x55) (high == chip_id / 256) (low == chip_id % 256)
        (checksum high (low ∷ others) == 0) _ refl)

count_loop_lem :
    (asic_count chip_id size chip_counter : ℕ) (reads : List Read)
    → 4 ≤ size
    → size ≤ 16
    → AllBytes reads
    → chip_counter < asic_count ⊎ (asic_count ≡ 0)
    → count_loop asic_count chip_id size chip_counter reads
      ≡ expected_count asic_count (chip_counter + answers chip_id (full_reads size reads))
unfolding count_loop serial_rx
count_loop_lem asic_count chip_id size chip_counter [] long small hb h = ground arith
count_loop_lem asic_count chip_id size chip_counter (failed ∷ reads) long small hb h = ground arith
count_loop_lem asic_count chip_id size chip_counter (bytes bs ∷ reads) long small (hb, hbs) h =
    ground (
      arith,
      chip_response_ok-is_answer chip_id size bs long,
      count_loop_lem asic_count chip_id size chip_counter reads long small hbs h,
      count_loop_lem asic_count chip_id size (chip_counter + 1) reads long small hbs,
    )

-- For a response length of 4 to 16 bytes `count_asic_chips` returns the number of answers of chips
-- with the id before the first error, gap or short read, cut at the expected number of chips if that
-- is not 0. An answer has the bytes 0xAA and 0x55, then the id, and a CRC-5 of zero behind these two bytes.
pub count_asic_chips_lem :
    (asic_count chip_id size : ℕ) (reads : List Read)
    → 4 ≤ size
    → size ≤ 16
    → AllBytes reads
    → count_asic_chips asic_count chip_id size reads
      ≡ expected_count asic_count (answers chip_id (full_reads size reads))
unfolding count_asic_chips
count_asic_chips_lem asic_count chip_id size reads long small hb =
    ground (arith, count_loop_lem asic_count chip_id size 0 reads long small hb)
