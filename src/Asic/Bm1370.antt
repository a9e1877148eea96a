-- ===== src/Asic/Bm1370.antt =====
-- The BM1370 driver, main/bm1370.c: command and job packets, and the results that come back.
use m45_gamma_firmware.Base.{
  ℕ, zero, suc, ◌+◌, ◌*◌, ◌/◌, ◌%◌, ◌^◌, bit_or, Option, none, some, List, [], ◌∷◌, ◌++◌, map, ltb,
  leb, ◌==◌, if◌then◌else◌, length, get_or, set,
}
pub mod Packets
pub mod Results
use m45_gamma_firmware.Asic.Crc.{crc5, crc16_false}
use m45_gamma_firmware.Asic.Link.{EspErr, esp_ok, Read, Received, receive_work, be16_at}
use m45_gamma_firmware.Mining.Job.{BmJob}

-- `value >> (8 * i)` for i = 0 .. n - 1, each cut to a byte: a little-endian `memcpy` of an integer.
abbrev pub le_bytes : ℕ → ℕ → List ℕ
le_bytes zero value = []
le_bytes (suc n) value = value % 256 ∷ le_bytes n (value / 256)

-- `_send_BM1370`: the bytes that go to `SERIAL_send`. The job bit of the header chooses the packet.
pub send_bm1370 : ℕ → List ℕ → List ℕ
send_bm1370 header data_bytes =
    let job = header / 0x20 % 2 == 1 in
    let length_field = (if job then length data_bytes + 4 else length data_bytes + 3) % 256 in
    let covered = header ∷ length_field ∷ data_bytes in
    0x55 ∷ 0xaa ∷ covered
    ++ (if job
        then crc16_false (some covered) / 256 % 256 ∷ crc16_false (some covered) % 256 ∷ []
        else crc5 (some covered) ∷ [])

abbrev type_job : ℕ
type_job = 0x20

-- TYPE_CMD | GROUP_ALL and TYPE_CMD | GROUP_SINGLE
abbrev cmd_all : ℕ
cmd_all = 0x50

abbrev cmd_single : ℕ
cmd_single = 0x40

abbrev cmd_setaddress : ℕ
cmd_setaddress = 0x00

abbrev cmd_write : ℕ
cmd_write = 0x01

abbrev cmd_read : ℕ
cmd_read = 0x02

abbrev cmd_inactive : ℕ
cmd_inactive = 0x03

unfoldable send_chain_inactive : List ℕ
unfolding send_bm1370
send_chain_inactive = send_bm1370 (cmd_all + cmd_inactive) (0x00 ∷ 0x00 ∷ [])

pub set_chip_address : ℕ → List ℕ
set_chip_address chip_addr = send_bm1370 (cmd_single + cmd_setaddress) (chip_addr ∷ 0x00 ∷ [])

unfoldable pub set_version_mask : ℕ → List ℕ
set_version_mask version_mask =
    let versions_to_roll = version_mask / 2 ^ 13 in
    send_bm1370 (cmd_all + cmd_write)
      (0x00 ∷ 0xa4 ∷ 0x90 ∷ 0x00 ∷ versions_to_roll / 256 % 256 ∷ versions_to_roll % 256 ∷ [])

unfoldable pub set_hash_counting_number : ℕ → List ℕ
set_hash_counting_number hcn =
    send_bm1370 (cmd_all + cmd_write)
      (0x00 ∷ 0x10 ∷ hcn / 2 ^ 24 % 256 ∷ hcn / 2 ^ 16 % 256 ∷ hcn / 2 ^ 8 % 256 ∷ hcn % 256 ∷ [])

-- The baud rate that is set, and the packet.
unfoldable set_default_baud : ℕ × List ℕ
unfolding send_bm1370
set_default_baud =
    (115749, send_bm1370 (cmd_all + cmd_write) (0x00 ∷ 0x18 ∷ 0x00 ∷ 0x00 ∷ 0x7a ∷ 0x31 ∷ []))

unfoldable set_max_baud : ℕ × List ℕ
unfolding send_bm1370
set_max_baud =
    (1000000, send_bm1370 (cmd_all + cmd_write) (0x00 ∷ 0x28 ∷ 0x11 ∷ 0x30 ∷ 0x02 ∷ 0x00 ∷ []))

abbrev hashrate_register_addresses : List ℕ
hashrate_register_addresses = 0x4c ∷ 0x88 ∷ 0x89 ∷ 0x8a ∷ 0x8b ∷ 0x8c ∷ []

unfoldable pub read_registers : List (List ℕ)
unfolding send_bm1370
read_registers =
    map (λ reg. send_bm1370 (cmd_all + cmd_read) (0x00 ∷ reg ∷ [])) hashrate_register_addresses

-- The loop of `BM1370_init` that gives chip i the address i * (256 / chip_counter); `n` chips left.
unfoldable set_chip_addresses : ℕ → ℕ → ℕ → List (List ℕ)
unfolding set_chip_address
set_chip_addresses address_interval i zero = []
set_chip_addresses address_interval i (suc n) =
    set_chip_address (i * address_interval % 256) ∷ set_chip_addresses address_interval (i + 1) n

pub data RegisterType : Type 0 where
  invalid hashrate total_count domain_0 domain_1 domain_2 domain_3 error_count : RegisterType

pub register_type_for_address : ℕ → RegisterType
register_type_for_address register_address =
    if leb 0x8d register_address
    then invalid
    else if register_address == 0x4c
    then error_count
    else if register_address == 0x88
    then domain_0
    else if register_address == 0x89
    then domain_1
    else if register_address == 0x8a
    then domain_2
    else if register_address == 0x8b
    then domain_3
    else if register_address == 0x8c
    then total_count
    else invalid

unfoldable pub read_be32 : List ℕ → ℕ → ℕ
read_be32 bs i =
    bit_or
      (bit_or (bit_or (get_or bs i 0 * 2 ^ 24) (get_or bs (i + 1) 0 * 2 ^ 16))
        (get_or bs (i + 2) 0 * 2 ^ 8))
      (get_or bs (i + 3) 0)

pub record TaskResult : Type 0 where
  pub job_id : ℕ
  pub nonce : ℕ
  pub version_bits : ℕ
  pub register_type : RegisterType
  pub asic_nr : ℕ
  pub value : ℕ
  pub core_id : ℕ
  pub small_core_id : ℕ

-- `memset(&result, 0, ...)`
abbrev no_result : TaskResult
no_result = record {
  job_id = 0;
  nonce = 0;
  version_bits = 0;
  register_type = invalid;
  asic_nr = 0;
  value = 0;
  core_id = 0;
  small_core_id = 0;
}

-- `memcpy(&result.nonce, &asic_result[2], 4)` on a little-endian machine.
abbrev pub le32_at : List ℕ → ℕ → ℕ
le32_at bs i =
    get_or bs i 0
    + 2 ^ 8 * (get_or bs (i + 1) 0 + 2 ^ 8 * (get_or bs (i + 2) 0 + 2 ^ 8 * get_or bs (i + 3) 0))

-- The nonce branch of `BM1370_process_work`.
pub nonce_result : ℕ → List ℕ → TaskResult
unfolding read_be32
nonce_result address_interval bs =
    let raw_job_id = get_or bs 7 0 in
    let nonce_h = read_be32 bs 2 in
    record no_result {
      job_id = raw_job_id / 16 * 16 / 2;
      nonce = le32_at bs 2;
      version_bits = be16_at bs 8 * 2 ^ 13;
      asic_nr = nonce_h / 2 ^ 17 % 256 / address_interval % 256;
      core_id = nonce_h / 2 ^ 25 % 128;
      small_core_id = raw_job_id % 16;
    }

-- The register branch.
pub register_result : ℕ → List ℕ → Option TaskResult
unfolding read_be32 register_type_for_address
register_result address_interval bs = elim (register_type_for_address (get_or bs 7 0)) [
  | invalid ↦ none
  | kind ↦ some (record no_result {
    register_type = kind;
    asic_nr = get_or bs 6 0 / address_interval % 256;
    value = read_be32 bs 2;
  })
]

-- `address_interval` is 0 before `BM1370_init` has run.
unfoldable pub process_work : ℕ → Read → Option TaskResult
unfolding nonce_result register_result
process_work address_interval read =
    let received = receive_work 11 read in
    elim received.err [
      | esp_ok ↦
          if get_or received.buffer 10 0 / 0x80 % 2 == 0
          then (if address_interval == 0
              then none
              else register_result address_interval received.buffer)
          else if address_interval == 0
          then none
          else some (nonce_result address_interval received.buffer)
      | _ ↦ none
    ]

-- `id`, the job slots and the valid flags of the global state. A slot holds the handle of a job.
pub record WorkSlots : Type 0 where
  pub id : ℕ
  pub active_jobs : List (Option ℕ)
  pub valid_jobs : List ℕ

-- `BM1370_job` as the packed struct lies in memory.
pub job_bytes : ℕ → BmJob → List ℕ
job_bytes job_id job =
    job_id
      ∷ (if ltb 0 job.num_midstates then job.num_midstates else 1)
      ∷ le_bytes 4 job.starting_nonce
    ++ le_bytes 4 job.target
    ++ le_bytes 4 job.ntime
    ++ job.merkle_root
    ++ job.prev_block_hash
    ++ le_bytes 4 job.version

-- `BM1370_send_work`: the new slots, the job that is freed from the slot, and the packet.
unfoldable pub send_work : WorkSlots → ℕ → BmJob → WorkSlots × Option ℕ × List ℕ
unfolding send_bm1370 job_bytes
send_work s next_bm_job job =
    let id = (s.id + 24) % 128 in
    (
      record s {
        id = id;
        active_jobs = set s.active_jobs id (some next_bm_job);
        valid_jobs = set s.valid_jobs id 1;
      },
      get_or s.active_jobs id none,
      send_bm1370 (type_job + cmd_write) (job_bytes id job),
    )
