-- ===== src/Lib.antt =====
-- Verification of the mining firmware: the code that decides what is hashed, what the ASIC is told
-- and believed, who is paid, what is logged, and which limits the board runs under.
--
-- The parts, the files of the repository and the modules:
-- * main/asic_crc.c is Asic/Crc, main/bitmain_asic.c with SERIAL_rx of main/asic_serial.c is
--   Asic/Link and Asic/Powers, main/bm1370.c is Asic/Bm1370. What the UART delivers is the input
--   of each read (Read), and a function that sends gives back the bytes of its packets. What the
--   CRC-5 is, apart from its code, is the polynomial division of Asic/Crc/Division.
-- * main/mining.c is Mining/Coinbase, Mining/Header and Mining/Extranonce, its job record
--   (main/mining.h) Mining/Job, which the driver packs into a packet; main/utils.c is Hex. The pool's side of a notification is
--   the tree of its transactions (Mining/Coinbase/Tree) and the words of the previous block's hash
--   (Hex/Words).
-- * main/m45_fault_log.c is FaultLog: the state g_faults is the record FaultStore, and every
--   operation takes the results of the NVS calls it makes and gives back the blob it saves.
-- * main/m45_log_buffer.c is LogBuffer: the ring, its 64-bit count of bytes and the time until
--   which it is kept are the record LogState.
-- * main/stratum_payout.c is Payout: the reader with its failures is a state monad over Option
--   (Payout/Reader), then Base58Check, Bech32, the wallet's script, the scan and the verdict.
-- * main/m45_config.c is Config and Config/Limits: the numeric settings and the safety limits.
-- * main/stratum_minimal.c is Stratum: the scheduler that shares the ASIC between the pools
--   (Stratum/Scheduler), what is written to a pool (Stratum/Json), the lines it sends
--   (Stratum/Lines) and their readers (Stratum/Span, Stratum/Hexes, Stratum/Notify), the requests
--   that wait for a response (Stratum/Requests), the blocks (Stratum/Blocks) and the settings of
--   the pools (Stratum/Pools). The scheduler takes the weights of Stratum/Pools; a cJSON tree is
--   the data type Json. A notification becomes work in the queue (Stratum/Work, with the FreeRTOS
--   queue as the record of laws WorkQueue), which the job task keeps for each pool
--   (Stratum/Work/Task), builds a job from and sends (Stratum/Dispatch, which joins main/mining.c
--   and main/bm1370.c); the nonces that come back become shares (Stratum/Results), of which the
--   last are kept for the status (Stratum/Events). Resets, pauses and the job task as steps that
--   interleave are Stratum/Work/World, with clear_jobs and clear_pool_jobs of main/bitaxe_hw.c,
--   and their uninterrupted calls Stratum/Work/Calls.
-- * main/wifi_http.c is Http, as far as it writes texts into JSON and filters the log (Http/Logs),
--   refuses requests by their Origin (Http/Origin, with the hosts of RFC 3986 in Http/Origin/Hosts),
--   takes a firmware image from its upload
--   (Http/Upload) and decides which pools reconnect after a change of the settings
--   (Http/Reconnect).
-- Base has the shared helpers: C arrays as lists, signed integers, Boolean tests, bit operations,
-- tables of all bytes.
--
-- Integers are natural numbers with the wrap-around of their C type written out. The names of the
-- definitions are those of the functions. SHA-256 (mbedTLS), the heap and the clock are
-- parameters. A double is its 64 bits where it is only compared. Loops are recursion on what is
-- left of their input; six run on fuel: the powers of two have 32 rounds for 32-bit numbers, the
-- carry of Base58 has four bytes, the version mask has 32 bits, an int has ten digits, and the
-- receive buffer grows in 17 steps of 1024 bytes at most, and a partition table has 96 entries.
-- The two while loops of the scheduler count down the jobs that are missing or too many, and those
-- that empty the work queue the entries that wait in it, as their bound is read there.
--
-- Not modelled: floating point (difficulties, frequencies, fan and voltage control), drivers,
-- tasks and locks (each operation runs under its lock, so it is one step, except in
-- Stratum/Work/World, where the lock is a state and the steps are what happens between two points
-- at which others may run), the strings of the configuration and its storage, the other handlers
-- of the web server, the vendored QR code library, and of the Stratum client the sockets, the
-- endpoints and the statistics.
pub mod Asic
pub mod Base
pub mod Config
pub mod FaultLog
pub mod Hex
pub mod Http
pub mod LogBuffer
pub mod Mining
pub mod Payout
pub mod Stratum
