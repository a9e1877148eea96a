-- ===== src/Asic/Bm1370/Results.antt =====
-- What comes back from the ASIC finds its chip and its job.
use m45_gamma_firmware.Base.{
  ℕ, ◌+◌, ◌*◌, ◌/◌, ◌%◌, ◌^◌, ◌≤◌, ◌<◌, ◌≡◌, ◌∙◌, Option, none, some, List, [], ◌∷◌, arith, length,
  get_or, get_or-set_self, get_or-set_ne,
}
use native.Mathlib.Nat.{mul-div_cancel}
use m45_gamma_firmware.Mining.Job.{BmJob}
use m45_gamma_firmware.Asic.Bm1370.{nonce_result, read_be32, WorkSlots, send_work}

address-div : (i q : ℕ) → 0 < q → i * q / q ≡ i
address-div i q h = mul-div_cancel i h

-- With n chips, 1 <= n <= 256, the address i * (256 / n) that chip i is given is a byte, and a nonce
-- that carries it in bits 17 to 24 is attributed to chip i.
pub nonce_result-asic_nr :
    (n i : ℕ) (bs : List ℕ)
    → n ≤ 256
    → i < n
    → read_be32 bs 2 / 2 ^ 17 % 256 ≡ i * (256 / n)
    → (i * (256 / n) < 256) × ((nonce_result (256 / n) bs).asic_nr ≡ i)
unfolding nonce_result
nonce_result-asic_nr n i bs small lt e =
    let pos : 0 < 256 / n = grind arith in
    let fits : n * (256 / n) ≤ 256 = grind arith in
    let addr : i * (256 / n) < 256 = grind arith in
    (addr, rw (e, address-div i (256 / n) pos) (omega arith))

-- A job that `send_work` puts out lies in the slot of its id, which is below 128; a result whose job
-- byte is twice that id plus a small core number below 16 is decoded to that id and core, if the
-- ids before were multiples of 8.
pub send_work-nonce_result :
    (s : WorkSlots) (handle small address_interval : ℕ) (job : BmJob) (bs : List ℕ)
    → s.id % 8 ≡ 0
    → 128 ≤ length s.active_jobs
    → small < 16
    → get_or bs 7 0 ≡ (send_work s handle job).0.id * 2 + small
    → let t = (send_work s handle job).0 in
      let r = nonce_result address_interval bs in
      (r.job_id ≡ t.id)
      × (r.small_core_id ≡ small)
      × (get_or t.active_jobs r.job_id none ≡ some handle)
      × (t.id % 8 ≡ 0)
unfolding send_work nonce_result
send_work-nonce_result s handle small address_interval job bs h8 room hs e =
    ground (arith, get_or-set_self s.active_jobs ((s.id + 24) % 128) (some handle) none)

-- The jobs of a list sent one after the other.
pub send_all : WorkSlots → List (ℕ × BmJob) → WorkSlots
send_all s [] = s
send_all s ((handle, job) ∷ jobs) = send_all (send_work s handle job).0 jobs

send_all_keeps :
    (jobs : List (ℕ × BmJob)) (s : WorkSlots) (i k : ℕ) (v : Option ℕ)
    → i < 128
    → s.id ≡ (i + 24 * k) % 128
    → k + length jobs < 16
    → get_or s.active_jobs i none ≡ v
    → get_or (send_all s jobs).active_jobs i none ≡ v
unfolding send_all send_work
send_all_keeps [] s i k v hi he hk e = e
send_all_keeps ((handle, job) ∷ jobs) s i k v hi he hk e =
    send_all_keeps jobs (send_work s handle job).0 i (k + 1) v hi (omega arith) (omega arith)
      (get_or-set_ne s.active_jobs ((s.id + 24) % 128) i (some handle) none (omega arith) ∙ e)

-- A job stays in its slot while up to 15 further jobs are sent.
pub send_work-send_all :
    (s : WorkSlots) (handle : ℕ) (job : BmJob) (jobs : List (ℕ × BmJob))
    → 128 ≤ length s.active_jobs
    → length jobs ≤ 15
    → let t = (send_work s handle job).0 in
      get_or (send_all t jobs).active_jobs t.id none ≡ some handle
unfolding send_work
send_work-send_all s handle job jobs room few =
    send_all_keeps jobs (send_work s handle job).0 ((s.id + 24) % 128) 0 (some handle) (omega arith)
      (omega arith) (omega arith)
      (get_or-set_self s.active_jobs ((s.id + 24) % 128) (some handle) none (omega arith))
