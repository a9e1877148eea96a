-- ===== src/Stratum/Dispatch/Examples.antt =====
-- A job from a small notification.
use m45_gamma_firmware.Base.{ℕ, ◌≡◌, refl, true, some, List, [], ◌∷◌, arith}
use m45_gamma_firmware.Hex.{uint32_to_hex8}
use m45_gamma_firmware.Hex.Words.{joined}
use m45_gamma_firmware.Mining.Job.{BmJob}
use m45_gamma_firmware.Mining.Header.{test_nonce_header}
use m45_gamma_firmware.Mining.Header.Layout.{block_header}
use m45_gamma_firmware.Stratum.Dispatch.{build_job}
use m45_gamma_firmware.Stratum.Dispatch.Sample.{
  thirty_two, length-thirty_two, always, small_notify, small_work, empty_job, small_tree,
  small_words, small_notify-IsFor,
}
use m45_gamma_firmware.Stratum.Dispatch.Submitted.{pool_root, build_job_lem}

build_job_lem_example :
    (job : BmJob) × ((hex : List ℕ) × ((build_job thirty_two thirty_two always small_notify
            small_work
            (some empty_job)
            true
          ≡ some (job, some hex))
        × (((job.version ≡ 0x20000000) × (job.ntime_hex ≡ uint32_to_hex8 0x65000000))
            × (test_nonce_header job 77 0x20002000
                ≡ block_header 0x20002000
                    (joined small_words)
                    (pool_root thirty_two small_tree small_notify (0xaa ∷ []) hex)
                    0x65000000
                    0x1703a30c
                    77))))
build_job_lem_example =
    build_job_lem thirty_two thirty_two always length-thirty_two small_notify small_work (0xaa ∷ [])
      refl refl (omega arith) (omega arith) refl empty_job 0x20002000 77 small_tree small_words
      small_notify-IsFor
