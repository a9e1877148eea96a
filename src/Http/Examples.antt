-- ===== src/Http/Examples.antt =====
-- The theorems on the web server's texts at concrete inputs.
use m45_gamma_firmware.Base.{ℕ, ◌≤◌, ◌<◌, ◌≡◌, some, List, [], ◌∷◌, ◌++◌, arith, length, take}
use m45_gamma_firmware.Stratum.Text.{codes}
use m45_gamma_firmware.Stratum.Json.Reader.{read_string, plain}
use m45_gamma_firmware.Http.{json_escape}
use m45_gamma_firmware.Http.Logs.{filter_normal_logs}
use m45_gamma_firmware.Http.Logs.Moves.{lines_of, kept}
use m45_gamma_firmware.Http.Logs.Kept.{filter_normal_logs_lem}
use m45_gamma_firmware.Http.Escape.{printable, json_escape_lem, json_escape_full}

abbrev network : List ℕ
network = codes "a\"b\n"

json_escape_lem_example :
    (written : List ℕ) × ((json_escape 80 (some network) ≡ some written)
      × ((length written < 80)
          × (read_string plain (written ++ (b'"' ∷ [])) ≡ some (printable network, []))))
json_escape_lem_example = json_escape_lem 80 network [] (omega arith)

json_escape_full_example :
    (written : List ℕ) × ((json_escape 4 (some (codes "\"\"")) ≡ some written)
      × (read_string plain (written ++ (b'"' ∷ [])) ≡ some (codes "\"", b'"' ∷ [])))
json_escape_full_example = json_escape_full 1 []

abbrev log_lines : List ℕ
log_lines = codes "V (1) a\nok\n" ++ (0 ∷ [])

filter_normal_logs_lem_example :
    (take (filter_normal_logs log_lines 11).1 (filter_normal_logs log_lines 11).0
      ≡ kept (lines_of (take 11 log_lines)))
    × ((filter_normal_logs log_lines 11).1 ≤ 11)
filter_normal_logs_lem_example = filter_normal_logs_lem log_lines 11 (omega arith)
