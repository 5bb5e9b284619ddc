-- ===== src/Examples/Jobs.antt =====
-- Jobs of uploads over time, and a temporary file.
use sequoia.Prelude.{ℕ, true, false, [], ◌∷◌, none, ◌≡◌, arith}
use sequoia.Prelude.Int.{pos}
use sequoia.Prelude.Bytes.{codes}
use sequoia.FileSystem.Write.{Tracker}
use sequoia.Api.Uploads.Retention.{
  Retained, start_job, change_job, end_job, advance, status, second_upload_forgotten,
}
use sequoia.Seeker.TempFile.{System, to_read_seek_closer, after_closes, temp_files_go}

abbrev tracker : ℕ → Tracker
tracker n = record {
  merkle = 1 ∷ [];
  owner = codes "jkl1";
  start = pos 5;
  cid = [];
  progress = n;
  status = codes "Started upload";
}

abbrev no_jobs : Retained
no_jobs = record { entries = []; trackers = λ n. tracker 0; next = 0; timers = [] }

-- The first upload starts at once and is done at 20 seconds.
abbrev first_done : Retained
first_done = start_job (codes "ab") (tracker 10) no_jobs

second_upload_forgotten_example :
    status (codes "ab") (
      advance 620 (
        change_job 1
          (tracker 40)
          (start_job (codes "ab") (tracker 10) (end_job 20 (codes "ab") first_done))))
    ≡ none
second_upload_forgotten_example =
    second_upload_forgotten 20 620 (codes "ab") (tracker 10) (tracker 40) 1 first_done (omega arith)

abbrev system : System
system = record { creates = true; writes = λ x. true; seeks = true; removes = true }

temp_files_go_example :
    after_closes 3
      (to_read_seek_closer system 7 (record { bytes = codes "data"; breaks = false; open_ = true }))
    ≡ 7
temp_files_go_example =
    temp_files_go system 7 2 (record { bytes = codes "data"; breaks = false; open_ = true })
