-- ===== src/Vitality/Tests.antt =====
-- One node that goes silent.
use trytet.Prelude.{ℕ, ◌≡◌, arith, true, List, [], ◌∷◌, ◌++◌, contains, bytes_eq, codes}
use trytet.Vitality.{Heartbeat, new, record_heartbeat}
use trytet.Vitality.Deaths.{checks, run, run-reports}

abbrev node : List ℕ
node = codes "n"

abbrev heartbeat : Heartbeat
heartbeat = record { node_id = node; timestamp_us = 0; signature = [] }

run-reports_example :
    let m = record_heartbeat 1000 (run (new 0) []).1 heartbeat in
    contains node (run m (checks 6000000 ∷ [] ++ checks 15001000 ∷ [])).0 ≡ true
run-reports_example =
    run-reports 0 1000 15001000 heartbeat [] (checks 6000000 ∷ []) tt (omega arith)
