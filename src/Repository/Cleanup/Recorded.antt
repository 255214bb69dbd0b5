-- ===== src/Repository/Cleanup/Recorded.antt =====
-- Sequences of the calls of internal/repository/opening.go with cleanups in between.
use secretmediabot.Base.{List, [], ◌∷◌}
use secretmediabot.Repository.Rows.{Db}
use secretmediabot.Repository.Mapping.{Env}
use secretmediabot.Repository.Opening.Once.{Call, run_call, run_call-delivered}
use secretmediabot.Repository.Cleanup.{Locks, CleanupParams}
use secretmediabot.Repository.Cleanup.Run.{run_cleanup}
use secretmediabot.Repository.Cleanup.Keeps.{IsRecorded, run_cleanup-IsRecorded}

-- A call of the recipient's service, or a run of the cleanup worker.
pub data Task : Type 0 where
  call : Call → Task
  clean : Env → Locks → CleanupParams → Task

unfoldable pub run_tasks : List Task → Db → Db
run_tasks [] db = db
run_tasks (call c ∷ ts) db = run_tasks ts (run_call c db)
run_tasks (clean env locks p ∷ ts) db = run_tasks ts (run_cleanup env locks p db).1

-- Any sequence of ReserveOpen, CompleteOpen, FailOpen and RunCleanup calls keeps this: keys are
-- distinct, and a one-time whisper has no delivered event unless it is opened, and then one at most.
pub run_tasks-IsRecorded : (ts : List Task) (db : Db) → IsRecorded db → IsRecorded (run_tasks ts db)
unfolding run_tasks IsRecorded
run_tasks-IsRecorded [] db h = h
run_tasks-IsRecorded (call c ∷ ts) db h =
    run_tasks-IsRecorded ts (run_call c db) (run_call-delivered c db h)
run_tasks-IsRecorded (clean env locks p ∷ ts) db h =
    run_tasks-IsRecorded ts (run_cleanup env locks p db).1 (run_cleanup-IsRecorded env locks p db h)
