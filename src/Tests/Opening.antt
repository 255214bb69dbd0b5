-- ===== src/Tests/Opening.antt =====
-- Runs of the open calls and of the cleanup on the sample database.
use secretmediabot.Repository.Errors.{err, open_ambiguous}
use secretmediabot.Repository.Opening.Params.{ReserveOpenParams}
use secretmediabot.Repository.Opening.Ambiguous.{IsExplained, reserve_open-ambiguous}
use secretmediabot.Repository.Errors.{ok}
use secretmediabot.Repository.Opening.Delivered.{complete_open-delivers}
use secretmediabot.Base.{arith, list_beq, count, nat_eq, ◌≡◌, ◌≤◌, refl, some, [], ◌∷◌, List}
use secretmediabot.Base.Table.{find, find_where, matches, modify, Distinct}
use secretmediabot.Domain.Status.{active, opened}
use secretmediabot.Domain.Events.{delivered, is_delivered}
use secretmediabot.Repository.Opening.Audit.{opening_row}
use secretmediabot.Repository.Opening.Finish.{opened_row, find_whisper}
use secretmediabot.Repository.Opening.Tally.{HasKeys, tally}
use secretmediabot.Repository.Opening.Reserve.{reserve_open, reserved_event}
use secretmediabot.Repository.Mapping.{
  text_row_of, media_row_of, load_whisper_projection, to_domain,
}
use secretmediabot.Repository.Statements.{event_key, insert_event, has_callback, insert_job}
use secretmediabot.Repository.Opening.Once.{
  reserve, complete, Call, run_calls, is_taken, one_time_delivery,
}
use secretmediabot.Repository.Rows.{OpenEventRow, WhisperRow, Db}
use secretmediabot.Repository.Opening.Content.{load_delivery_content}
use secretmediabot.Repository.Opening.Once.{
  IsExclusive, run_call, run_calls-IsExclusive, no_events-IsExclusive,
}
use secretmediabot.Repository.Opening.Finish.{
  complete_open, find_event, finish_reserved, mark_opened,
}
use secretmediabot.Repository.Mapping.{whisper_key}
use secretmediabot.Repository.Cleanup.Keeps.{IsRecorded}
use secretmediabot.Repository.Cleanup.Recorded.{call, clean, run_tasks, run_tasks-IsRecorded}
use secretmediabot.Tests.Samples.{
  sample_env, sample_row, sample_db, sample_reserve, sample_complete, no_locks, sample_cleanup,
}

abbrev delivery : List Call
delivery = reserve sample_env sample_reserve ∷ complete sample_env sample_complete ∷ []

abbrev delivered_row : WhisperRow
delivered_row = opened_row 110 (opening_row sample_reserve 100 sample_row)

unfoldable reserved_db : Db
unfolding reserved_event
reserved_db = record sample_db {
  whispers = opening_row sample_reserve 100 sample_row ∷ [];
  events = record (reserved_event 1 sample_reserve 100) { id = 1 } ∷ [];
  next_event_id = 2;
}

after_reserve : (reserve_open sample_env sample_reserve sample_db).1 ≡ reserved_db
unfolding reserve_open reserved_event find find_where list_beq text_row_of media_row_of count
    insert_event load_whisper_projection reserved_db matches has_callback modify to_domain
    load_delivery_content
after_reserve = refl

complete_reserved :
    find_whisper 1 (complete_open sample_env sample_complete reserved_db).1 ≡ some delivered_row
unfolding complete_open find_event find find_where matches modify reserved_db reserved_event
    finish_reserved mark_opened insert_job
complete_reserved = refl

delivery-opens : find_whisper 1 (run_calls delivery sample_db) ≡ some delivered_row
unfolding run_calls run_call
delivery-opens = rw after_reserve complete_reserved

keys : Distinct whisper_key sample_db.whispers
unfolding find
keys = (refl, tt)

one_time_delivery_example :
    (tally is_taken 1 (run_calls delivery sample_db).events ≤ 1)
    × (delivered_row.status ≡ active → tally is_taken 1 (run_calls delivery sample_db).events ≡ 0)
    × ((delivered_row.status ≡ opened → ⊥)
        → tally is_delivered 1 (run_calls delivery sample_db).events ≡ 0)
one_time_delivery_example =
    one_time_delivery delivery sample_db 1 delivered_row keys refl delivery-opens refl

run_calls-IsExclusive_example : IsExclusive (run_calls delivery sample_db)
run_calls-IsExclusive_example =
    run_calls-IsExclusive delivery sample_db (no_events-IsExclusive sample_db keys refl)

sample-IsRecorded : IsRecorded sample_db
unfolding IsRecorded IsExclusive
sample-IsRecorded = let h = no_events-IsExclusive sample_db keys refl in (h.0, h.2)

run_tasks-IsRecorded_example : IsRecorded (
    run_tasks
      (call (reserve sample_env sample_reserve)
        ∷ clean sample_env no_locks sample_cleanup
        ∷ call (complete sample_env sample_complete)
        ∷ [])
      sample_db)
run_tasks-IsRecorded_example =
    run_tasks-IsRecorded
      (call (reserve sample_env sample_reserve)
        ∷ clean sample_env no_locks sample_cleanup
        ∷ call (complete sample_env sample_complete)
        ∷ [])
      sample_db sample-IsRecorded

reserved_keys : HasKeys reserved_db
unfolding reserved_db find
reserved_keys = record {
  whispers_distinct = (refl, tt);
  events_distinct = (refl, tt);
  events_below = (omega arith, tt);
}

completes : (complete_open sample_env sample_complete reserved_db).0 ≡ ok tt
unfolding complete_open find_event find find_where matches modify reserved_db reserved_event
    finish_reserved mark_opened insert_job
completes = refl

complete_open-delivers_example :
    (e : OpenEventRow) × (e.id ≡ 1)
    × (e.whisper_id ≡ 1)
    × (find event_key e.id (complete_open sample_env sample_complete reserved_db).1.events ≡ some e)
    × (e.delivery_state ≡ delivered)
complete_open-delivers_example =
    complete_open-delivers sample_env sample_complete reserved_db reserved_keys completes

-- The recipient asks again ten nanoseconds after the lease of the reservation has ended.
abbrev asked_again : ReserveOpenParams
asked_again = record sample_reserve { now = 170; lease_until = 300 }

again_ambiguous : (reserve_open sample_env asked_again reserved_db).0 ≡ err open_ambiguous
unfolding reserve_open find_where reserved_db list_beq
    secretmediabot.Repository.Opening.Audit.has_reserved_open_event count
    secretmediabot.Repository.Opening.Audit.is_recent
again_ambiguous = refl

reserve_open-ambiguous_example :
    IsExplained asked_again 170 reserved_db
    × ((reserve_open sample_env asked_again reserved_db).1 ≡ reserved_db)
reserve_open-ambiguous_example =
    reserve_open-ambiguous sample_env asked_again reserved_db again_ambiguous
