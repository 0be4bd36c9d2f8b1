-- ===== src/DataWarehouse/Tests.antt =====
-- The archive on a small world.
use pay_fast_processor.Prelude.{String, [], ◌∷◌, ◌≡◌, refl, length}
use pay_fast_processor.Runtime.World.{World}
use pay_fast_processor.Runtime.Act.{wrapping, ◌>>=◌}
use pay_fast_processor.DataWarehouse.{
  archive, archive_path, decode_event, open_file, write_line, handle_payment_event,
}
use pay_fast_processor.DataWarehouse.Archive.{Handled, lines_of, handle_payment_event-Handled}
use pay_fast_processor.Subscriptions.Calendar.{date_of}
use pay_fast_processor.Samples.{calm, failing_at, one_created, created_event}

abbrev day : String
day = "data/warehouse/payments_archive_1970-01-01.jsonl"

path_of_day : archive_path 100 ≡ day
unfolding archive_path date_of
path_of_day = refl

path_of_leap_day : archive_path 1709164800 ≡ "data/warehouse/payments_archive_2024-02-29.jsonl"
unfolding archive_path date_of
path_of_leap_day = refl

-- An event that arrives twice has two lines.
twice : World
unfolding decode_event handle_payment_event archive archive_path date_of open_file write_line ◌>>=◌
    wrapping
twice =
    (handle_payment_event calm created_event
      (handle_payment_event calm created_event one_created).1).1

archived_twice : length (lines_of day twice.archives) ≡ 2
unfolding twice
archived_twice = refl

-- A file that cannot be written is still made.
unwritten : World
unfolding decode_event handle_payment_event archive archive_path date_of open_file write_line ◌>>=◌
    wrapping
unwritten = (handle_payment_event (failing_at 1) created_event one_created).1

made_empty : unwritten.archives ≡ (day, []) ∷ []
unfolding unwritten
made_empty = refl

handle_payment_event-Handled_example :
    Handled calm created_event one_created (handle_payment_event calm created_event one_created)
handle_payment_event-Handled_example = handle_payment_event-Handled calm created_event one_created
