-- ===== src/Retention/Tests/Runs.antt =====
-- A retention run on a catalogue with one interrupted snapshot.
use televault.Retention.Types.{RetentionDecision}
use televault.Db.Catalog.{SqlError}
use televault.Retention.Engine.{Context, execute_retention}
use televault.Retention.Engine.Run.{Safe, execute_retention-Safe}
use televault.Db.Tests.{with_snapshot}
use televault.Prelude.{false, none, List, [], Text, text}

abbrev context : Context
context = record {
  now = 0;
  now_text = text "2026-02-01T00:00:00+00:00";
  parse_time = λ (t : Text). none;
  unique_id = text "1-2";
  ids_json = λ (ids : List Text). [];
  decisions_json = λ (ds : List RetentionDecision). [];
  sql_text = λ (e : SqlError). [];
}

execute_retention-Safe_example :
    Safe [] false with_snapshot
      (execute_retention context (text "prof-1") none [] false with_snapshot)
execute_retention-Safe_example =
    execute_retention-Safe context (text "prof-1") none [] false with_snapshot
