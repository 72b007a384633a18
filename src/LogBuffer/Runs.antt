-- ===== src/LogBuffer/Runs.antt =====
-- A short log.
use rustkvm.Common.{◌≡◌, [], ◌∷◌}
use rustkvm.Common.Text.{codes}
use rustkvm.LogBuffer.{LogEntry}
use rustkvm.LogBuffer.Recent.{push_all, newest, push_all-newest}

abbrev started : LogEntry
started = record {
  timestamp_ms = 10;
  level = codes "INFO";
  target = codes "rustkvm";
  message = codes "started";
}

push_all-newest_example : push_all (started ∷ started ∷ []) [] ≡ newest (started ∷ started ∷ [])
push_all-newest_example = push_all-newest (started ∷ started ∷ [])
