-- ===== src/LogBuffer.antt =====
-- app/src/observability/log_buffer.rs: the ring of the newest log entries. Text is a list of code points; the
-- visitor of an event gives its message and its fields, and the clock its time.
pub mod Recent
mod Runs
use rustkvm.Common.{
  ℕ, zero, suc, List, [], ◌∷◌, ◌++◌, Bool, true, false, ◌||◌, ◌&&◌, if◌then◌else◌, leb, ◌==◌,
  length, filter, take, drop, reverse, Option, none, some,
}
use rustkvm.Common.Text.{codes, text_eq}

abbrev pub capacity : ℕ
capacity = 1000

pub record LogEntry : Type 0 where
  pub timestamp_ms : ℕ
  pub level : List ℕ
  pub target : List ℕ
  pub message : List ℕ

-- `record_debug`: the text behind the fields so far.
unfoldable pub add_field : List ℕ → List ℕ → List ℕ → List ℕ
add_field name value [] = name ++ (codes "=" ++ value)
add_field name value (c ∷ fields) = (c ∷ fields) ++ (codes " " ++ (name ++ (codes "=" ++ value)))

-- The message of an entry, with the fields behind it.
unfoldable pub join_fields : List ℕ → List ℕ → List ℕ
join_fields message [] = message
join_fields [] (f ∷ fields) = f ∷ fields
join_fields (m ∷ message) (f ∷ fields) = (m ∷ message) ++ (codes " " ++ (f ∷ fields))

-- `pop_front` at the capacity, and `push_back`.
unfoldable pub push_entry : LogEntry → List LogEntry → List LogEntry
push_entry entry ring = (if length ring == capacity then drop 1 ring else ring) ++ (entry ∷ [])

unfoldable pub on_event : ℕ → List ℕ → List ℕ → List ℕ → List ℕ → List LogEntry → List LogEntry
unfolding join_fields push_entry
on_event now level target message fields ring =
    push_entry
      (record {
        timestamp_ms = now;
        level = level;
        target = target;
        message = join_fields message fields;
      })
      ring

unfoldable pub severity : List ℕ → ℕ
severity level =
    if text_eq level (codes "ERROR")
    then 4
    else if text_eq level (codes "WARN")
    then 3
    else if text_eq level (codes "INFO")
    then 2
    else if text_eq level (codes "DEBUG")
    then 1
    else 0

abbrev pub starts_with : List ℕ → List ℕ → Bool
starts_with text [] = true
starts_with [] (n ∷ needle) = false
starts_with (c ∷ text) (n ∷ needle) = c == n && starts_with text needle

-- `str::contains`.
abbrev pub text_contains : List ℕ → List ℕ → Bool
text_contains [] needle = starts_with [] needle
text_contains (c ∷ text) needle = starts_with (c ∷ text) needle || text_contains text needle

abbrev pub floor_of : Option (List ℕ) → ℕ
floor_of none = 0
floor_of (some level) = severity level

abbrev pub mentions : Option (List ℕ) → LogEntry → Bool
mentions none e = true
mentions (some needle) e = text_contains e.message needle || text_contains e.target needle

unfoldable pub recent : ℕ → Option (List ℕ) → Option (List ℕ) → List LogEntry → List LogEntry
recent limit min_level contains ring = reverse (
    take limit (
      filter (mentions contains)
        (filter (λ e. leb (floor_of min_level) (severity e.level)) (reverse ring))))
