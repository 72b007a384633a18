-- ===== src/LogBuffer/Recent.antt =====
-- app/src/observability/log_buffer.rs: what the ring holds.
use rustkvm.Common.{
  ℕ, zero, suc, ◌-◌, ◌≤◌, ◌<◌, ◌≡◌, refl, sym, ap, ◌∙◌, List, [], ◌∷◌, ◌++◌, length, drop,
  length-append, arith, Bool-cases, inl, inr, length-drop, append_assoc, append-nil, ltb,
}
use rustkvm.LogBuffer.{LogEntry, push_entry, capacity}

-- All entries pushed, one after the other.
abbrev pub push_all : List LogEntry → List LogEntry → List LogEntry
push_all [] ring = ring
push_all (e ∷ entries) ring = push_all entries (push_entry e ring)

-- The newest entries of a log, up to the capacity.
abbrev pub newest : List LogEntry → List LogEntry
newest log = drop (length log - capacity) log

drop-drop : (k : ℕ) (xs : List LogEntry) → drop 1 (drop k xs) ≡ drop (suc k) xs
drop-drop zero xs = refl
drop-drop (suc k) [] = refl
drop-drop (suc k) (x ∷ xs) = drop-drop k xs

drop-append : (k : ℕ) (xs ys : List LogEntry) → k ≤ length xs → drop k (xs ++ ys) ≡ drop k xs ++ ys
drop-append zero xs ys h = refl
drop-append (suc k) [] ys h = absurd (omega arith)
drop-append (suc k) (x ∷ xs) ys h = drop-append k xs ys (omega arith)

push_full :
    (e : LogEntry) (log : List LogEntry)
    → capacity ≤ length log
    → push_entry e (newest log) ≡ drop (suc (length log - capacity)) log ++ (e ∷ [])
unfolding push_entry
push_full e log h =
    let full : length (newest log) ≡ capacity =
      omega (arith, length-drop (length log - capacity) log) in
    let d = drop-drop (length log - capacity) log in ground arith

push_free :
    (e : LogEntry) (log : List LogEntry)
    → length log < capacity
    → push_entry e (newest log) ≡ log ++ (e ∷ [])
unfolding push_entry
push_free e log h = let none_dropped : length log - capacity ≡ 0 = omega arith in ground arith

push_entry-newest :
    (e : LogEntry) (log : List LogEntry) → push_entry e (newest log) ≡ newest (log ++ (e ∷ []))
push_entry-newest e log =
    let n = length-append log (e ∷ []) in
    elim (Bool-cases (ltb (length log) capacity)) [
      | inl h ↦
          let small : length log < capacity = ground arith in
          let k : length (log ++ (e ∷ [])) - capacity ≡ 0 = omega arith in
          push_free e log small ∙ sym (ap (λ i. drop i (log ++ (e ∷ []))) k)
      | inr h ↦
          let large : capacity ≤ length log = ground arith in
          let k : length (log ++ (e ∷ [])) - capacity ≡ suc (length log - capacity) = omega arith in
          push_full e log large
          ∙ sym (drop-append (suc (length log - capacity)) log (e ∷ []) (omega arith))
          ∙ sym (ap (λ i. drop i (log ++ (e ∷ []))) k)
    ]

push_all-append :
    (entries log : List LogEntry) → push_all entries (newest log) ≡ newest (log ++ entries)
push_all-append [] log = ap newest (sym (append-nil log))
push_all-append (e ∷ entries) log =
    ap (push_all entries) (push_entry-newest e log)
    ∙ push_all-append entries (log ++ (e ∷ []))
    ∙ ap newest (append_assoc log (e ∷ []) entries)

-- Whatever was logged, the ring holds exactly the newest 1000 entries, in their order.
pub push_all-newest : (entries : List LogEntry) → push_all entries [] ≡ newest entries
push_all-newest entries = push_all-append entries []
