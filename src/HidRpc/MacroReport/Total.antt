-- ===== src/HidRpc/MacroReport/Total.antt =====
-- The macro parser of crates/rkvm-proto/src/hidrpc.rs on every input.
use rustkvm.Common.{
  ℕ, zero, suc, ◌+◌, ◌-◌, ◌*◌, ◌≤◌, ◌<◌, ◌≡◌, refl, List, [], ◌∷◌, ◌++◌, ◌==◌, length, inl, inr,
  ◌⊎◌, length-append, length-take, length-drop, arith, take, drop, Bool-cases,
}
use rustkvm.Common.Predicates.{All, All-append}
use rustkvm.Common.Bytes.{from_be16, from_be32}
use rustkvm.HidRpc.{
  MessageType, Message, ok, err, Error, payload_too_short, invalid_length, invalid_message_type,
}
use rustkvm.HidRpc.MacroReport.{
  KeyboardMacroStep, KeyboardMacroReport, read_step, read_steps, macro_payload,
  keyboard_macro_report, step_size, byte_at, slice,
}

byte_at-lt : (s : List ℕ) (i : ℕ) → i < length s → (b : ℕ) × (byte_at s i ≡ ok b)
unfolding byte_at
byte_at-lt [] i h = elim h [ ]
byte_at-lt (x ∷ s) zero h = (x, refl)
byte_at-lt (x ∷ s) (suc i) h = byte_at-lt s i (omega arith)

slice_within :
    (s : List ℕ) (from : ℕ)
    → from + 6 ≤ length s
    → (keys : List ℕ) × (slice s from (from + 6) ≡ ok keys) × (length keys ≡ 6)
unfolding slice
slice_within s from h = (
  take (from + 6 - from) (drop from s),
  ground arith,
  omega (arith, length-take (from + 6 - from) (drop from s), length-drop from s),
)

read_step_total :
    (s : List ℕ) (offset : ℕ)
    → offset + 9 ≤ length s
    → (step : KeyboardMacroStep) × (read_step s offset ≡ ok step) × (length step.keys ≡ 6)
unfolding read_step
read_step_total s offset h =
    let (modifier, e) = byte_at-lt s offset (omega arith) in
    let (keys, e1, six) = slice_within s (offset + 1) (omega arith) in
    let (hi, e2) = byte_at-lt s (offset + 1 + 6) (omega arith) in
    let (lo, e3) = byte_at-lt s (offset + 1 + 6 + 1) (omega arith) in
    (record { modifier = modifier; keys = keys; delay = from_be16 hi lo }, rw (e, e1, e2, e3), six)

abbrev HasSixKeys : KeyboardMacroStep → Type 0
HasSixKeys step = length step.keys ≡ 6

read_steps_total :
    (n : ℕ) (s : List ℕ) (offset : ℕ) (acc : List KeyboardMacroStep)
    → offset + n * 9 ≤ length s
    → All HasSixKeys acc
    → (steps : List KeyboardMacroStep) × (read_steps n s offset acc ≡ ok steps)
      × (length steps ≡ length acc + n)
      × All HasSixKeys steps
unfolding read_steps
read_steps_total zero s offset acc h six = (acc, refl, omega arith, six)
read_steps_total (suc n) s offset acc h six =
    let (step, e, k) = read_step_total s offset (omega arith) in
    let (steps, e1, l, k1) =
      read_steps_total n s (offset + step_size) (acc ++ (step ∷ [])) (omega arith)
        (All-append HasSixKeys acc (step ∷ []) six (k, tt)) in
    (steps, rw (e, e1), omega (arith, length-append acc (step ∷ [])), k1)

-- The parser's result has the shape that the step count in the payload announces.
pub record IsShaped (payload : List ℕ) (r : KeyboardMacroReport) : Type 0 where
  pub whole : length payload ≡ 5 + r.step_count * 9
  pub counted : length r.steps ≡ r.step_count
  pub six_keys : All HasSixKeys r.steps

macro_payload_exact :
    (paste a b c d : ℕ) (rest : List ℕ)
    → let s = paste ∷ a ∷ b ∷ c ∷ d ∷ rest in
      length s ≡ 5 + from_be32 a b c d * step_size
      → (r : KeyboardMacroReport) × (macro_payload s ≡ ok r) × IsShaped s r
unfolding macro_payload byte_at
macro_payload_exact paste a b c d rest h =
    let s = paste ∷ a ∷ b ∷ c ∷ d ∷ rest in
    let n = from_be32 a b c d in
    let (steps, e, l, six) = read_steps_total n s 5 [] (omega arith) tt in
    (
      record { is_paste = paste == 1; step_count = n; steps = steps },
      ground arith,
      record { whole = h; counted = omega arith; six_keys = six },
    )

macro_payload_total :
    (s : List ℕ)
    → ((r : KeyboardMacroReport) × (macro_payload s ≡ ok r) × IsShaped s r)
      ⊎ ((e : Error) × (macro_payload s ≡ err e))
macro_payload_total [] = inr (payload_too_short 0, unfold macro_payload in refl)
macro_payload_total (p ∷ []) = inr (payload_too_short 1, unfold macro_payload in refl)
macro_payload_total (p ∷ a ∷ []) = inr (payload_too_short 2, unfold macro_payload in refl)
macro_payload_total (p ∷ a ∷ b ∷ []) = inr (payload_too_short 3, unfold macro_payload in refl)
macro_payload_total (p ∷ a ∷ b ∷ c ∷ []) = inr (payload_too_short 4, unfold macro_payload in refl)
macro_payload_total (p ∷ a ∷ b ∷ c ∷ d ∷ rest) =
    let n = length (p ∷ a ∷ b ∷ c ∷ d ∷ rest) in
    let expected = 5 + from_be32 a b c d * step_size in
    elim (Bool-cases (n == expected)) [
      | inl e ↦ inl (macro_payload_exact p a b c d rest (ground arith))
      | inr e ↦ inr (invalid_length n expected, unfold macro_payload byte_at in ground arith)
    ]

-- On every message the parser returns: a report that accounts for every byte of the payload, with as
-- many steps as announced and six keys in each, or an error. It never indexes out of range.
pub keyboard_macro_report_total :
    (m : Message)
    → ((r : KeyboardMacroReport) × (keyboard_macro_report m ≡ ok r) × IsShaped m.payload r)
      ⊎ ((e : Error) × (keyboard_macro_report m ≡ err e))
keyboard_macro_report_total m = of_type m.type m.payload
  where
    of_type :
        (t : MessageType) (s : List ℕ)
        → ((r : KeyboardMacroReport) × (keyboard_macro_report (record { type = t; payload = s })
              ≡ ok r)
            × IsShaped s r)
          ⊎ ((e : Error) × (keyboard_macro_report (record { type = t; payload = s }) ≡ err e))
    of_type MessageType.keyboard_macro_report s =
        unfold keyboard_macro_report in macro_payload_total s
    of_type other s = inr (invalid_message_type other, unfold keyboard_macro_report in refl)
