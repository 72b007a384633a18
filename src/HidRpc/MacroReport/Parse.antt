-- ===== src/HidRpc/MacroReport/Parse.antt =====
-- The macro parser of crates/rkvm-proto/src/hidrpc.rs against an encoder of its wire format.
use rustkvm.Common.{
  ℕ, suc, ◌+◌, ◌*◌, ◌<◌, ◌≡◌, refl, ◌∙◌, ap, List, [], ◌∷◌, ◌++◌, Bool, length, length-append,
  append_assoc, append-nil, arith,
}
use rustkvm.Common.Predicates.{All}
use rustkvm.Common.Bytes.{be_bytes16, be_bytes32, from_be32-be_bytes32}
use native.Mathlib.Nat.{suc-add, suc-sub-suc, add-zero, zero-add}
use rustkvm.HidRpc.{MessageType, ok}
use rustkvm.HidRpc.Payload.{u8_from}
use rustkvm.HidRpc.MacroReport.{
  KeyboardMacroStep, read_step, read_steps, macro_payload, keyboard_macro_report, step_size,
  byte_at, slice,
}

-- A step as the Rust types bound it: six keys and a `u16` delay.
pub record IsStep (s : KeyboardMacroStep) : Type 0 where
  pub six_keys : length s.keys ≡ 6
  pub delay_fits : s.delay < 65536

encode_step : KeyboardMacroStep → List ℕ
encode_step s = s.modifier ∷ (s.keys ++ be_bytes16 s.delay)

encode_steps : List KeyboardMacroStep → List ℕ
encode_steps [] = []
encode_steps (s ∷ steps) = encode_step s ++ encode_steps steps

-- The wire format: the paste flag, the number of steps and nine bytes for each.
pub encode_macro : Bool → List KeyboardMacroStep → List ℕ
encode_macro is_paste steps = u8_from is_paste ∷ (be_bytes32 (length steps) ++ encode_steps steps)

six_elements :
    (keys : List ℕ)
    → length keys ≡ 6
    → (a : ℕ) × (b : ℕ) × (c : ℕ) × (d : ℕ) × (e : ℕ) × (f : ℕ) × (keys
        ≡ a ∷ b ∷ c ∷ d ∷ e ∷ f ∷ [])
six_elements (a ∷ b ∷ c ∷ d ∷ e ∷ f ∷ []) h = (a, b, c, d, e, f, refl)
six_elements _ h = absurd (omega arith)

byte_at_shift : (x : ℕ) (s : List ℕ) (i : ℕ) → byte_at (x ∷ s) (suc i) ≡ byte_at s i
unfolding byte_at
byte_at_shift x s i = refl

slice_shift :
    (x : ℕ) (s : List ℕ) (from to : ℕ) → slice (x ∷ s) (suc from) (suc to) ≡ slice s from to
unfolding slice
slice_shift x s from to = rw suc-sub-suc (ground arith)

step_shift : (x : ℕ) (s : List ℕ) (offset : ℕ) → read_step (x ∷ s) (suc offset) ≡ read_step s offset
unfolding read_step
step_shift x s offset = simp (suc-add, byte_at_shift, slice_shift)

step_at :
    (front s : List ℕ) (offset : ℕ)
    → read_step (front ++ s) (length front + offset) ≡ read_step s offset
step_at [] s offset = rw zero-add
step_at (x ∷ front) s offset =
    rw suc-add (step_shift x (front ++ s) (length front + offset) ∙ step_at front s offset)

-- A step of the right shape is read back from the front of the bytes.
read_encoded :
    (step : KeyboardMacroStep) (rest : List ℕ)
    → IsStep step
    → read_step (encode_step step ++ rest) 0 ≡ ok step
unfolding read_step encode_step byte_at slice
read_encoded step rest h = ground (arith, six_elements step.keys h.six_keys)

read_step_next :
    (front : List ℕ) (step : KeyboardMacroStep) (rest : List ℕ)
    → IsStep step
    → read_step (front ++ (encode_step step ++ rest)) (length front) ≡ ok step
read_step_next front step rest h =
    rw (← add-zero (length front)) (step_at front (encode_step step ++ rest) 0)
    ∙ read_encoded step rest h

length-encode_step : (step : KeyboardMacroStep) → IsStep step → length (encode_step step) ≡ 9
unfolding encode_step
length-encode_step step h =
    omega (arith, length-append step.keys (be_bytes16 step.delay), h.six_keys)

length-encode_steps :
    (steps : List KeyboardMacroStep)
    → All IsStep steps
    → length (encode_steps steps) ≡ length steps * 9
unfolding encode_steps
length-encode_steps [] h = refl
length-encode_steps (s ∷ steps) h = omega (
  arith,
  length-append (encode_step s) (encode_steps steps),
  length-encode_step s h.0,
  length-encode_steps steps h.1,
)

read_steps-encode_steps :
    (steps : List KeyboardMacroStep) (front : List ℕ) (acc : List KeyboardMacroStep)
    → All IsStep steps
    → read_steps (length steps) (front ++ encode_steps steps) (length front) acc ≡ ok (acc ++ steps)
unfolding read_steps encode_steps
read_steps-encode_steps [] front acc h = rw append-nil
read_steps-encode_steps (s ∷ steps) front acc h =
    rw (read_step_next front s (encode_steps steps) h.0) (
      rw (← append_assoc front (encode_step s) (encode_steps steps), place)
        (read_steps-encode_steps steps (front ++ encode_step s) (acc ++ (s ∷ [])) h.1)
      ∙ ap ok (append_assoc acc (s ∷ []) steps))
  where
    place : length front + step_size ≡ length (front ++ encode_step s)
    place = omega (arith, length-append front (encode_step s), length-encode_step s h.0)

-- Every macro that fits the wire format is read back from its bytes: the paste flag, the number of
-- steps, and the steps in their order.
pub keyboard_macro_report-encode_macro :
    (is_paste : Bool) (steps : List KeyboardMacroStep)
    → All IsStep steps
    → length steps < 4294967296
    → keyboard_macro_report
        (record { type = MessageType.keyboard_macro_report; payload = encode_macro is_paste steps })
      ≡ ok (record { is_paste = is_paste; step_count = length steps; steps = steps })
unfolding keyboard_macro_report encode_macro macro_payload byte_at
keyboard_macro_report-encode_macro is_paste steps h fits =
    let n = length steps in
    let front : List ℕ = u8_from is_paste ∷ be_bytes32 n in
    ground (
      arith,
      from_be32-be_bytes32 n,
      length-encode_steps steps h,
      read_steps-encode_steps steps front [] h,
    )
