-- ===== src/HidRpc/Runs.antt =====
-- Concrete frames.
use rustkvm.Common.{List, [], ◌∷◌, ◌≡◌, ◌↔◌, refl, arith, true, ◌⊎◌}
use rustkvm.Common.Predicates.{All}
use rustkvm.HidRpc.{MessageType, Message, ok, err, Error, unmarshal, marshal}
use rustkvm.HidRpc.Frame.{unmarshal_iff}
use rustkvm.HidRpc.MacroReport.{KeyboardMacroStep, KeyboardMacroReport, keyboard_macro_report}
use rustkvm.HidRpc.MacroReport.Parse.{IsStep, encode_macro, keyboard_macro_report-encode_macro}
use rustkvm.HidRpc.MacroReport.Total.{keyboard_macro_report_total, IsShaped}

abbrev key_frame : Message
key_frame = record { type = MessageType.keypress_report; payload = 4 ∷ 1 ∷ [] }

unmarshal_iff_example :
    (unmarshal (0x05 ∷ 4 ∷ 1 ∷ []) ≡ ok key_frame) ↔ (marshal key_frame ≡ 0x05 ∷ 4 ∷ 1 ∷ [])
unmarshal_iff_example = unmarshal_iff (0x05 ∷ 4 ∷ 1 ∷ []) key_frame

abbrev two_steps : List KeyboardMacroStep
two_steps =
    record { modifier = 2; keys = 4 ∷ 0 ∷ 0 ∷ 0 ∷ 0 ∷ 0 ∷ []; delay = 300 }
    ∷ record { modifier = 0; keys = 0 ∷ 0 ∷ 0 ∷ 0 ∷ 0 ∷ 0 ∷ []; delay = 20 }
    ∷ []

two_steps-IsStep : All IsStep two_steps
two_steps-IsStep = (
  record { six_keys = refl; delay_fits = omega arith },
  (record { six_keys = refl; delay_fits = omega arith }, tt),
)

keyboard_macro_report-encode_macro_example :
    keyboard_macro_report
      (record { type = MessageType.keyboard_macro_report; payload = encode_macro true two_steps })
    ≡ ok (record { is_paste = true; step_count = 2; steps = two_steps })
keyboard_macro_report-encode_macro_example =
    keyboard_macro_report-encode_macro true two_steps two_steps-IsStep (omega arith)

abbrev short_macro : Message
short_macro = record {
  type = MessageType.keyboard_macro_report;
  payload = 0 ∷ 0 ∷ 0 ∷ 0 ∷ 1 ∷ 2 ∷ [];
}

keyboard_macro_report_total_example :
    ((r : KeyboardMacroReport) × (keyboard_macro_report short_macro ≡ ok r)
      × IsShaped short_macro.payload r)
    ⊎ ((e : Error) × (keyboard_macro_report short_macro ≡ err e))
keyboard_macro_report_total_example = keyboard_macro_report_total short_macro
