-- ===== src/Relock/Runs.antt =====
-- A concrete storm.
use rustkvm.Common.{◌≡◌, refl, [], ◌∷◌, none, arith}
use rustkvm.Relock.{RelockWatch, replug, storm, observe, backoff, is_due, restart_backoff}
use rustkvm.Relock.Spacing.{MakesNone, replugs_spaced}

abbrev new : RelockWatch
new = record { recent = (1000, 3) ∷ []; last_replug = none; attempts = 0 }

replugs_spaced_example :
    MakesNone (observe new 3000 4).0 ((12000, 7) ∷ (20000, 9) ∷ (32999, 1) ∷ [])
unfolding observe backoff
replugs_spaced_example =
    replugs_spaced new 3000 4 ((12000, 7) ∷ (20000, 9) ∷ (32999, 1) ∷ []) refl
      (omega arith, (omega arith, (omega arith, tt)))

first_replug : (observe new 3000 4).1 ≡ replug 7 1
unfolding observe
first_replug = refl

too_early : (observe (observe new 3000 4).0 12000 7).1 ≡ storm 7
unfolding observe is_due backoff
too_early = refl

restart_backoff_bound : restart_backoff 40 ≡ 300000
unfolding restart_backoff
restart_backoff_bound = refl
