-- ===== src/Recurring/Laws/Handled.antt =====
-- The due rules after a run of the job, for the rules whose processing cannot raise.
use finvo.Prelude.{Bool, false, not, ◌&&◌, ◌||◌, ◌==◌, List, [], ◌∷◌}
use finvo.Recurring.Store.{Rule, World}
use finvo.Recurring.Jobs.{is_due}
use finvo.Recurring.Laws.Advance.{always_succeeds}

module _ (w : World) where
  -- a rule of the list `rs` with this identifier reschedules for sure
  unfoldable covered : List Rule → Rule → Bool
  covered [] x = false
  covered (r ∷ rs) x = r.uuid == x.uuid && always_succeeds w r || covered rs x

  -- what is due and succeeds for sure is still to be processed
  abbrev waits : List Rule → Rule → Bool
  waits rs x = not (is_due w x && always_succeeds w x) || covered rs x
