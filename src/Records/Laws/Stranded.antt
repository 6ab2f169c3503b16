-- ===== src/Records/Laws/Stranded.antt =====
-- A change of the account that fails halfway in a batch.
use finvo.Prelude.Text.{Text}
