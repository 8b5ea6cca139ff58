-- ===== src/Budget/Cooling.antt =====
-- The budgeted calls: a provider that refuses for its rate is left alone for a while.
use moresocial.Base.{◌∙◌}
