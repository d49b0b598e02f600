-- ===== src/Settings/Tests.antt =====
-- The defaults of settings.py are within its bounds.
use native.Mathlib.Omega.{arith}
use nitzan_shinnies_inspecti.Settings.{default_settings, InBounds}

default_settings-InBounds : InBounds default_settings
default_settings-InBounds = omega arith
