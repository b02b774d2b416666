-- ===== src/Context/EchoGuard.antt =====
-- `_ChannelEchoGuard` (jobs/context.py): the levels of the SSH library's loggers while redacted
-- reads are in flight. `held` is its two critical sections, `hold` and `release`, under one lock, so
-- that the reads of several threads are a sequence of them.
use nautobot_testsuite.Base.{
  ℕ, ◌+◌, ◌-◌, ◌<◌, List, [], ◌∷◌, ltb, ◌==◌, if◌then◌else◌, Text, text_eq, Dict, put,
}

-- The loggers' own levels, by name, and the guard.
pub record Guard : Type 0 where
  pub levels : Text → ℕ
  pub saved : Dict ℕ
  pub depth : ℕ

-- logging.INFO
abbrev pub info_level : ℕ
info_level = 20

unfoldable pub set_level : Text → ℕ → (Text → ℕ) → Text → ℕ
set_level name level levels other = if text_eq name other then level else levels other

-- `effective` is getEffectiveLevel by a logger's own level: 0 takes the parent's level.
module _ (effective : ℕ → ℕ) where
  -- The loop that saves and raises the levels.
  unfoldable pub hold_names : List Text → Guard → Guard
  hold_names [] g = g
  hold_names (name ∷ names) g =
      let level = g.levels name in
      hold_names names (record g {
        saved = put name level g.saved;
        levels =
            if ltb (effective level) info_level
            then set_level name info_level g.levels
            else g.levels;
      })

  -- The first critical section.
  unfoldable pub hold : List Text → Guard → Guard
  hold names g =
      let held = if g.depth == 0 then hold_names names g else g in
      record held { depth = g.depth + 1 }

-- The loop that restores the levels.
unfoldable pub restore_levels : Dict ℕ → (Text → ℕ) → Text → ℕ
restore_levels [] levels = levels
restore_levels ((name, level) ∷ saved) levels = restore_levels saved (set_level name level levels)

-- The second critical section.
unfoldable pub release : Guard → Guard
release g =
    let depth = g.depth - 1 in
    if depth == 0
    then record { levels = restore_levels g.saved g.levels; saved = []; depth = depth }
    else record g { depth = depth }

-- A sequence of critical sections; only a read that holds the guard releases it.
pub data Trace (effective : ℕ → ℕ) (names : List Text) (g : Guard) : Guard → Type 0 where
  start : Trace effective names g g
  holding :
      {h : Guard} → Trace effective names g h → Trace effective names g (hold effective names h)
  releasing :
      {h : Guard} → Trace effective names g h → 0 < h.depth → Trace effective names g (release h)

-- The guard as it is created, over the loggers' levels.
abbrev pub new_guard : (Text → ℕ) → Guard
new_guard levels = record { levels = levels; saved = []; depth = 0 }
