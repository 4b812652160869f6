-- ===== src/HookDedupe.antt =====
-- The claim of a hook on one event (hook_dedupe.py). Times are whole ticks of the clock, and the
-- digest of a key is the parameter `sha256`.
pub mod Claims
use Prim.Native.String.{◌++◌ as text_append}
use borromean_rings.Base.{
  ℕ, zero, suc, ◌+◌, String, Bool, true, false, ◌||◌, Option, none, some, ◌==◌, leb, ltb,
  if◌then◌else◌,
}
use borromean_rings.StateHome.{take_chars}

-- The markers of a directory: the time of the last change of each, `none` where there is none. The
-- flags say whether the directory can be made, and whether making a marker, reading its time,
-- setting its time and removing it succeed.
pub record Markers : Type 0 where
  pub times : String → Option ℕ
  pub makeable : Bool
  pub creatable : Bool
  pub statable : Bool
  pub touchable : Bool
  pub removable : Bool

-- What `claim` returns, or that it raises an OSError.
pub data Claim : Type 0 where
  proceed yield os_error : Claim

abbrev pub put : Markers → String → Option ℕ → Markers
put m name t = record m { times = λ other. if name == other then t else m.times other }

-- `f"{event}-{digest}"`
unfoldable pub marker_name : (String → String) → String → String → String
marker_name sha256 event key = text_append event (text_append "-" (take_chars 16 (sha256 key)))

-- `age < 0 or age >= window_seconds`, for a marker of the time `t`
abbrev pub is_stale : ℕ → ℕ → ℕ → Bool
is_stale now window t = ltb now t || leb (t + window) now

abbrev pub refresh : Markers → String → ℕ → Markers × Claim
refresh m name now = if m.touchable then (put m name (some now), proceed) else (m, os_error)

abbrev pub found_marker : Markers → String → ℕ → ℕ → ℕ → Markers × Claim
found_marker m name now window t =
    if m.statable
    then if is_stale now window t then refresh m name now else (m, yield)
    else (m, proceed)

abbrev pub open_marker : Markers → String → ℕ → ℕ → Option ℕ → Markers × Claim
open_marker m name now window (some t) = found_marker m name now window t
open_marker m name now window none =
    if m.creatable then (put m name (some now), proceed) else (m, proceed)

-- A new marker has the time of the claim.
unfoldable pub claim : (String → String) → String → String → ℕ → ℕ → Markers → Markers × Claim
claim sha256 event key window now m =
    let name = marker_name sha256 event key in
    if m.makeable then open_marker m name now window (m.times name) else (m, proceed)

unfoldable pub release : (String → String) → String → String → Markers → Markers
release sha256 event key m = if m.removable then put m (marker_name sha256 event key) none else m
