-- ===== src/Volmig/Text.antt =====
-- The texts that the commands of cmd/volmig/cmd print: phases, icons, cut messages and ages.
use Prim.Native.String.{len, slice, count}
use migcontroller.Prelude.{ℕ, zero, suc, ◌-◌, String, ◌++◌, ltb, leb, ◌==◌, if◌then◌else◌}
use migcontroller.Prelude.Tests.{eqb}
use migcontroller.VolumeResize.{
  Phase, unset, pending, validating, syncing, replacing, completed, failed, unknown, VolumePhase,
  vol_pending, vol_syncing, vol_synced, vol_replacing, vol_completed, vol_failed, vol_unknown,
}

abbrev phase_pending : String
phase_pending = "Pending"

abbrev pub phase_completed : String
phase_completed = "Completed"

abbrev pub phase_failed : String
phase_failed = "Failed"

abbrev pub output_format_wide : String
output_format_wide = "wide"

-- The text of a phase, which is what the tool compares.
abbrev pub phase_text : Phase → String
phase_text unset = ""
phase_text pending = "Pending"
phase_text validating = "Validating"
phase_text syncing = "Syncing"
phase_text replacing = "Replacing"
phase_text completed = "Completed"
phase_text failed = "Failed"
phase_text (unknown s) = s

abbrev pub volume_phase_text : VolumePhase → String
volume_phase_text vol_pending = "Pending"
volume_phase_text vol_syncing = "Syncing"
volume_phase_text vol_synced = "Synced"
volume_phase_text vol_replacing = "Replacing"
volume_phase_text vol_completed = "Completed"
volume_phase_text vol_failed = "Failed"
volume_phase_text (vol_unknown s) = s

-- `if phase == "" { phase = phasePending }`
unfoldable pub shown_phase : Phase → String
shown_phase phase = if phase_text phase == "" then phase_pending else phase_text phase

-- the icon of `status` for a phase
unfoldable pub phase_icon : String → String
phase_icon phase =
    if phase == phase_completed
    then "✅"
    else if phase == phase_failed
    then "❌"
    else if phase == "Syncing"
    then "🔄"
    else if phase == "Validating"
    then "🔍"
    else "⏳"

-- the icon of `status` for one volume
unfoldable pub volume_icon : String → String
volume_icon phase =
    if phase == phase_completed
    then "✅"
    else if phase == phase_failed
    then "❌"
    else if phase == "Syncing"
    then "🔄"
    else if phase == "Replacing"
    then "🔄"
    else "⏳"

-- `if len(s) > n { s = s[:n-3] + "..." }`, in bytes. Where the cut falls into a character, the
-- bytes before it are not UTF-8, and no String has them: what stands for them is `split s (n - 3)`.
unfoldable pub cut : (String → ℕ → String) → ℕ → String → String
cut split n s =
    let whole = slice s 0 (n - 3) in
    if ltb n (len s)
    then (if eqb (len whole) (n - 3) then whole else split s (n - 3)) ++ "..."
    else s

-- the length of `message` in a row of `list`
unfoldable pub max_message_length : String → ℕ
max_message_length output_format = if output_format == output_format_wide then 60 else 40

-- time.Duration, as the time past or missing in nanoseconds
pub data Duration : Type 0 where
  since until : ℕ → Duration

-- t.Sub(u), for times less than 292 years apart
abbrev pub sub : ℕ → ℕ → Duration
sub t u = if leb u t then since (t - u) else until (u - t)

abbrev spaces : ℕ → String
spaces zero = ""
spaces (suc n) = " " ++ spaces n

-- `%-12s`: the width counts characters
unfoldable pub pad : ℕ → String → String
pad width s = s ++ spaces (width - count s)
