-- ===== src/Metrics/Build.antt =====
-- readBuildInfo of metrics.go. What the Go runtime knows of the build is given.
use kaftar.Prelude.{String, Option, none, some, List, [], ◌∷◌, not, ◌&&◌, str_eq, if◌then◌else◌}

-- debug.BuildInfo, as far as it is read.
pub record BuildInfo : Type 0 where
  pub version : String
  pub settings : List (String × String)

pub record Build : Type 0 where
  pub version : String
  pub revision : String
  pub modified : String

abbrev pub devel : Build
devel = record { version = "devel"; revision = "unknown"; modified = "unknown" }

abbrev apply_setting : String → String → Build → Build
apply_setting key value b =
    if str_eq key "vcs.revision"
    then record b { revision = value }
    else if str_eq key "vcs.modified"
    then record b { modified = value }
    else b

-- The loop over the settings: a later one of the same key replaces the earlier.
unfoldable pub apply_settings : List (String × String) → Build → Build
apply_settings [] b = b
apply_settings ((key, value) ∷ rest) b = apply_settings rest (apply_setting key value b)

unfoldable pub read_build_info : Option BuildInfo → Build
unfolding apply_settings
read_build_info none = devel
read_build_info (some info) =
    let known = not (str_eq info.version "") && not (str_eq info.version "(devel)") in
    apply_settings info.settings (if known then record devel { version = info.version } else devel)
