-- ===== src/App/BuildInfo.antt =====
-- internal/app/buildinfo.go
use openchat_backend.Strings.{trim_space}
use openchat_backend.Base.{
  not, ◌&&◌, Option, none, some, List, [], ◌∷◌, ltb, if◌then◌else◌, is_nil, length, take, Str, str,
  ◌==◌,
}

pub record BuildInfo : Type 0 where
  pub version : Str
  pub commit : Str
  pub commit_short : Str
  pub build_time : Str
  pub vcs_modified : Str

pub record BuildInfoSettings : Type 0 where
  pub module_version : Str
  pub vcs_revision : Str
  pub vcs_time : Str
  pub vcs_modified : Str

-- The variables that the linker sets.
pub record Linked : Type 0 where
  pub build_version : Str
  pub build_commit : Str
  pub build_time : Str

abbrev pub or_else : Str → Str → Str
or_else s fallback = if is_nil s then fallback else s

unfoldable pub resolve_build_info : Str → Str → Str → BuildInfoSettings → BuildInfo
resolve_build_info version commit build_time settings =
    let named = or_else version (str "main") in
    let found = or_else (or_else commit settings.vcs_revision) (str "unknown") in
    record {
      version =
          if (named == str "main")
            && (not (is_nil settings.module_version)
                && not (settings.module_version == str "(devel)"))
          then settings.module_version
          else named;
      commit = found;
      commit_short = if ltb 12 (length found) then take 12 found else found;
      build_time = or_else (or_else build_time settings.vcs_time) (str "unknown");
      vcs_modified = or_else settings.vcs_modified (str "unknown");
    }

unfoldable pub read_settings : List (Str × Str) → BuildInfoSettings → BuildInfoSettings
read_settings [] settings = settings
read_settings ((key, value) ∷ rest) settings = read_settings rest (
    if key == str "vcs.revision"
    then record settings { vcs_revision = trim_space value }
    else if key == str "vcs.time"
    then record settings { vcs_time = trim_space value }
    else if key == str "vcs.modified"
    then record settings { vcs_modified = trim_space value }
    else settings)

abbrev pub no_settings : BuildInfoSettings
no_settings = record { module_version = []; vcs_revision = []; vcs_time = []; vcs_modified = [] }

-- `read` is what debug.ReadBuildInfo returns: the version of the module, and the settings.
unfoldable pub current_build_info : Linked → (read : Option (Str × List (Str × Str))) → BuildInfo
current_build_info linked read =
    resolve_build_info (trim_space linked.build_version) (trim_space linked.build_commit)
      (trim_space linked.build_time)
      (elim read [
        | none ↦ no_settings
        | some (version, settings) ↦
            read_settings settings (record no_settings { module_version = trim_space version })
      ])
