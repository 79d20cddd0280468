-- ===== src/Config/Tests.antt =====
-- Concrete settings for the theorems on `SysConfig` of common/config.py.
use dbshield.Common.{false, [], ◌∷◌, ◌≡◌}
use dbshield.Config.{SysConfig, bool, null, stripped, has_key, no_repeats}
use dbshield.Config
use dbshield.Config.Reads.{get-get}
use dbshield.Config.Writes.{lookup-replace}
use dbshield.Common.{String, List, lookup, strip, true, if◌then◌else◌, string_eq, refl}

abbrev settings : SysConfig
settings = record {
  sys_config = [];
  rows = ("auto_review", "true") ∷ ("auto_review_max_update_rows", "  ") ∷ [];
}

get-get_example :
    (Config.get "auto_review" (bool false) (Config.get "auto_review" null settings).1).0
    ≡ (Config.get "auto_review" (bool false) settings).0
get-get_example = get-get "auto_review" "auto_review" (bool false) null settings

abbrev submitted : List (String × String)
submitted = (" auto_review", "false ") ∷ []

distinct : no_repeats (stripped submitted) ≡ true
unfolding no_repeats strip
distinct = refl

lookup-replace_example :
    ((Config.replace submitted settings).0 ≡ 0)
    × (lookup "auto_review" (Config.replace submitted settings).1.rows ≡ (
        if has_key "auto_review" (stripped submitted)
        then lookup "auto_review" (stripped submitted)
        else lookup "auto_review" settings.rows))
lookup-replace_example = lookup-replace "auto_review" submitted settings distinct
