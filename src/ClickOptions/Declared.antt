-- ===== src/ClickOptions/Declared.antt =====
-- The options that src/scheduling_util/_click_options.py declares, without their help texts, and what
-- the library click makes of an option on a command line.
use text.Mathlib.Text.{◌==◌ as str_eq}
use Prim.Native.String.{◌++◌ as join_text}
use scheduling_util_py.Prelude.{
  return, String, ◌≡◌, ◌⊎◌, Bool, true, false, Option, none, some, List, [], ◌∷◌, if◌then◌else◌,
  Result,
}
use scheduling_util_py.Prelude.Int.{ℤ}

-- The type of an option's value.
pub data OptionType : Type 0 where
  text_type : OptionType
  integer_type : OptionType
  duration_type : OptionType
  file_type : OptionType
  directory_type : OptionType
  choice_type : (choices : List String) (case_sensitive : Bool) → OptionType
  flag_type : OptionType
  channel_type : OptionType

pub record ClickOption : Type 0 where
  pub flag : String
  pub type : OptionType
  pub default : Option String
  pub required : Bool
  pub multiple : Bool

abbrev pub plain : String → OptionType → ClickOption
plain flag type = record {
  flag = flag;
  type = type;
  default = none;
  required = false;
  multiple = false;
}

abbrev pub with_default : String → OptionType → String → ClickOption
with_default flag type default = record (plain flag type) { default = some default }

-- `logging.getLevelName` of the five levels
abbrev pub level_names : List String
level_names = "DEBUG" ∷ "INFO" ∷ "WARNING" ∷ "ERROR" ∷ "CRITICAL" ∷ []

abbrev pub click_type__log_level : OptionType
click_type__log_level = choice_type level_names false

abbrev pub click_option__log_level : ClickOption
click_option__log_level = with_default "--log-level" click_type__log_level "WARNING"

-- `get_default_cache_dir`, for a platform and a home directory
unfoldable pub get_default_cache_dir : (platform home : String) → String
get_default_cache_dir platform home =
    if str_eq platform "win32"
    then join_text home "/AppData/Local/scheduling_util/cache"
    else if str_eq platform "darwin"
    then join_text home "/Library/Caches/scheduling_util"
    else join_text home "/.cache/scheduling_util"

abbrev pub click_option__cache_dir : (platform home : String) → ClickOption
click_option__cache_dir platform home =
    with_default "--cache-dir" directory_type (get_default_cache_dir platform home)

abbrev pub click_option__hc_ping_base_url : ClickOption
click_option__hc_ping_base_url = with_default "--hc-ping-base-url" text_type "https://hc-ping.com/"

abbrev pub click_option__hc_manage_base_url : ClickOption
click_option__hc_manage_base_url =
    with_default "--hc-manage-base-url" text_type "https://healthchecks.io/api/v3/"

abbrev pub click_option__hc_ping_key : ClickOption
click_option__hc_ping_key = plain "--hc-ping-key" text_type

abbrev pub click_option__hc_manage_key : ClickOption
click_option__hc_manage_key = plain "--hc-manage-key" text_type

abbrev pub click_option__hc_timeout : ClickOption
click_option__hc_timeout = plain "--hc-timeout" duration_type

abbrev pub click_option__hc_grace : ClickOption
click_option__hc_grace = plain "--hc-grace" duration_type

abbrev pub click_option__hc_uuid : ClickOption
click_option__hc_uuid = plain "--hc-uuid" text_type

abbrev pub click_option__heartbeat_path : ClickOption
click_option__heartbeat_path = plain "--heartbeat-path" file_type

abbrev pub click_option__hc_channel : ClickOption
click_option__hc_channel = record (plain "--hc-channel" channel_type) { multiple = true }

abbrev pub click_option__hc_tags : ClickOption
click_option__hc_tags = plain "--hc-tags" text_type

-- What click makes of an option on a command line with its environment: the text of a value, if
-- there is one, or all texts of an option that may be repeated, or it raises a usage error. Numbers and
-- durations, which are in microseconds, are converted from texts.
pub record Click : Type 1 where
  pub CommandLine : Type 0
  pub text : ClickOption → CommandLine → Result (Option String)
  pub texts : ClickOption → CommandLine → Result (List String)
  pub integer : String → Result ℤ
  pub duration : String → Result ℤ
  pub is_set : ClickOption → CommandLine → Bool

-- The environment variable of an option that may be repeated: one channel name, with its spaces.
abbrev pub split_envvar_value : String → List String
split_envvar_value value = value ∷ []

abbrev pub In : String → List String → Type 0
In x [] = ⊥
In x (y ∷ ys) = (x ≡ y) ⊎ In x ys

-- What the documentation of click says: a value of a choice is one of the choices.
pub record IsClick (click : Click) : Type 0 where
  pub choice-In :
      (o : ClickOption) (choices : List String) (case_sensitive : Bool) (value : String)
      (line : Click.CommandLine click)
      → o.type ≡ choice_type choices case_sensitive
      → Click.text click o line ≡ return (some value)
      → In value choices
