-- ===== src/Config/Tests.antt =====
-- Loading from small environments (internal/config/config.go).
use domains_checker_infomati.Base.{
  ℕ, String, List, Option, none, some, Bool, true, false, ◌≡◌, refl, if◌then◌else◌, str_eq, ◌↔◌,
}
use domains_checker_infomati.Base.Int.{ℤ}
use domains_checker_infomati.Base.Text.{trim_space, lower, upper, byte_length}
use domains_checker_infomati.Base.Digits.{atoi}
use domains_checker_infomati.Base.Outcome.{Outcome, ok, failed}
use domains_checker_infomati.Config.Settings.{Config, Limits}
use domains_checker_infomati.Config.Env.{env, parse_int, parse_bool, parse_duration, int32}
use domains_checker_infomati.Config.Sources.{load_texts, load_limits, load_flags}
use domains_checker_infomati.Config.Timers.{load_server, load_monitor, load_probe, load_lookup}
use domains_checker_infomati.Config.Checks.{
  Link, load, check, check_service, check_http, check_monitor, check_probe, check_sources,
  check_oauth, check_stale, not_https, not_public,
}
use domains_checker_infomati.Config.Valid.{IsUsable, check_iff}
use domains_checker_infomati.Config.Loaded.{IsLoaded, load-IsLoaded}

abbrev some_link : String → Option Link
some_link raw = some (record { scheme = "https"; hostname = "host"; has_user = false })

abbrev no_bytes : String → Option (List ℕ)
no_bytes raw = none

abbrev no_duration : String → Option ℤ
no_duration raw = none

-- Nothing is set.
abbrev nothing : String → String
nothing key = ""

-- Only one setting.
abbrev only : String → String → String → String
only name value key = if str_eq key name then value else ""

abbrev is_ok : {A : Type 0} → Outcome A → Bool
is_ok (ok a) = true
is_ok (failed e) = false

abbrev from_ok : {A : Type 0} (m : Outcome A) → is_ok m ≡ true → A
from_ok (ok a) h = a
from_ok (failed e) h = absurd (cc)

from_ok_lem : {A : Type 0} (m : Outcome A) (h : is_ok m ≡ true) → m ≡ ok (from_ok m h)
from_ok_lem (ok a) h = refl
from_ok_lem (failed e) h = absurd (cc)

abbrev start : Outcome Config
start = load some_link no_bytes nothing no_duration

starts : is_ok start ≡ true
unfolding load load_texts env load_limits load_flags load_server load_monitor load_probe load_lookup
    parse_int parse_bool parse_duration int32 trim_space atoi check check_service check_http
    check_monitor check_probe check_sources check_oauth check_stale not_https not_public lower upper
    byte_length
starts = refl

load-IsLoaded_example : IsLoaded some_link no_bytes (from_ok start starts)
load-IsLoaded_example =
    load-IsLoaded some_link no_bytes nothing no_duration (from_ok_lem start starts)

check_iff_example :
    (check some_link no_bytes (from_ok start starts) ≡ ok tt)
    ↔ IsUsable some_link no_bytes (from_ok start starts)
check_iff_example = check_iff some_link no_bytes (from_ok start starts)

-- A flag, a number and a text that cannot be used, each with its error.
refused_locale :
    load some_link no_bytes (only "DEFAULT_LOCALE" " FR ") no_duration
    ≡ failed "DEFAULT_LOCALE must be th or en"
unfolding load load_texts env load_limits load_flags load_server load_monitor load_probe load_lookup
    parse_int parse_bool parse_duration int32 trim_space atoi check check_service check_http
    check_monitor check_probe check_sources check_oauth check_stale not_https not_public lower upper
    byte_length
refused_locale = refl

refused_number :
    load some_link no_bytes (only "MONITOR_WORKERS" "1_000") no_duration
    ≡ failed "MONITOR_WORKERS must be an integer"
unfolding load load_texts env load_limits load_flags load_server load_monitor load_probe load_lookup
    parse_int parse_bool parse_duration int32 trim_space atoi check check_service check_http
    check_monitor check_probe check_sources check_oauth check_stale not_https not_public lower upper
    byte_length
refused_number = refl

-- A pool of 2 ^ 32 + 20 connections.
abbrev large : String → String
large = only "DB_MAX_CONNECTIONS" "4294967316"

abbrev limits : Outcome Limits
limits = load_limits large no_duration
