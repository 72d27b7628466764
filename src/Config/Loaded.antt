-- ===== src/Config/Loaded.antt =====
-- What `Load` of internal/config/config.go returns: settings that pass its checks, positive durations.
use domains_checker_infomati.Base.{ℕ, String, List, Option, ◌≡◌, subst}
use domains_checker_infomati.Base.Int.{ℤ}
use domains_checker_infomati.Base.Outcome.{ok, bind_result, ok-Ensures}
use domains_checker_infomati.Config.Settings.{Config}
use domains_checker_infomati.Config.Sources.{load_limits, load_flags}
use domains_checker_infomati.Config.Timers.{load_server, load_monitor, load_probe, load_lookup}
use domains_checker_infomati.Config.Checks.{Link, check, load}
use domains_checker_infomati.Config.Valid.{IsUsable, check_iff}
use domains_checker_infomati.Config.Durations.{
  ServerTimesPositive, MonitorTimesPositive, ProbeTimesPositive, LookupTimesPositive,
  load_server-Positive, load_monitor-Positive, load_probe-Positive, load_lookup-Positive,
}

module _ (parse_url : String → Option Link) (decode_base64 : String → Option (List ℕ)) where
  -- The settings of a program that starts.
  pub record IsLoaded (c : Config) : Type 0 where
    pub usable : IsUsable parse_url decode_base64 c
    pub server : ServerTimesPositive c.server
    pub monitor : MonitorTimesPositive c.monitor
    pub probe : ProbeTimesPositive c.probe
    pub lookup : LookupTimesPositive c.lookup

  module _ (getenv : String → String) (parse_go_duration : String → Option ℤ) where
    -- Whatever the environment says, settings that `Load` returns without an error meet every bound of
    -- the checks, and each of their durations is positive.
    pub load-IsLoaded :
        {c : Config} → load parse_url decode_base64 getenv parse_go_duration ≡ ok c → IsLoaded c
    unfolding load
    load-IsLoaded h =
        let (limits, got_limits, h1) = bind_result (load_limits getenv parse_go_duration) _ h in
        let (flags, got_flags, h2) = bind_result (load_flags getenv parse_go_duration) _ h1 in
        let (server, got_server, h3) = bind_result (load_server getenv parse_go_duration) _ h2 in
        let (monitor, got_monitor, h4) = bind_result (load_monitor getenv parse_go_duration) _ h3 in
        let (probe, got_probe, h5) = bind_result (load_probe getenv parse_go_duration) _ h4 in
        let (lookup, got_lookup, h6) = bind_result (load_lookup getenv parse_go_duration) _ h5 in
        let (_, passed, returned) = bind_result (check parse_url decode_base64 _) _ h6 in
        subst IsLoaded (cc) (record {
          usable = (check_iff parse_url decode_base64 _).0 passed;
          server =
              ok-Ensures ServerTimesPositive _ (load_server-Positive getenv parse_go_duration)
                got_server;
          monitor =
              ok-Ensures MonitorTimesPositive _ (load_monitor-Positive getenv parse_go_duration)
                got_monitor;
          probe =
              ok-Ensures ProbeTimesPositive _ (load_probe-Positive getenv parse_go_duration)
                got_probe;
          lookup =
              ok-Ensures LookupTimesPositive _ (load_lookup-Positive getenv parse_go_duration)
                got_lookup;
        })
