-- ===== src/Netcheck/Classify.antt =====
-- What the classification of transport failures guarantees (internal/netcheck/errors.go).
use domains_checker_infomati.Base.{String, false, not, ◌&&◌, ◌||◌, ◌≡◌, arith}
use domains_checker_infomati.Netcheck.{
  Code, Failure, ContextState, is_canceled, is_expired, classify_tcp,
}

-- The codes that a transport failure can have.
pub data TransportCode : Code → Type 0 where
  timeout : TransportCode Code.tcp_timeout
  refused : TransportCode Code.tcp_refused
  reset : TransportCode Code.tcp_reset
  network : TransportCode Code.tcp_network_error
  cancelled : TransportCode Code.run_cancelled
  expired : TransportCode Code.run_deadline_exceeded

ruleset transport_codes = (timeout, refused, reset, network, cancelled, expired)

classify_tcp-TransportCode :
    (ctx : ContextState) (operation : String) (f : Failure)
    → TransportCode (classify_tcp ctx operation f).code
unfolding classify_tcp
classify_tcp-TransportCode ctx operation f = grind (arith, transport_codes)

classify_tcp-stopped :
    (ctx : ContextState) (operation : String) (f : Failure)
    → ((f.canceled || is_canceled ctx || (is_expired ctx && not f.deadline_exceeded))
        && (classify_tcp ctx operation f).retryable)
      ≡ false
unfolding classify_tcp
classify_tcp-stopped ctx operation f = ground arith

-- Every transport failure is classified as a timeout, a refusal, a reset or another network error of
-- TCP, or as the end of the run; and it is never retried where the failure or the run is cancelled,
-- or the run has expired without the failure being a timeout of its own.
pub classify_tcp_lem :
    (ctx : ContextState) (operation : String) (f : Failure)
    → TransportCode (classify_tcp ctx operation f).code
      × (((f.canceled || is_canceled ctx || (is_expired ctx && not f.deadline_exceeded))
            && (classify_tcp ctx operation f).retryable)
          ≡ false)
classify_tcp_lem ctx operation f =
    (classify_tcp-TransportCode ctx operation f, classify_tcp-stopped ctx operation f)
