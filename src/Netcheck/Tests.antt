-- ===== src/Netcheck/Tests.antt =====
-- Transport failures by example.
use domains_checker_infomati.Base.{true, false, ◌≡◌, refl, none}
use domains_checker_infomati.Netcheck.{Code, Failure, ContextState, error_text, classify_tcp}

abbrev reset : Failure
reset = record {
  check = none;
  canceled = false;
  deadline_exceeded = false;
  refused = false;
  reset = true;
  broken_pipe = false;
  net_timeout = false;
  op_temporary = none;
  syscall = true;
  text = "connection reset by peer";
}

reset_code : (classify_tcp ContextState.live "dial" reset).code ≡ Code.tcp_reset
unfolding classify_tcp
reset_code = refl

reset_text :
    error_text (classify_tcp ContextState.live "dial" reset)
    ≡ "TCP_RESET during dial: connection reset by peer"
unfolding classify_tcp error_text
reset_text = refl
