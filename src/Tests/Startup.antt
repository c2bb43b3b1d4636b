-- ===== src/Tests/Startup.antt =====
-- The start of the daemon under two kernels, and what lixyctl prints of an answer.
use lixy.Base.{ℕ, ◌≡◌, refl, ◌⊎◌, Option, none, some, [], ◌∷◌, ◌++◌, codes, length, arith}
use lixy.Control.{err_eid_does_not_exists}
use lixy.Daemon.{write_result}
use lixy.Daemon.Answer.{stream, result_line, prints-write_result}
use lixy.Lixyctl.{prints}
use lixy.Startup.{
  Kernel, Trace, Ran, returned, exited, Sockets, main_start, must, call, ◌>>=◌, create_udp_socket,
  create_lisp_udp_socket, create_lisp_ctl_socket, create_lisp_cmd_socket, create_raw_socket,
  tun_alloc, tun_up, start_lisp_thread, open_sockets, start_threads, any_in6, bind,
}
use lixy.Startup.Ensures.{AllDone, Failed}
use lixy.Startup.Checked.{started_calls, main_start-checked}

-- A kernel that gives every call a number of its own.
abbrev counting : Kernel
counting t = some (length t)

-- One that has given the ports away.
abbrev ports_taken : Kernel
ports_taken [] = none
ports_taken (bind fd (any_in6 port) ∷ t) = none
ports_taken (c ∷ t) = some (length t)

main_start-checked_example :
    ((s : Sockets) × (t : Trace) × (main_start counting [] ≡ returned s t)
      × AllDone counting (started_calls s) t)
    ⊎ ((t : Trace) × (main_start counting [] ≡ exited t) × Failed counting t)
main_start-checked_example = main_start-checked counting

abbrev socket_of : Ran Sockets → Option ℕ
socket_of (returned s t) = some s.cmd_socket
socket_of (exited t) = none

starts : socket_of (main_start counting []) ≡ some 6
unfolding main_start must call ◌>>=◌ create_udp_socket create_lisp_udp_socket create_lisp_ctl_socket
    create_lisp_cmd_socket create_raw_socket tun_alloc tun_up start_lisp_thread open_sockets
    start_threads
starts = refl

exits : socket_of (main_start ports_taken []) ≡ none
unfolding main_start must call ◌>>=◌ create_udp_socket create_lisp_udp_socket create_lisp_ctl_socket
    create_lisp_cmd_socket create_raw_socket tun_alloc tun_up start_lisp_thread open_sockets
    start_threads
exits = refl

prints-write_result_example :
    prints (stream (codes "ab\n" ∷ [] ++ write_result err_eid_does_not_exists))
    ≡ stream (codes "ab\n" ∷ []) ++ result_line err_eid_does_not_exists
prints-write_result_example =
    prints-write_result (codes "ab\n" ∷ []) err_eid_does_not_exists (omega arith, tt)
