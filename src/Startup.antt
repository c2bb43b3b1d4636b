-- ===== src/Startup.antt =====
-- main.c and iftun.c: the system calls that open the sockets and the tunnel and start the threads,
-- and those of lixyctl.c. The kernel's answers are a parameter: a descriptor or 0, or `none` for -1.
pub mod Ensures
pub mod Checked
use lixy.Base.{ℕ, zero, suc, ◌==◌, if◌then◌else◌, Option, none, some, List, ◌∷◌, take, codes}
use lixy.Net.{af_inet, af_inet6}

abbrev pub af_unix : ℕ
af_unix = 1

abbrev pub af_packet : ℕ
af_packet = 17

abbrev pub sock_stream : ℕ
sock_stream = 1

abbrev pub sock_dgram : ℕ
sock_dgram = 2

abbrev pub sock_raw : ℕ
sock_raw = 3

-- The address that a socket is bound to or connected with: any address of IPv6 and a port, all
-- packets that are for the host, and a path.
pub data Address : Type 0 where
  any_in6 : ℕ → Address
  all_packets : Address
  unix_path : List ℕ → Address

pub data IoctlRequest : Type 0 where
  tunsetiff siocsifflags : IoctlRequest

pub data Thread : Type 0 where
  lisp_map_register_thread lisp_map_message_thread lisp_maptable_thread : Thread
  lisp_dp_thread lisp_dp_tun_thread lisp_raw_packet_thread : Thread

pub data Call : Type 0 where
  socket : ℕ → ℕ → ℕ → Call
  bind connect : ℕ → Address → Call
  setsockopt : ℕ → ℕ → ℕ → ℕ → Call
  open_file : List ℕ → ℕ → Call
  ioctl : ℕ → IoctlRequest → List ℕ → ℕ → Call
  close : ℕ → Call
  listen : ℕ → ℕ → Call
  pthread_create : Thread → Call

-- The calls so far, the last one first.
abbrev pub Trace : Type 0
Trace = List Call

-- What the kernel answers to the last of the calls.
abbrev pub Kernel : Type 0
Kernel = Trace → Option ℕ

-- A part of the program returns, or exits with a failure.
pub data Ran (A : Type 0) : Type 0 where
  returned : A → Trace → Ran A
  exited : Trace → Ran A

abbrev pub Program : Type 0 → Type 0
Program A = Trace → Ran A

abbrev pub pure : {A : Type 0} → A → Program A
pure a t = returned a t

infixl 5 ◌>>=◌ ◌>>◌
unfoldable pub ◌>>=◌ : {A B : Type 0} → Program A → (A → Program B) → Program B
◌>>=◌ m f t = elim (m t) [ returned a t' ↦ f a t' | exited t' ↦ exited t' ]

abbrev pub ◌>>◌ : {A B : Type 0} → Program A → Program B → Program B
m >> n = m >>= λ _. n

-- `err (EXIT_FAILURE, ...)` and `error_quit (...)`
abbrev pub err : {A : Type 0} → Program A
err t = exited t

-- UNIX_PATH_MAX of common.h, and that of linux/un.h, which lixyctl.c includes first.
abbrev pub unix_path_max : ℕ
unix_path_max = 104

abbrev pub linux_path_max : ℕ
linux_path_max = 108

abbrev pub ifnamsiz : ℕ
ifnamsiz = 16

abbrev pub lisp_unix_domain : List ℕ
lisp_unix_domain = codes "/var/run/lixy"

abbrev pub lisp_tunname : List ℕ
lisp_tunname = codes "lisp0"

-- The descriptors of `struct lisp`, where `none` is -1.
pub record Sockets : Type 0 where
  pub udp_socket : ℕ
  pub ctl_socket : ℕ
  pub cmd_socket : ℕ
  pub raw_socket : Option ℕ
  pub tun_socket : ℕ

module _ (kernel : Kernel) where
  unfoldable pub call : Call → Program (Option ℕ)
  call c t = returned (kernel (c ∷ t)) (c ∷ t)

  -- A call after whose failure the program exits.
  unfoldable pub must : Call → Program ℕ
  must c t = elim (kernel (c ∷ t)) [ none ↦ exited (c ∷ t) | some n ↦ returned n (c ∷ t) ]

  unfoldable pub create_udp_socket : ℕ → Program ℕ
  unfolding must
  create_udp_socket port = do
    sock ← must (socket af_inet6 sock_dgram 17)
    must (bind sock (any_in6 port))
    pure sock

  unfoldable pub create_lisp_udp_socket : Program ℕ
  unfolding must
  create_lisp_udp_socket = do
    sock ← create_udp_socket 4341
    must (setsockopt sock 1 11 1)
    pure sock

  unfoldable pub create_lisp_ctl_socket : Program ℕ
  create_lisp_ctl_socket = create_udp_socket 4342

  -- It is not called. Only IPv4 sockets are told that the header comes with the packet.
  unfoldable pub create_lisp_raw_socket : ℕ → Program ℕ
  unfolding must
  create_lisp_raw_socket af = do
    sock ← must (socket af sock_raw 255)
    if af == af_inet then (must (setsockopt sock 0 3 1) >> pure sock) else pure sock

  -- `none` is -1. The test is `socket (...) < 1`.
  unfoldable pub create_raw_socket : Program (Option ℕ)
  unfolding call
  create_raw_socket = do
    r ← call (socket af_packet sock_raw 768)
    elim r [
      | none ↦ pure none
      | some sock ↦ elim sock [
        | zero ↦ pure none
        | suc n ↦ do
          b ← call (bind (suc n) all_packets)
          elim b [ none ↦ pure none | some _ ↦ pure (some (suc n)) ]
      ]
    ]

  unfoldable pub create_lisp_cmd_socket : Program ℕ
  unfolding must
  create_lisp_cmd_socket = do
    sock ← must (socket af_unix sock_stream 0)
    must (bind sock (unix_path (take unix_path_max lisp_unix_domain)))
    pure sock

  -- IFF_TUN | IFF_NO_PI
  unfoldable pub tun_alloc : List ℕ → Program ℕ
  unfolding must call
  tun_alloc dev = do
    fd ← must (open_file (codes "/dev/net/tun") 2)
    r ← call (ioctl fd tunsetiff (take ifnamsiz dev) 0x1001)
    elim r [ none ↦ (call (close fd) >> err) | some _ ↦ pure fd ]

  -- IFF_UP. What follows the `err` of a failure is not reached.
  unfoldable pub tun_up : List ℕ → Program ℕ
  unfolding must call
  tun_up dev = do
    udp_fd ← must (socket af_inet sock_dgram 0)
    must (ioctl udp_fd siocsifflags (take ifnamsiz dev) 1)
    call (close udp_fd)
    pure 0

  -- A detached thread; the result is ignored.
  unfoldable pub start_lisp_thread : Thread → Program (Option ℕ)
  unfolding call
  start_lisp_thread thread = call (pthread_create thread)

  -- `main` up to the threads.
  unfoldable pub open_sockets : Program Sockets
  open_sockets = do
    udp ← create_lisp_udp_socket
    ctl ← create_lisp_ctl_socket
    cmd ← create_lisp_cmd_socket
    raw ← create_raw_socket
    tun ← tun_alloc lisp_tunname
    tun_up lisp_tunname
    pure (record {
      udp_socket = udp;
      ctl_socket = ctl;
      cmd_socket = cmd;
      raw_socket = raw;
      tun_socket = tun;
    })

  unfoldable pub start_threads : Program (Option ℕ)
  start_threads = do
    start_lisp_thread lisp_map_register_thread
    start_lisp_thread lisp_map_message_thread
    start_lisp_thread lisp_maptable_thread
    start_lisp_thread lisp_dp_thread
    start_lisp_thread lisp_dp_tun_thread
    start_lisp_thread lisp_raw_packet_thread

  -- `main` up to the loop of `lisp_op_thread`.
  unfoldable pub main_start : Program Sockets
  unfolding must
  main_start = do
    sockets ← open_sockets
    start_threads
    must (listen sockets.cmd_socket 1)
    pure sockets

  -- lixyctl.c
  unfoldable pub create_unix_client_socket : List ℕ → Program ℕ
  unfolding must
  create_unix_client_socket domain = do
    sock ← must (socket af_unix sock_stream 0)
    must (connect sock (unix_path (take linux_path_max domain)))
    pure sock
