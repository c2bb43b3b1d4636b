-- ===== src/Startup/Checked.antt =====
-- Every system call that the daemon cannot do without is checked.
use lixy.Base.{
  subst, append-nil, ℕ, ◌≡◌, refl, ◌⊎◌, zero, suc, Option, none, some, List, [], ◌∷◌, ◌++◌, codes,
  Option-cases, inl, inr,
}
use lixy.Net.{af_inet, af_inet6}
use lixy.Startup.{
  any_in6, all_packets, unix_path, tunsetiff, siocsifflags, Call, socket, bind, setsockopt,
  open_file, ioctl, close, listen, pure, Trace, Kernel, Ran, returned, exited, Program, ◌>>=◌, must,
  call, create_udp_socket, create_lisp_udp_socket, create_lisp_ctl_socket, create_raw_socket,
  create_lisp_cmd_socket, tun_alloc, tun_up, start_lisp_thread, Sockets, open_sockets,
  start_threads, main_start, af_unix, af_packet, sock_stream, sock_dgram, sock_raw,
  lisp_unix_domain, lisp_tunname,
}
use lixy.Startup.Ensures.{
  Done, AllDone, Ensures, Failed, on_success, drop-Ensures, then-Ensures, must-Ensures,
  call-Ensures, call-quiet, pure-Ensures,
}

abbrev exactly : Call → ℕ → Call
exactly c fd = c

-- A socket that is bound to any address and the port.
abbrev pub udp_calls : ℕ → ℕ → List (ℕ → Call)
udp_calls port sock = exactly (bind sock (any_in6 port)) ∷ []

-- The socket for data packets, which have no checksum.
abbrev pub data_calls : ℕ → List (ℕ → Call)
data_calls sock = udp_calls 4341 sock ++ exactly (setsockopt sock 1 11 1) ∷ []

abbrev pub cmd_calls : ℕ → List (ℕ → Call)
cmd_calls sock = exactly (bind sock (unix_path lisp_unix_domain)) ∷ []

-- There may be no socket that watches the packets; one that there is has been bound.
abbrev pub raw_calls : Option ℕ → List (ℕ → Call)
raw_calls none = []
raw_calls (some sock) = exactly (bind sock all_packets) ∷ []

-- The tunnel device has the name.
abbrev pub tun_calls : ℕ → List (ℕ → Call)
tun_calls fd = exactly (ioctl fd tunsetiff lisp_tunname 0x1001) ∷ []

-- Some socket has set the tunnel up.
abbrev pub up_calls : List (ℕ → Call)
up_calls = (λ fd. ioctl fd siocsifflags lisp_tunname 1) ∷ []

-- What a daemon that has started has done: its sockets are bound, the one for commands listens,
-- and the tunnel has its name and is up.
abbrev pub opened_calls : Sockets → List (ℕ → Call)
opened_calls s =
    ((((data_calls s.udp_socket ++ udp_calls 4342 s.ctl_socket) ++ cmd_calls s.cmd_socket)
        ++ raw_calls s.raw_socket)
      ++ tun_calls s.tun_socket)
    ++ up_calls

-- All of that, and the socket for commands listens.
abbrev pub started_calls : Sockets → List (ℕ → Call)
started_calls s = opened_calls s ++ exactly (listen s.cmd_socket 1) ∷ []

module _ (kernel : Kernel) where
  udp-Ensures :
      (port : ℕ) (t : Trace) → Ensures kernel t (create_udp_socket kernel port t) (udp_calls port)
  unfolding create_udp_socket
  udp-Ensures port t =
      then-Ensures kernel [] (λ _. []) (udp_calls port)
        (must kernel (socket af_inet6 sock_dgram 17)) _ t
        (drop-Ensures kernel t _ _ (must-Ensures kernel _ t))
        (λ sock t' h.
          then-Ensures kernel [] (λ _. udp_calls port sock) (udp_calls port)
            (must kernel (bind sock (any_in6 port))) _ t' (must-Ensures kernel _ t')
            (λ n t'' h'. pure-Ensures kernel (udp_calls port) sock t'' h') tt)
        tt

  data-Ensures : (t : Trace) → Ensures kernel t (create_lisp_udp_socket kernel t) data_calls
  unfolding create_lisp_udp_socket
  data-Ensures t =
      then-Ensures kernel [] (udp_calls 4341) data_calls (create_udp_socket kernel 4341) _ t
        (udp-Ensures 4341 t)
        (λ sock t' h.
          then-Ensures kernel (udp_calls 4341 sock) (λ _. exactly (setsockopt sock 1 11 1) ∷ [])
            data_calls (must kernel (setsockopt sock 1 11 1)) _ t' (must-Ensures kernel _ t')
            (λ n t'' h'. pure-Ensures kernel data_calls sock t'' h') h)
        tt

  cmd-Ensures : (t : Trace) → Ensures kernel t (create_lisp_cmd_socket kernel t) cmd_calls
  unfolding create_lisp_cmd_socket
  cmd-Ensures t =
      then-Ensures kernel [] (λ _. []) cmd_calls (must kernel (socket af_unix sock_stream 0)) _ t
        (drop-Ensures kernel t _ _ (must-Ensures kernel _ t))
        (λ sock t' h.
          then-Ensures kernel [] (λ _. cmd_calls sock) cmd_calls
            (must kernel (bind sock (unix_path lisp_unix_domain))) _ t' (must-Ensures kernel _ t')
            (λ n t'' h'. pure-Ensures kernel cmd_calls sock t'' h') tt)
        tt

  bound_raw :
      (sock : ℕ) (r : Option ℕ) (t : Trace)
      → AllDone kernel (on_success kernel (bind sock all_packets) r) t
      → Ensures kernel t
          ((elim r as (λ _. Program (Option ℕ)) [ none ↦ pure none | some _ ↦ pure (some sock) ]) t)
          raw_calls
  bound_raw sock none t h = pure-Ensures kernel raw_calls none t tt
  bound_raw sock (some n) t h = pure-Ensures kernel raw_calls (some sock) t h

  raw-Ensures : (t : Trace) → Ensures kernel t (create_raw_socket kernel t) raw_calls
  unfolding create_raw_socket
  raw-Ensures t =
      then-Ensures kernel [] (λ _. []) raw_calls (call kernel (socket af_packet sock_raw 768)) _ t
        (call-quiet kernel (socket af_packet sock_raw 768) t) opened tt
    where
      opened :
          (r : Option ℕ) (t' : Trace)
          → AllDone kernel [] t'
          → Ensures kernel t'
              ((elim r as (λ _. Program (Option ℕ)) [
                | none ↦ pure none
                | some sock ↦ elim sock [
                  | zero ↦ pure none
                  | suc n ↦ call kernel (bind (suc n) all_packets) >>= λ b. elim b [
                    | none ↦ pure none
                    | some _ ↦ pure (some (suc n))
                  ]
                ]
              ])
                t')
              raw_calls
      opened none t' h = pure-Ensures kernel raw_calls none t' tt
      opened (some zero) t' h = pure-Ensures kernel raw_calls none t' tt
      opened (some (suc n)) t' h =
          then-Ensures kernel [] (on_success kernel (bind (suc n) all_packets)) raw_calls
            (call kernel (bind (suc n) all_packets)) _ t' (call-Ensures kernel _ t')
            (bound_raw (suc n)) tt

  tun-Ensures : (t : Trace) → Ensures kernel t (tun_alloc kernel lisp_tunname t) tun_calls
  unfolding tun_alloc ◌>>=◌ call Done Failed
  tun-Ensures t =
      then-Ensures kernel [] (λ _. []) tun_calls (must kernel (open_file (codes "/dev/net/tun") 2))
        _ t (drop-Ensures kernel t _ _ (must-Ensures kernel _ t))
        (λ fd t' h.
          let named = ioctl fd tunsetiff lisp_tunname 0x1001 in
          elim (Option-cases (kernel (named ∷ t'))) [
            | inl e ↦ rw e (named, t', e, inr (fd, refl))
            | inr (n, e) ↦
                rw e (λ c d. inr d, ((0, inl (refl, λ none_there. cc (e, none_there))), tt))
          ])
        tt

  up-Ensures : (t : Trace) → Ensures kernel t (tun_up kernel lisp_tunname t) (λ _. up_calls)
  unfolding tun_up
  up-Ensures t =
      then-Ensures kernel [] (λ _. []) (λ _. up_calls) (must kernel (socket af_inet sock_dgram 0)) _
        t (drop-Ensures kernel t _ _ (must-Ensures kernel _ t))
        (λ fd t' h.
          then-Ensures kernel [] (λ _. exactly (ioctl fd siocsifflags lisp_tunname 1) ∷ [])
            (λ _. up_calls) (must kernel (ioctl fd siocsifflags lisp_tunname 1)) _ t'
            (must-Ensures kernel _ t')
            (λ n t'' h'.
              then-Ensures kernel up_calls (λ _. []) (λ _. up_calls) (call kernel (close fd)) _ t''
                (call-quiet kernel (close fd) t'')
                (λ r t₃ h₃. pure-Ensures kernel {A = ℕ} (λ _. up_calls) 0 t₃ h₃) ((fd, h'.0.1), tt))
            tt)
        tt

  threads-Ensures : (t : Trace) → Ensures kernel t (start_threads kernel t) (λ _. [])
  unfolding start_threads start_lisp_thread ◌>>=◌ Done
  threads-Ensures t = (λ c d. inr (inr (inr (inr (inr (inr d))))), tt)

  open-Ensures : (t : Trace) → Ensures kernel t (open_sockets kernel t) opened_calls
  unfolding open_sockets create_lisp_ctl_socket
  open-Ensures t =
      then-Ensures kernel [] data_calls opened_calls (create_lisp_udp_socket kernel) _ t
        (data-Ensures t)
        (λ udp t₁ h₁.
          then-Ensures kernel (data_calls udp) (udp_calls 4342) opened_calls
            (create_udp_socket kernel 4342) _ t₁ (udp-Ensures 4342 t₁)
            (λ ctl t₂ h₂.
              then-Ensures kernel (data_calls udp ++ udp_calls 4342 ctl) cmd_calls opened_calls
                (create_lisp_cmd_socket kernel) _ t₂ (cmd-Ensures t₂)
                (λ cmd t₃ h₃.
                  then-Ensures kernel ((data_calls udp ++ udp_calls 4342 ctl) ++ cmd_calls cmd)
                    raw_calls opened_calls (create_raw_socket kernel) _ t₃ (raw-Ensures t₃)
                    (λ raw t₄ h₄.
                      then-Ensures kernel
                        (((data_calls udp ++ udp_calls 4342 ctl) ++ cmd_calls cmd) ++ raw_calls raw)
                        tun_calls opened_calls (tun_alloc kernel lisp_tunname) _ t₄ (tun-Ensures t₄)
                        (λ tun t₅ h₅.
                          then-Ensures kernel
                            ((((data_calls udp ++ udp_calls 4342 ctl) ++ cmd_calls cmd)
                                ++ raw_calls raw)
                              ++ tun_calls tun)
                            (λ _. up_calls) opened_calls (tun_up kernel lisp_tunname) _ t₅
                            (up-Ensures t₅) (λ z t₆ h₆. pure-Ensures kernel opened_calls _ t₆ h₆)
                            h₅)
                        h₄)
                    h₃)
                h₂)
            h₁)
        tt

  main-Ensures : (t : Trace) → Ensures kernel t (main_start kernel t) started_calls
  unfolding main_start
  main-Ensures t =
      then-Ensures kernel [] opened_calls started_calls (open_sockets kernel) _ t (open-Ensures t)
        (λ s t₁ h₁.
          then-Ensures kernel (opened_calls s) (λ _. []) started_calls (start_threads kernel) _ t₁
            (threads-Ensures t₁)
            (λ z t₂ h₂.
              then-Ensures kernel (opened_calls s) (λ _. exactly (listen s.cmd_socket 1) ∷ [])
                started_calls (must kernel (listen s.cmd_socket 1)) _ t₂ (must-Ensures kernel _ t₂)
                (λ n t₃ h₃. pure-Ensures kernel started_calls s t₃ h₃)
                (subst (λ cs. AllDone kernel cs t₂) (append-nil (opened_calls s)) h₂))
            h₁)
        tt

  Outcome-cases :
      (r : Ran Sockets)
      → Ensures kernel [] r started_calls
      → ((s : Sockets) × (t : Trace) × (r ≡ returned s t) × AllDone kernel (started_calls s) t)
        ⊎ ((t : Trace) × (r ≡ exited t) × Failed kernel t)
  Outcome-cases (returned s t) h = inl (s, t, refl, h.1)
  Outcome-cases (exited t) h = inr (t, refl, h)

  -- Whatever the kernel answers, the start of the daemon comes to one of two ends. Either it gets to
  -- its loop: then the data and control sockets are bound to their ports, data packets have no
  -- checksum, the socket for commands is bound and listens, that for raw packets is bound if there
  -- is one, and the tunnel has its name and is up. Or it exits, and a system call that it has made
  -- last, or last but for closing a descriptor, has failed.
  pub main_start-checked :
      ((s : Sockets) × (t : Trace) × (main_start kernel [] ≡ returned s t)
        × AllDone kernel (started_calls s) t)
      ⊎ ((t : Trace) × (main_start kernel [] ≡ exited t) × Failed kernel t)
  main_start-checked = Outcome-cases (main_start kernel []) (main-Ensures [])
