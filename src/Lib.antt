-- ===== src/Lib.antt =====
-- lixy: a LISP (Locator/ID Separation Protocol) tunnel router. A daemon keeps EIDs (names with an
-- authentication key and prefixes of the local site), locators (its addresses), map servers, and a
-- map table, which says where the packets for a prefix are sent. A control thread takes commands of
-- `lixyctl` and changes the lists; a message thread takes map replies and changes the map table;
-- a timer thread registers the EIDs at the map servers, another lets the entries of the map table
-- age; and three threads carry packets: into the tunnel between two sites, out of it, and one that
-- watches for destinations that nothing is known of.
--
-- The files and the code that they are about:
-- - Platform: code that lixy does not implement, as parameters with documented behaviour: the list
--   macros of utlist.h, getaddrinfo and the parser of prefixes, the prefix tree of patricia/.
-- - LinkedList: list/list.c. A list holds addresses of objects in a pool; LinkedList/Owned gives the
--   plain list of values, on which the specifications of the commands are stated.
-- - Net: addresses and prefixes (sockaddrmacro.h, prefix_t, and prefix_cmp and compare_prefix).
-- - State and Instance: the lists of `struct lisp` (common.h), and the operations of instance.c.
-- - Control: the commands of control.c. Control/Locators, Control/MapServers and Control/Eids have
--   one function for each C function and branch; their children hold the specification and proofs.
--   Control/Routes has the commands on the map table, and Control/Dispatch the way of a command line
--   from lixyctl.c to its function; Control/Show has the show commands, with their
--   specification in Control/Show/Spec, and Control/Frame what a command leaves alone.
-- - Maptable: maptable.c. Maptable/Fib is the abstract view, a function from prefixes to entries
--   with longest prefix match; Maptable/Fib/Laws and Maptable/Routes relate the two.
-- - Aging: lisp_maptable_thread of maptable.c. Aging/Walk follows the walk of the tree on the
--   abstract view, Aging/Expiry says what a round makes of each entry, Aging/Rounds what many
--   do, and Aging/Sends and Aging/Outputs what a round sends.
-- - Wire: the packed structs of lisp.h and their bytes.
-- - Map: map.c. Map/Headers, Map/Build and Map/Request write messages, Map/Sizes bounds them,
--   Map/Message chooses the handler, Map/Receive handles replies, and Map/Respond handles requests
--   and sends. Map/Receive/Spec reads a reply apart from what it does to the table, and Map/Fields
--   relates the bytes that are written in place to the structs of lisp.h.
-- - Netlink: op_route_to_dev and is_route_scope_link of instance.c, with the bytes of the messages.
-- - DataPlane: sendraw and the threads lisp_dp_thread, lisp_dp_tun_thread and
--   lisp_raw_packet_thread of instance.c, one round each.
-- - Daemon: `struct lisp` (common.h), the state that main.c makes, and a round of each other thread;
--   Daemon/Steps is the transition system that they form, Daemon/Invariant what holds in every
--   state that it reaches, and Daemon/Session and Daemon/Answer a command line from the client to
--   its command, and the answer back. Daemon/Abstract is the daemon on plain lists and a function
--   from prefixes to entries, driven by events: a command with its arguments, a message with its
--   bytes, a frame with the destination that is watched, a round of the aging thread. The order in
--   which the tree is walked, and what the stack holds, come with the event. Its children relate it
--   to the transition system.
-- - Lixyctl: main of lixyctl.c.
-- - Startup: the system calls of main.c, iftun.c and lixyctl.c, with the kernel's answers as a
--   parameter; Startup/Ensures is the reasoning on them, Startup/Checked what a start has done.
-- - Tests: simple instances of the parameters, and the theorems applied to concrete data.
--
-- Numbers of a fixed width keep their wrap-around (`% 256`, `% 2 ^ 32`). A read past the end of the
-- receive buffer, a NULL dereference, a write behind an array (an address text in `addrbuf`, a key
-- of 128 characters in `authkey`) and a prefix that the prefix tree does not take (of more than 128
-- bits, or of an unknown family) are the result `none`; bytes that the code does not initialise are
-- arguments. All loops are structural recursion: on the list that is walked, or on the 8-bit count
-- of records or locators that the message announces.
-- Addresses of freed objects are not given out again.
--
-- The number of rounds of the aging thread is an argument.
--
-- Not modelled: what the kernel does with the sockets and the tunnel device, logging, the usage
-- text, and the prefix tree, which is a copy of the MRT library. The threads share the state
-- without locks; a round of one is taken as a single step, so what two of them do to the state at the
-- same time is not modelled. The walk of the tree in a round of the aging thread is that of the tree
-- before the round: the code reads the children of a node that the round has freed.
pub mod Base
pub mod Platform
pub mod LinkedList
pub mod Net
pub mod Wire
pub mod State
pub mod Maptable
pub mod Map
pub mod Instance
pub mod Control
pub mod Netlink
pub mod DataPlane
pub mod Aging
pub mod Lixyctl
pub mod Startup
pub mod Daemon
pub mod Tests
