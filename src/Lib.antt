-- ===== src/Lib.antt =====
-- Finit, a small init: a model of its core in C and what is proved of it.
--
-- Service (src/service.c, src/svc.h): the state machine of one service, run/task or terminal.
--   Service/Types.antt has the record of a service (`Svc`, the fields of `svc_t` that the machine
--   uses), the answers of the rest of the system during one call (`Env`: the run level tests, the
--   aggregated condition, the outcome of fork() and kill(), whether a reload is going on), and the
--   effects that a call has (`Effect`), which a `World` lists in order. Service/Action.antt has what
--   the steps are made of (timers, `svc_set_state`, scripts, `service_cleanup`, `service_start` in
--   the parent), Service/Stop.antt `service_stop`, Service/Monitor.antt `service_monitor` and
--   `service_reload_apply`, Service/Step.antt `service_step`, and Service/Control.antt what drives
--   it: `service_retry` (`retry`), `service_kill` (`kill_now`), the user's requests, and the sweeps'
--   bodies. `service_step` repeats its switch while the state changes; the model gives it fuel,
--   which also bounds the calls through `service_monitor` back into it. The theorems on it hold for
--   every fuel, and so for every number of passes. Setting or clearing a condition steps the services that depend on it; in the model
--   that is an effect, and the environment's answers are fixed for one call. The bit tests of the
--   runlevels (ISSET, ISOTHER) and the wait status (WIFEXITED, WEXITSTATUS) come from libraries and
--   are answers too. `char` is taken to be signed. Logging and progress output are left out.
--
-- Machine (src/sm.c): the runlevel machine. Machine/Step.antt has the variable `sm` with the globals
--   it goes with (`Machine`), the answers of the rest of the system in one pass (`Answers`: are all
--   stopped services collected, all scripts), and `sm_step`, whose passes are given fuel;
--   twelve units are enough, which is proved. Machine/Requests.antt has `sm_init`, `sm_runlevel`,
--   `sm_reload`, `sm_request_runlevel`, and the poll `sm_check_bootstrap`. The sweeps
--   over the services are effects here; one service's part in them is Service's `service_step`.
--   `shutdown_bypass` and the watcher's descriptor on the console are left out.
--
-- Cond (src/cond.c, src/cond-w.c): conditions. Cond/Files.antt is the part of the file system that they
--   stand in, Cond/Engine.antt reads and writes them by their generations, Cond/Update.antt steps the
--   services that depend on a changed one with Service's `service_step`, whose environment it gives
--   the aggregated condition. Cond/Refinement.antt has the abstract state that the files implement.
--   The names of a service's conditions are a list, as strtok() gives them; `cond_path` and the
--   answers of the system calls are parameters. A step's own changes of conditions are effects, so
--   that all services of one update see the files as they were at its start.
--
-- Conf (src/conf.c): what configuration says. Conf/Runlevels.antt has `conf_parse_runlevels` with its
--   counterpart `runlevel_string` of src/initctl.c, Conf/Template.antt `conf_instantiate`, whose loop has one
--   unit of fuel more than the text has bytes, Conf/Escape.antt `conf_escape`, Conf/Env.antt the
--   environment that .conf files set and a reload takes back, Conf/Changes.antt the list of changed
--   files, and Conf/Cmdline.antt the arguments that init gets. The bit operations and string functions of
--   libite and realpath() are parameters; memory does not run out. The blocks, which libconfuse
--   parses, and the choice among files of one name are left out.
--
-- Keventd (keventd/rules.c, keventd/rules.h): udev rules. Keventd/Keys.antt has the keys and patterns,
--   Keventd/Match.antt `match_key` and `rule_matches` (keys of one device and of its parents), and
--   Keventd/Apply.antt `rules_apply` with its jumps. What sysfs, other files and programs answer is a
--   parameter (`System`), and so are fnmatch() and what `exec_rule` does to an event. The parser of rule
--   files and the substitution of values are left out.
--
-- Ink (libink): the D-Bus library. The bodies of messages are in libink/marshal.c and libink/link.h. Ink/Writer.antt has `link_writer`
--   and the functions `__w_*`, Ink/Reader.antt `link_reader` and the functions `__r_*`, Ink/Values.antt
--   `__marshal_va` (`marshal_va`) for the codes y, b, u, t and s, with the reading of values by
--   their codes; Ink/Ops.antt lists the writer's operations,
--   Ink/Within.antt the reader's. A buffer is the list of the bytes
--   written, a C string the list of its bytes before the NUL; positions are exact numbers, since no
--   sum of a position within a buffer and a string's length in memory passes 2^64. `ALIGN_UP` is
--   a division for the powers of two. `__r_skip_basic` and `__r_align` are left out.
--
--   Ink/Path.antt (libink/path.c) has the encoding of identifiers in object paths, Ink/Match.antt
--   (libink/match.c) the match rules of a peer, their parsing and their table, Ink/Auth.antt
--   (libink/auth.c) the server's side of the handshake, from the bytes that were read on, and the line
--   that the client composes. Texts are lists of bytes; the fuel of the rules' parser and of the lines
--   is the length of what is left, since each round takes some of it. strtoul() is a parameter, and so
--   is the outcome of a write.
--
--   Ink/Proto.antt (libink/proto.c) parses the headers of messages, `__msg_parse`, and Ink/Proto/Build.antt
--   builds them; Ink/Proto/Headers.antt lists the four kinds of messages. A pointer into a buffer is
--   given as the string that stands there; the walk over the fields has one unit of fuel more than there
--   are bytes of fields, which is proved to be enough.
--
--   Ink/Dispatch.antt (libink/dispatch.c, libink/internal.h) has objects, methods and the state of a
--   connection; Ink/Dispatch/Send.antt replies and errors, Ink/Dispatch/Signal.antt
--   `link_connection_emit_signal`, Ink/Dispatch/Park.antt the calls that wait for
--   their caller to be identified, Ink/Dispatch/Call.antt `dispatch_call` from the method on with the
--   `link_call_*` functions, Ink/Dispatch/Message.antt the built-in methods' routing
--   (libink/builtin.c), `dispatch_call`, `resume_parked` and `__dispatch_message`,
--   Ink/Dispatch/Outbound.antt the calls that libink makes itself and the sweep (libink/connection.c), and
--   Ink/Dispatch/Events.antt `process_binary`, the rounds of `link_connection_process`, and a
--   connection's life as a list of events. A method's handler is a script of what it asks of libink,
--   the resolver and the authorizer are functions, and a callback is noted when it is run: none
--   of them calls back into libink in another way. What the built-in methods answer and whether a message
--   can be written are parameters (`Host`). The model keeps lists of the handlers and callbacks that
--   have been run, of what has been written, and a count of the calls that have been parked. A resolver
--   answers as link.h says. The reading of a buffer has as much fuel as there are bytes, which is proved to
--   be enough. Memory does not run out.
--
-- Registry (src/svc.c): the list of services. An entry (Registry/Entries.antt) is a service of the
--   first part with its names, its job number and its place in memory. Registry/Find.antt looks
--   services up and has `svc_conflicts`, `svc_ifthen`, `svc_stop_completed` and
--   `svc_clean_completed`; Registry/Reload.antt the marks of a reload, without `service_register` and
--   `service_mark_unavail`, and Registry/Jobs.antt has `svc_parse_jobstr`, whose callbacks are
--   functions on a state and whose loop has fuel: one unit more than there are tokens is enough where
--   it ends. Its buffer is all the bytes that the caller gives the length of, with a NUL behind them.
--   strtol() and regexec() are parameters. The callbacks do not add or delete services. Copies of
--   names are taken to fit their buffers.
--
-- Not modelled: the configuration's blocks, libink's sockets and the bodies of its built-in methods,
-- the D-Bus and legacy interfaces, the plugins, initctl, the rest of keventd, logging, terminals and the
-- setup of the child process.
pub mod Prelude
pub mod Service
pub mod Machine
pub mod Registry
pub mod Conf
pub mod Keventd
pub mod Cond
pub mod Ink
