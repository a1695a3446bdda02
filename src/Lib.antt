-- ===== src/Lib.antt =====
-- Verification of PPSi, a daemon for the Precision Time Protocol (IEEE 1588) and its White Rabbit
-- extension.
--
-- The program runs one state machine for each port (fsm.c). A step of it checks the frame that
-- arrived, runs the action of the port's state, applies the best master clock algorithm when that
-- was triggered (proto-standard/bmc.c), and runs the state machine of a protocol extension. All of
-- them share timeout counters (timeout.c), the data sets of the standard
-- (include/ppsi/ieee1588_types.h) and the message formats (proto-standard/msg.c, msgtype.c).
--
-- State is passed explicitly. `Globals` is struct pp_globals with its instances, the shared data
-- sets, the seed of the random generator of timeout.c, the time of day in milliseconds, and the
-- list of calls that leave the program. A function of the source that takes a `struct pp_instance
-- *` takes the globals and the index of the instance here, and returns the new globals. A `-1` for
-- "no index" is `none`. Integers are natural numbers or `ℤ`, with the wrap-around of their C types
-- written out where the source depends on it. Functions keep the names of the source.
--
-- The files:
-- - Prelude: tests, arrays as functions from the index, integers and words.
-- - Ds: the enumerations, identities, data sets, the instance and the globals
--   (include/ppsi/ieee1588_types.h, include/ppsi/pp-instance.h).
-- - Timeout: timeout.c with include/ppsi/timeout_prot.h and include/ppsi/jiffies.h. Defs and Reset hold
--   the functions, Clock the comparison of wrapping times, Expiry, Bounds, Owner, Frame and Ports the
--   proofs.
-- - Bmc: proto-standard/bmc.c. Compare, Table, Add, Select, DataSets, Slave, Decision and Apply hold the
--   functions; Order is about the comparison, Remove, Invariant, Arrival, Known and Qualify about the
--   table of foreign masters, Safety and Choice about the state decision.
-- - Msg: proto-standard/msg.c and msgtype.c. Header, Announce and Timestamp hold the parts of a message,
--   Events the messages of the delay measurement, Signaling the signaling messages and Issue the sending
--   (proto-standard/common-fun.c); RoundTrip, Exact, Answer and Pair are about reading them back.
-- - Fsm: fsm.c. Frame and Link hold the checks of a frame and the detection of an extension, Machine the
--   state machine; Filter and Change hold the proofs.
-- - Wr: the handshake of proto-ext-whiterabbit. Port is the state (wr-api.h), Signaling and Packing read
--   and write the messages (wr-msg.c), Common holds common-fun.c and the timer of a state, Steps the
--   states (state-wr-*.c), Run the state machine (wr-state-machine.c). The four states that repeat a
--   message until it is answered have one definition with four instances. Retry, Ticking and GiveUp are
--   about the repetition, Order, Edges and Handshake about the order of the states.
-- - Lsync: the state machine of proto-ext-l1sync. Port is the state (l1e-api.h), Events the events and the
--   sending of the message, Steps the states and the state machine (l1e-state-machine.c), without the
--   case of CONFIG_ARCH_IS_WRPC. Order and Run are about reaching the state UP. Packing is the message
--   (l1e-msg.c), and Peer is about what the peer learns from it.
-- - Time: lib/time-arith.c. Arith holds normalising, adding, subtracting and halving, Convert the
--   conversions; Loops and Normal are about the normalisation, Sums and Picos about the others.
-- - Servo: proto-standard/servo.c. Port is the state, Product the fixed-point product and the expansion of
--   the delay coefficient, Control the filter and the controller, Steps the delays and Update the rest.
--   Shift, Halves and Exact are about the product, Expansion about the expansion, Bounds and Drift about
--   the two filters, Delays about the delay, Calls and Output about what the servo does to the clock,
--   Instances about what it leaves alone.
-- - Quality: proto-standard/bmc_clock_quality.c, built without CONFIG_CODEOPT_WRPC_SIZE. Tables holds its
--   tables, Update its functions; Lookup, Bounds, Follow and Worst are about the degradation, History and
--   Defaults about what it loses.
-- - States: the actions of the states. World is what they work on, Common holds functions of
--   proto-standard/common-fun.c and the states faulty and disabled, Slave the messages of the delay
--   measurement (proto-standard/state-slave.c). Total, Exact and Answer are about the timestamps that a
--   slave takes from them, Interval about the interval of its requests, Waiting about a faulty port,
--   Forgotten, Tables and Lost about a port without a master.
-- - Scenarios: a sample device, on which the definitions run and the theorems are applied.
--
-- Bounds: a table holds PP_NR_FOREIGN_RECORDS = 5 records, the default of Kconfig_ppsi. The loop
-- of bmc_age_frgn_master takes the number of records as its fuel, since every round drops a record
-- or goes on to the next. The fuel of the loops of normalize_pp_time is the number of their
-- rounds, or one more; its seconds and nanoseconds are integers without a bound, and the theorems
-- about sums bound the seconds so that the 64 bits of the source hold them. All other loops count
-- down a number that the source computes. The compile-time optimisations (CONFIG_HAS_CODEOPT_*)
-- are off, as by default, and CONFIG_HAS_EXT hooks are values.
--
-- What an architecture provides is an argument: the time operations that answer a question
-- (`TimeOps`) are functions, those that act are entries of `outputs`. The hooks of an extension
-- (`BmcHooks`, `FsmHooks`), the actions of the states and the clock quality update of
-- bmc_calculate_ebest are arguments
-- as well. memcmp of two identities is -1, 0 or 1; the C library fixes its sign only, and the program
-- reads only the sign.
--
-- A division by __div64_32 (lib/div64.c, a part of the Linux kernel) is the division of natural
-- numbers.
--
-- Not modelled: most actions of the states (proto-standard/state-*.c), the rest of
-- proto-ext-whiterabbit, the hooks of proto-ext-l1sync, the configuration files, the architectures
-- and everything that only prints.
pub mod Prelude
pub mod Ds
pub mod Timeout
pub mod Bmc
pub mod Msg
pub mod Fsm
pub mod Scenarios
pub mod Wr
pub mod Lsync
pub mod Time
pub mod Servo
pub mod Quality
pub mod States
