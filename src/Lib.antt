-- ===== src/Lib.antt =====
-- tcpincast: the TCP of ns-2.35/tcp. Its receivers, the scoreboards of its senders, the window and
-- the timers that all senders share, and the output path of FullTcpAgent.
--
-- The parts, and how they meet:
--   * ns-2.35/tcp/rq.h and rq.cc, `ReassemblyQueue`: the segments that have come out of order, kept
--     sorted and merged. FullTcpAgent reassembles with it, ScoreBoardRQ remembers SACK blocks in it.
--   * ns-2.35/tcp/scoreboard-rq.h and scoreboard-rq.cc, `ScoreBoardRQ`, and scoreboard.h and
--     scoreboard.cc, `ScoreBoard`: what a SACK sender knows of the receiver, and so what it sends.
--   * ns-2.35/tcp/tcp-sink.h and tcp-sink.cc: `Acker`, the receive window of packets; `Sacker` with
--     `SackStack`, the SACK blocks of an acknowledgement; `TcpSink` and `DelAckSink`, the agents.
--   * ns-2.35/tcp/tcp.h and tcp.cc, `TcpAgent`: the window and the retransmission timer, which every
--     sender inherits.
--   * ns-2.35/tcp/tcp-full.h and tcp-full.cc, `FullTcpAgent`: a sender and receiver in bytes. It
--     inherits `TcpAgent`, keeps a `ReassemblyQueue`, and may hold acknowledgments back, so that
--     the application of a client can ask for a retransmission by acknowledging one byte more.
--
-- Which file models which part:
--   * Base and its children: Booleans, lists and signed integers over the native numbers.
--   * Rq/Defs: the data of the queue, `newseginfo` to `clearto`, `gensack`, `nexthole`, `cnts`.
--     The doubly linked FIFO is the list of its nodes from `head_` on, and the LIFO the list of the
--     addresses of its nodes from `top_` on; unlinking a node is leaving it out. `hint_` decides
--     nothing in the source and is left out.
--   * Rq/Coalesce, Rq/Sides, Rq/Add: `add` and `coalesce`. A label that the source jumps to is a
--     function: `endfast`, `again2`. A place between the nodes `p` and `q` is a pair of lists, the
--     nodes before it nearest first. What the C++ code does not define is an outcome of its own:
--     `dangles`.
--   * Rq/Ranges: the ranges that a queue holds, and the reference definition of adding one.
--     Rq/Zip, Rq/Place, Rq/Leftover, Rq/OneBetween, Rq/Merge, Rq/Sweep, Rq/Search, Rq/Rejoin,
--     Rq/Insert, Rq/Round lead from the place of a block to the rounds of `add`; Rq/Cover,
--     Rq/Trim, Rq/Gap, Rq/Canon are about the bytes covered, and Rq/Flags about the flags.
--   * Sink/Acker, Sink/Stack, Sink/Sacker, Sink/Agent: `Acker`, `SackStack`, `Sacker`, the agents.
--     Sink/Window, Sink/Widen and Sink/Delay are about them. An agent's step takes the packet and
--     the clock to the new state and what it sends.
--   * Scoreboard/Shim: `ScoreBoardRQ`; Scoreboard/Received, Scoreboard/Retran and
--     Scoreboard/Once are about it.
--   * Scoreboard/Ring: `ScoreBoard`, and Scoreboard/Halving, Scoreboard/Resend: `ScoreBoardRH` of
--     scoreboard-rh.h and scoreboard-rh.cc, whose `FakeSack` is not compiled; Scoreboard/Choice is
--     about both, and Scoreboard/Again about the second.
--   * Tcp/Double: what is used of a `double`, as an interface. Tcp/Agent: the variables of
--     `TcpAgent`. Tcp/Timer: rtt_init, rtt_timeout, rtt_update, rtt_backoff; Tcp/Timeout is about
--     it. Tcp/Open: window, opencwnd and the initial window; Tcp/Slowdown: slowdown, ecn,
--     spurious_timeout; Tcp/Cut is about both.
--   * Full/Data: the variables, states, flags and packets of `FullTcpAgent`. Full/Packet: one
--     packet, and what it acknowledges. Full/Plan, Full/Depart, Full/Output: `foutput`, before
--     and after its label `send`, and whole. Full/Send: send_much, connect, listen, usrclosed.
--     Full/Ack: newack, duplicate acknowledgments. Full/Timers: timeouts. Full/Reass: reass, and the
--     parts of `recv` that cut a segment, take its data and its FIN. Full/Fixed, Full/Held and
--     Full/Holding are about what an output writes and acknowledges, Full/Pass and Full/Loop about
--     the loop of send_much, Full/Closing about usrclosed, Full/Newack about newack, Full/Present
--     and Full/Front about reass and what is cut. The virtual functions are those of the
--     base class. Full/Reset: reset, advance_bytes, advanceby, sendmsg; Tcp/Reset: the `reset` of
--     TcpAgent; Full/Asked is about advance_bytes.
--   * Full/Arrive, Full/Process, Full/Slow, Full/Handshake, Full/Recv: `recv` as a whole. A label
--     is a function: `step6`, `process_ack`, `trim_then_step6`, `dropafterack`, `dropwithreset`. The
--     packet is a `Frame`, which the source changes in place; what lies around a call, the clock and
--     the random numbers, is a `Scene`. Full/Farewell and Full/Teardown are about the end of a
--     connection, Full/Expected and Full/Predict about header prediction.
--   * Full/Variants: the Tahoe and NewReno variants, and the command of tcp-ia-full.cc; Full/Burst is
--     about NewReno. Full/Sack: SackFullTcpAgent without what it sends; Full/Holes, Full/Heard and
--     Full/Forgets are about it. The loop of nxt_tseq is on fuel: a round goes on beyond a hole that
--     has a block after it, so that rounds enough to pass the last block's start are enough.
--   * Rq/Tests, Sink/Tests, Scoreboard/Tests, Tcp/Tests, Full/Tests, Full/Runs and Full/Trials: runs,
--     among them those of the test `main` of rq.cc.
--
-- Numbers: sequence numbers, packet numbers and counts are natural numbers, and a signed integer
-- where the source uses -1 or compares with it; wrap-around of `int` is not modelled, nor does the
-- source handle it. Times are counted in clock ticks. An array of a power of two is a function of
-- the index modulo its size.
--
-- Floating point: the machine's doubles are a type with the operations of Tcp/Double, and a theorem
-- that needs a law of theirs takes it as a hypothesis. The value that `Random::uniform` returns and
-- the clock are arguments. `exit(1)` and `abort()` are `none` or a result of their own. What is
-- called in Tcl (`done_data`, `done`) and the end of the data are noted in a list, and the packets
-- sent in another; a callback that calls the agent again is not modelled.
--
-- Bounds: `again2` has one round more than the queue has nodes, and each further round follows the
-- removal of a node. `widen` of the receive window doubles its size at most `seq + 2` times, which
-- is more than enough to pass `seq`; `deliver` takes at most as many steps as the window has slots
-- and one to stop. A pass of `send_much` sends a byte or ends it, so that the bytes not sent and two
-- are passes enough; with a limit of packets the limit is. `older` takes at most one step for each
-- entry dropped or sent.
--
-- Not modelled: debugging output, Tcl bindings and commands, tracing, QuickStart; `recv`, `output` and
-- `send_much` of `TcpAgent`; what SackFullTcpAgent sends; the other senders and sinks of the
-- directory, and the copies of the Linux congestion control.

pub mod Base
pub mod Rq
pub mod Sink
pub mod Scoreboard
pub mod Tcp
pub mod Full
