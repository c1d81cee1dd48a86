-- ===== src/Lib.antt =====
-- A POP3 server: connections that a selector drives through a state machine, over one table of users
-- and their maildirs.
--
-- A connection has an input and an output buffer, a parser of command lines, a state, and the maildir
-- of its user. The selector calls a handler of the current state when the socket can be read or
-- written; the handler reads bytes, parses a command, runs it, answers, and returns the next state.
--
--  * Buffer (src/server/buffer.c): the byte buffer as a list of bytes and three offsets. Buffer/Inv has
--    its invariant, Buffer/Queue its view as a queue.
--  * Parser (src/server/parser.c): the engine of the table-driven parsers. Parser/Line (the copies
--    src/server/authParser.c, transParser.c and monitorParser.c): the parser of command lines over what
--    the copies differ in; Parser/Auth, Parser/Trans and Parser/Monitor are its instances. Parser/Update
--    (src/server/updateParser.c).
--  * Users (src/server/user.c): the table of users.
--  * Maildir (src/utils/maildir.c): the mails of a user, their marks and where they
--    move, and the directories of a maildir (create_dir, maildir_build).
--  * Client (include/server/pop3.h, the counters of src/server/monitor.c): the data of a connection and
--    the world that its handlers change. Pop3Def and MonitorDef have the constants of
--    include/pop3def.h and include/monitordef.h.
--  * Writter (src/server/writter.c): the greeting and the answers.
--  * Auth (src/server/auth.c), Args, Mailbox and Transaction (src/server/transaction.c, with calls of
--    src/server/fileReader.c and src/utils/stringUtils.c), Update (src/server/update.c): the states.
--  * Reader (src/server/fileReader.c): the process that reads a mail for a connection.
--  * Stm (src/server/stm.c): the state machine. Pop3 (src/server/pop3.c): its states, and the start, the
--    events and the end of a connection; Pop3/Sharing and Pop3/Holding have the connections together,
--    as steps on the one table of users in any order.
--  * Selector (src/server/selector.c): the table of descriptors, its operations, and in Selector/Events
--    those that call handlers; Selector/Setup has its calls on signals and flags. What a handler does to
--    the rest of the program is a parameter. Selector/Closing has the closing functions that the server
--    registers, those of the connections of the monitor; Selector/Reach has the calls in any order.
--  * Monitor (src/server/monitor.c, src/server/monitorCommands.c): the connections of the monitor, their
--    commands and the programs that these start.
--  * Cmd (src/client/cmd.c, include/client/spec.h): the requests of the client of the monitor and, in
--    Cmd/Response, the ring through which it reads an answer. Cmd/Connect (src/client/connect.c) and
--    Cmd/Main (src/client/client.c): its connection and its command line. Cmd/Served and Cmd/Cut follow a
--    request into the monitor.
--  * Options (src/utils/args.c, the first user of src/server/main.c): the options of the server.
--  * ServerUtils (src/server/serverUtils.c) and Start (src/server/main.c): the sockets on which the server
--    listens, its start, its loop and its end.
--  * Tests: concrete inputs.
--
-- Each function keeps its name. A function that changes its arguments gives their new values; one that
-- can fail an assert, leave an array or abort gives an Option, whose `none` is that. A handler takes
-- what the system answers in that call, an `Env`: the result of `send`, the bytes of `recv`, the
-- directory of the mails; in the same way the selector takes what `pselect` answers, and the options
-- what `getopt` finds. What is sent is collected in `wire`, what is done to files in `fs`.
--
-- The loop of the parsers runs on fuel, the number of unread bytes, of which each round takes one. The
-- conversion to decimal runs on 10 digits for 32 bits and 20 for 64. The loop that counts the bits of
-- a capacity runs on 65 rounds, one more than the bits of a size_t. The other loops are recursions on
-- a list, or on the rounds left of a counted loop.
--
-- The loop of the client over its command line runs on one round more than there are words, and that
-- over its ring on as many rounds as the ring has places.
--
-- The loop of add_activator_range, which nothing calls, runs on a number of rounds that is an argument:
-- for 255 it does not end.
--
-- Not modelled: the texts for the terminal and the log, which are input and output; of the components
-- above what frees memory, but for the connections of the monitor, where a use of memory that was given
-- back is `none`, and for the end of a connection, where a second one is. PASS and the commands of the
-- monitor name a maildir as where its directories can be made; Maildir/Making has the rest of
-- maildir_set_username. What accept, socket, bind, listen, connect, fcntl and the calls on signals answer
-- is an argument. The parsers of a connection share memory in C and are separate here: each is set up
-- anew when its state is entered.
mod Common
pub mod Buffer
pub mod Pop3Def
pub mod MonitorDef
pub mod Parser
pub mod Users
pub mod Maildir
pub mod Client
pub mod Cmd
pub mod Writter
pub mod Auth
pub mod Args
pub mod Mailbox
pub mod Transaction
pub mod Update
pub mod Stm
pub mod Pop3
pub mod Selector
pub mod Monitor
pub mod Options
pub mod ServerUtils
pub mod Start
pub mod Reader
pub mod Tests
