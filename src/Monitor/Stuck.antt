-- ===== src/Monitor/Stuck.antt =====
-- A command line that the monitor's parser refuses.
use pop.Common.{ℕ, zero, suc, ◌-◌, ◌≡◌, ◌≢◌, refl, true, false, some, arith, ◌==◌}
use pop.MonitorDef
use pop.Buffer.{Buffer}
use pop.Parser.{Parser}
use pop.Parser.Line.{LineParser, parse_loop, line_parse, goes_on}
use pop.Parser.Monitor.{monitor_parse}
use pop.Monitor.{MonitorWorld, MonitorEnv, handle_error}
use pop.Monitor.Events.{handle_monitor_write, answer_cmd}

parse_loop-ended :
    (fuel : ℕ) (engine : Parser LineParser) (p : LineParser) (b : Buffer)
    → p.ended ≡ true
    → parse_loop fuel engine p b ≡ some (p, b)
unfolding parse_loop goes_on
parse_loop-ended zero engine p b e = refl
parse_loop-ended (suc fuel) engine p b e = ground arith

monitor_parse-ended :
    (engine : Parser LineParser) (p : LineParser) (b : Buffer)
    → p.ended ≡ true
    → monitor_parse engine p b ≡ some (p, b)
unfolding monitor_parse line_parse
monitor_parse-ended engine p b e = parse_loop-ended (b.write - b.read) engine p b e

-- Once the parser has ended with an error, and the connection itself has no error code, as nothing
-- sets it, an event for writing changes nothing: no answer is put in the output, the parser is not
-- set up again, and the interest stays, so that the same event comes back for ever.
pub handle_monitor_write-stuck :
    (engine : Parser LineParser) (env : MonitorEnv) (m : MonitorWorld)
    → m.conn.is_sending ≡ false
    → m.conn.cmd_data.finished_cmd ≡ false
    → m.conn.monitor_parser.ended ≡ true
    → m.conn.monitor_parser.err_value ≢ MonitorDef.no_error
    → m.conn.err_code ≡ MonitorDef.no_error
    → handle_monitor_write engine env m ≡ some m
unfolding handle_monitor_write answer_cmd handle_error
handle_monitor_write-stuck engine env m s f e n c =
    let parsed = monitor_parse-ended engine m.conn.monitor_parser m.conn.read_buffer e in
    let wrong : (m.conn.monitor_parser.err_value == MonitorDef.no_error) ≡ false = ground arith in
    rw (s, handle_monitor_write) (rw f (rw parsed (rw e (rw wrong (rw c refl)))))
