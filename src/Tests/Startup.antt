-- ===== src/Tests/Startup.antt =====
-- The options of the server and the reader of a mail on concrete inputs.
use pop.Common.{◌≡◌, refl, some, [], ◌∷◌, ◌++◌, codes, pos, print_u, arith}
use pop.Buffer.{contents}
use pop.Buffer.Inv.{IsValid}
use pop.Users.{offline}
use pop.Client.{World, op_noop, op_write}
use pop.Writter.Answer.{out_of}
use pop.Options.{u, p, defaults, parse_args}
use pop.Options.Reading.{parse_args-user_port}
use pop.Reader.{handle_file_reader}
use pop.Reader.Reading.{appended, refill_after, handle_file_reader_lem}
use pop.Tests.{user, world, connection, parsed, empty, empty-IsValid}

parse_args-user_port_example :
    parse_args 5 (u (codes "ana" ++ (b':' ∷ codes "secret")) ∷ (p (print_u 1110) ∷ [])) 5 ≡ (
      pos 5,
      record defaults {
        user = some (codes "ana");
        pass = some (codes "secret");
        server = record defaults.server { port = 1110; port_s = print_u 1110 };
      },
    )
parse_args-user_port_example =
    parse_args-user_port 5 1110 5 (codes "ana") (codes "secret") (omega arith) (omega arith)
      (omega arith) (refl, (refl, (refl, tt))) (λ e. cc) (λ e. cc)

abbrev mailing : World
mailing =
    world (user "ana" "secret" offline ∷ [])
      (connection (codes "ana") (parsed (codes "RETR") (codes "1")) [])

handle_file_reader_lem_example :
    (w' : World) × (handle_file_reader (codes "tr a b") (some []) mailing ≡ some w')
    × IsValid (out_of w')
    × (contents (out_of w') ≡ contents empty ++ appended (codes "tr a b") [])
    × (w'.interest ≡ op_write)
    × (w'.reader_interest ≡ op_noop)
    × (w'.client.send.f ≡ refill_after [] mailing)
handle_file_reader_lem_example =
    handle_file_reader_lem (codes "tr a b") [] mailing empty-IsValid (omega arith) (omega arith)
