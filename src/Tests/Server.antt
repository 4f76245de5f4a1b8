-- ===== src/Tests/Server.antt =====
-- The tasks of the web server and of the DNS responder on concrete inputs.
use rb3201_rbprotocol_librar.Prelude.{
  ℕ, ◌≡◌, refl, true, false, none, some, Option, List, [], ◌∷◌, ◌++◌, Bytes, codes, arith,
}
use rb3201_rbprotocol_librar.Prelude.Int.{pos}
use rb3201_rbprotocol_librar.Dns.Name.{encode}
use rb3201_rbprotocol_librar.Dns.Question.{header, question, answer}
use rb3201_rbprotocol_librar.Dns.Server.{
  DnsServer, new_server, start, stop, datagram, popped, nothing, SendResult, replied, send_reply,
  task_body,
}
use rb3201_rbprotocol_librar.Dns.Server.Questions.{after_waits, task_body-answer}
use rb3201_rbprotocol_librar.Dns.Server.Reached.{
  constructed, started, stopped, IsConsistent, Reached-IsConsistent,
}
use rb3201_rbprotocol_librar.Web.ReadLine.{chunk, rio_readlineb}
use rb3201_rbprotocol_librar.Web.Serve.{Write, wrote, refused, is_prefix}
use rb3201_rbprotocol_librar.Web.Request.{
  parse_request, read_into, header_loop, goes_on, header_line, finish_request, named,
  checked_version, path_of,
}
use rb3201_rbprotocol_librar.Web.Process.{process, process_request}
use rb3201_rbprotocol_librar.Web.Scan.{scan_request_line}
use rb3201_rbprotocol_librar.Web.UrlDecode.{url_decode}
use rb3201_rbprotocol_librar.Json.Key.{strdup}
use rb3201_rbprotocol_librar.Json.Key.Order.{equal_bytes}
use rb3201_rbprotocol_librar.Web.Route.{FileSystem, Web}
use rb3201_rbprotocol_librar.Web.Server.{
  Listening, Event, stop_request, connection, no_connection, Action, left, notifies, notify,
  tiny_web_task,
}
use rb3201_rbprotocol_librar.Web.Server.Stops.{IsAnswered, tiny_web_task-left}

abbrev robot : List Bytes
robot = codes "robot" ∷ codes "local" ∷ []

abbrev address : ℕ → Bytes
address n = 10 ∷ 0 ∷ 0 ∷ 1 ∷ []

abbrev sends : ℕ → SendResult
sends n = replied

task_body-answer_example :
    (size' : ℕ) × (task_body 3 64
        (after_waits 2 (
          datagram (header 171 205 1 0 0 0 0 0 0 0 (question (encode robot) 0 1)) popped
          ∷ nothing
          ∷ []))
        address
        sends
      ≡ send_reply
          (header 171 205 129 0 0 1 0 0 0 0
            (question (encode robot) 0 1 ++ answer 0 1 (10 ∷ 0 ∷ 0 ∷ 1 ∷ [])))
          replied
          (task_body 2 size' (nothing ∷ []) address sends))
task_body-answer_example =
    task_body-answer 2 2 64 (nothing ∷ []) address sends 171 205 1 0 0 0 0 0 0 0 (codes "robot")
      (codes "local" ∷ []) 0 1 (omega arith) (omega arith) (omega arith, (omega arith, tt))
      (omega arith) (omega arith) (omega arith) refl refl

-- A server that was started, stopped and started again. The functions for the address are numbers.
abbrev restarted : DnsServer ℕ
restarted =
    (start 1
      (stop (start 1 new_server (codes "robot") none (record { fd = some 4; bound = true })).0).0
      (codes "robot") (some 2) (record { fd = some 5; bound = true })).0

Reached-IsConsistent_example : IsConsistent 1 restarted
Reached-IsConsistent_example = Reached-IsConsistent 1 restarted (
    started
      (stop (start 1 new_server (codes "robot") none (record { fd = some 4; bound = true })).0).0
      (codes "robot") (some 2) (record { fd = some 5; bound = true })
      (stopped (start 1 new_server (codes "robot") none (record { fd = some 4; bound = true })).0 (
        started new_server (codes "robot") none (record { fd = some 4; bound = true })
          constructed)))

abbrev no_files : FileSystem
no_files = record {
  open_file = λ path. none;
  is_regular = λ fd. true;
  size_of = λ fd. 0;
  read_at = λ fd at count. some [];
}

abbrev server : Web
server = record {
  ws_protocol = some 3;
  working_directory = codes "/www";
  has_extra_callback = true;
  not_found_callback = none;
}

abbrev print : ℕ → Bytes
print n = n ∷ []

abbrev port : Listening
port = record { fd = some 4; reusable = true; bound = true; listens = true; nonblocking = true }

-- A request for the index.
abbrev asking : Event
asking =
    connection 6
      (record { buf = []; method = []; uri = []; filename = []; ws_key = []; ws_version = 13 })
      (record {
        unread = [];
        socket = chunk (codes "GET / HTTP/1.1" ++ (13 ∷ 10 ∷ 13 ∷ 10 ∷ [])) ∷ [];
      })
      (record { sent = []; writes = [] }) (pos 0)

asking-IsAnswered :
    IsAnswered print print (λ x. x) (λ x. x) no_files (codes "robot") 9 server asking
unfolding process process_request parse_request read_into rio_readlineb header_loop goes_on
    header_line strdup is_prefix finish_request named checked_version equal_bytes path_of url_decode
    scan_request_line
asking-IsAnswered = (_, refl)

tiny_web_task-left_example :
    (actions : List Action) × (tiny_web_task print print
        (λ x. x)
        (λ x. x)
        no_files
        (codes "robot")
        9
        server
        port
        (no_connection ∷ asking ∷ stop_request (some 8) ∷ [])
      ≡ left (actions ++ (notifies 8 ∷ [])))
unfolding notify
tiny_web_task-left_example =
    tiny_web_task-left print print (λ x. x) (λ x. x) no_files (codes "robot") 9 server port
      (no_connection ∷ asking ∷ []) (some 8) [] (tt, (asking-IsAnswered, tt))

-- A file system that takes two bytes and then fails.
abbrev create : Bytes → Option (List Write)
create name = some (wrote 1 ∷ refused false ∷ [])
