-- ===== src/Lib.antt =====
-- The library RB3201-RBProtocol lets a robot talk to a controlling application: JSON packets over
-- UDP or a Websocket, discovery, possession of the device by one peer, and messages that are sent
-- again until the other side confirms them.
--
-- The parts and their files:
--   Json: src/rbjson.h and src/rbjson.cpp. The class tree is the data type `Value` (Json/Value). An
--     `Object` is its vector of members, sorted by name and read by binary search (Json/Key,
--     Json/Object); an `Array` is Json/Array; `serialize` is Json/Text; `equals` is Json/Compare;
--     `parse` over the tokens of jsmn is Json/Parse. The methods keep their names,
--     `getInt` as `get_int`. Json/Object/Lookup has the map that an object stands for: `find`, `put`
--     and `delete`.
--   Protocol: src/rbprotocol.h and src/rbprotocol.cpp, with `ProtBackendUdp::start` of
--     src/rbprotocoludp.cpp. Protocol/State has the members of the class, its constructor, `start`,
--     `stop` and the reads; Protocol/Send the overloads of `send`, `send_mustarrive` and `send_log`;
--     Protocol/Handle `handle_msg`, cut into stages at its early returns; Protocol/Tasks
--     `resend_mustarrive_locked` and the rounds of `send_task` and `recv_task`. Protocol/Invariant
--     takes the methods as the steps of a run, in any order.
--   Ws: src/rbprotocolws.h and src/rbprotocolws.cpp: the frame header (Ws/Frame), which the sending
--     task uses, the receiving state machine of one client (Ws/Client), the list of clients with
--     `recv_iter` (Ws/Clients), and the registration with the web server and `send_from_queue`
--     (Ws/Link), with these methods as the steps of a run (Ws/Link/Runs).
--   Udp: src/rbprotocoludp.cpp: `recv_iter` of the UDP backend, with its growing buffer.
--   Dns: src/rbdns.h and src/rbdns.cpp: `parseDnsName` and `processDnsQuestion` (Dns), and `start`,
--     `stop`, `receivePacket` and the task's loop (Dns/Server).
--   Net: src/rbudp.h and src/rbudp.cpp: the class `Udp`, its sockets and callbacks; the reading task
--     is Net/Read, and Net/Run takes the methods and the task's rounds as the steps of a run, with
--     what each of them creates and closes.
--   Tcp: src/rbtcp.h and src/rbtcp.cpp: `TcpSocketReal`, its callbacks, and the rounds of its reading
--     task (Tcp/Read) over what arrives on the connection.
--   Web: src/rbwebserver.c: `rio_read` of one byte and `rio_readlineb` (Web/ReadLine), `parse_request`
--     (Web/Request) with its calls of `sscanf` (Web/Scan), `url_decode` (Web/UrlDecode) and
--     `is_local_host` (Web/Host), `get_mime_type` (Web/MimeType), `writen` and the answers to a request
--     (Web/Serve), the files and the choices of `process` behind `parse_request`, with the handshake
--     of src/rbwebsockets.c (Web/Route), `process` as a whole (Web/Process), and the accepting task,
--     its start and stop, and `rb_web_add_file` (Web/Server).
--   Wifi: src/rbwifi.h, src/rbwifi_netif.cpp (Wifi/Netif) and src/rbwifi_tcpip.cpp (Wifi/Tcpip): the
--     class `WiFi` for two versions of the driver, whose calls are values.
--   Prelude: what the parts share; bytes are numbers, a C string ends at its first zero byte, and
--     machine integers keep their wrap-around (`% 2 ^ w`, `int32`, `u32`). Tests: concrete inputs.
--
-- How the parts interact: the protocol builds packets with Json/Object, prints them with Json/Text
-- and puts them on its queue; the sending task takes them off and hands them to the backends. Each
-- method is one step of the state, as its mutexes make it; the calls of the callback, the datagrams
-- and the frames are values that a step returns.
--
-- Parameters: floats, with their conversions and the prints of the bundled printf, are the record
-- `NumberOps`. Arguments are the text that a format stands for, the ticks of the clock, what the
-- sockets hold, the results of `socket`, `setsockopt`, `bind` and `connect`, what an erased entry
-- of a map reads as, and, for the parser, `strtod` and jsmn's `jsmn_parse`, of which only the
-- tokens are read. For the web server they are the file system, the prints of numbers, and the
-- hash and base64 of mbedtls.
--
-- Fuel: the loop of `write_string_escaped` gets one more than the length of the text and passes
-- one special byte each round; the loop over a Websocket payload gets one more than the bytes
-- that remain and reads at least one each round. The loops of `url_decode` and `rio_readlineb`
-- run on the room left in their buffers. A token's children are among the tokens behind it, so
-- `count_tok_size` and `parse_value` get the number of tokens; `parse` has two rounds, of 32 and
-- of 64 tokens. `peek_loop` gets two more rounds than the datagram has bytes and grows by 16; in
-- `readTask` 64 rounds reach the 1024 bytes at which its loop ends. A round of `parseDnsName`
-- writes two bytes or more of the 64 of its buffer. The loops of `sendfile` and of
-- `serve_not_found_cb` get the bytes that are left and pass one at least each round. The loop of
-- `parse_request` passes a header each round, so two rounds more than there are headers are
-- enough, and where its stream ends before the empty line none are. `waitForIp` polls as often as
-- its step fits in the longest delay. A packet of the DNS task takes one unit of its fuel. The
-- inner loop of the TCP task gets 66 rounds of 16 bytes each and ends at 1024 bytes. Every other
-- loop is structural.
--
-- Not modelled: `copy` of the JSON classes, since the values of the model have no identity, failed
-- calls that end the program (`ESP_ERROR_CHECK`), the size of a task's stack, allocation failure,
-- and interleavings inside a method.
pub mod Prelude
pub mod Json
pub mod Protocol
pub mod Ws
pub mod Udp
pub mod Web
pub mod Dns
pub mod Net
pub mod Tcp
pub mod Wifi
mod Tests
