-- ===== src/Protocol/State.antt =====
-- The members of `Protocol`, its constructor, `start`, `stop` and the methods that only read.
-- `m_udp`, `m_ws` and the task handles are flags: is there such an object. The mutexes make each
-- method one step.
use rb3201_rbprotocol_librar.Prelude.{
  ℕ, ◌-◌, ◌^◌, Bool, true, false, not, ◌&&◌, Option, none, some, List, [], ◌∷◌, Bytes, length, ltb,
  ◌==◌, if◌then◌else◌,
}
use rb3201_rbprotocol_librar.Prelude.Int.{ℤ, pos}
use rb3201_rbprotocol_librar.Json.Value.{Members}

-- `kind` with the member of the union that it selects; `no_addr` is the zeroed address.
pub data ProtocolAddr : Type 0 where
  no_addr : ProtocolAddr
  udp : ℕ → ℕ → ProtocolAddr
  ws : ℕ → ProtocolAddr

pub record QueueItem : Type 0 where
  pub addr : ProtocolAddr
  pub buf : Bytes
  pub size : ℕ

pub record ProtocolConfig : Type 0 where
  pub enable_udp : Bool
  pub enable_ws : Bool
  pub ws_register_with_webserver : Bool
  pub udp_port : ℕ

pub record MustArrive (F : Type 0) : Type 0 where
  pub pkt : Members F
  pub id : ℕ
  pub attempts : ℕ

pub record Protocol (F : Type 0) : Type 0 where
  pub owner : Bytes
  pub name : Bytes
  pub desc : Bytes
  pub has_callback : Bool
  pub read_counter : ℤ
  pub write_counter : ℤ
  pub possessed_addr : ProtocolAddr
  pub send_queue : List QueueItem
  pub has_udp : Bool
  pub has_ws : Bool
  pub mustarrive_e : ℕ
  pub mustarrive_f : ℕ
  pub mustarrive_queue : List (MustArrive F)
  pub task_send : Bool
  pub task_recv : Bool

-- `DEFAULT_CONFIG`
abbrev pub default_config : ProtocolConfig
default_config = record {
  enable_udp = true;
  enable_ws = true;
  ws_register_with_webserver = true;
  udp_port = 42424;
}

-- `UINT32_MAX`, `0xFFFFFFFF`
abbrev pub uint32_max : ℕ
uint32_max = 2 ^ 32 - 1

-- `xQueueCreate(32, sizeof(QueueItem))`
abbrev pub queue_length : ℕ
queue_length = 32

-- `MUST_ARRIVE_ATTEMPTS`
abbrev pub must_arrive_attempts : ℕ
must_arrive_attempts = 15

abbrev pub same_nat : ℕ → ℕ → Bool
same_nat a b = a == b

-- The comparison of the fields that the kind selects. `memcmp` also compares bytes that no field
-- names; the one caller assigns the address wherever they differ.
unfoldable pub is_addr_same : ProtocolAddr → ProtocolAddr → Bool
is_addr_same no_addr no_addr = true
is_addr_same (udp ip port) (udp ip' port') = same_nat ip ip' && same_nat port port'
is_addr_same (ws fd) (ws fd') = same_nat fd fd'
is_addr_same _ _ = false

unfoldable pub is_addr_empty : ProtocolAddr → Bool
is_addr_empty no_addr = true
is_addr_empty (udp ip port) = false
is_addr_empty (ws fd) = false

pub data EspErr : Type 0 where
  esp_ok esp_err_invalid_state esp_err_invalid_arg : EspErr

-- `ProtBackendUdp::start`: the results of `socket`, `setsockopt` and `bind` are arguments. The
-- flag returned is whether `m_socket` is open.
unfoldable pub udp_start : Bool → Bool → Bool → EspErr × Bool
udp_start socket_ok setsockopt_ok bind_ok =
    if not socket_ok
    then (esp_err_invalid_state, false)
    else if not setsockopt_ok
    then (esp_err_invalid_state, false)
    else if not bind_ok
    then (esp_err_invalid_state, false)
    else (esp_ok, true)

-- Whether a start of UDP failed: `err != ESP_OK`.
unfoldable pub failed : EspErr → Bool
failed esp_ok = false
failed esp_err_invalid_state = true
failed esp_err_invalid_arg = true

-- `is_mustarrive_complete` below the test for `UINT32_MAX`.
unfoldable pub no_entry : {F : Type 0} → ℕ → List (MustArrive F) → Bool
no_entry id [] = true
no_entry id (m ∷ ms) = if m.id == id then false else no_entry id ms

-- `QueueItem it = {}`
abbrev pub stop_item : QueueItem
stop_item = record { addr = no_addr; buf = []; size = 0 }

module _ {F : Type 0} where
  -- The constructor; `m_read_task` and the queue are fresh.
  unfoldable pub new_protocol : Bytes → Bytes → Bytes → Bool → Protocol F
  new_protocol owner name description callback = record {
    owner = owner;
    name = name;
    desc = description;
    has_callback = callback;
    read_counter = pos 0;
    write_counter = pos 0;
    possessed_addr = no_addr;
    send_queue = [];
    has_udp = false;
    has_ws = false;
    mustarrive_e = 0;
    mustarrive_f = uint32_max;
    mustarrive_queue = [];
    task_send = false;
    task_recv = false;
  }

  -- The start of the Websocket backend cannot fail.
  unfoldable pub start : Protocol F → ProtocolConfig → EspErr × Bool → Protocol F × EspErr
  unfolding failed
  start p cfg udp_result =
      if p.task_send
      then (p, esp_err_invalid_state)
      else if not cfg.enable_udp && not cfg.enable_ws
      then (p, esp_err_invalid_arg)
      else if cfg.enable_udp && failed udp_result.0
      then (p, udp_result.0)
      else (
        record p {
          has_udp = cfg.enable_udp;
          has_ws = cfg.enable_ws;
          task_send = true;
          task_recv = true;
        },
        esp_ok,
      )

  -- `none` while `xQueueSendToFront` waits for room in the queue.
  unfoldable pub stop : Protocol F → Option (Protocol F)
  stop p =
      if not p.task_send
      then some p
      else if ltb (length p.send_queue) queue_length
      then some (record p {
        send_queue = stop_item ∷ p.send_queue;
        has_udp = false;
        has_ws = false;
        task_send = false;
        task_recv = false;
      })
      else none

  unfoldable pub get_possessed_addr : Protocol F → Option ProtocolAddr
  unfolding is_addr_empty
  get_possessed_addr p = if is_addr_empty p.possessed_addr then none else some p.possessed_addr

  unfoldable pub is_possessed : Protocol F → Bool
  unfolding is_addr_empty
  is_possessed p = not (is_addr_empty p.possessed_addr)

  unfoldable pub is_mustarrive_complete : Protocol F → ℕ → Bool
  unfolding no_entry
  is_mustarrive_complete p id = if id == uint32_max then true else no_entry id p.mustarrive_queue
