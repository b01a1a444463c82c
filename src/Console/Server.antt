-- ===== src/Console/Server.antt =====
-- `consoleServer` of tools/cmd/invirtio/console.go, as a step function over events. What runs under
-- the server's lock is one event, and so is each write of the goroutine that drains a client's
-- channel; a sequence of events is an interleaving of the goroutines. A client is on the list as
-- long as it is in the map `clients`; channels are told apart by a number that is never used twice.
pub mod Streams
mod Follows
pub mod Scrollback
use vkage.Base.{
  ℕ, ◌+◌, ◌-◌, ◌*◌, Bool, true, false, ◌||◌, List, [], ◌∷◌, ◌++◌, Option, none, some, ltb, ◌==◌,
  if◌then◌else◌, Bytes, length, drop,
}

abbrev pub scrollback : ℕ
scrollback = 65536

-- The capacity of a client's channel.
abbrev pub channel_size : ℕ
channel_size = 256

-- An attached client: its channel, whether its connection is open, and what was written to it.
pub record Client : Type 0 where
  pub channel : ℕ
  pub queue : List Bytes
  pub conn_open : Bool
  pub sent : Bytes

-- `pty` is what the server wrote to the terminal's master, `size` the size that it set last, and
-- `signals` how often it told the launcher.
pub record ConsoleServer : Type 0 where
  pub pty : Bytes
  pub size : Option (ℕ × ℕ)
  pub signals : ℕ
  pub recent : Bytes
  pub clients : List Client
  pub next : ℕ

abbrev pub new_console_server : ConsoleServer
new_console_server = record {
  pty = [];
  size = none;
  signals = 0;
  recent = [];
  clients = [];
  next = 0;
}

-- The last `scrollback` bytes, once there are more.
pub trim : Bytes → Bytes
trim s = if ltb scrollback (length s) then drop (length s - scrollback) s else s

-- The loop of `output` over the clients. One whose channel is full is dropped.
pub output_clients : Bytes → List Client → List Client
output_clients p [] = []
output_clients p (c ∷ cs) =
    if ltb (length c.queue) channel_size
    then record c { queue = c.queue ++ p ∷ [] } ∷ output_clients p cs
    else output_clients p cs

unfoldable pub output : ConsoleServer → Bytes → ConsoleServer
unfolding trim output_clients
output s p = record s { recent = trim (s.recent ++ p); clients = output_clients p s.clients }

-- `binary.BigEndian.Uint16`.
abbrev pub uint16 : ℕ → ℕ → ℕ
uint16 hi lo = hi * 256 + lo

-- `ioctl_fails` says that the terminal refuses the size.
unfoldable pub resize : Bool → ConsoleServer → ℕ → ℕ → ConsoleServer
resize ioctl_fails s rows cols =
    if rows == 0 || cols == 0
    then s
    else if ioctl_fails
    then s
    else record s { size = some (rows, cols); signals = s.signals + 1 }

-- The locked part of `attach`: the new channel holds the recent output.
pub register : ConsoleServer → ConsoleServer
register s = record s {
  clients =
      s.clients
      ++ record { channel = s.next; queue = s.recent ∷ []; conn_open = true; sent = [] } ∷ [];
  next = s.next + 1;
}

-- The start of `attach`, up to its `io.Copy`. The bytes are what the client sends before the
-- deadline: with fewer than a header its connection is closed, and it is not attached. Those behind
-- the header are left to the input.
unfoldable pub attach : Bool → ConsoleServer → Bytes → ConsoleServer
unfolding resize register
attach ioctl_fails s (r1 ∷ r0 ∷ c1 ∷ c0 ∷ rest) =
    register (resize ioctl_fails s (uint16 r1 r0) (uint16 c1 c0))
attach ioctl_fails s _ = s

deliver_client : Bool → List Bytes → Client → Client
deliver_client fails [] c = c
deliver_client fails (p ∷ queue) c =
    if fails || (if c.conn_open then false else true)
    then record c { queue = queue; conn_open = false }
    else record c { queue = queue; sent = c.sent ++ p }

-- A round of the goroutine that writes a client's channel to its connection. A write that fails
-- closes the connection. In one step: the source's goroutine holds the chunk that it is writing, so that
-- its channel then has room for one more.
pub deliver : ℕ → Bool → List Client → List Client
unfolding deliver_client
deliver ch fails [] = []
deliver ch fails (c ∷ cs) =
    if c.channel == ch then deliver_client fails c.queue c ∷ cs else c ∷ deliver ch fails cs

-- The end of `attach`, behind its `io.Copy`.
pub detach : ℕ → List Client → List Client
detach ch [] = []
detach ch (c ∷ cs) = if c.channel == ch then cs else c ∷ detach ch cs

-- `s.clients[ch]`.
unfoldable pub client_of : ℕ → List Client → Option Client
client_of ch [] = none
client_of ch (c ∷ cs) = if c.channel == ch then some c else client_of ch cs

-- What happens: the guest's output, a connection, a round of a client's goroutine, input that
-- `io.Copy` passes to the terminal, the end of a client's input, and the server's `close`.
pub data Event : Type 0 where
  output_event : Bytes → Event
  attach_event : Bool → Bytes → Event
  deliver_event : ℕ → Bool → Event
  input_event : ℕ → Bytes → Event
  detach_event : ℕ → Event
  close_event : Event

-- Whether a client of the list has the channel and an open connection.
pub is_attached : ℕ → List Client → Bool
is_attached ch [] = false
is_attached ch (c ∷ cs) = if c.channel == ch then c.conn_open else is_attached ch cs

unfoldable pub step : ConsoleServer → Event → ConsoleServer
unfolding output attach deliver detach is_attached
step s (output_event p) = output s p
step s (attach_event ioctl_fails sent) = attach ioctl_fails s sent
step s (deliver_event ch fails) = record s { clients = deliver ch fails s.clients }
step s (input_event ch p) = if is_attached ch s.clients then record s { pty = s.pty ++ p } else s
step s (detach_event ch) = record s { clients = detach ch s.clients }
step s close_event = record s { clients = [] }

unfoldable pub run : ConsoleServer → List Event → ConsoleServer
unfolding step
run s [] = s
run s (e ∷ es) = run (step s e) es

-- All that the guest has put out in a sequence of events.
unfoldable pub produced : List Event → Bytes
produced [] = []
produced (output_event p ∷ es) = p ++ produced es
produced (_ ∷ es) = produced es
