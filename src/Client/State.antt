-- ===== src/Client/State.antt =====
-- plugin/src/bridge-client.ts: the fields of SipVoiceBridgeClient, what it shows of itself, and what
-- its surroundings answer.
use openclaw_sip_voice.Base.{
  ℕ, Bool, true, false, String, List, [], ◌∷◌, Option, none, if◌then◌else◌, ◌==◌,
}
use openclaw_sip_voice.Protocol.Value.{Value, str, obj, get}
use openclaw_sip_voice.Protocol.Messages.{ValidationError}
use openclaw_sip_voice.Protocol.Builders.{Fallbacks}

-- SipVoiceBridgeConnectionState
pub data ConnectionState : Type 0 where
  disconnected connecting connected : ConnectionState

-- An Error: a ProtocolValidationError, or any other with its name and its message.
pub data Failure : Type 0 where
  protocol : ValidationError → Failure
  failure : (name message : String) → Failure

-- Something thrown, or the event of an error: an Error, or another value.
pub data Raised : Type 0 where
  an_error : Failure → Raised
  a_value : Value → Raised

-- SipVoiceBridgeClientState
pub record ClientState : Type 0 where
  pub connection_state : ConnectionState
  pub last_error : Option Failure
  pub last_status : Option Value
  pub hello : Option Value

-- What the client does that is seen outside, the latest first: it calls the state listeners, calls
-- the event listeners, sends on a transport or closes one, or settles the promise of a `connect`. A
-- transport goes by the number of the `connect` that made it.
pub data Output : Type 0 where
  state_emitted : ClientState → Output
  event_emitted : Value → Output
  command_sent : ℕ → Value → Output
  transport_closed : (transport code : ℕ) (reason : String) → Output
  promise_settled : ℕ → Option Failure → Output

-- transportFactory made a transport, with whether its readyState is open already and whether its
-- listeners can be taken off, or it threw.
pub data Made : Type 0 where
  made : (ready removable : Bool) → Made
  not_made : Raised → Made

-- `close` of a transport may run the listeners for `close` before it returns, and it may throw.
pub record Closing : Type 0 where
  pub at_once : Bool
  pub raised : Option Raised

-- The surroundings. Each answer may depend on all that went before.
pub record ClientEnv : Type 0 where
  pub date_parses : String → Bool
  pub json_parse : String → Option Value
  pub fallbacks : List Output → Fallbacks
  pub make_transport : List Output → Made
  pub send_data : List Output → Value → Option Raised
  pub close_transport : List Output → Closing
  pub listen : List Output → Value → Option Raised

-- detachTransportListeners: the transport whose listeners it takes off, if that is possible.
pub record Listeners : Type 0 where
  pub transport : ℕ
  pub removable : Bool

-- The fields; `attached` lists the transports whose events reach the client, `microtasks` counts the
-- calls of handleTransportOpen that are queued, and two counters number what is made.
pub record Client : Type 0 where
  pub connection_state : ConnectionState
  pub transport : Option ℕ
  pub detach : Option Listeners
  pub pending_connect : Option ℕ
  pub connect_promise : Option ℕ
  pub last_error : Option Failure
  pub last_status : Option Value
  pub hello : Option Value
  pub attached : List ℕ
  pub microtasks : ℕ
  pub next_transport : ℕ
  pub next_promise : ℕ
  pub outputs : List Output

unfoldable pub new_client : Client
new_client = record {
  connection_state = disconnected;
  transport = none;
  detach = none;
  pending_connect = none;
  connect_promise = none;
  last_error = none;
  last_status = none;
  hello = none;
  attached = [];
  microtasks = 0;
  next_transport = 0;
  next_promise = 0;
  outputs = [];
}

-- a === b
abbrev pub same_state : ConnectionState → ConnectionState → Bool
same_state disconnected disconnected = true
same_state connecting connecting = true
same_state connected connected = true
same_state _ _ = false

abbrev message_or : Value → String → Failure
message_or (str message) fallback = failure "Error" (if message == "" then fallback else message)
message_or _ fallback = failure "Error" fallback

-- toError
unfoldable pub to_error : Raised → String → Failure
to_error (an_error f) fallback = f
to_error (a_value (obj fs)) fallback = message_or (get "message" fs) fallback
to_error (a_value _) fallback = failure "Error" fallback

unfoldable pub get_state : Client → ClientState
get_state c = record {
  connection_state = c.connection_state;
  last_error = c.last_error;
  last_status = c.last_status;
  hello = c.hello;
}

abbrev pub output : Output → Client → Client
output o c = record c { outputs = o ∷ c.outputs }

-- emitState. The state listeners neither throw nor call the client.
unfoldable pub emit_state : Client → Client
emit_state c = output (state_emitted (get_state c)) c

unfoldable pub set_connection_state : ConnectionState → Client → Client
unfolding emit_state
set_connection_state st c =
    if same_state c.connection_state st then c else emit_state (record c { connection_state = st })
