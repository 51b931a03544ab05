-- ===== src/Runtime/State.antt =====
-- plugin/src/runtime.ts: the state of the call manager, what it asks of its surroundings, and what
-- they answer. The objects that closures share are kept in a store; the map of calls holds their
-- places in it.
use openclaw_sip_voice.Base.{ℕ, Bool, true, false, String, List, Option, if◌then◌else◌, eqb}
use openclaw_sip_voice.Protocol.Value.{Number, Value}
use openclaw_sip_voice.Protocol.Builders.{RemoteParty}

pub data Direction : Type 0 where
  inbound outbound : Direction

-- ManagedCallState
pub data CallState : Type 0 where
  ringing dialing active ending ended : CallState

-- Which of the optional methods an object has.
pub record Methods : Type 0 where
  pub connect : Bool
  pub send_audio : Bool
  pub speak : Bool
  pub send_text : Bool
  pub close : Bool

-- SipVoiceRuntimeRealtimeSession, with a number that tells sessions apart.
pub record Session : Type 0 where
  pub handle : ℕ
  pub own : Methods
  pub bridge : Option Methods

-- ManagedCall
pub record ManagedCall : Type 0 where
  pub call_id : String
  pub direction : Direction
  pub state : CallState
  pub remote : RemoteParty
  pub started_at : String
  pub ended_at : Option String
  pub requested_by_command_id : Option String
  pub outcome : Option String
  pub end_reason : Option String
  pub session : Option Session
  pub next_audio_out_sequence : ℕ
  pub outbound_audio_remainder : List ℕ

-- PendingOutboundCall
pub record PendingOutboundCall : Type 0 where
  pub command_id : String
  pub remote : RemoteParty
  pub message : Option String
  pub started_at : String

-- SipVoiceRuntimeEventRecord
pub record EventRecord : Type 0 where
  pub at : String
  pub type : String
  pub call_id : Option String
  pub message : Option String
  pub details : Option (List (String × Value))

-- SipVoiceRuntimeErrorRecord
pub record ErrorRecord : Type 0 where
  pub at : String
  pub message : String
  pub call_id : Option String
  pub code : Option String
  pub fatal : Option Bool

-- The fields of CallEndEvent that the runtime reads.
pub record CallEndEvent : Type 0 where
  pub call_id : String
  pub outcome : String
  pub duration_ms : Option Number
  pub reason_code : Option String

-- What the runtime asks of the bridge client.
pub data Command : Type 0 where
  status_get : Command
  call_answer : String → Command
  call_dial : RemoteParty → Command
  audio_out : String → ℕ → List ℕ → Command
  audio_clear : String → Option String → Command
  call_hangup : String → String → Command
  disconnect : ℕ → String → Command

-- The call returned, with the id of its command, or it threw an error with this message.
pub data Reply : Type 0 where
  accepted : String → Reply
  refused : String → Reply

-- What a realtime session may do with the audio sink while one of its methods runs.
pub data SinkCall : Type 0 where
  sink_send_audio : List ℕ → SinkCall
  sink_clear : Value → SinkCall
  sink_mark : String → SinkCall

-- On which object a method of the session is called.
pub data Receiver : Type 0 where
  session_itself session_bridge : Receiver

pub data Invocation : Type 0 where
  connects closes : Invocation
  sends_audio : String → Invocation
  speaks sends_text : String → Invocation

-- How a call of a method ended: it returned a value that is no promise, a promise, or it threw.
pub data Ending : Type 0 where
  returned promised : Ending
  threw : String → Ending

pub record Answer : Type 0 where
  pub sink_calls : List SinkCall
  pub ending : Ending

-- createRealtimeSession returned a session, or threw.
pub data Creation : Type 0 where
  created : List SinkCall → Session → Creation
  not_created : List SinkCall → String → Creation

-- What has been asked and answered so far, the latest first.
pub data Effect : Type 0 where
  sent : Command → Reply → Effect
  invoked : ℕ → Receiver → Invocation → Answer → Effect
  asked_session : String → Creation → Effect

-- What is done when the promise of `close` is settled.
pub data AfterClose : Type 0 where
  nothing : AfterClose
  finalizing : CallEndEvent → AfterClose
  hanging_up : AfterClose

-- What an `await` waits for: a promise, or a value or an error that is at hand.
pub data Awaited : Type 0 where
  promise : Awaited
  at_hand : Option String → Awaited

-- The continuations that wait: those of `connect`, `close`, `sendAudio` and of speech, with the place
-- of the call in the store.
pub data Job : Type 0 where
  connecting : ℕ → Job
  closing : ℕ → AfterClose → Job
  hearing : String → Job
  speaking : String → Awaited → Job

-- How a promise is settled: `none` if it is fulfilled.
abbrev pub Settlement : Type 0
Settlement = Option String

pub record BridgeState : Type 0 where
  pub connection_state : String
  pub last_error : Option String
  pub hello : Option Value
  pub last_status : Option Value

-- The configuration that the runtime reads, and the surroundings. Each answer may depend on all that
-- happened before; times may depend on how often the clock was read. `redact` is redactSensitiveText,
-- of which nothing is used here but that it is a function of the text.
pub record Env : Type 0 where
  pub enabled : Bool
  pub max_concurrent_calls : Number
  pub provider : String
  pub model : String
  pub now : ℕ → String
  pub redact : String → String
  pub send : List Effect → Command → Reply
  pub invoke : List Effect → ℕ → Receiver → Invocation → Answer
  pub create_session : List Effect → String → Creation

pub record State : Type 0 where
  pub stopped : Bool
  pub listening : Bool
  pub latest_bridge_state : BridgeState
  pub hello_snapshot : Option Value
  pub status_snapshot : Option Value
  pub calls : List (String × ℕ)
  pub objects : ℕ → ManagedCall
  pub next_object : ℕ
  pub pending_outbound_calls : List (String × PendingOutboundCall)
  pub recent_events : List EventRecord
  pub recent_errors : List ErrorRecord
  pub jobs : List Job
  pub trace : List Effect
  pub clock_reads : ℕ

-- call.state === "ended"
abbrev pub is_ended : CallState → Bool
is_ended ended = true
is_ended _ = false

abbrev pub update : (ℕ → ManagedCall) → ℕ → ManagedCall → ℕ → ManagedCall
update objects r call q = if eqb r q then call else objects q

-- An assignment to fields of the object at `r`.
abbrev pub modify : ℕ → (ManagedCall → ManagedCall) → State → State
modify r f s = record s { objects = update s.objects r (f (s.objects r)) }

abbrev pub set_state : ℕ → CallState → State → State
set_state r st = modify r (λ call. record call { state = st })

abbrev pub set_remainder : ℕ → List ℕ → State → State
set_remainder r bytes = modify r (λ call. record call { outbound_audio_remainder = bytes })

abbrev pub set_sequence : ℕ → ℕ → State → State
set_sequence r n = modify r (λ call. record call { next_audio_out_sequence = n })

abbrev pub set_session : ℕ → Option Session → State → State
set_session r session = modify r (λ call. record call { session = session })
