-- ===== src/Lib.antt =====
-- The plugin's side of the SIP voice bridge: the protocol between the plugin and the bridge, the
-- client that speaks it over a transport, and the runtime that manages calls and their realtime
-- sessions; and the check that the fixtures of the protocol go through.
--
-- The parts, and the files that model them:
-- * plugin/src/protocol.ts, what a message is. Protocol/Value: JSON values, fields in order, places
--   and issues. Protocol/Pattern: the regular expressions, as tests of texts. Protocol/Validators:
--   the combinators (literal, enumValue, boundedString and the rest) and validateExactObject.
--   Protocol/Specs: MESSAGE_SPECS and its parts. Protocol/Messages: validateProtocolMessage,
--   validateBridgeEvent, validatePluginCommand and the assertions. Protocol/Parse: the parse
--   functions. Protocol/Base64 and Protocol/Builders: the builders of commands, which validate what
--   they return.
-- * plugin/src/runtime.ts, the call manager. Runtime/State: the variables of createSipVoiceRuntime
--   as a record. Objects that closures share (ManagedCall) are in a store, and the map of calls
--   holds their places, so that `calls.get(id) === call` compares places. Runtime/Records:
--   recordEvent, recordError and the limits of tail. Runtime/Audio: popOutboundAudioFrames.
--   Runtime/Sink: the audio sink and sendAudioClear. Runtime/Sessions: closeSession, finalizeCall,
--   createSessionForCall, connectRealtimeSession, sendAudioToRealtime, sendRealtimeSpeech.
--   Runtime/Calls: the handlers of call.start and call.end. Runtime/Api: handleBridgeEvent, the
--   state listener, call, speak, hangup, tail, stop. Runtime/Snapshot: sanitizeBridgeSnapshot.
--   Runtime/Start: the start, getStatus, and the relations Step and Reach, which interleave
--   everything that can happen in any order.
-- * plugin/src/bridge-client.ts, the connection to the bridge. Client/State: the fields of
--   SipVoiceBridgeClient, with a number for each transport and for each promise that connect makes,
--   and a list of all that is seen outside. Client/Connection: connect, disconnect,
--   finishDisconnected and the handlers of open and close. Client/Messages: the handlers of a
--   message and of an error. Client/Commands: the methods that send. Client/Steps: the histories of
--   a client. The runtime does not use this model: it takes a bridge client as a parameter, so that
--   its theorems hold whatever the client answers.
-- * plugin/src/config.ts, the configuration. Config/Text: trim and join. Config:
--   parseSipVoiceConfig and summarizeSipVoiceConfig.
-- * plugin/src/realtime.ts, the parameters of a realtime session. Realtime:
--   createSipVoiceRealtimeBridgeSession and the two functions that it calls.
-- * plugin/index.ts, the entry of the plugin. Entry/Input: the readers of parameters, which return
--   what they read or the message of the SipVoicePublicInputError that they throw. Entry/Actions:
--   runSipVoiceAction, with the call that it makes on the runtime beside what it comes to.
--   Entry/Handlers: the tool, the gateway methods and the command line, as functions from what they
--   get to what they show. Entry/Lifetime: ensureRuntime and the service, over the variables that
--   they share.
-- * protocol/validator.mjs, the check of the fixtures. Fixtures/Parts, Fixtures/Events,
--   Fixtures/Commands: its own copy of MESSAGE_SPECS. Fixtures/Messages: validateMessage.
--   Fixtures/Run: runFixtureValidation. The regular expressions, the combinators of validators and
--   validateExactObject are the same text as in plugin/src/protocol.ts, and are those of Protocol
--   here.
-- * Base holds what the parts share: Boolean tests, lists and maps over the native numbers. Tests
--   runs the model on concrete inputs.
--
-- How the code corresponds to the model. A function of the source has a definition of the same
-- name, in snake case; where it goes on after a call of its surroundings, the rest is a definition
-- by clauses on the reply. The bridge client and the realtime sessions are functions in Env from
-- all that happened so far to an answer; a session may use the audio sink while one of its methods
-- runs, also while it is created. A promise of the runtime is a Job in the state, and `settled`
-- runs any of them next, with any outcome. The transport of the client and its event listeners are
-- functions in ClientEnv in the same way. Errors are values: a refusal, a thrown message, a
-- TypeError (Result.throws).
--
-- Bounds and fuel. The loop of popOutboundAudioFrames runs on the length of the audio plus one as
-- fuel; each round takes 160 bytes, so that it ends before the fuel does. All other functions are
-- by structural recursion. JavaScript numbers are integers of any size, fractions with their whole
-- part, or one of the three special values; sequence numbers are natural numbers.
--
-- Parameters. JSON.parse, whether Date.parse accepts a text, the clock, createCommandId,
-- redactSensitiveText, the configuration's values, the bridge client and the sessions, the
-- transport, the event listeners, the files of the fixtures, the schema of the configuration, and
-- the parser of URLs; for the actions, the runtime, and for a realtime session, the host's
-- providers. The state listeners of the client are assumed neither to throw nor to call the client,
-- and its event listeners not to call it.
--
-- Not modelled: in plugin/index.ts the registration, and in plugin/src/config.ts the JSON schema,
-- which the host makes a validator of; createDefaultTransport; the provider part of the status; the
-- logger; the bridge, a separate program.
pub mod Base
pub mod Protocol
pub mod Runtime
pub mod Client
pub mod Config
pub mod Realtime
pub mod Entry
pub mod Fixtures
mod Tests
