-- ===== src/Radius/Eap/Session.antt =====
-- internal/radius/eap_session.go, and what the handler of eap_handler.go reads and changes. Whether an
-- attribute takes a value is a field of `EapBackend`, as layeh.com/radius's setters decide it.
use Prim.Native.String.{◌++◌ as ◌<>◌}
use isp.Common.{ℕ, ◌*◌, String, Bool, Option, some, List}
use isp.Common.Clock.{Time, Duration, second}
use isp.Common.Bytes.{Bytes}
use isp.Localcache.Store
use isp.Localcache.Store.{Store}
use isp.Nas.Attributes.{Attr}
use isp.Radius.BruteForce.{Guard}
use isp.Radius.Auth.{Subscriber, Backend}
use isp.Radius.Eap.Mschap.{Primitives}

pub data Stage : Type 0 where
  identity_requested challenge_issued awaiting_success_ack : Stage

pub record EapSession : Type 0 where
  pub stage : Stage
  pub username : Bytes
  pub authenticator_challenge : Bytes
  pub peer_challenge : Bytes
  pub nt_response : Bytes
  pub mschapv2_id : ℕ
  pub eap_identifier : ℕ
  pub authenticator_response : Bytes

abbrev pub Sessions : Type 0
Sessions = Store EapSession

abbrev pub eap_session_ttl : Duration
eap_session_ttl = 60 * second

abbrev pub eap_session_key : String → String
eap_session_key state = "radius_eap:" <> state

unfoldable pub save : Time → String → EapSession → Sessions → Sessions
save now state sess s = Store.set now (eap_session_key state) sess eap_session_ttl s

unfoldable pub load : Time → String → Sessions → Option EapSession
load now state s = Store.get now (eap_session_key state) s

unfoldable pub discard : String → Sessions → Sessions
discard state s = Store.delete (eap_session_key state) s

-- The attributes of a request that the handler reads: the message is empty where there is none.
pub record EapRequest : Type 0 where
  pub eap_message : Bytes
  pub state : String
  pub user_name : Bytes

-- What `crypto/rand` gives, in the order it is asked for.
pub record Random : Type 0 where
  pub new_challenge : Option Bytes
  pub new_state : Option String

pub record EapBackend : Type 0 where
  pub backend : Backend
  pub primitives : Primitives
  -- `string(b)`
  pub as_text : Bytes → String
  pub takes_eap_message : Bytes → Bool
  pub takes_state : String → Bool

pub data EapReply : Type 0 where
  eap_accept : Subscriber → List Attr → Bytes → EapReply
  eap_challenge : String → Bytes → EapReply
  -- without a message where the attribute did not take it
  eap_reject : Option Bytes → EapReply

-- What a conversation changes; the sessions are `none` where EAP is not configured.
pub record EapState : Type 0 where
  pub guard : Guard
  pub eap_sessions : Option Sessions

abbrev pub set_sessions : Sessions → EapState → EapState
set_sessions s d = record d { eap_sessions = some s }
