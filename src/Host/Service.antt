-- ===== src/Host/Service.antt =====
-- osbuild/host.py: `Service`, the loop that answers messages. A service is a state and its `dispatch`.
-- What the loop does to the outside is a list of events; descriptors are numbers.
use osbuild.Prelude.{ℕ, Bool, true, false, List, [], ◌∷◌, ◌++◌, map, if◌then◌else◌}
use osbuild.Json.{Json, str, truthy}
use osbuild.Host.Protocol.{
  Raised, Outcome, raised, returned, Texts, protocol_error, decode_message, decode_method,
  encode_exception, encode_reply, encode_signal, is_text,
}

-- What a call of `dispatch` comes to: the state, the signals that it sent, the descriptors of the
-- message that it left in their set, and the reply with its descriptors.
pub record Dispatched (S : Type 0) : Type 0 where
  pub state : S
  pub signals : List (Json × List ℕ)
  pub left : List ℕ
  pub result : Outcome (Json × List ℕ)

pub data Event : Type 0 where
  signalled replied : Json → List ℕ → Event
  closed : ℕ → Event
  closed_set : List ℕ → Event
  escaped : Raised → Event

-- What sending a message comes to: the peer may be gone, and any other error, as for a reply that is no
-- JSON or a descriptor that the close of the set has closed, leaves the loop.
pub data Sending : Type 0 where
  sent : Sending
  broken_pipe : Sending
  refused : Raised → Sending

-- A message, its descriptors, and how the reply to it can be sent.
pub record Incoming : Type 0 where
  pub msg : Json
  pub fds : List ℕ
  pub sending : Sending

-- A service: `dispatch`, and whether a descriptor is open in a state.
pub record Implementation (S : Type 0) : Type 0 where
  pub dispatch : S → Json → Json → List ℕ → Dispatched S
  pub is_open : S → ℕ → Bool

abbrev pub bad_descriptor : Raised
bad_descriptor = record { name = "OSError"; text = "[Errno 9] Bad file descriptor" }

abbrev pub close_all : List ℕ → List Event
close_all fds = map closed fds

unfoldable pub emitted : List (Json × List ℕ) → List Event
emitted [] = []
emitted ((sig, fds) ∷ rest) = signalled (encode_signal sig) fds ∷ emitted rest

module _ {S : Type 0} (t : Texts) (service : Implementation S) where
  unfoldable pub check_fds : S → List ℕ → Bool
  check_fds s [] = true
  check_fds s (fd ∷ rest) = if service.is_open s fd then check_fds s rest else false

  abbrev pub not_dispatched : S → List ℕ → Raised → Dispatched S
  not_dispatched s fds e = record { state = s; signals = []; left = fds; result = raised e }

  abbrev pub unknown_type : Json → Raised
  unknown_type kind = protocol_error (t.format (str "unknown message type: " ∷ kind ∷ []))

  -- The part of `_handle_message` behind each of its two calls that may raise.
  abbrev pub dispatched : S → List ℕ → Outcome (Json × Json) → Dispatched S
  dispatched s fds (raised e) = not_dispatched s fds e
  dispatched s fds (returned (name, args)) = service.dispatch s name args fds

  abbrev pub decoded : S → List ℕ → Outcome (Json × Json) → Dispatched S
  unfolding is_text
  decoded s fds (raised e) = not_dispatched s fds e
  decoded s fds (returned (kind, content)) =
      if is_text "method" kind
      then dispatched s fds (decode_method t content)
      else not_dispatched s fds (unknown_type kind)

  unfoldable pub handle_message : S → Json → List ℕ → Dispatched S
  handle_message s msg fds = decoded s fds (decode_message t msg)

  -- The reply, its descriptors, and what an error makes the loop close before it is sent.
  abbrev pub reply_for : S → Outcome (Json × List ℕ) → Json × List ℕ × List Event
  reply_for s (raised e) = (encode_exception t e, [], [])
  reply_for s (returned (ret, fds)) =
      if check_fds s fds
      then (encode_reply ret, fds, [])
      else (encode_exception t bad_descriptor, [], close_all fds)

  -- The reply, and its descriptors closed behind it, also where sending raises.
  abbrev pub send : Sending → Json → List ℕ → List Event
  send sent reply fds = replied reply fds ∷ close_all fds
  send broken_pipe reply fds = close_all fds
  send (refused e) reply fds = close_all fds ++ escaped e ∷ []

  abbrev goes_on : Sending → Bool
  goes_on sent = true
  goes_on _ = false

  -- One round of the loop.
  unfoldable pub answer : S → Incoming → S × List Event
  unfolding handle_message emitted
  answer s inc =
      let d = handle_message s inc.msg inc.fds in
      let (reply, fds, closed_early) = reply_for d.state d.result in
      (
        d.state,
        emitted d.signals ++ (closed_early ++ (closed_set d.left ∷ send inc.sending reply fds)),
      )

  unfoldable pub serve : S → List Incoming → S × List Event
  serve s [] = (s, [])
  serve s (inc ∷ rest) =
      let (s', events) = answer s inc in
      let (last, more) = serve s' rest in
      if truthy inc.msg
      then (if goes_on inc.sending then (last, events ++ more) else (s', events))
      else (s, [])
