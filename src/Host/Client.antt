-- ===== src/Host/Client.antt =====
-- osbuild/host.py: `ServiceClient.call_with_fds`. The messages that it receives are a list; behind it
-- the peer has closed the connection.
use osbuild.Prelude.{ℕ, Bool, Option, none, some, List, [], ◌∷◌, if◌then◌else◌}
use osbuild.Json.{Json, arr, nil, null}
use osbuild.Host.Protocol.{
  Raised, Outcome, raised, returned, Texts, decode_message, decode_reply, decode_exception,
  encode_method, is_text,
}

pub data Called : Type 0 where
  got : Json → List ℕ → Called
  remote_error : Json → Json → Json → Called
  failed : Raised → Called

abbrev pub or_no_args : Option Json → Json
or_no_args none = arr nil
or_no_args (some args) = args

-- The message that a call sends.
unfoldable pub request : Json → Option Json → Json
unfolding encode_method
request name args = encode_method name (or_no_args args)

-- The signals that were passed to `on_signal`, and how the call ends.
abbrev pub Heard : Type 0
Heard = List (Json × List ℕ) × Called

abbrev pub heard : Bool → Json → List ℕ → Heard → Heard
heard listening ret fds (signals, called) =
    (if listening then (ret, fds) ∷ signals else signals, called)

abbrev pub reply_of : Outcome Json → List ℕ → Heard
reply_of (raised e) fds = ([], failed e)
reply_of (returned ret) fds = ([], got ret fds)

abbrev pub error_of : Outcome (Json × Json × Json) → Heard
error_of (raised e) = ([], failed e)
error_of (returned (name, value, tb)) = ([], remote_error name value tb)

abbrev pub signal_of : Bool → Outcome Json → List ℕ → Heard → Heard
signal_of listening (raised e) fds later = ([], failed e)
signal_of listening (returned ret) fds later = heard listening ret fds later

module _ (t : Texts) (listening : Bool) where
  -- What one message does, where `later` is what those behind it do.
  abbrev pub on_message : Outcome (Json × Json) → List ℕ → Heard → Heard
  unfolding is_text
  on_message (raised e) fds later = ([], failed e)
  on_message (returned (kind, content)) fds later =
      if is_text "signal" kind
      then signal_of listening (decode_reply t content) fds later
      else (if is_text "reply" kind
          then reply_of (decode_reply t content) fds
          else (if is_text "exception" kind then error_of (decode_exception t content) else later))

  unfoldable pub wait : List (Json × List ℕ) → Heard
  wait [] = on_message (decode_message t null) [] ([], got null [])
  wait ((msg, fds) ∷ rest) = let later = wait rest in on_message (decode_message t msg) fds later
