-- ===== src/Host/Calls.antt =====
-- osbuild/host.py: a call of `call_with_fds` and the round of `serve` that answers it.
use mathlib.Core.List.{append_assoc, append-nil}
use osbuild.Prelude.{
  ℕ, Bool, true, false, Option, List, [], ◌∷◌, ◌++◌, if◌then◌else◌, ◌≡◌, ◌∙◌, refl, Bool-cases, inl,
  inr,
}
use osbuild.Json.{Json, str, truthy}
use osbuild.Host.Protocol.{
  Raised, Outcome, raised, returned, Texts, decode_message, decode_method, decode_reply,
  decode_exception, encode_exception, encode_reply, encode_signal, is_text,
}
use osbuild.Host.Service.{
  Event, signalled, replied, closed, closed_set, escaped, sent, Implementation, bad_descriptor,
  close_all, emitted, check_fds, handle_message, reply_for, answer,
}
use osbuild.Host.Client.{Called, got, remote_error, or_no_args, request, Heard, heard, wait}

module _ (carry : List ℕ → List ℕ) where
  -- The messages among the events, with their descriptors as the peer gets them.
  abbrev pub delivered : List Event → List (Json × List ℕ)
  delivered [] = []
  delivered (signalled msg fds ∷ rest) = (msg, carry fds) ∷ delivered rest
  delivered (replied msg fds ∷ rest) = (msg, carry fds) ∷ delivered rest
  delivered (closed fd ∷ rest) = delivered rest
  delivered (closed_set fds ∷ rest) = delivered rest
  delivered (escaped e ∷ rest) = delivered rest

  -- The signals as `on_signal` gets them.
  abbrev pub carried : List (Json × List ℕ) → List (Json × List ℕ)
  carried [] = []
  carried ((sig, fds) ∷ rest) = (sig, carry fds) ∷ carried rest

  delivered-append : (xs ys : List Event) → delivered (xs ++ ys) ≡ delivered xs ++ delivered ys
  delivered-append [] ys = refl
  delivered-append (signalled msg fds ∷ rest) ys = cc (delivered-append rest ys)
  delivered-append (replied msg fds ∷ rest) ys = cc (delivered-append rest ys)
  delivered-append (closed fd ∷ rest) ys = delivered-append rest ys
  delivered-append (closed_set fds ∷ rest) ys = delivered-append rest ys
  delivered-append (escaped e ∷ rest) ys = delivered-append rest ys

  delivered-close_all : (fds : List ℕ) → delivered (close_all fds) ≡ []
  delivered-close_all [] = refl
  delivered-close_all (fd ∷ rest) = delivered-close_all rest

  module _ {S : Type 0} (t : Texts) (service : Implementation S) (listening : Bool) where
    -- How a call ends where its `dispatch` came to a result.
    abbrev pub outcome : S → Outcome (Json × List ℕ) → Called
    outcome s (raised e) = remote_error (str e.name) (str e.text) (str (t.format_tb e))
    outcome s (returned (ret, fds)) =
        if check_fds t service s fds
        then got ret (carry fds)
        else remote_error (str bad_descriptor.name) (str bad_descriptor.text)
            (str (t.format_tb bad_descriptor))

    wait-signal :
        (sig : Json) (fds : List ℕ) (rest : List (Json × List ℕ))
        → wait t listening ((encode_signal sig, fds) ∷ rest)
          ≡ heard listening sig fds (wait t listening rest)
    unfolding wait decode_message decode_reply encode_signal is_text
    wait-signal sig fds rest = refl

    wait-emitted :
        (signals : List (Json × List ℕ)) (rest : List (Json × List ℕ))
        → wait t listening (delivered (emitted signals) ++ rest) ≡ (
          (if listening then carried signals else []) ++ (wait t listening rest).0,
          (wait t listening rest).1,
        )
    unfolding emitted
    wait-emitted [] rest = nothing listening (wait t listening rest)
      where
        nothing : (l : Bool) (h : Heard) → h ≡ ((if l then carried [] else []) ++ h.0, h.1)
        nothing true h = refl
        nothing false h = refl
    wait-emitted ((sig, fds) ∷ signals) rest =
        wait-signal sig (carry fds) (delivered (emitted signals) ++ rest)
        ∙ (rw (wait-emitted signals rest) (step listening))
      where
        step :
            (l : Bool)
            → heard l sig (carry fds) (
              (if l then carried signals else []) ++ (wait t listening rest).0,
              (wait t listening rest).1,
            )
              ≡ (
                (if l then carried ((sig, fds) ∷ signals) else []) ++ (wait t listening rest).0,
                (wait t listening rest).1,
              )
        step true = refl
        step false = refl

    wait-reply :
        (ret : Json) (fds : List ℕ) (rest : List (Json × List ℕ))
        → wait t listening ((encode_reply ret, fds) ∷ rest) ≡ ([], got ret fds)
    unfolding wait decode_message decode_reply encode_reply is_text
    wait-reply ret fds rest = refl

    wait-exception :
        (e : Raised) (fds : List ℕ) (rest : List (Json × List ℕ))
        → wait t listening ((encode_exception t e, fds) ∷ rest)
          ≡ ([], remote_error (str e.name) (str e.text) (str (t.format_tb e)))
    unfolding wait decode_message decode_exception encode_exception is_text
    wait-exception e fds rest = refl

    handle_message-request :
        (s : S) (name : Json) (args : Option Json) (fds : List ℕ)
        → truthy name ≡ true
        → handle_message t service s (request name args) fds
          ≡ service.dispatch s name (or_no_args args) fds
    unfolding handle_message decode_message decode_method request is_text
    handle_message-request s name args fds named = rw named refl

    round_end : List Event → List ℕ → Json → List ℕ → List Event
    round_end early left reply fds = early ++ (closed_set left ∷ replied reply fds ∷ close_all fds)

    wait-round_end :
        (early : List ℕ) (left : List ℕ) (reply : Json) (fds : List ℕ) (rest : List (Json × List ℕ))
        → wait t listening (delivered (round_end (close_all early) left reply fds) ++ rest)
          ≡ wait t listening ((reply, carry fds) ∷ rest)
    unfolding round_end
    wait-round_end [] left reply fds rest = rw (delivered-close_all fds) refl
    wait-round_end (fd ∷ early) left reply fds rest = wait-round_end early left reply fds rest

    reply_events : S → Outcome (Json × List ℕ) → List ℕ → List Event
    unfolding round_end
    reply_events s r left =
        let (reply, fds, early) = reply_for t service s r in round_end early left reply fds

    -- The reply of a round, or its error, ends the call.
    wait-reply_events :
        (s : S) (r : Outcome (Json × List ℕ)) (left : List ℕ) (rest : List (Json × List ℕ))
        → wait t listening (delivered (reply_events s r left) ++ rest) ≡ ([], outcome s r)
    unfolding reply_events check_fds
    wait-reply_events s (raised e) left rest =
        wait-round_end [] left (encode_exception t e) [] rest ∙ wait-exception e (carry []) rest
    wait-reply_events s (returned (ret, fds)) left rest =
        elim (Bool-cases (check_fds t service s fds)) [
          | inl open_all ↦
              rw open_all (
                wait-round_end [] left (encode_reply ret) fds rest
                ∙ wait-reply ret (carry fds) rest)
          | inr bad ↦ rw bad (
              wait-round_end fds left (encode_exception t bad_descriptor) [] rest
              ∙ wait-exception bad_descriptor (carry []) rest)
        ]

    -- A call whose name counts as true, answered by a round of the service that can send, ends with what `dispatch`
    -- came to for it: the value and the descriptors, if these are open; else an error with the class,
    -- the text and the backtrace of what was raised. Signals come first, in their order, if the caller
    -- wants them. What else the service sends later does not count.
    pub call-answer :
        (s : S) (name : Json) (args : Option Json) (fds : List ℕ) (rest : List (Json × List ℕ))
        → truthy name ≡ true
        → let d = service.dispatch s name (or_no_args args) fds in
          let round =
            answer t service s (record { msg = request name args; fds = fds; sending = sent }) in
          (round.0 ≡ d.state)
          × (wait t listening (delivered round.1 ++ rest)
              ≡ (if listening then carried d.signals else [], outcome d.state d.result))
    unfolding answer reply_events round_end
    call-answer s name args fds rest named =
        let d = service.dispatch s name (or_no_args args) fds in
        let tail = reply_events d.state d.result d.left in
        rw (handle_message-request s name args fds named) (
          refl,
          rw (delivered-append (emitted d.signals) tail) (
              rw append_assoc (
                wait-emitted d.signals (delivered tail ++ rest)
                ∙ rw (wait-reply_events d.state d.result d.left rest) (rw append-nil refl))),
        )
