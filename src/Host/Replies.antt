-- ===== src/Host/Replies.antt =====
-- osbuild/host.py: what the loop of `Service.serve` owes its peer and the process.
use mathlib.Core.List.{Perm}
use mathlib.Core.List.Perm
use osbuild.Prelude.{ℕ, suc, List, [], ◌∷◌, ◌++◌, ◌≡◌}
use osbuild.Json.{Json}
use osbuild.Host.Protocol.{Outcome, raised, returned, Texts}
use osbuild.Host.Service.{
  Event, signalled, replied, closed, closed_set, escaped, Incoming, Implementation, Dispatched,
  close_all, emitted, handle_message, reply_for,
}

abbrev pub replies : List Event → ℕ
replies [] = 0
replies (signalled msg fds ∷ rest) = replies rest
replies (replied msg fds ∷ rest) = suc (replies rest)
replies (closed fd ∷ rest) = replies rest
replies (closed_set fds ∷ rest) = replies rest
replies (escaped e ∷ rest) = replies rest

abbrev pub closed_fds : List Event → List ℕ
closed_fds [] = []
closed_fds (signalled msg fds ∷ rest) = closed_fds rest
closed_fds (replied msg fds ∷ rest) = closed_fds rest
closed_fds (closed fd ∷ rest) = fd ∷ closed_fds rest
closed_fds (closed_set fds ∷ rest) = fds ++ closed_fds rest
closed_fds (escaped e ∷ rest) = closed_fds rest

-- The events of a round behind its signals.
abbrev round_events : List (Json × List ℕ) → List ℕ → List ℕ → Json → List ℕ → List Event
round_events signals early left reply fds =
    emitted signals ++ (close_all early ++ (closed_set left ∷ replied reply fds ∷ close_all fds))

-- The descriptors of a reply.
abbrev pub reply_fds : Outcome (Json × List ℕ) → List ℕ
reply_fds (raised e) = []
reply_fds (returned (ret, fds)) = fds

module _ {S : Type 0} (t : Texts) (service : Implementation S) where
  -- What `dispatch` hands over for some messages, with the state after each: first the descriptors
  -- that it left in the set of the message, and those of its reply.
  abbrev left_and_returned : Dispatched S → List ℕ
  left_and_returned d = d.left ++ reply_fds d.result

  unfoldable pub handed : S → List Incoming → List ℕ
  handed s [] = []
  handed s (inc ∷ rest) =
      let d = handle_message t service s inc.msg inc.fds in
      left_and_returned d ++ handed d.state rest

  Owes : Dispatched S → Outcome (Json × List ℕ) → Type 0
  Owes d r =
      let (reply, fds, early) = reply_for t service d.state r in
      let events =
        emitted d.signals ++ (early ++ (closed_set d.left ∷ replied reply fds ∷ close_all fds)) in
      (replies events ≡ 1) × Perm (closed_fds events) (d.left ++ reply_fds r)
