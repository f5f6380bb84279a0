-- ===== src/Tests/Services.antt =====
-- Runs of osbuild/host.py: a service that counts its calls, calls to it, and a manager.
use osbuild.Prelude.{
  ℕ, suc, ◌+◌, true, false, none, some, List, [], ◌∷◌, ◌++◌, map, reverse, if◌then◌else◌,
  same_number, ◌≡◌, refl, ok, err, os_error,
}
use osbuild.Json.{num, str}
use osbuild.Host.Protocol.{Texts, returned}
use osbuild.Host.Service.{sent, Implementation, Incoming, answer}
use osbuild.Host.Client.{request, wait}
use osbuild.Host.Calls.{delivered, carried, outcome, call-answer}
use osbuild.Host.Manager.{ServiceManager, manager_init, enter, exit, stopped}
use osbuild.Host.Manager.Exit.{Call, starts, stops, run, started, exit-run}

abbrev texts : Texts
texts = record { format = λ parts. "text"; about = λ e value. "refused"; format_tb = λ e. "line 1" }

-- Each call gives back the number of calls, with a descriptor that is open up to the third call, and
-- sends a signal first.
abbrev counter : Implementation ℕ
counter = record {
  dispatch = λ n name args fds. record {
    state = suc n;
    signals = (num n, []) ∷ [];
    left = fds;
    result = returned (num (suc n), n ∷ []);
  };
  is_open = λ n fd. if same_number fd 3 then false else true;
}

-- Descriptors get other numbers in the process of the caller.
abbrev renumbered : List ℕ → List ℕ
renumbered = map (λ fd. fd + 100)

call-answer_example :
    let d = counter.dispatch 1 (str "count") (str "now") (7 ∷ []) in
    let round =
      answer texts counter 1
        (record { msg = request (str "count") (some (str "now")); fds = 7 ∷ []; sending = sent }) in
    (round.0 ≡ d.state)
    × (wait texts true (delivered renumbered round.1 ++ [])
        ≡ (carried renumbered d.signals, outcome renumbered texts counter true d.state d.result))
call-answer_example =
    call-answer renumbered texts counter true 1 (str "count") (some (str "now")) (7 ∷ []) [] refl

abbrev messages : List Incoming
messages =
    record { msg = request (str "count") none; fds = 4 ∷ []; sending = sent }
    ∷ record { msg = num 7; fds = []; sending = sent }
    ∷ []

abbrev calls : List Call
calls =
    starts "device/disk" "/usr/lib/osbuild/devices/loop" "3" [] (ok 71)
    ∷ starts "device/disk" "/usr/lib/osbuild/devices/loop" "4" [] (ok 72)
    ∷ starts "mount/root" "/usr/lib/osbuild/mounts/xfs" "4" [] (ok 73)
    ∷ stops "mount/root"
    ∷ starts "mount/boot" "/nothing" "5" [] (err os_error)
    ∷ []

abbrev entered : ServiceManager
entered = record { running = true; services = []; log = [] }

entered_run : enter manager_init ≡ ok entered
unfolding enter
entered_run = refl

exit-run_example :
    ((exit (run calls entered)).services ≡ [])
    × ((exit (run calls entered)).log
        ≡ (run calls entered).log ++ map stopped (reverse (started (run calls entered).log)))
exit-run_example = exit-run calls entered_run
