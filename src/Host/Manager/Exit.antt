-- ===== src/Host/Manager/Exit.antt =====
-- osbuild/host.py: which services a `ServiceManager` stops, and when.
use mathlib.Core.List.{append_assoc, append-nil, reverse-cons, reverse-reverse}
use osbuild.Prelude.{
  ℕ, suc, ◌+◌, String, false, Option, none, some, List, [], ◌∷◌, ◌++◌, map, reverse, reverse_aux,
  length, Result, ok, err, ◌≡◌, refl, sym, ap, ◌∙◌, arith,
}
use osbuild.Prelude.Dict
use osbuild.Prelude.Dict.{Dict}
use osbuild.Host.Manager.{
  ServiceClient, Act, spawned, stopped, ServiceManager, manager_init, enter, start, stop,
  stop_client, stop_found, pop_item, stop_all, exit, command_line,
}

-- The calls in the context of a manager. One that raises changes nothing, and the context may go on.
pub data Call : Type 0 where
  starts : (uid cmd fd : String) (extra_args : List String) (spawn : Result ℕ) → Call
  stops : String → Call

abbrev after_start : ServiceManager → Result (ServiceManager × ServiceClient) → ServiceManager
after_start m (err e) = m
after_start m (ok (m', service)) = m'

abbrev after_stop : ServiceManager → Result ServiceManager → ServiceManager
after_stop m (err e) = m
after_stop m (ok m') = m'

unfoldable pub run : List Call → ServiceManager → ServiceManager
run [] m = m
run (starts uid cmd fd extra spawn ∷ rest) m =
    run rest (after_start m (start uid cmd fd extra spawn m))
run (stops uid ∷ rest) m = run rest (after_stop m (stop uid m))

abbrev uid_of : List String → List String
uid_of (cmd ∷ option ∷ uid ∷ rest) = uid ∷ []
uid_of _ = []

-- The services of a log, in the order in which they were started.
abbrev pub started : List Act → List String
started [] = []
started (spawned argv ∷ rest) = uid_of argv ++ started rest
started (stopped uid ∷ rest) = started rest

abbrev uids : Dict ServiceClient → List String
uids [] = []
uids ((k, v) ∷ rest) = v.uid ∷ uids rest

started-append : (xs ys : List Act) → started (xs ++ ys) ≡ started xs ++ started ys
started-append [] ys = refl
started-append (spawned argv ∷ rest) ys = simp (started-append rest ys, append_assoc)
started-append (stopped uid ∷ rest) ys = started-append rest ys

uids-snoc :
    (d : Dict ServiceClient) (k : String) (v : ServiceClient)
    → uids (d ++ (k, v) ∷ []) ≡ uids d ++ v.uid ∷ []
uids-snoc [] k v = refl
uids-snoc ((j, w) ∷ rest) k v = ap (λ x. w.uid ∷ x) (uids-snoc rest k v)

put-new :
    (k : String) (v : ServiceClient) (d : Dict ServiceClient)
    → Dict.has k d ≡ false
    → Dict.put k v d ≡ d ++ (k, v) ∷ []
unfolding Dict.put Dict.has
put-new k v [] h = refl
put-new k v ((j, w) ∷ rest) h = ground (arith, put-new k v rest)

-- The services of a manager are those that its log has started, in that order.
Follows : ServiceManager → Type 0
Follows m = uids m.services ≡ started m.log

uids-put :
    (uid cmd fd : String) (extra : List String) (service : ServiceClient) (m : ServiceManager)
    → service.uid ≡ uid
    → uids m.services ≡ started m.log
    → Dict.has uid m.services ≡ false
    → uids (Dict.put uid service m.services)
      ≡ started (m.log ++ spawned (command_line cmd uid fd extra) ∷ [])
uids-put uid cmd fd extra service m e h fresh =
    rw
      (
        put-new uid service m.services fresh,
        uids-snoc m.services uid service,
        started-append m.log (spawned (command_line cmd uid fd extra) ∷ []),
        h,
        e,
      )
      refl

start-Follows :
    (uid cmd fd : String) (extra : List String) (spawn : Result ℕ) (m : ServiceManager)
    → Follows m
    → Follows (after_start m (start uid cmd fd extra spawn m))
unfolding Follows start
start-Follows uid cmd fd extra (err e) m h = ground arith
start-Follows uid cmd fd extra (ok proc) m h =
    ground (arith, uids-put uid cmd fd extra (record { uid = uid; proc = proc }) m)

stop-Follows : (uid : String) (m : ServiceManager) → Follows m → Follows (after_stop m (stop uid m))
unfolding Follows stop stop_client
stop-Follows uid m h = stopped_found (Dict.get uid m.services)
  where
    stopped_found :
        (found : Option ServiceClient)
        → uids (after_stop m (stop_found found m)).services
          ≡ started (after_stop m (stop_found found m)).log
    stopped_found none = h
    stopped_found (some service) =
        h ∙ sym (started-append m.log (stopped service.uid ∷ []) ∙ append-nil _)

run-Follows : (calls : List Call) (m : ServiceManager) → Follows m → Follows (run calls m)
unfolding run
run-Follows [] m h = h
run-Follows (starts uid cmd fd extra spawn ∷ rest) m h =
    run-Follows rest _ (start-Follows uid cmd fd extra spawn m h)
run-Follows (stops uid ∷ rest) m h = run-Follows rest _ (stop-Follows uid m h)

pop_item-snoc :
    (d : Dict ServiceClient) (k : String) (v : ServiceClient)
    → pop_item (d ++ (k, v) ∷ []) ≡ some (d, v)
unfolding pop_item
pop_item-snoc [] k v = refl
pop_item-snoc (e ∷ []) k v = refl
pop_item-snoc (e ∷ f ∷ rest) k v = rw (pop_item-snoc (f ∷ rest) k v) refl

-- The end of the context, for services that are given from the last to the first.
stop_all-pop :
    (n : ℕ) (m : ServiceManager) {before : Dict ServiceClient} {service : ServiceClient}
    → pop_item m.services ≡ some (before, service)
    → stop_all (suc n) m ≡ stop_all n (stop_client service (record m { services = before }))
unfolding stop_all
stop_all-pop n m popped = rw (popped, stop_all) refl

stop_all-reverse :
    (m : ServiceManager) (last_first : Dict ServiceClient)
    → m.services ≡ reverse last_first
    → let ended = stop_all (length last_first) m in
      (ended.services ≡ []) × (ended.log ≡ m.log ++ map stopped (uids last_first))
unfolding stop_all stop_client
stop_all-reverse m [] e = (e, sym (append-nil m.log))
stop_all-reverse m ((k, v) ∷ rest) e =
    let popped : pop_item m.services ≡ some (reverse rest, v) =
      ap pop_item (e ∙ reverse-cons (k, v) rest) ∙ pop_item-snoc (reverse rest) k v in
    let m' = stop_client v (record m { services = reverse rest }) in
    let (none_left, logged) = stop_all-reverse m' rest refl in
    let step = stop_all-pop (length rest) m popped in
    (
      ap (λ x. x.services) step ∙ none_left,
      ap (λ x. x.log) step ∙ logged ∙ append_assoc m.log (stopped v.uid ∷ []) _,
    )

length-reverse_aux :
    {A : Type 0} (xs acc : List A) → length (reverse_aux xs acc) ≡ length xs + length acc
length-reverse_aux [] acc = omega arith
length-reverse_aux (x ∷ xs) acc = omega (arith, length-reverse_aux xs (x ∷ acc))

uids-append : (d e : Dict ServiceClient) → uids (d ++ e) ≡ uids d ++ uids e
uids-append [] e = refl
uids-append ((k, v) ∷ rest) e = ap (λ x. v.uid ∷ x) (uids-append rest e)

uids-reverse : (d : Dict ServiceClient) → uids (reverse d) ≡ reverse (uids d)
uids-reverse [] = refl
uids-reverse ((k, v) ∷ rest) =
    rw
      (
        reverse-cons (k, v) rest,
        uids-append (reverse rest) ((k, v) ∷ []),
        uids-reverse rest,
        reverse-cons v.uid (uids rest),
      )
      refl

exit-reverse :
    (m : ServiceManager)
    → ((exit m).services ≡ []) × ((exit m).log ≡ m.log ++ map stopped (reverse (uids m.services)))
unfolding exit
exit-reverse m =
    let (none_left, logged) = stop_all-reverse m (reverse m.services) (sym (reverse-reverse _)) in
    let same : length (reverse m.services) ≡ length m.services =
      omega (arith, length-reverse_aux m.services []) in
    (
      ap (λ n. (stop_all n m).services) (sym same) ∙ none_left,
      ap (λ n. (stop_all n m).log) (sym same)
          ∙ logged
          ∙ ap (λ x. m.log ++ map stopped x) (uids-reverse m.services),
    )

-- Whatever is started and stopped in the context of a new manager, its end stops every service that was
-- started, the last one first, and leaves none registered.
pub exit-run :
    (calls : List Call) {m : ServiceManager}
    → enter manager_init ≡ ok m
    → let before = run calls m in
      let after = exit before in
      (after.services ≡ []) × (after.log ≡ before.log ++ map stopped (reverse (started before.log)))
unfolding enter Follows
exit-run calls {m} entered =
    let (none_left, logged) = exit-reverse (run calls m) in
    let follows = run-Follows calls m (ground arith) in
    (none_left, logged ∙ ap (λ x. (run calls m).log ++ map stopped (reverse x)) follows)
