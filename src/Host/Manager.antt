-- ===== src/Host/Manager.antt =====
-- osbuild/host.py: `ServiceManager`. The log has what it does to services, in order. What a spawned
-- process comes to is an argument of `start`: the process, or the error that `Popen` raises.
pub mod Exit
use osbuild.Prelude.{
  ℕ, zero, suc, String, Bool, true, false, Option, none, some, List, [], ◌∷◌, ◌++◌, length,
  if◌then◌else◌, Result, ok, err, ◌>>=◌, runtime_error, value_error, assertion_error,
}
use osbuild.Prelude.Dict
use osbuild.Prelude.Dict.{Dict}

pub record ServiceClient : Type 0 where
  pub uid : String
  pub proc : ℕ

-- A service is stopped when its socket is closed and its process has ended.
pub data Act : Type 0 where
  spawned : List String → Act
  stopped : String → Act

pub record ServiceManager : Type 0 where
  pub running : Bool
  pub services : Dict ServiceClient
  pub log : List Act

abbrev pub manager_init : ServiceManager
manager_init = record { running = false; services = []; log = [] }

unfoldable pub enter : ServiceManager → Result ServiceManager
enter m = if m.running then err assertion_error else ok (record m { running = true })

abbrev pub command_line : String → String → String → List String → List String
command_line cmd uid fd extra_args = cmd ∷ "--service-id" ∷ uid ∷ "--service-fd" ∷ fd ∷ extra_args

unfoldable pub start :
    String
    → String
    → String
    → List String
    → Result ℕ
    → ServiceManager
    → Result (ServiceManager × ServiceClient)
start uid cmd fd extra_args spawn m =
    if m.running
    then (if Dict.has uid m.services
        then err value_error
        else (spawn >>= λ proc.
            let service : ServiceClient = record { uid = uid; proc = proc } in
            ok (
              record m {
                services = Dict.put uid service m.services;
                log = m.log ++ spawned (command_line cmd uid fd extra_args) ∷ [];
              },
              service,
            )))
    else err runtime_error

-- `ServiceClient.stop`
stop_client : ServiceClient → ServiceManager → ServiceManager
stop_client service m = record m { log = m.log ++ stopped service.uid ∷ [] }

abbrev pub stop_found : Option ServiceClient → ServiceManager → Result ServiceManager
unfolding stop_client
stop_found none m = err value_error
stop_found (some service) m = ok (stop_client service m)

unfoldable pub stop : String → ServiceManager → Result ServiceManager
stop uid m = stop_found (Dict.get uid m.services) m

-- `popitem`, which takes the last entry.
unfoldable pub pop_item : Dict ServiceClient → Option (Dict ServiceClient × ServiceClient)
pop_item [] = none
pop_item ((k, v) ∷ []) = some ([], v)
pop_item ((k, v) ∷ e ∷ rest) = elim (pop_item (e ∷ rest)) [
  | none ↦ none
  | some (before, last) ↦ some ((k, v) ∷ before, last)
]

-- `while self.services`, with fuel for the services.
unfoldable pub stop_all : ℕ → ServiceManager → ServiceManager
unfolding pop_item stop_client
stop_all zero m = m
stop_all (suc n) m = elim (pop_item m.services) [
  | none ↦ m
  | some (before, service) ↦ stop_all n (stop_client service (record m { services = before }))
]

unfoldable pub exit : ServiceManager → ServiceManager
unfolding stop_all
exit m = stop_all (length m.services) m
