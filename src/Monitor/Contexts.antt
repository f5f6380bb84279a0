-- ===== src/Monitor/Contexts.antt =====
-- osbuild/monitor.py: the contexts of a stream of entries, and a reader that puts them together again.
use osbuild.Prelude.{String, ◌==◌, true, Option, none, some, List, [], ◌∷◌, if◌then◌else◌, ◌≡◌}
use osbuild.Prelude.Dict
use osbuild.Prelude.Dict.{Dict}
use osbuild.Json.{Json, str, Fields, end, field}
use osbuild.Json.Reads.{find}
use osbuild.Digest.{Digest}
use osbuild.Monitor.{Context, has_id, context_id}
use osbuild.Monitor.Written.{whole}

-- A context that is written as its id only.
unfoldable only_id : Fields → Option String
only_id (field k (str id) end) = if k == "id" then some id else none
only_id fs = none

abbrev store : Fields → Dict Fields → Option Json → Option Fields × Dict Fields
store fs known (some (str id)) = (some fs, Dict.put id fs known)
store fs known other = (none, known)

-- A reader of entries: it keeps what it saw under an id, and looks up an id that stands alone.
unfoldable pub read : Fields → Dict Fields → Option Fields × Dict Fields
unfolding only_id
read fs known = elim (only_id fs) [
  | some id ↦ (Dict.get id known, known)
  | none ↦ store fs known (find "id" fs)
]

unfoldable pub read_all : List Fields → Dict Fields → List (Option Fields)
unfolding read
read_all [] known = []
read_all (fs ∷ rest) known = let (found, known') = read fs known in found ∷ read_all rest known'

module _ (h : Digest) where
  module _ (P : Context → Type 0) where
    -- The reader knows every context that is in the history.
    abbrev Knows : List String → Dict Fields → Type 0
    Knows history known =
        (ctx : Context)
        → P ctx
        → has_id (context_id h ctx) history ≡ true
        → Dict.get (context_id h ctx) known ≡ some (whole h ctx)
