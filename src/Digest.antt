-- ===== src/Digest.antt =====
-- The two library calls by which osbuild names things: `json.dumps(value, sort_keys=True)` and the
-- `hexdigest` of a `hashlib.sha256` that was updated with some texts one after the other. Neither
-- is code of the repository, so a proof takes them as this record.
use osbuild.Prelude.{String, List}
use osbuild.Json.{Json}

pub record Digest : Type 0 where
  pub dumps : Json → String
  pub sha256 : List String → String
