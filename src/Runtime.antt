-- ===== src/Runtime.antt =====
-- What the environments take from Python's libraries, as parameters.
use levelup_bench.Prelude.{String}
use levelup_bench.Core.Json.{JsonValue}

pub record Runtime : Type 0 where
  -- `_stable_hash`: `sha256` of `json.dumps` with sorted keys, in hexadecimal.
  pub stable_hash : JsonValue → String
  -- `repr` of a text, as `{name!r}` prints it.
  pub repr : String → String
