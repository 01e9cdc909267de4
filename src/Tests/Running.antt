-- ===== src/Tests/Running.antt =====
-- Runs of the cache, the server's middlewares, the administration and the main program.
use verus_gateway.Base.{ℕ, ◌≡◌, refl, ap, none, some, List, [], ◌∷◌, arith, All, list_eq, nat_eq}
use verus_gateway.Base.Bytes.{Str}
use verus_gateway.Base.Int.{pos, ◌-ℤ◌, ◌≤ℤ◌}
use verus_gateway.Domain.Errors.{ok}
use verus_gateway.Domain.File.{File}
use verus_gateway.Cache.World.{calm}
use verus_gateway.Cache.State.{FilesystemCache}
use verus_gateway.Cache.Filesystem.{get}
use verus_gateway.Cache.Filesystem.RoundTrip.{get-set}
use verus_gateway.Cache.Filesystem.Loss.{find-nil}
use verus_gateway.Cache.Filesystem.Runs.{Op, set_op, run, step, replay, IsOrderly}
use verus_gateway.Cache.Filesystem.Runs.Refines.{run-get}
use verus_gateway.Tests.Inputs.{codec, codec-IsDigest, cache, file, metadata}

abbrev fresh_cache : FilesystemCache
fresh_cache = record cache { size = pos 0; items = pos 0; disk = [] }

abbrev key : Str
key = b'a' ∷ []

abbrev ops : List Op
ops = set_op (calm 30) key file (pos 0) ∷ []

abbrev ran : FilesystemCache
ran = run codec ops fresh_cache

abbrev read_back : File
read_back = record {
  txid = [];
  chain_id = [];
  content = file.content;
  metadata = some metadata;
  retrieved_at = 40;
}

ran_found : (get codec (calm 40) key ran).1 ≡ ok read_back
unfolding run step ◌-ℤ◌
ran_found = get-set codec 30 key file (pos 0) fresh_cache 40 metadata [] refl refl (omega arith)

ops-IsOrderly : All (IsOrderly codec key) ops
ops-IsOrderly = (((λ e. refl), λ n e h. cc h), tt)

run-get_example :
    (t : ℕ) × (replay key ops none ≡ some (file.content, t)) × ((pos 40 -ℤ pos t) ≤ℤ pos 50)
run-get_example =
    run-get codec key ops fresh_cache (get codec (calm 40) key ran).0 (calm 40) read_back
      codec-IsDigest tt (find-nil _) ops-IsOrderly
      (ap (λ r. ((get codec (calm 40) key ran).0, r)) ran_found)
