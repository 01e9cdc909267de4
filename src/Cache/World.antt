-- ===== src/Cache/World.antt =====
-- What lies outside internal/cache/filesystem.go: SHA-256, encoding/json, the clock, and the answers
-- of the operating system.
use verus_gateway.Base.{ℕ, Bool, true, Option, none, take, if◌then◌else◌}
use verus_gateway.Base.Bytes.{Bytes, Str}
use verus_gateway.Domain.Errors.{Error, Result}
use verus_gateway.Domain.File.{FileMetadata}
use verus_gateway.Cache.Disk.{Disk, write_file, remove}

-- `unmarshal` is what a zero `FileMetadata` has become after `json.Unmarshal`, whose error is ignored.
pub record Codec : Type 0 where
  pub sha256 : Bytes → Bytes
  pub marshal : FileMetadata → Result Bytes
  pub unmarshal : Bytes → FileMetadata

-- How `os.WriteFile` ends: in full, without opening the file, or after some bytes.
pub data Written : Type 0 where
  written : Written
  unopened : Error → Written
  cut : ℕ → Error → Written

-- One call's surroundings. `ctx` is the error of its context, if that is done. A `RemoveAll` that
-- fails leaves the paths that its test passes.
pub record Io : Type 0 where
  pub ctx : Option Error
  pub now : ℕ
  pub stat_fails : Bool
  pub read_error : Option Error
  pub meta_readable : Bool
  pub mkdir_error : Option Error
  pub content_written : Written
  pub meta_written : Written
  pub removes : Str → Bool
  pub remove_all_error : Option (Error × (Str → Bool))
  pub recreate_error : Option Error

-- Surroundings in which nothing fails.
abbrev pub calm : ℕ → Io
calm now = record {
  ctx = none;
  now = now;
  stat_fails = Bool.false;
  read_error = none;
  meta_readable = true;
  mkdir_error = none;
  content_written = written;
  meta_written = written;
  removes = λ p. true;
  remove_all_error = none;
  recreate_error = none;
}

unfoldable pub apply_write : Written → Str → Bytes → ℕ → Disk → Disk
apply_write written p bytes now d = write_file p (record { content = bytes; mod_time = now }) d
apply_write (unopened e) p bytes now d = d
apply_write (cut n e) p bytes now d =
    write_file p (record { content = take n bytes; mod_time = now }) d

-- `_ = os.Remove(path)`
unfoldable pub try_remove : (Str → Bool) → Str → Disk → Disk
try_remove removes p d = if removes p then remove p d else d
