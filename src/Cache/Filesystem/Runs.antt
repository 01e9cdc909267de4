-- ===== src/Cache/Filesystem/Runs.antt =====
-- Any sequence of operations on the filesystem cache, against the last file that was stored under a key.
-- The operations hold the cache's mutex, so any interleaving of requests and ticks is such a sequence.
pub mod Writes
pub mod Effects
pub mod Refines
use verus_gateway.Base.{
  ℕ, ◌≡◌, ◌≢◌, refl, Bool, true, false, Option, none, some, List, [], ◌∷◌, arith, ◌==◌, ◌&&◌,
  list_eq, nat_eq, if◌then◌else◌, All,
}
use verus_gateway.Base.Bytes.{Bytes, Str}
use verus_gateway.Base.Int.{ℤ}
use verus_gateway.Domain.Errors.{Error}
use verus_gateway.Domain.File.{File}
use verus_gateway.Cache.World.{Codec, Io, Written, written, unopened, cut}
use verus_gateway.Cache.State.{FilesystemCache}
use verus_gateway.Cache.Upkeep.{cleanup}
use verus_gateway.Cache.Filesystem.{get, set, delete, clear}

-- An operation with its surroundings. A tick is one round of the cleanup.
pub data Op : Type 0 where
  get_op : Io → Str → Op
  set_op : Io → Str → File → ℤ → Op
  delete_op : Io → Str → Op
  clear_op : Io → Op
  tick_op : Io → Op

module _ (codec : Codec) where
  unfoldable pub step : Op → FilesystemCache → FilesystemCache
  step (get_op io key) c = (get codec io key c).0
  step (set_op io key file ttl) c = (set codec io key file ttl c).0
  step (delete_op io key) c = (delete codec io key c).0
  step (clear_op io) c = (clear io c).0
  step (tick_op io) c = cleanup io c

  unfoldable pub run : List Op → FilesystemCache → FilesystemCache
  run [] c = c
  run (op ∷ ops) c = run ops (step op c)

-- Whether a `Set` reports success in these surroundings, and whether a `Delete` and a `Clear` go on to
-- remove anything.
unfoldable pub stores : Io → Bool
stores io = elim io.ctx [
  | some e ↦ false
  | none ↦ elim io.mkdir_error [
    | some e ↦ false
    | none ↦ elim io.content_written [ written ↦ true | unopened e ↦ false | cut n e ↦ false ]
  ]
]

unfoldable pub deletes : Io → Bool
deletes io = elim io.ctx [ some e ↦ false | none ↦ true ]

unfoldable pub clears : Io → Bool
clears io = elim io.ctx [
  | some e ↦ false
  | none ↦ elim io.remove_all_error [ some e ↦ false | none ↦ true ]
]

-- A content and the time at which it was stored.
abbrev pub Value : Type 0
Value = Option (Bytes × ℕ)

-- The abstract map at one key: what was stored last and not deleted since.
unfoldable pub replay : Str → List Op → Value → Value
replay asked [] v = v
replay asked (get_op io key ∷ ops) v = replay asked ops v
replay asked (set_op io key file ttl ∷ ops) v =
    replay asked ops
      (if stores io then (if asked == key then some (file.content, io.now) else v) else v)
replay asked (delete_op io key ∷ ops) v =
    replay asked ops (if deletes io then (if asked == key then none else v) else v)
replay asked (clear_op io ∷ ops) v = replay asked ops (if clears io then none else v)
replay asked (tick_op io ∷ ops) v = replay asked ops v

-- SHA-256 tells the keys apart, a write that fails leaves no part of the file, and a removal succeeds.
abbrev pub IsOrderly : Codec → Str → Op → Type 0
IsOrderly codec asked (set_op io key file ttl) =
    (codec.sha256 asked ≡ codec.sha256 key → asked ≡ key)
    × ((n : ℕ) (e : Error) → io.content_written ≢ cut n e)
IsOrderly codec asked (delete_op io key) = (p : Str) → io.removes p ≡ true
IsOrderly codec asked _ = Unit
