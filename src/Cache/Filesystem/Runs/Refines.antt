-- ===== src/Cache/Filesystem/Runs/Refines.antt =====
-- A run of the cache against the abstract map.
use verus_gateway.Base.{
  ℕ, ◌≡◌, ◌≢◌, refl, ◌∙◌, true, inl, inr, none, some, List, [], ◌∷◌, arith, ◌==◌, list_eq, nat_eq,
  if◌then◌else◌, All, Bool-cases, Option-cases, length,
}
use verus_gateway.Base.Bytes.{Str}
use verus_gateway.Base.Int.{ℤ, pos, ◌-ℤ◌, ◌≤ℤ◌}
use verus_gateway.Domain.Errors.{Error, ok}
use verus_gateway.Domain.File.{File}
use verus_gateway.Cache.Disk.{find, IsTree}
use verus_gateway.Cache.World.{Codec, Io, cut}
use verus_gateway.Cache.State.{FilesystemCache}
use verus_gateway.Cache.Filesystem.{make_room, content_path, set, delete, get, clear}
use verus_gateway.Cache.Filesystem.Paths.{IsDigest}
use verus_gateway.Cache.Filesystem.RoundTrip.{get-eq-ok}
use verus_gateway.Cache.Filesystem.Loss.{
  Loses, make_room-Loses, cleanup-Loses, clear-Loses, get-Loses, delete-Loses, find-nil,
}
use verus_gateway.Cache.Filesystem.Runs.{
  Op, get_op, set_op, delete_op, clear_op, tick_op, step, run, stores, deletes, clears, Value,
  replay, IsOrderly,
}
use verus_gateway.Cache.Filesystem.Runs.Writes.{Holds, Loses-Holds, stored-Holds, same_key}
use verus_gateway.Cache.Filesystem.Runs.Effects.{
  Written-cases, clear-empty, delete-gone, deletes-ctx, deletes-none, set-ctx, set-mkdir,
  set-reaches, stores-ctx, stores-mkdir, stores-unopened, stores-written, unopened-Loses,
}

module _ (codec : Codec) (digest : IsDigest codec) (base : Str) (ttl : ℤ) (asked : Str) where
  abbrev HoldsHere : Value → FilesystemCache → Type 0
  HoldsHere = Holds codec digest base ttl asked

  abbrev lost : {c c' : FilesystemCache} (v : Value) → Loses c c' → HoldsHere v c → HoldsHere v c'
  lost v l h = Loses-Holds codec digest base ttl asked v l h

  -- A cache that has lost the key's file holds nothing, and so any value.
  gone-Holds :
      (v w : Value) (c c' : FilesystemCache)
      → Loses c c'
      → HoldsHere v c
      → find (content_path codec base asked) c'.disk ≡ none
      → HoldsHere w c'
  gone-Holds v w c c' l h none' = record {
    base_dir = l.base_dir ∙ h.base_dir;
    same_ttl = l.ttl ∙ h.same_ttl;
    tree = l.tree h.tree;
    found = inl none';
  }

  module _ (io : Io) (c : FilesystemCache) (v : Value) (h : HoldsHere v c) where
    set-Holds :
        (key : Str) (file : File) (t : ℤ)
        → (codec.sha256 asked ≡ codec.sha256 key → asked ≡ key)
        → ((n : ℕ) (e : Error) → io.content_written ≢ cut n e)
        → HoldsHere
            (if stores io then (if asked == key then some (file.content, io.now) else v) else v)
            (set codec io key file t c).0
    set-Holds key file t apart whole =
        let room = make_room io (length file.content) c in
        let h' = lost v (make_room-Loses io (length file.content) c) h in
        elim (Option-cases io.ctx) [
          | inr (e, k) ↦ rw (set-ctx codec io key file t c e k, stores-ctx io e k) h
          | inl k ↦ elim (Option-cases io.mkdir_error) [
            | inr (e, l) ↦ rw (set-mkdir codec io key file t c e k l, stores-mkdir io e k l) h'
            | inl l ↦ elim (Written-cases io.content_written) [
              | inl done ↦
                  rw (set-reaches codec io key file t c k l, stores-written io k l done)
                    (stored-Holds codec digest base ttl asked io key file room v done apart h')
              | inr (inl (e, no_file)) ↦
                  rw (set-reaches codec io key file t c k l, stores-unopened io e k l no_file)
                    (lost v (unopened-Loses codec io key file room e no_file) h')
              | inr (inr (n, e, half)) ↦ absurd (whole n e half)
            ]
          ]
        ]

    delete-Holds :
        (key : Str)
        → ((p : Str) → io.removes p ≡ true)
        → HoldsHere
            (if deletes io then (if asked == key then none else v) else v)
            (delete codec io key c).0
    delete-Holds key removes =
        let l = delete-Loses codec io key c in
        elim (Option-cases io.ctx) [
          | inr (e, k) ↦ rw (deletes-ctx io e k) (lost v l h)
          | inl k ↦ elim (Bool-cases (asked == key)) [
            | inr other ↦ rw (deletes-none io k, other) (lost v l h)
            | inl same ↦
                rw (deletes-none io k, same)
                  (gone-Holds v none c _ l h (
                    delete-gone codec io key c asked base h.base_dir h.tree k removes
                      (same_key codec digest base ttl asked key same)))
          ]
        ]

    clear-Holds : HoldsHere (if clears io then none else v) (clear io c).0
    clear-Holds =
        let l = clear-Loses io c in
        elim (Bool-cases (clears io)) [
          | inr kept ↦ rw kept (lost v l h)
          | inl emptied ↦ rw emptied (
              gone-Holds v none c _ l h
                (rw (clear-empty io c emptied) (find-nil (content_path codec base asked))))
        ]

  step-Holds :
      (op : Op) (c : FilesystemCache) (v : Value)
      → IsOrderly codec asked op
      → HoldsHere v c
      → HoldsHere (replay asked (op ∷ []) v) (step codec op c)
  unfolding replay step
  step-Holds (get_op io key) c v o h = lost v (get-Loses codec io key c) h
  step-Holds (set_op io key file t) c v (apart, whole) h = set-Holds io c v h key file t apart whole
  step-Holds (delete_op io key) c v o h = delete-Holds io c v h key o
  step-Holds (clear_op io) c v o h = clear-Holds io c v h
  step-Holds (tick_op io) c v o h = lost v (cleanup-Loses io c) h

  replay-cons :
      (op : Op) (ops : List Op) (v : Value)
      → replay asked (op ∷ ops) v ≡ replay asked ops (replay asked (op ∷ []) v)
  unfolding replay
  replay-cons (get_op io key) ops v = refl
  replay-cons (set_op io key file t) ops v = refl
  replay-cons (delete_op io key) ops v = refl
  replay-cons (clear_op io) ops v = refl
  replay-cons (tick_op io) ops v = refl

  replay-nil : (v : Value) {c : FilesystemCache} → HoldsHere v c → HoldsHere (replay asked [] v) c
  unfolding replay
  replay-nil v h = h

  run-Holds :
      (ops : List Op) (c : FilesystemCache) (v : Value)
      → All (IsOrderly codec asked) ops
      → HoldsHere v c
      → HoldsHere (replay asked ops v) (run codec ops c)
  unfolding run
  run-Holds [] c v o h = replay-nil v h
  run-Holds (op ∷ ops) c v (o, os) h =
      rw replay-cons (run-Holds ops (step codec op c) _ os (step-Holds op c v o h))

-- Any sequence of operations refines the map that keeps, for a key, what was stored last and not
-- deleted since, and may lose it: what a `Get` returns after them is the content of that map, stored
-- no longer ago than the TTL, from a cache that had no file for the key. This holds with evictions,
-- expiry, cleanups and failing system calls in between, as long as no write stops half way and each
-- removal of a `Delete` succeeds, and where SHA-256 tells the key from the others that are stored.
pub run-get :
    (codec : Codec) (asked : Str) (ops : List Op) (c c' : FilesystemCache) (io : Io) (file : File)
    → IsDigest codec
    → IsTree c.disk
    → find (content_path codec c.base_dir asked) c.disk ≡ none
    → All (IsOrderly codec asked) ops
    → get codec io asked (run codec ops c) ≡ (c', ok file)
    → (t : ℕ) × (replay asked ops none ≡ some (file.content, t)) × ((pos io.now -ℤ pos t) ≤ℤ c.ttl)
run-get codec asked ops c c' io file digest tree absent orderly h =
    let start : Holds codec digest c.base_dir c.ttl asked none c = record {
      base_dir = refl;
      same_ttl = refl;
      tree = tree;
      found = inl absent;
    } in
    let held = run-Holds codec digest c.base_dir c.ttl asked ops c none orderly start in
    let (_, (e, at, same, young), _) = get-eq-ok codec io asked (run codec ops c) c' file h in
    elim held.found [
      | inl none' ↦ absurd (ground arith)
      | inr (e', at', v) ↦ (e'.mod_time, ground arith, ground arith)
    ]
