-- ===== src/Cache/Filesystem/Runs/Effects.antt =====
-- What `Set`, `Delete` and `Clear` do in each of their surroundings.
use verus_gateway.Base.{
  ℕ, ◌≡◌, ◌⊎◌, refl, Bool, true, false, inl, inr, none, some, [], arith, list_eq, nat_eq, length,
}
use verus_gateway.Base.Bytes.{Str}
use verus_gateway.Base.Int.{ℤ}
use verus_gateway.Domain.Errors.{Error}
use verus_gateway.Domain.File.{File}
use verus_gateway.Cache.Disk.{Disk, find, IsTree, remove, find-remove}
use verus_gateway.Cache.Disk.Totals.{remove-IsTree}
use verus_gateway.Cache.World.{Codec, Io, Written, written, unopened, cut, apply_write, try_remove}
use verus_gateway.Cache.State.{FilesystemCache}
use verus_gateway.Cache.Filesystem.{
  make_room, content_path, meta_path, store_entry, set, delete, clear,
}
use verus_gateway.Cache.Filesystem.Loss.{Loses, Loses-refl}
use verus_gateway.Cache.Filesystem.Runs.{stores, deletes, clears}

pub Written-cases :
    (w : Written)
    → (w ≡ written) ⊎ (((e : Error) × (w ≡ unopened e)) ⊎ ((n : ℕ) × (e : Error) × (w ≡ cut n e)))
Written-cases written = inl refl
Written-cases (unopened e) = inr (inl (e, refl))
Written-cases (cut n e) = inr (inr (n, e, refl))

-- What a `Set` makes of its surroundings.
module _ (io : Io) where
  pub stores-ctx : (e : Error) → io.ctx ≡ some e → stores io ≡ false
  unfolding stores
  stores-ctx e k = ground arith

  pub stores-mkdir : (e : Error) → io.ctx ≡ none → io.mkdir_error ≡ some e → stores io ≡ false
  unfolding stores
  stores-mkdir e k l = ground arith

  pub stores-written :
      io.ctx ≡ none → io.mkdir_error ≡ none → io.content_written ≡ written → stores io ≡ true
  unfolding stores
  stores-written k l w = ground arith

  pub stores-unopened :
      (e : Error)
      → io.ctx ≡ none
      → io.mkdir_error ≡ none
      → io.content_written ≡ unopened e
      → stores io ≡ false
  unfolding stores
  stores-unopened e k l w = ground arith

module _ (codec : Codec) (io : Io) (key : Str) (file : File) (t : ℤ) (c : FilesystemCache) where
  pub set-ctx : (e : Error) → io.ctx ≡ some e → (set codec io key file t c).0 ≡ c
  unfolding set
  set-ctx e k = ground arith

  pub set-mkdir :
      (e : Error)
      → io.ctx ≡ none
      → io.mkdir_error ≡ some e
      → (set codec io key file t c).0 ≡ make_room io (length file.content) c
  unfolding set
  set-mkdir e k l = ground arith

  pub set-reaches :
      io.ctx ≡ none
      → io.mkdir_error ≡ none
      → (set codec io key file t c).0
        ≡ (store_entry codec io key file (make_room io (length file.content) c)).0
  unfolding set
  set-reaches k l = ground arith

module _ (codec : Codec) (io : Io) (key : Str) (file : File) (c : FilesystemCache) where
  pub unopened-disk :
      (e : Error) → io.content_written ≡ unopened e → (store_entry codec io key file c).0 ≡ c
  unfolding store_entry apply_write
  unopened-disk e w = ground arith

  pub unopened-Loses :
      (e : Error) → io.content_written ≡ unopened e → Loses c (store_entry codec io key file c).0
  unopened-Loses e w = rw (unopened-disk e w) (Loses-refl c)

pub deletes-ctx : (io : Io) (e : Error) → io.ctx ≡ some e → deletes io ≡ false
unfolding deletes
deletes-ctx io e k = ground arith

pub deletes-none : (io : Io) → io.ctx ≡ none → deletes io ≡ true
unfolding deletes
deletes-none io k = ground arith

pub clear-empty : (io : Io) (c : FilesystemCache) → clears io ≡ true → (clear io c).0.disk ≡ []
unfolding clear clears
clear-empty io c h = ground arith

pub try_remove_done :
    (removes : Str → Bool) (p : Str) (d : Disk)
    → removes p ≡ true
    → try_remove removes p d ≡ remove p d
unfolding try_remove
try_remove_done removes p d h = rw h refl

module _ (codec : Codec) (io : Io) (key : Str) (c : FilesystemCache) where
  pub delete-disk :
      io.ctx ≡ none
      → (delete codec io key c).0.disk
        ≡ try_remove io.removes
            (meta_path codec c.base_dir key)
            (try_remove io.removes (content_path codec c.base_dir key) c.disk)
  unfolding delete
  delete-disk k = ground arith

  -- A `Delete` whose removals succeed leaves no content file.
  pub delete-gone :
      (asked base : Str)
      → c.base_dir ≡ base
      → IsTree c.disk
      → io.ctx ≡ none
      → ((p : Str) → io.removes p ≡ true)
      → asked ≡ key
      → find (content_path codec base asked) (delete codec io key c).0.disk ≡ none
  delete-gone asked base b t k removes same =
      let content = content_path codec c.base_dir key in
      let meta = meta_path codec c.base_dir key in
      rw
        (
          same,
          ← b,
          delete-disk k,
          try_remove_done io.removes content c.disk (removes content),
          try_remove_done io.removes meta (remove content c.disk) (removes meta),
        )
        (ground (
          arith,
          find-remove meta content (remove content c.disk) (remove-IsTree content c.disk t),
          find-remove content content c.disk t,
        ))
