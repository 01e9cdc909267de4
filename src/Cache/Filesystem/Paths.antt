-- ===== src/Cache/Filesystem/Paths.antt =====
-- The paths of the two files that a key has.
use mathlib.Core.List.{append_assoc, append_cancel_right}
use verus_gateway.Base.{
  ◌+◌, ◌-◌, ◌≡◌, ◌≢◌, refl, ap, sym, ◌∙◌, true, false, [], ◌∷◌, ◌++◌, arith, list_eq, length, take,
  drop, length-append, length-take, All,
}
use verus_gateway.Base.Bytes.{Bytes, Str, lit}
use verus_gateway.FilePath.{IsPlain, join, ext-append}
use verus_gateway.Hex.{length-encode, decode-encode, IsByte}
use verus_gateway.Cache.Disk.{is_bin}
use verus_gateway.Cache.World.{Codec}
use verus_gateway.Cache.Upkeep.{meta_of}
use verus_gateway.Cache.Filesystem.{hash_name, content_path, meta_path}

-- SHA-256 gives 32 bytes.
abbrev pub IsDigest : Codec → Type 0
IsDigest codec = (b : Bytes) → (length (codec.sha256 b) ≡ 32) × All IsByte (codec.sha256 b)

join_append : (base sub s e : Str) → join base sub (s ++ e) ≡ join base sub s ++ e
unfolding join lit
join_append base sub s e = rw (append_assoc base, append_assoc sub)

IsPlain-bin : All IsPlain (lit "bin")
unfolding lit
IsPlain-bin = omega arith

IsPlain-meta : All IsPlain (lit "meta")
unfolding lit
IsPlain-meta = omega arith

dot_bin : (s : Str) → is_bin (s ++ lit ".bin") ≡ true
unfolding is_bin lit
dot_bin s = ground (arith, ext-append s (lit "bin") IsPlain-bin)

dot_meta : (s : Str) → is_bin (s ++ lit ".meta") ≡ false
unfolding is_bin lit
dot_meta s = ground (arith, ext-append s (lit "meta") IsPlain-meta)

-- The counters take no notice of a metadata file.
pub is_bin-meta_of : (p : Str) → is_bin (meta_of p) ≡ false
unfolding meta_of
is_bin-meta_of p = dot_meta _

take_append : (s t : Str) → take (length s) (s ++ t) ≡ s
take_append [] t = refl
take_append (c ∷ s) t = ap (◌∷◌ c) (take_append s t)

drop_append : (s t : Str) → drop (length s) (s ++ t) ≡ t
drop_append [] t = refl
drop_append (c ∷ s) t = drop_append s t

length_dot_bin : (s : Str) → length (s ++ lit ".bin") - 4 ≡ length s
unfolding lit
length_dot_bin s = omega (arith, length-append s (lit ".bin"))

meta_of_bin : (s : Str) → meta_of (s ++ lit ".bin") ≡ s ++ lit ".meta"
unfolding meta_of
meta_of_bin s =
    let n : length (s ++ lit ".bin") - 4 ≡ length s = length_dot_bin s in
    rw (n, take_append s (lit ".bin"))

module _ (codec : Codec) (base : Str) where
  stem : Str → Str
  stem key = join base (take 2 (hash_name codec key)) (hash_name codec key)

  content_path-stem : (key : Str) → content_path codec base key ≡ stem key ++ lit ".bin"
  unfolding content_path stem
  content_path-stem key = join_append base _ _ _

  meta_path-stem : (key : Str) → meta_path codec base key ≡ stem key ++ lit ".meta"
  unfolding meta_path stem
  meta_path-stem key = join_append base _ _ _

  pub is_bin-content_path : (key : Str) → is_bin (content_path codec base key) ≡ true
  is_bin-content_path key = rw content_path-stem (dot_bin (stem key))

  pub is_bin-meta_path : (key : Str) → is_bin (meta_path codec base key) ≡ false
  is_bin-meta_path key = rw meta_path-stem (dot_meta (stem key))

  pub meta_of-content_path :
      (key : Str) → meta_of (content_path codec base key) ≡ meta_path codec base key
  meta_of-content_path key = rw (content_path-stem, meta_path-stem) (meta_of_bin (stem key))

  pub content_path-ne-meta_path :
      (key other : Str) → content_path codec base key ≢ meta_path codec base other
  content_path-ne-meta_path key other e =
      cc (is_bin-content_path key, is_bin-meta_path other, ap is_bin e)

  module _ (digest : IsDigest codec) where
    length-hash_name : (key : Str) → length (hash_name codec key) ≡ 64
    unfolding hash_name
    length-hash_name key = omega (arith, length-encode (codec.sha256 key), (digest key).0)

    hash_name-inj :
        (k j : Str) → hash_name codec k ≡ hash_name codec j → codec.sha256 k ≡ codec.sha256 j
    unfolding hash_name
    hash_name-inj k j e =
        cc
          (decode-encode (codec.sha256 k) (digest k).1, decode-encode (codec.sha256 j) (digest j).1)

    before_name : Str → Str
    before_name key = base ++ (lit "/" ++ (take 2 (hash_name codec key) ++ lit "/"))

    stem_split : (key : Str) → stem key ≡ before_name key ++ hash_name codec key
    unfolding stem join before_name lit
    stem_split key = rw (append_assoc base, append_assoc (take 2 (hash_name codec key)))

    length-before_name : (key : Str) → length (before_name key) ≡ length base + 4
    unfolding before_name lit
    length-before_name key =
        let h = hash_name codec key in
        omega (
          arith,
          length-append base (b'/' ∷ (take 2 h ++ b'/' ∷ [])),
          length-append (take 2 h) (b'/' ∷ []),
          length-take 2 h,
          length-hash_name key,
        )

    drop-stem : (key : Str) → drop (length base + 4) (stem key) ≡ hash_name codec key
    drop-stem key =
        rw (stem_split, ← length-before_name key)
          (drop_append (before_name key) (hash_name codec key))

    stem-inj : (k j : Str) → stem k ≡ stem j → codec.sha256 k ≡ codec.sha256 j
    stem-inj k j e =
        hash_name-inj k j (sym (drop-stem k) ∙ ap (drop (length base + 4)) e ∙ drop-stem j)

    -- Keys whose hashes differ have different files.
    pub content_path-inj :
        (k j : Str)
        → content_path codec base k ≡ content_path codec base j
        → codec.sha256 k ≡ codec.sha256 j
    content_path-inj k j e = stem-inj k j (
        append_cancel_right (stem k) (stem j) (lit ".bin")
          (sym (content_path-stem k) ∙ e ∙ content_path-stem j))

    pub meta_path-inj :
        (k j : Str)
        → meta_path codec base k ≡ meta_path codec base j
        → codec.sha256 k ≡ codec.sha256 j
    meta_path-inj k j e = stem-inj k j (
        append_cancel_right (stem k) (stem j) (lit ".meta")
          (sym (meta_path-stem k) ∙ e ∙ meta_path-stem j))
