-- ===== src/Storage/Decompressor.antt =====
-- internal/storage/decompressor.go. The gzip reader is compress/gzip's; what it delivers for a
-- content is the argument `gunzip`.
pub mod Limit
use mathlib.Core.List.{flatten}
use verus_gateway.Base.{
  ℕ, ◌+◌, ◌*◌, ◌≤◌, ◌≡◌, Bool, true, false, ◌&&◌, Option, none, some, List, [], ◌∷◌, ◌++◌, ◌==◌,
  nat_eq, not, if◌then◌else◌, length, take,
}
use verus_gateway.Base.Bytes.{Byte, Bytes, Str, lit}
use verus_gateway.Base.Int.{ℤ, pos, pos_part, ◌-ℤ◌, leb_ℤ, ltb_ℤ}
use verus_gateway.Base.Decimal.{decimal_ℤ}
use verus_gateway.Domain.Errors.{Error, plain, Result, ok, err, error_text, new_decompression_error}

pub record Decompressor : Type 0 where
  pub max_size : ℤ

-- `NewDecompressor`, from the field `MaxSize` of its configuration.
unfoldable pub new_decompressor : ℤ → Decompressor
new_decompressor max_size = record {
  max_size =
      if leb_ℤ max_size (pos 0) && leb_ℤ (pos 0) max_size
      then pos (100 * 1024 * 1024)
      else max_size;
}

-- A gzip reader: refused at the header, or the reads that it answers and the error after them, which
-- is none at the end of the data.
pub data GzipReader : Type 0 where
  bad_header : Error → GzipReader
  reads : List Bytes → Option Error → GzipReader

-- `limitedWriter`: what has been written, and the number of bytes that are still allowed.
pub record LimitedWriter : Type 0 where
  pub w : Bytes
  pub n : ℤ

-- How `io.Copy` into a limited writer ends.
pub data Ending : Type 0 where
  copied : Ending
  size_limit_exceeded : Ending
  failed : Error → Ending

-- `Write`: the writer, the number of bytes written, and whether the limit was met. The buffer below
-- takes every write whole.
unfoldable pub write : LimitedWriter → Bytes → LimitedWriter × ℕ × Bool
write l p =
    if leb_ℤ l.n (pos 0)
    then (l, 0, true)
    else (let p' = if ltb_ℤ l.n (pos (length p)) then take (pos_part l.n) p else p in
        let n' = l.n -ℤ pos (length p') in
        (record { w = l.w ++ p'; n = n' }, length p', leb_ℤ n' (pos 0)))

-- `io.Copy`: a read of no bytes is not written.
unfoldable pub copy : LimitedWriter → List Bytes → Option Error → LimitedWriter × Ending
copy l [] none = (l, copied)
copy l [] (some e) = (l, failed e)
copy l ([] ∷ rest) e = copy l rest e
copy l ((b ∷ bs) ∷ rest) e =
    let (l', written, over) = write l (b ∷ bs) in
    let more = copy l' rest e in
    if over
    then (l', size_limit_exceeded)
    else if not (written == length (b ∷ bs))
    then (l', failed (plain (lit "short write")))
    else more

-- `isGzipped`
unfoldable pub is_gzipped : Bytes → Bool
is_gzipped [] = false
is_gzipped (a ∷ []) = false
is_gzipped (a ∷ b ∷ content) = a == 0x1F && b == 0x8B

module _ (gunzip : Bytes → GzipReader) (d : Decompressor) where
  limit_error : Error
  limit_error =
      new_decompression_error
        (lit "decompressed size exceeds limit of " ++ (decimal_ℤ d.max_size ++ lit " bytes"))

  finish : LimitedWriter × Ending → Result Bytes
  finish (l, copied) = ok l.w
  finish (l, size_limit_exceeded) = err limit_error
  finish (l, failed e) = err e

  unfoldable pub decompress_gzip : Bytes → Result Bytes
  unfolding finish limit_error
  decompress_gzip content = elim (gunzip content) [
    | bad_header e ↦ err e
    | reads chunks e ↦ finish (copy (record { w = []; n = d.max_size }) chunks e)
  ]

  unfoldable pub decompress : Bytes → Result Bytes
  unfolding decompress_gzip
  decompress content =
      if not (is_gzipped content) then ok content else elim (decompress_gzip content) [
        | err e ↦ err (new_decompression_error (lit "gzip decompression failed: " ++ error_text e))
        | ok decompressed ↦ ok decompressed
      ]

  unfoldable pub must_decompress : Bytes → Bytes
  must_decompress content = elim (decompress content) [
    | err e ↦ content
    | ok decompressed ↦ decompressed
  ]
