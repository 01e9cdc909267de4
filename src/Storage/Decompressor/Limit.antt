-- ===== src/Storage/Decompressor/Limit.antt =====
-- What a decompression yields, against the whole of the data.
use mathlib.Core.List.{flatten, append_assoc, append-nil}
use mathlib.Core.Path.{subst}
use verus_gateway.Base.{
  ℕ, ◌+◌, ◌≤◌, ◌≡◌, refl, ap, sym, ◌∙◌, ◌↔◌, ◌⊎◌, inl, inr, true, false, Option, none, some, List,
  [], ◌∷◌, ◌++◌, arith, length, take, length-append, length-take, Bool-cases,
}
use verus_gateway.Base.Bytes.{Bytes}
use verus_gateway.Base.Int.{ℤ, pos, pos_part, ◌-ℤ◌, ltb_ℤ, ◌<ℤ◌, -ℤ_parts}
use verus_gateway.Domain.Errors.{Error, ok}
use verus_gateway.Storage.Decompressor.{
  Decompressor, LimitedWriter, Ending, copied, size_limit_exceeded, failed, GzipReader, bad_header,
  reads, write, copy, decompress_gzip, decompress, is_gzipped,
}

-- A write that leaves room takes all of its bytes and reports no error.
write_fits :
    (l : LimitedWriter) (p : Bytes)
    → pos (length p) <ℤ l.n
    → write l p ≡ (record { w = l.w ++ p; n = l.n -ℤ pos (length p) }, length p, false)
unfolding write
write_fits l p h = ground (arith, -ℤ_parts l.n (pos (length p)))

-- Any other write of at least one byte meets the limit.
write_over : (l : LimitedWriter) (p : Bytes) → ¬ (pos (length p) <ℤ l.n) → (write l p).2 ≡ true
unfolding write
write_over l p h = ground (
  arith,
  -ℤ_parts l.n (pos (length p)),
  -ℤ_parts l.n (pos (length (take (pos_part l.n) p))),
  length-take (pos_part l.n) p,
)

abbrev after_write : LimitedWriter → Bytes → LimitedWriter
after_write l p = record { w = l.w ++ p; n = l.n -ℤ pos (length p) }

-- `copy` meets no limit on data of this length.
abbrev pub Fits : ℤ → Bytes → Type 0
Fits n out = (out ≡ []) ⊎ (pos (length out) <ℤ n)

abbrev ending : Option Error → Ending
ending none = copied
ending (some e) = failed e

copy-Fits :
    (l : LimitedWriter) (chunks : List Bytes) (e : Option Error)
    → Fits l.n (flatten chunks)
    → ((copy l chunks e).0.w ≡ l.w ++ flatten chunks) × ((copy l chunks e).1 ≡ ending e)
unfolding copy flatten
copy-Fits l [] none h = (rw append-nil, refl)
copy-Fits l [] (some e) h = (rw append-nil, refl)
copy-Fits l ([] ∷ rest) e h = copy-Fits l rest e h
copy-Fits l ((b ∷ bs) ∷ rest) e h =
    let c : Bytes = b ∷ bs in
    let sum = length-append c (flatten rest) in
    let room : pos (length c) <ℤ l.n = ground (arith, sum) in
    let left : pos (length (flatten rest)) <ℤ (l.n -ℤ pos (length c)) =
      ground (arith, sum, -ℤ_parts l.n (pos (length c))) in
    ground (
      arith,
      write_fits l c room,
      copy-Fits (after_write l c) rest e (inr left),
      append_assoc l.w c (flatten rest),
    )

Fits-more :
    (n : ℤ) (c out : Bytes)
    → pos (length c) <ℤ n
    → Fits (n -ℤ pos (length c)) out
    → Fits n (c ++ out)
Fits-more n c out room (inl e) = inr (ground (arith, length-append c out))
Fits-more n c out room (inr f) =
    inr (omega (arith, length-append c out, -ℤ_parts n (pos (length c))))

copy_over :
    (l : LimitedWriter) (chunks : List Bytes) (e : Option Error)
    → ¬ Fits l.n (flatten chunks)
    → (copy l chunks e).1 ≡ size_limit_exceeded
unfolding copy flatten
copy_over l [] e h = absurd (h (inl refl))
copy_over l ([] ∷ rest) e h = copy_over l rest e h
copy_over l ((b ∷ bs) ∷ rest) e h = elim (Bool-cases (ltb_ℤ (pos (length (b ∷ bs))) l.n)) [
  | inr full ↦ ground (arith, write_over l (b ∷ bs) (ground arith))
  | inl room ↦
      let c : Bytes = b ∷ bs in
      let more : ¬ Fits (l.n -ℤ pos (length c)) (flatten rest) =
        λ f. h (Fits-more l.n c (flatten rest) (ground arith) f) in
      ground (arith, write_fits l c (ground arith), copy_over (after_write l c) rest e more)
]

-- A write never takes more than is allowed.
write-le :
    (l : LimitedWriter) (p : Bytes)
    → length (write l p).0.w + pos_part (write l p).0.n ≤ length l.w + pos_part l.n
unfolding write
write-le l p = ground (
  arith,
  -ℤ_parts l.n (pos (length p)),
  -ℤ_parts l.n (pos (length (take (pos_part l.n) p))),
  length-take (pos_part l.n) p,
  length-append l.w p,
  length-append l.w (take (pos_part l.n) p),
)

copy-le :
    (l : LimitedWriter) (chunks : List Bytes) (e : Option Error)
    → length (copy l chunks e).0.w ≤ length l.w + pos_part l.n
unfolding copy
copy-le l [] none = omega arith
copy-le l [] (some e) = omega arith
copy-le l ([] ∷ rest) e = copy-le l rest e
copy-le l ((b ∷ bs) ∷ rest) e =
    ground (arith, write-le l (b ∷ bs), copy-le (write l (b ∷ bs)).0 rest e)

-- However much data the reader delivers, and however the copy ends, the buffer holds at most the
-- limit.
pub length-copy-le :
    (limit : ℕ) (chunks : List Bytes) (e : Option Error)
    → length (copy (record { w = []; n = pos limit }) chunks e).0.w ≤ limit
length-copy-le limit chunks e = omega (arith, copy-le (record { w = []; n = pos limit }) chunks e)

module _ (gunzip : Bytes → GzipReader) (d : Decompressor) (content : Bytes) where
  -- What a decompression may return as its result.
  abbrev pub Inflates : Bytes → Type 0
  Inflates out =
      (chunks : List Bytes) × (gunzip content ≡ reads chunks none)
      × (out ≡ flatten chunks)
      × Fits d.max_size out

  abbrev start : LimitedWriter
  start = record { w = []; n = d.max_size }

  Fits-dec : (n : ℤ) (out : Bytes) → Fits n out ⊎ (¬ Fits n out)
  Fits-dec n [] = inl (inl refl)
  Fits-dec n (b ∷ out) = elim (Bool-cases (ltb_ℤ (pos (length (b ∷ out))) n)) [
    | inl room ↦ inl (inr (ground arith))
    | inr full ↦ inr (λ f. ground arith)
  ]

  decompress_gzip-eq-ok_iff :
      (out : Bytes) → (decompress_gzip gunzip d content ≡ ok out) ↔ Inflates out
  unfolding decompress_gzip
  decompress_gzip-eq-ok_iff out = (to (gunzip content) refl, from)
    where
      to :
          (r : GzipReader)
          → gunzip content ≡ r
          → decompress_gzip gunzip d content ≡ ok out
          → Inflates out
      to (bad_header e) g h = absurd (ground arith)
      to (reads chunks e) g h = elim (Fits-dec d.max_size (flatten chunks)) [
        | inr over ↦ absurd (ground (arith, copy_over start chunks e over))
        | inl fits ↦
            let done : e ≡ none = ground (arith, copy-Fits start chunks e fits) in
            let same : out ≡ flatten chunks = ground (arith, copy-Fits start chunks e fits) in
            (chunks, g ∙ ap (reads chunks) done, same, subst (Fits d.max_size) (sym same) fits)
      ]

      from : Inflates out → decompress_gzip gunzip d content ≡ ok out
      from (chunks, g, same, fits) =
          ground (arith, copy-Fits start chunks none (subst (Fits d.max_size) same fits))

  -- `Decompress` returns a content that is no gzip data as it is. It returns the data of a gzip
  -- content whole, if the reader ends without an error and the data is empty or shorter than the
  -- limit; data of exactly the limit is refused.
  pub decompress-eq-ok_iff :
      (out : Bytes)
      → (decompress gunzip d content ≡ ok out) ↔ (
          ((is_gzipped content ≡ false) × (out ≡ content))
          ⊎ ((is_gzipped content ≡ true) × Inflates out))
  unfolding decompress
  decompress-eq-ok_iff out = ground (arith, decompress_gzip-eq-ok_iff out)
