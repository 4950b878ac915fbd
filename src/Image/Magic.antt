-- ===== src/Image/Magic.antt =====
-- The format checks of crates/imi-core/src/common/image.rs. A file is the list of what its reads
-- yield, like a decoder's stream.
pub mod Formats
use imi.Common.{
  ℕ, String, Bytes, List, [], ◌∷◌, Option, none, some, Bool, true, false, if◌then◌else◌, take,
  replicate, starts_with, codes, Result, ok, err,
}
use imi.Error.{IoKind, say, msg, context_io}
use imi.Exec.{Exec, pure, raise, lift, call, get, ◌>>=◌, ◌>>◌}
use imi.Events.{Compression, raw, gzip, xz, bzip2, zstd}
use imi.Host.{Host, Read}
use imi.Image.Fill.{Fill, fill_buffer}

abbrev pub read_part : Fill → Result IoKind Bytes
read_part (ok (n, buf, es)) = ok (take n buf)
read_part (err k) = err k

-- the part of the buffer that is read; the loop is that of `fill_buffer`
unfoldable pub read_full_best_effort : List Read → ℕ → Result IoKind Bytes
unfolding fill_buffer
read_full_best_effort es n = read_part (fill_buffer es (replicate n 0))

-- the `find` over the table
abbrev pub lookup : Bytes → List (Bytes × String) → Option String
lookup prefix [] = none
lookup prefix ((magic, name) ∷ known) =
    if starts_with prefix magic then some name else lookup prefix known

abbrev pub known_archives : List (Bytes × String)
known_archives =
    (80 ∷ 75 ∷ 3 ∷ 4 ∷ [], "zip")
    ∷ (80 ∷ 75 ∷ 5 ∷ 6 ∷ [], "zip (empty archive)")
    ∷ (80 ∷ 75 ∷ 7 ∷ 8 ∷ [], "zip (spanned archive)")
    ∷ (55 ∷ 122 ∷ 188 ∷ 175 ∷ 39 ∷ 28 ∷ [], "7-zip")
    ∷ (4 ∷ 34 ∷ 77 ∷ 24 ∷ [], "lz4")
    ∷ (82 ∷ 97 ∷ 114 ∷ 33 ∷ [], "rar")
    ∷ (76 ∷ 90 ∷ 73 ∷ 80 ∷ [], "lzip")
    ∷ (137 ∷ 76 ∷ 90 ∷ 79 ∷ [], "lzop")
    ∷ []

unfoldable pub unsupported_archive : Bytes → Option String
unfolding starts_with
unsupported_archive prefix = lookup prefix known_archives

unfoldable pub classify : Bytes → Compression
unfolding starts_with
classify prefix =
    if starts_with prefix (31 ∷ 139 ∷ [])
    then gzip
    else if starts_with prefix (253 ∷ 55 ∷ 122 ∷ 88 ∷ 90 ∷ 0 ∷ [])
    then xz
    else if starts_with prefix (66 ∷ 90 ∷ 104 ∷ [])
    then bzip2
    else if starts_with prefix (40 ∷ 181 ∷ 47 ∷ 253 ∷ [])
    then zstd
    else raw

module _ (h : Host) where
  open h use {World, open_file, reads}

  abbrev pub refuse_or : Bytes → Bytes → Option String → Exec World Compression
  refuse_or path prefix (some kind) =
      raise (msg (say "archive which this tool cannot decompress" [] (path ∷ codes kind ∷ [])))
  refuse_or path prefix none = pure (classify prefix)

  unfoldable pub detect_compression : Bytes → Exec World Compression
  unfolding read_full_best_effort unsupported_archive classify msg
  detect_compression path = do
    call (say "open" [] (path ∷ [])) (open_file path)
    file ← get (reads raw)
    prefix ←
        lift (context_io (say "read magic bytes" [] (path ∷ [])) (read_full_best_effort file 8))
    refuse_or path prefix (unsupported_archive prefix)
