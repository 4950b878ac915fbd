-- ===== src/Flash/Chunk.antt =====
-- One chunk of the flash: crates/imi-core/src/phases/phase_4.rs. `BUF_SIZE` is the parameter `size`.
use imi.Common.{
  ℕ, ◌+◌, ◌^◌, Bytes, [], ◌∷◌, Option, none, some, Bool, true, false, ltb, leb, ◌==◌, if◌then◌else◌,
  length, take, Result, ok, err,
}
use imi.Error.{
  Error, IoKind, storage_full, write_zero, io, text, say, msg, from_source, add_context,
  context_none,
}
use imi.Exec.{Exec, pure, raise, lift, call, within, ◌>>=◌, ◌>>◌}
use imi.Host.{Host}
use imi.DirectIo.{set_direct}

pub data ChunkOutcome : Type 0 where
  more : ℕ → ChunkOutcome  -- `Continue`
  final : ℕ → ChunkOutcome  -- `Done`

-- `checked_add` on u64, then the bound
unfoldable pub chunk_end_within : ℕ → ℕ → ℕ → Option ℕ
chunk_end_within offset len dev_size =
    let end = offset + len in
    if ltb end (2 ^ 64) then (if leb end dev_size then some end else none) else none

unfoldable pub is_capacity_error : IoKind → Bool
is_capacity_error storage_full = true
is_capacity_error write_zero = true
is_capacity_error _ = false

-- the `match` on what `write_all_at` returns
abbrev pub on_write : Error → IoKind → Error → Error
on_write full k other = if is_capacity_error k then full else other

abbrev pub written_or {ℓ} :
    {S : Type ℓ} → (IoKind → Error) → Result IoKind (Unit {0}) → Exec S (Unit {0})
written_or f (ok u) = pure u
written_or f (err k) = raise (f k)

-- `slice.get(..n)`
abbrev pub prefix : ℕ → Bytes → Option Bytes
prefix n bs = if leb n (length bs) then some (take n bs) else none

module _ (h : Host) (size : ℕ) where
  open h use {World, write_all_at, fdatasync}

  unfoldable pub write_direct : Bytes → ℕ → Exec World (Unit {0})
  unfolding is_capacity_error msg add_context from_source
  write_direct bs offset s =
      let (r, s') = write_all_at bs offset s in
      written_or
        (λ k. on_write (msg (say "device ran out of space" (offset ∷ []) [])) k (
          add_context (say "writing 4 MiB chunk at device offset" (offset ∷ []) [])
            (from_source (io k))))
        r s'

  unfoldable pub write_tail : Bytes → ℕ → Exec World (Unit {0})
  unfolding is_capacity_error msg add_context from_source
  write_tail bs offset s =
      let (r, s') = write_all_at bs offset s in
      written_or
        (λ k.
          on_write (msg (say "device ran out of space writing tail" (length bs ∷ offset ∷ []) [])) k
            (add_context (say "writing tail" (length bs ∷ offset ∷ []) []) (from_source (io k))))
        r s'

  abbrev pub write_filled : Bytes → ℕ → ℕ → ℕ → Exec World ChunkOutcome
  write_filled buf filled offset end =
      if filled == size then (do write_direct buf offset; pure (more end)) else (do
        within (text "disabling O_DIRECT for tail write") (set_direct h false)
        tail ← lift (context_none (text "tail slice exceeds buffer") (prefix filled buf))
        write_tail tail offset
        pure (final end))

  abbrev pub checked_write : Bytes → ℕ → ℕ → ℕ → Option ℕ → Exec World ChunkOutcome
  checked_write buf filled offset dev_size none =
      raise (msg (say "image data exceeds device capacity" (filled ∷ offset ∷ dev_size ∷ []) []))
  checked_write buf filled offset dev_size (some end) = write_filled buf filled offset end

  unfoldable pub process_chunk : Bytes → ℕ → ℕ → ℕ → Exec World ChunkOutcome
  unfolding write_direct write_tail chunk_end_within msg
  process_chunk buf filled offset dev_size =
      if filled == 0
      then pure (final offset)
      else checked_write buf filled offset dev_size (chunk_end_within offset filled dev_size)

  unfoldable pub flash_finalize : Exec World (Unit {0})
  flash_finalize = do
    within (text "clearing O_DIRECT after flash write loop") (set_direct h false)
    call (text "fdatasync after flash write loop") fdatasync
