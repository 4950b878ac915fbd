-- ===== src/Host/Disk.antt =====
-- What the phases rely on of the claimed device: a write that succeeds puts its bytes in place, one
-- that fails touches no other byte, a read returns what is there, and nothing else changes a byte.
use imi.Common.{
  ℕ, ◌+◌, ◌-◌, ◌≤◌, ◌<◌, Bytes, ◌++◌, ◌&&◌, ◌≡◌, ◌⊎◌, arith, ltb, leb, if◌then◌else◌, length,
  get_or, length-append, get_or-append_left, get_or-append_right,
}
use imi.Events.{Event, Compression}
use imi.Exec.Ends.{Ends}
use imi.Host.{Host}

-- `f` with the bytes of `data` from `off` on
abbrev pub overlay : (ℕ → ℕ) → ℕ → Bytes → ℕ → ℕ
overlay f off bs i = if leb off i && ltb i (off + length bs) then get_or bs (i - off) 0 else f i

abbrev pub Same : (ℕ → ℕ) → (ℕ → ℕ) → Type 0
Same f g = (i : ℕ) → f i ≡ g i

module _ (h : Host) where
  open h use {
    World, emit, load_cancel, now, sleep, deadline, open_file, seek_start, new_zstd, reads, alloc,
    fdatasync, get_flags, set_flags, flush_cache, write_all_at, read_exact_at,
  }

  pub record Disk : Type 0 where
    pub byte : World → ℕ → ℕ
    pub emit_keeps : (e : Event) (s : World) → Same (byte (emit e s)) (byte s)
    pub load_keeps : (s : World) → Same (byte (load_cancel s).1) (byte s)
    pub now_keeps : (s : World) → Same (byte (now s).1) (byte s)
    pub sleep_keeps : (n : ℕ) (s : World) → Same (byte (sleep n s)) (byte s)
    pub deadline_keeps : (n : ℕ) (s : World) → Same (byte (deadline n s).1) (byte s)
    pub open_keeps : (p : Bytes) (s : World) → Same (byte (open_file p s).1) (byte s)
    pub seek_keeps : (s : World) → Same (byte (seek_start s).1) (byte s)
    pub zstd_keeps : (s : World) → Same (byte (new_zstd s).1) (byte s)
    pub reads_keeps : (c : Compression) (s : World) → Same (byte (reads c s).1) (byte s)
    pub alloc_keeps : (s : World) → Same (byte (alloc s).1) (byte s)
    pub sync_keeps : (s : World) → Same (byte (fdatasync s).1) (byte s)
    pub get_flags_keeps : (s : World) → Same (byte (get_flags s).1) (byte s)
    pub set_flags_keeps : (n : ℕ) (s : World) → Same (byte (set_flags n s).1) (byte s)
    pub flush_keeps : (s : World) → Same (byte (flush_cache s).1) (byte s)
    pub write_at :
        (bs : Bytes) (off : ℕ) (s : World)
        → Ends
            (λ _ s'. Same (byte s') (overlay (byte s) off bs))
            (λ _ s'. (i : ℕ) → (i < off) ⊎ (off + length bs ≤ i) → byte s' i ≡ byte s i)
            (write_all_at bs off s)
    pub read_at :
        (n off : ℕ) (s : World)
        → Ends
            (λ bs s'.
              (length bs ≡ n)
              × ((i : ℕ) → i < n → get_or bs i 0 ≡ byte s (off + i))
              × Same (byte s') (byte s))
            (λ _ s'. Same (byte s') (byte s))
            (read_exact_at n off s)

-- Writing `ys` right behind `xs` is writing `xs ++ ys`.
pub overlay-append :
    (f : ℕ → ℕ) (xs ys : Bytes)
    → Same (overlay (overlay f 0 xs) (length xs) ys) (overlay f 0 (xs ++ ys))
overlay-append f xs ys i = ground (
  arith,
  length-append xs ys,
  get_or-append_left xs ys i 0,
  get_or-append_right xs ys i (i - length xs) 0,
)
