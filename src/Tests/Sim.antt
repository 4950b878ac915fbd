-- ===== src/Tests/Sim.antt =====
-- A concrete host for the tests: a device of a fixed capacity, a clock that only sleeping moves, and
-- a caller that never cancels.
use imi.Common.{
  ℕ, zero, suc, ◌+◌, ◌≤◌, ◌<◌, ◌≡◌, ◌⊎◌, refl, ap, arith, Bytes, List, [], ◌∷◌, some, Bool, true,
  false, leb, codes, if◌then◌else◌, length, get_or, Result, ok, err,
}
use imi.Error.{IoKind, storage_full, not_found, unexpected_eof}
use imi.Events.{Event}
use imi.Exec.Ends.{Ends, done, stop}
use imi.Tests.Files.{listing, contents_of, is_file}
use imi.Host.{Host, bytes}
use imi.Host.Disk.{Disk, Same, overlay}
use imi.Cancel.Wait.{Clock}

pub record World : Type 0 where
  pub contents : ℕ → ℕ
  pub time : ℕ
  pub flags : ℕ
  pub log : List Event
  pub table : Bytes  -- the mount table

-- a device of zeros
abbrev pub blank : World
blank = record { contents = λ i. 0; time = 0; flags = 0; log = []; table = [] }

-- the `n` bytes from `off` on
abbrev pub span : (ℕ → ℕ) → ℕ → ℕ → Bytes
span f zero off = []
span f (suc n) off = f off ∷ span f n (off + 1)

abbrev done_with {ℓ} : {A : Type ℓ} → A → World → Result IoKind A × World
done_with a s = (ok a, s)

abbrev absent {ℓ} : {A : Type ℓ} → World → Result IoKind A × World
absent s = (err not_found, s)

pub same_time : (t : ℕ) → t ≤ t
same_time t = omega arith

pub deadline_lem : (t n end : ℕ) → some (t + n) ≡ some end → end ≡ t + n
deadline_lem t n end e = ground arith

module _ (capacity : ℕ) where
  abbrev write : Bytes → ℕ → World → Result IoKind (Unit {0}) × World
  write bs off s =
      if leb (off + length bs) capacity
      then (ok tt, record s { contents = overlay s.contents off bs })
      else (err storage_full, s)

  abbrev read : ℕ → ℕ → World → Result IoKind Bytes × World
  read n off s =
      if leb (off + n) capacity then (ok (span s.contents n off), s) else (err unexpected_eof, s)

  abbrev pub sim : Host
  sim = record {
    World = World;
    emit = λ e s. record s { log = e ∷ s.log };
    confirm = λ x s. (true, s);
    load_cancel = λ s. (false, s);
    now = λ s. (s.time, s);
    sleep = λ n s. record s { time = s.time + n };
    deadline = λ n s. (some (s.time + n), s);
    open_file = λ p. done_with tt;
    seek_start = done_with tt;
    new_zstd = done_with tt;
    reads = λ c s. (bytes (codes "ten bytes!") ∷ [], s);
    alloc = done_with tt;
    write_all_at = write;
    read_exact_at = read;
    fdatasync = done_with tt;
    get_flags = λ s. (ok s.flags, s);
    set_flags = λ n s. (ok tt, record s { flags = n });
    flush_cache = done_with tt;
    reread_table = done_with tt;
    claimed_rdev = done_with (8, 16);
    claimed_size = done_with capacity;
    open_exclusive = λ p. done_with tt;
    release = λ s. s;
    is_root = λ s. (true, s);
    canonicalize = λ p. done_with p;
    stat = λ p. absent;
    exists = λ p s. (is_file p, s);
    read_to_string = λ p s. (contents_of s.table p, s);
    read_dir = λ p s. (listing p, s);
    read_link = λ p. absent;
    read_magic = λ p. absent;
    open_read_only = λ p. done_with tt;
    opened_size = done_with capacity;
    opened_ro = done_with 0;
    close_opened = λ s. s;
    umount = λ p s. (ok tt, record s { table = [] });
    swapoff = λ p. done_with tt;
  }

  length-span : (f : ℕ → ℕ) (n off : ℕ) → length (span f n off) ≡ n
  length-span f zero off = refl
  length-span f (suc n) off = ap suc (length-span f n (off + 1))

  span_at : (f : ℕ → ℕ) (n off i : ℕ) → i < n → get_or (span f n off) i 0 ≡ f (off + i)
  span_at f zero off i lt = absurd (omega arith)
  span_at f (suc n) off zero lt = ground arith
  span_at f (suc n) off (suc i) lt = ground (arith, span_at f n (off + 1) i (omega arith))

  pub write_lem :
      (b : Bool) (bs : Bytes) (off : ℕ) (s : World)
      → Ends
          (λ _ s'. Same s'.contents (overlay s.contents off bs))
          (λ _ s'. (i : ℕ) → (i < off) ⊎ (off + length bs ≤ i) → s'.contents i ≡ s.contents i)
          (if b
            then (ok tt, record s { contents = overlay s.contents off bs })
            else (err storage_full, s))
  write_lem true bs off s = done (λ i. refl)
  write_lem false bs off s = stop (λ i _. refl)

  pub read_lem :
      (b : Bool) (n off : ℕ) (s : World)
      → Ends
          (λ bs s'.
            (length bs ≡ n)
            × ((i : ℕ) → i < n → get_or bs i 0 ≡ s.contents (off + i))
            × Same s'.contents s.contents)
          (λ _ s'. Same s'.contents s.contents)
          (if b then (ok (span s.contents n off), s) else (err unexpected_eof, s))
  read_lem true n off s = done (length-span s.contents n off, span_at s.contents n off, λ i. refl)
  read_lem false n off s = stop (λ i. refl)

  abbrev pub sim_disk : Disk sim
  sim_disk = record {
    byte = λ s. s.contents;
    emit_keeps = λ e s i. refl;
    load_keeps = λ s i. refl;
    now_keeps = λ s i. refl;
    sleep_keeps = λ n s i. refl;
    deadline_keeps = λ n s i. refl;
    open_keeps = λ p s i. refl;
    seek_keeps = λ s i. refl;
    zstd_keeps = λ s i. refl;
    reads_keeps = λ c s i. refl;
    alloc_keeps = λ s i. refl;
    sync_keeps = λ s i. refl;
    get_flags_keeps = λ s i. refl;
    set_flags_keeps = λ n s i. refl;
    flush_keeps = λ s i. refl;
    write_at = λ bs off s. write_lem (leb (off + length bs) capacity) bs off s;
    read_at = λ n off s. read_lem (leb (off + n) capacity) n off s;
  }

  abbrev pub sim_clock : Clock sim
  sim_clock = record {
    time = λ s. s.time;
    emit_time = λ e s. same_time s.time;
    load_time = λ s. same_time s.time;
    now_reads = λ s. refl;
    now_time = λ s. same_time s.time;
    sleep_time = λ n s. same_time (s.time + n);
    deadline_time = λ n s. same_time s.time;
    deadline_at = λ n end s e. deadline_lem s.time n end e;
  }
