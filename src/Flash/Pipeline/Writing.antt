-- ===== src/Flash/Pipeline/Writing.antt =====
-- Laws of the write in the loop of `flash_pipelined` of crates/imi-core/src/phases/phase_4.rs.
use imi.Common.{
  ℕ, ◌+◌, ◌≤◌, ◌<◌, ◌^◌, Bytes, List, [], ◌∷◌, ◌++◌, Option, none, some, ◌≡◌, ◌⊎◌, inl, inr, sym,
  ap, ◌∙◌, arith, length, take, Result, ok, append_assoc, length-append, length-take,
}
use mathlib.Core.Path.{subst}
use imi.Error.{Error, IoKind}
use imi.Cancel.Wait.{Clock}
use imi.Exec.Ends.{Ends, done, stop}
use imi.Host.{Host}
use imi.Host.Disk.{Disk, overlay}
use imi.Host.Keep.{Sourced}
use imi.Flash.Chunk.{ChunkOutcome, more, final}
use imi.Flash.Correct.{Beyond, ChunkDone, process_chunk_ends}
use imi.Flash.Rounds.{overlay-Beyond, appended, appended_last}
use imi.Flash.Pipeline.{
  completed, failed, Worker, waiting, exited, panicked, State, writing, give_back, on_written,
  main_at,
}
use imi.Flash.Pipeline.Feed.{Owns, Last, Promise, settled, in_flight}
use imi.Flash.Pipeline.Producer.{Sized, Pool}
use imi.Flash.Pipeline.Safety.{Running, Left, left, Next}

Sized-append :
    (size : ℕ) (bs : List Bytes) (b : Bytes)
    → Sized size bs
    → length b ≡ size
    → Sized size (bs ++ (b ∷ []))
Sized-append size [] b s e = (e, tt)
Sized-append size (c ∷ cs) b s e = (s.0, Sized-append size cs b s.1 e)

module _ (h : Host) (d : Disk h) (c : Clock h) (size dev_size : ℕ) (target : Option ℕ) (f : ℕ → ℕ)
    (pos : 1 ≤ size) (big : dev_size < 2 ^ 64) (src : Bytes) (fault : Option IoKind) where
  open h use {World, emit, load_cancel, now}

  module _ (st : State h) (sized : Sized size st.free) (owns : Owns size st.worker) where
    -- how the chunk that is written was promised
    abbrev Rest : Bytes → ℕ → Bytes → Type 0
    Rest buf n rest =
        ((n ≡ size)
          × (rest' : Bytes) × (rest ≡ take n buf ++ rest')
          × Promise size fault (settled size fault st.worker) (st.filled ++ in_flight st.worker)
              rest')
        ⊎ ((n < size)
            × (rest ≡ take n buf)
            × (fault ≡ none)
            × Last size fault (st.filled ++ in_flight st.worker) (settled size fault st.worker))

    pub written_lives :
        (start : Option ℕ) (buf : Bytes) (n offset : ℕ)
        → Running h d c size dev_size target f pos big src fault (ok (buf, n) ∷ []) offset st
        → Next h d c size dev_size target f pos big src fault st sized owns
            (writing start buf n offset)
            (main_at h size dev_size target (writing start buf n offset) st)
    written_lives start buf n offset l = go (
        process_chunk_ends h d size (overlay f 0 l.written) buf n offset dev_size l.coming.0
          l.coming.1 st.world l.on_device big pos l.bytes_are)
      where
        last_chunk :
            (end : ℕ) (s : World)
            → ChunkDone h d size (overlay f 0 l.written) buf n offset dev_size (final end) s
            → Rest buf n l.rest
            → Left h d c size dev_size target f pos big src fault (completed end) s
        last_chunk end s q (inl r) = absurd (omega (arith, q.0, r.0))
        last_chunk end s q (inr r) =
            subst (λ t. Left h d c size dev_size target f pos big src fault (completed t) s)
              (sym q.1)
              (appended_last h d c size dev_size f none target pos big src fault n buf l.written
                offset s (omega (arith, l.coming.0, l.coming.1)) l.at_end
                (l.splits ∙ ap (λ t. l.written ++ t) r.1) r.2 (omega (arith, q.1, q.2)) q.3)

        gone_on :
            (end : ℕ) (s : World)
            → ChunkDone h d size (overlay f 0 l.written) buf n offset dev_size (more end) s
            → Rest buf n l.rest
            → Next h d c size dev_size target f pos big src fault st sized owns
                (writing start buf n offset)
                (some (
                  on_written h size dev_size target start buf
                    (record st { world = s })
                    (ok (more end))))
        gone_on end s q (inr r) = absurd (omega (arith, q.0, r.0))
        gone_on end s q (inl r) = record {
          sized = Sized-give st.worker;
          owns = owns;
          lighter = omega arith;
          at_main = record {
            written = l.written ++ take n buf;
            rest = r.1;
            on_device = q.2;
            at_end = omega (
              arith,
              q.1,
              l.at_end,
              length-append l.written (take n buf),
              length-take n buf,
              l.coming.0,
              l.coming.1,
            );
            splits =
                l.splits
                ∙ ap (λ t. l.written ++ t) r.2
                ∙ sym (append_assoc l.written (take n buf) r.1);
            coming = r.3;
            bytes_are = λ i.
                d.emit_keeps _ s i
                ∙ appended h d c size dev_size f none target pos big l.written (take n buf) offset s
                    l.at_end q.3 i;
            pool = Pool-give st.worker;
            running = l.running;
            receives = l.receives;
            returns = l.returns;
          };
        }
          where
            Sized-give : (w : Worker) → Sized size (give_back h size dev_size target w buf st.free)
            Sized-give exited = sized
            Sized-give panicked = sized
            Sized-give _ = Sized-append size st.free buf sized l.coming.0

            Pool-give :
                (w : Worker)
                → Pool w
                    (length (give_back h size dev_size target w buf st.free) + length st.filled)
            Pool-give (waiting es) = omega (arith, length-append st.free (buf ∷ []))
            Pool-give _ = tt

        go :
            {r : Result Error ChunkOutcome × World}
            → Ends
                (ChunkDone h d size (overlay f 0 l.written) buf n offset dev_size)
                (λ e s'. Sourced e × Beyond (overlay f 0 l.written) dev_size (d.byte s'))
                r
            → Next h d c size dev_size target f pos big src fault st sized owns
                (writing start buf n offset)
                (some (on_written h size dev_size target start buf (record st { world = r.1 }) r.0))
        go (done {a = more end} {s} q) = gone_on end s q l.coming.2
        go (done {a = final end} {s} q) =
            left h d c size dev_size target f pos big src fault st sized owns (completed end)
              st.mirror st.filled s _ (omega arith) (last_chunk end s q l.coming.2)
        go (stop {e} {s} x) =
            left h d c size dev_size target f pos big src fault st sized owns (failed e) st.mirror
              st.filled s _ (omega arith)
              (
                x.0,
                λ i le.
                    x.1 i le
                    ∙ overlay-Beyond f l.written dev_size (omega (arith, l.at_end, l.on_device)) i
                        le,
              )
