-- ===== src/Image/Reader.antt =====
-- `ImageReader::open` of crates/imi-core/src/common/image.rs. The reader is what its reads will yield.
use imi.Exec.Ends.{done}
use imi.Common.{ℕ, Bytes, List, [], ◌∷◌, ◌∙◌}
use imi.Error.{say, text}
use imi.Events.{Compression, raw, gzip, xz, bzip2, zstd}
use imi.Exec.{Exec, pure, call, get, ◌>>◌}
use imi.Host.{Host, Read}
use imi.Host.Disk.{Disk}
use imi.Host.Keep.{Holds}
use imi.Host.Spare.{Holding, call_held, get_held, then_held}

module _ (h : Host) where
  open h use {World, open_file, seek_start, new_zstd, reads}

  -- only the construction of the zstd decoder can fail
  unfoldable pub construct : Compression → Exec World (Unit {0})
  construct zstd = call (text "construct zstd decoder") new_zstd
  construct raw = pure tt
  construct gzip = pure tt
  construct xz = pure tt
  construct bzip2 = pure tt

  unfoldable pub reader_open : Bytes → Compression → Exec World (List Read)
  unfolding construct
  reader_open path comp = do
    call (say "open" [] (path ∷ [])) (open_file path)
    call (say "seek to start" [] (path ∷ [])) seek_start
    construct comp
    get (reads comp)

module _ (h : Host) (d : Disk h) (f : ℕ → ℕ) where
  open h use {World, open_file, seek_start, new_zstd, reads}

  construct-held :
      (comp : Compression) (s : World) → Holds h d f s → Holding (Holds h d f) (construct h comp s)
  unfolding construct
  construct-held zstd s p = call_held (Holds h d f) _ new_zstd s (λ i. d.zstd_keeps s i ∙ p i)
  construct-held raw s p = done p
  construct-held gzip s p = done p
  construct-held xz s p = done p
  construct-held bzip2 s p = done p

  -- Opening an image changes no byte of the device.
  pub reader_open-held :
      (path : Bytes) (comp : Compression) (s : World)
      → Holds h d f s
      → Holding (Holds h d f) (reader_open h path comp s)
  unfolding reader_open
  reader_open-held path comp s p =
      let P = Holds h d f in
      then_held P _ (call_held P _ (open_file path) s (λ i. d.open_keeps path s i ∙ p i))
        (λ _ s₁ p₁.
          then_held P _ (call_held P _ seek_start s₁ (λ i. d.seek_keeps s₁ i ∙ p₁ i)) (λ _ s₂ p₂.
            then_held P _ (construct-held comp s₂ p₂)
              (λ _ s₃ p₃. get_held P (reads comp) s₃ (λ i. d.reads_keeps comp s₃ i ∙ p₃ i))))
