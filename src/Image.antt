-- ===== src/Image.antt =====
-- Reading an image: the stream that a decoder yields, as its users in crates/imi-core/src/phases
-- read it, and the format checks of crates/imi-core/src/common/image.rs.
pub mod Fill
pub mod Exact
pub mod Magic
pub mod Reader
use imi.Common.{Bytes, List, [], ◌∷◌, ◌++◌, Option, none, some}
use imi.Error.{IoKind, interrupted}
use imi.Host.{Read, bytes, fails}

-- The bytes up to the end of the stream or the first failure. `EINTR` is no failure.
unfoldable pub stream : List Read → Bytes
stream [] = []
stream (bytes [] ∷ es) = []
stream (bytes (b ∷ bs) ∷ es) = (b ∷ bs) ++ stream es
stream (fails interrupted ∷ es) = stream es
stream (fails k ∷ es) = []

-- The failure behind those bytes, if the stream does not end in order.
unfoldable pub failure : List Read → Option IoKind
failure [] = none
failure (bytes [] ∷ es) = none
failure (bytes (b ∷ bs) ∷ es) = failure es
failure (fails interrupted ∷ es) = failure es
failure (fails k ∷ es) = some k
