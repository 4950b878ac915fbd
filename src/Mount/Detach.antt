-- ===== src/Mount/Detach.antt =====
-- The parts of crates/imi-core/src/common/mount.rs that take a disk out of use: its swaps and its
-- mounts.
use imi.Common.{
  ℕ, Bytes, List, [], ◌∷◌, Option, none, some, Bool, false, if◌then◌else◌, codes, Result, ok, err,
  ◌==◌, ◌||◌,
}
use imi.Error.{Error, IoKind, not_found, malformed, text, say, msg, layer, foreign}
use imi.Events.{action}
use imi.Exec.{Exec, pure, raise, call, act, ◌>>◌}
use imi.Host.{Host, Stat}
use imi.Strings.{lines}
use imi.Strings.Chars.{chars, encode, split_whitespace}
use imi.Mount.{MountInfo, TargetDevts, contains}
use imi.Mount.Octal.{unescape_proc_octal}
use imi.Mount.Order.{deepest_first}

abbrev pub after_header : List Bytes → List Bytes
after_header [] = []
after_header (l ∷ ls) = ls

abbrev pub head_of : List (List ℕ) → Option Bytes
head_of [] = none
head_of (t ∷ ts) = some (encode t)

-- `line.split_whitespace().next()`
unfoldable pub first_field : Bytes → Option Bytes
unfolding chars encode split_whitespace
first_field line = head_of (split_whitespace (chars line))

-- a path that C can take
unfoldable pub has_nul : Bytes → Bool
has_nul [] = false
has_nul (c ∷ cs) = c == 0 || has_nul cs

module _ (h : Host) where
  open h use {World, emit, read_to_string, stat, umount, swapoff}

  abbrev pub swap_off : Bytes → Exec World (Unit {0})
  swap_off path s = let (r, s') = swapoff path s in (refusal r, s')
    where
      refusal : Result IoKind (Unit {0}) → Result Error (Unit {0})
      refusal (ok u) = ok tt
      refusal (err k) = err (msg (say "swapoff failed" [] (path ∷ [])))

  abbrev pub disable : Bytes → Exec World (Unit {0})
  disable path = do
    act (emit (action (say "disabling swap on" [] (path ∷ []))))
    if has_nul path
        then raise (
            layer (text "swap path contained interior NUL")
              (foreign (malformed "nul byte found in provided data")))
        else swap_off path

  -- a swap whose path has no stat, or whose device is another, is left alone
  abbrev pub if_target : TargetDevts → Bytes → Result IoKind Stat → Exec World (Unit {0})
  if_target targets path (err k) = pure tt
  if_target targets path (ok st) = if contains targets st.rdev then disable path else pure tt

  abbrev pub on_swap : TargetDevts → Option Bytes → Exec World (Unit {0})
  on_swap targets none s = pure tt s
  on_swap targets (some first) s =
      let path = unescape_proc_octal first in
      let (r, s') = stat path s in if_target targets path r s'

  unfoldable pub disable_each : TargetDevts → List Bytes → Exec World (Unit {0})
  unfolding first_field unescape_proc_octal contains has_nul msg layer
  disable_each targets [] = pure tt
  disable_each targets (line ∷ rest) = do
    on_swap targets (first_field line)
    disable_each targets rest

  abbrev pub on_swaps : TargetDevts → Result IoKind Bytes → Exec World (Unit {0})
  on_swaps targets (ok table) = disable_each targets (after_header (lines table))
  on_swaps targets (err not_found) = pure tt
  on_swaps targets (err k) = raise (msg (text "read /proc/swaps"))

  unfoldable pub disable_swaps_on_target : TargetDevts → Exec World (Unit {0})
  unfolding disable_each lines msg
  disable_swaps_on_target targets s =
      let (r, s') = read_to_string (codes "/proc/swaps") s in on_swaps targets r s'

  unfoldable pub unmount_each : List MountInfo → Exec World (Unit {0})
  unmount_each [] = pure tt
  unmount_each (m ∷ ms) = do
    act (emit (action (say "unmounting" [] (m.target ∷ []))))
    call (say "unmounting failed" [] (m.target ∷ [])) (umount m.target)
    unmount_each ms

  unfoldable pub unmount_all : List MountInfo → Exec World (Unit {0})
  unfolding unmount_each deepest_first
  unmount_all mounts = unmount_each (deepest_first mounts)
