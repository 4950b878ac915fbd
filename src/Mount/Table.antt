-- ===== src/Mount/Table.antt =====
-- Lines of the mount table as the kernel writes them, and what the parser makes of them.
use imi.Common.{
  ℕ, ◌≡◌, ◌≢◌, refl, ap, ◌∙◌, arith, Bytes, List, [], ◌∷◌, ◌++◌, some, bytes_eq, bytes_eq_iff,
}
use imi.Host.{Devt}
use imi.Strings.{split_on, parse_u64}
use imi.Strings.Utf8.{from_utf8_lossy}
use imi.Strings.Split.{Free, AllFree, join, split_on-join, split_once-join}
use imi.Mount.Octal.{mangle, unescape_proc_octal}
use imi.Mount.Unescape.{unescape_proc_octal-mangle, mangle-Free}
use imi.Mount.{from_parts, both, with_devt, devt_of, after_dash, parse_fields, parse_mountinfo_line}

-- the fields of a line, the target and the source not yet escaped
pub record Line : Type 0 where
  pub id : Bytes
  pub parent : Bytes
  pub major : Bytes
  pub minor : Bytes
  pub root : Bytes
  pub target : Bytes
  pub options : Bytes
  pub tags : List Bytes
  pub fstype : Bytes
  pub source : Bytes
  pub super_options : Bytes

abbrev pub tail_of : Line → List Bytes
tail_of l = (45 ∷ []) ∷ l.fstype ∷ mangle l.source ∷ l.super_options ∷ []

abbrev pub render : Line → Bytes
render l = join 32 (
    l.id
    ∷ l.parent
    ∷ (l.major ++ (58 ∷ l.minor))
    ∷ l.root
    ∷ mangle l.target
    ∷ l.options
    ∷ (l.tags ++ tail_of l))

-- no tag is a lone `-`, which ends the tags
abbrev pub NoDash : List Bytes → Type 0
NoDash [] = Unit
NoDash (t ∷ ts) = (t ≢ 45 ∷ []) × NoDash ts

-- What the kernel guarantees of the fields: none but the escaped ones can hold a space, the device
-- number is two decimals, and the paths are taken to be well-formed UTF-8.
pub record Legal (l : Line) (devt : Devt) : Type 0 where
  pub id_free : Free 32 l.id
  pub parent_free : Free 32 l.parent
  pub devt_free : Free 32 (l.major ++ (58 ∷ l.minor))
  pub root_free : Free 32 l.root
  pub options_free : Free 32 l.options
  pub tags_free : AllFree 32 l.tags
  pub no_dash : NoDash l.tags
  pub fstype_free : Free 32 l.fstype
  pub super_free : Free 32 l.super_options
  pub major_free : Free 58 l.major
  pub major_is : parse_u64 l.major ≡ some devt.0
  pub minor_is : parse_u64 l.minor ≡ some devt.1
  pub target_utf8 : from_utf8_lossy l.target ≡ l.target
  pub source_utf8 : from_utf8_lossy l.source ≡ l.source

after_dash-tags : (ts rest : List Bytes) → NoDash ts → after_dash (ts ++ ((45 ∷ []) ∷ rest)) ≡ rest
unfolding after_dash bytes_eq
after_dash-tags [] rest h = refl
after_dash-tags (t ∷ ts) rest (ne, h) =
    ground (arith, ne, bytes_eq_iff t (45 ∷ []), after_dash-tags ts rest h)

AllFree-append : (ts us : List Bytes) → AllFree 32 ts → AllFree 32 us → AllFree 32 (ts ++ us)
AllFree-append [] us h k = k
AllFree-append (t ∷ ts) us (x, h) k = (x, AllFree-append ts us h k)

dash-Free : Free 32 (45 ∷ [])
dash-Free = ((λ e. omega (arith, e)), tt)

fields_of :
    (l : Line) (devt : Devt)
    → Legal l devt
    → split_on 32 (render l)
      ≡ l.id
        ∷ l.parent
        ∷ (l.major ++ (58 ∷ l.minor))
        ∷ l.root
        ∷ mangle l.target
        ∷ l.options
        ∷ (l.tags ++ tail_of l)
fields_of l devt g = split_on-join 32 l.id _ (
  g.id_free,
  (
    g.parent_free,
    (
      g.devt_free,
      (
        g.root_free,
        (
          mangle-Free l.target,
          (
            g.options_free,
            AllFree-append l.tags (tail_of l) g.tags_free
                (dash-Free, (g.fstype_free, (mangle-Free l.source, (g.super_free, tt)))),
          ),
        ),
      ),
    ),
  ),
)

devt_of-join :
    (major minor : Bytes) (a b : ℕ)
    → Free 58 major
    → parse_u64 major ≡ some a
    → parse_u64 minor ≡ some b
    → devt_of (major ++ (58 ∷ minor)) ≡ some (a, b)
devt_of-join major minor a b free ha hb =
    ap (λ o. from_parts o) (split_once-join 58 major minor free) ∙ λ i. both (ha i) (hb i)

tail_lem :
    (l : Line) (devt : Devt)
    → Legal l devt
    → with_devt
        (mangle l.target)
        (some (unescape_proc_octal (mangle l.source)))
        (devt_of (l.major ++ (58 ∷ l.minor)))
      ≡ some record { devt = devt; target = l.target; source = some l.source }
tail_lem l devt g =
    ap (λ o. with_devt (mangle l.target) (some (unescape_proc_octal (mangle l.source))) o)
      (devt_of-join l.major l.minor devt.0 devt.1 g.major_free g.major_is g.minor_is)
    ∙ λ i. some record {
      devt = devt;
      target = unescape_proc_octal-mangle l.target g.target_utf8 i;
      source = some (unescape_proc_octal-mangle l.source g.source_utf8 i);
    }

-- A line of the mount table is read back as it was written: its device number, its target and its
-- source, for every target and source that is well-formed UTF-8, and however many tags stand before
-- the `-`.
pub parse_mountinfo_line-render :
    (l : Line) (devt : Devt)
    → Legal l devt
    → parse_mountinfo_line (render l)
      ≡ some record { devt = devt; target = l.target; source = some l.source }
unfolding parse_mountinfo_line parse_fields
parse_mountinfo_line-render l devt g =
    rw
      (
        fields_of l devt g,
        after_dash-tags l.tags (l.fstype ∷ mangle l.source ∷ l.super_options ∷ []) g.no_dash,
      )
      (tail_lem l devt g)
