-- ===== src/Go/Text.antt =====
-- `strings.Join` and `strings.TrimPrefix`.
use Prim.Native.String.{◌++◌ as ◌<>◌, len, slice}
use turtles_etcd_restore.Base.{String, ◌≡◌, List, [], ◌∷◌, if◌then◌else◌}
use text.Mathlib.Text.{starts_with}
use text.Mathlib.TextPositions.{starts_with-append, slice-append_right, len-append}
pub use Prim.Native.String.{◌++◌ as ◌<>◌}

-- `strings.Join(elems, sep)`
unfoldable pub join : List String → String → String
join [] sep = ""
join (x ∷ []) sep = x
join (x ∷ y ∷ rest) sep = x <> (sep <> join (y ∷ rest) sep)

-- `strings.TrimPrefix(s, prefix)`
unfoldable pub trim_prefix : String → String → String
trim_prefix s prefix = if starts_with s prefix then slice s (len prefix) (len s) else s

-- A text that begins with the prefix loses exactly it.
pub trim_prefix-append : (p s : String) → trim_prefix (p <> s) p ≡ s
unfolding trim_prefix
trim_prefix-append p s = simp (starts_with-append, len-append) (slice-append_right p s)
