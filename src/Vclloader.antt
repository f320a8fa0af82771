-- ===== src/Vclloader.antt =====
-- pkg/vclloader: an address as host and port (replacer.go).
pub mod Load
pub mod Steps
pub mod Answers
mod Samples
use vcltest.Base.{Option, none, some, List, [], ◌∷◌, ◌||◌, if◌then◌else◌}
use vcltest.Base.Text.{Text, split, is_empty}
use vcltest.Harness.{BackendAddress}

abbrev pub two_parts : List Text → Option BackendAddress
two_parts (host ∷ port ∷ []) =
    if is_empty host || is_empty port then none else some (record { host = host; port = port })
two_parts _ = none

-- `ParseAddress`, with its three errors as `none`.
unfoldable pub parse_address : Text → Option BackendAddress
unfolding split
parse_address addr = two_parts (split addr b':')
