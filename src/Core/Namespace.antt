-- ===== src/Core/Namespace.antt =====
-- `namespace_of` of crates/cherenkov-core/src/hub.rs; crates/cherenkov-schema/src/registry.rs has
-- the same function.
use Prim.Native.Char.{code}
use cherenkov.Prelude.{String, ◌≡◌, refl, ◌==◌, nat_eq, if◌then◌else◌, Option, none, some}

-- `split_once('.')`: the parts before and after the first dot
unfoldable pub split_once_dot : String → Option (String × String)
split_once_dot String.[] = none
split_once_dot (String.◌∷◌ c s) =
    let rest = split_once_dot s in
    if code c == b'.'
    then some (String.[], s)
    else elim rest [ none ↦ none | some (before, after) ↦ some (String.◌∷◌ c before, after) ]

-- `map_or(channel, |(ns, _)| ns)`
abbrev first_or : String → Option (String × String) → String
first_or channel none = channel
first_or channel (some (ns, rest)) = ns

unfoldable pub namespace_of : String → String
unfolding split_once_dot
namespace_of channel = first_or channel (split_once_dot channel)

namespace_of_test :
    (namespace_of "rooms.lobby.sub" ≡ "rooms")
    × (namespace_of "standalone" ≡ "standalone")
    × (namespace_of "" ≡ "")
unfolding namespace_of
namespace_of_test = (refl, refl, refl)
