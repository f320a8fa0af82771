-- ===== src/Base/Http.antt =====
-- The headers of net/http as the program uses them: names in canonical form, `Get` and `Set`.
use Prim.Native.Nat.{ℕ, ◌+◌, ◌-◌}
use mathlib.Core.Bool.{Bool, true, not, ◌&&◌, ◌||◌}
use mathlib.Core.List.{List, [], ◌∷◌}
use mathlib.Core.Option.{Option, none, some}
use mathlib.Core.Logic.{inl, inr}
use mathlib.Core.Path.{◌≡◌, refl}
use vcltest.Base.Tests.{leb, nat_beq, if◌then◌else◌, Bool-cases, ◌==◌}
use vcltest.Base.Lists.{all, any}
use vcltest.Base.Map.{Map, lookup, insert, lookup-insert}
use vcltest.Base.Text.{Text, codes, text_eq}

abbrev pub Headers : Type 0
Headers = Map Text (List Text)

abbrev is_lower : ℕ → Bool
is_lower c = leb b'a' c && leb c b'z'

abbrev is_upper : ℕ → Bool
is_upper c = leb b'A' c && leb c b'Z'

-- The bytes that a header name may have.
abbrev is_token : ℕ → Bool
is_token c =
    (is_lower c || (is_upper c || (leb b'0' c && leb c b'9')))
    || any (nat_beq c) (codes "!#$%&'*+-.^_`|~")

-- Upper case at the start and behind a hyphen, lower case elsewhere.
abbrev capitalise : Bool → Text → Text
capitalise start [] = []
capitalise start (c ∷ s) =
    (if start && is_lower c then c - 32 else if not start && is_upper c then c + 32 else c)
    ∷ capitalise (nat_beq c b'-') s

-- `textproto.CanonicalMIMEHeaderKey`
unfoldable pub canonical : Text → Text
canonical key = if all is_token key then capitalise true key else key

abbrev first_value : Option (List Text) → Text
first_value none = []
first_value (some []) = []
first_value (some (v ∷ vs)) = v

-- `(h Header) Get(key)`
unfoldable pub get_header : Headers → Text → Text
unfolding canonical lookup
get_header h key = first_value (lookup (canonical key) h)

-- `(h Header) Set(key, value)`
unfoldable pub set_header : Text → Text → Headers → Headers
unfolding canonical insert
set_header key value h = insert (canonical key) (value ∷ []) h

pub get_header-set_header :
    (key name value : Text) (h : Headers)
    → get_header (set_header key value h) name
      ≡ (if canonical key == canonical name then value else get_header h name)
unfolding get_header set_header
get_header-set_header key name value h =
    rw (lookup-insert (canonical key) (canonical name) (value ∷ []) h)
      (elim (Bool-cases (canonical key == canonical name)) [
        | inl e ↦ rw e refl
        | inr e ↦ rw e refl
      ])
