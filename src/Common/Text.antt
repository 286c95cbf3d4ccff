-- ===== src/Common/Text.antt =====
-- Comparing texts, and optional texts, as `==` on `String` and `Option<String>` does.
use Prim.Native.String.{String}
use text.Mathlib.Text.{◌==◌ as str_eq}
use text.Mathlib.TextEquality.{eq_iff}
use text.Mathlib.TextPositions.{eq_refl}
use mathlib.Core.Path.{◌≡◌, refl}
use mathlib.Core.Logic.{◌↔◌}
use mathlib.Core.Bool.{Bool, true, false}
use mathlib.Core.Option.{Option, none, some}
use native.Mathlib.Omega.{arith}

pub str_eq_iff : (s t : String) → (str_eq s t ≡ true) ↔ (s ≡ t)
str_eq_iff = eq_iff

pub str_eq_refl : (s : String) → str_eq s s ≡ true
str_eq_refl = eq_refl

abbrev pub option_str_eq : Option String → Option String → Bool
option_str_eq none none = true
option_str_eq none (some t) = false
option_str_eq (some s) none = false
option_str_eq (some s) (some t) = str_eq s t

pub option_str_eq_iff : (s t : Option String) → (option_str_eq s t ≡ true) ↔ (s ≡ t)
option_str_eq_iff none none = ((λ _. refl), (λ _. refl))
option_str_eq_iff none (some t) = ((λ e. cc), (λ e. cc))
option_str_eq_iff (some s) none = ((λ e. cc), (λ e. cc))
option_str_eq_iff (some s) (some t) =
    ((λ e. ground (arith, eq_iff s t)), (λ e. ground (arith, eq_iff s t)))
