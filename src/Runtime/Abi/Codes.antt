-- ===== src/Runtime/Abi/Codes.antt =====
-- The codes of crates/runtime/src/abi.rs.
use superquery_node.Common.{◌==◌, if◌then◌else◌, ℤ, pos, negsuc, ◌≡◌, refl, sym, ap, ◌∙◌}
use superquery_node.Runtime.Abi.{
  from_code, Status, code, success, level_code, success, LogLevel, not_found, not_found,
  invalid_argument, trace, invalid_argument, unknown_entity, debug, unknown_entity, store_error,
  store_error, info, capability_denied, capability_denied, warn, resource_exhausted, error,
}

abbrev status_of : ℤ → Status
status_of (pos n) = if n == 0 then success else not_found
status_of (negsuc n) =
    if n == 0
    then invalid_argument
    else if n == 1
    then unknown_entity
    else if n == 2
    then store_error
    else if n == 3
    then capability_denied
    else resource_exhausted

status_of-code : (s : Status) → status_of (code s) ≡ s
unfolding code
status_of-code success = refl
status_of-code not_found = refl
status_of-code invalid_argument = refl
status_of-code unknown_entity = refl
status_of-code store_error = refl
status_of-code capability_denied = refl
status_of-code resource_exhausted = refl

-- Different outcomes cross the boundary as different codes.
pub code-injective : (s t : Status) → code s ≡ code t → s ≡ t
code-injective s t e = sym (status_of-code s) ∙ ap status_of e ∙ status_of-code t

-- Every level is read back from its code.
pub from_code-level_code : (level : LogLevel) → from_code (level_code level) ≡ level
unfolding from_code level_code
from_code-level_code trace = refl
from_code-level_code debug = refl
from_code-level_code info = refl
from_code-level_code warn = refl
from_code-level_code error = refl
