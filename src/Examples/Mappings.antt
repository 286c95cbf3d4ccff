-- ===== src/Examples/Mappings.antt =====
-- The calls of a mapping's handlers, and the imports of its module.
use superquery_node.Common.{
  All, ok, String, ◌≡◌, refl, ◌↔◌, true, false, none, some, List, [], ◌∷◌, map,
}
use superquery_node.Runtime.Host.{new, HostJson, take_operations}
use superquery_node.Runtime.Host.Buffer.{
  HostCall, is_accepted, call_all, set_call, remove_call, all_accepted, is_success,
  call_all-accepted,
}
use superquery_node.Runtime.Abi.{BlockContext}
use superquery_node.Runtime.Load.{check_imports, IsPermitted, check_imports_iff}

-- A payload is the text under its id.
abbrev json : HostJson String
json = record { is_object = λ payload. true; id_of = λ payload. some payload; text = λ s. s }

abbrev block : BlockContext
block = record { height = 7; hash = "0xa"; parent_hash = none; timestamp = none }

abbrev known : List String
known = "Transfer" ∷ []

abbrev calls : List (HostCall String)
calls =
    set_call "Transfer" "a" "a"
    ∷ set_call "Trasnfer" "b" "b"
    ∷ set_call "Transfer" "c" "d"
    ∷ remove_call "Transfer" "a"
    ∷ []

call_all-accepted_example :
    (take_operations json (call_all json calls (new json block known)).1
      ≡ (all_accepted json known calls, new json block known))
    × (map (is_success json) (call_all json calls (new json block known)).0
        ≡ map (is_accepted json known) calls)
call_all-accepted_example = call_all-accepted json block known calls

accepted_calls : map (is_accepted json known) calls ≡ true ∷ false ∷ false ∷ true ∷ []
accepted_calls = refl

abbrev imports : List (String × String)
imports = ("superquery", "sq_log") ∷ ("wasi", "clock_time_get") ∷ []

check_imports_iff_example : (check_imports imports ≡ ok tt) ↔ All IsPermitted imports
check_imports_iff_example = check_imports_iff imports
