-- ===== src/Runtime/Load.antt =====
-- crates/runtime/src/runtime.rs and error.rs: the checks of a mapping's module when it is loaded.
use superquery_node.Common.{
  ◌==◌, any, All, str_eq_iff, ℤ, pos, negsuc, Result, ok, ensure, ◌>>◌, String, str_eq, ℕ, ◌≡◌,
  refl, ◌↔◌, Bool, true, false, ◌&&◌, List, [], ◌∷◌, arith,
}
use superquery_node.Store.Error.{StoreError}
use superquery_node.Runtime.Abi.{host_module, abi_version, required_exports, host_functions}

pub data RuntimeError : Type 0 where
  abi_version_mismatch : ℤ → ℤ → RuntimeError
  missing_export : String → RuntimeError
  forbidden_import : String → String → RuntimeError
  load : String → RuntimeError
  fuel_exhausted : String → RuntimeError
  timeout : String → ℕ → RuntimeError
  out_of_memory : String → RuntimeError
  trap : String → String → RuntimeError
  abi : String → RuntimeError
  store : StoreError → RuntimeError

abbrev int_eq : ℤ → ℤ → Bool
int_eq (pos m) (pos n) = m == n
int_eq (negsuc m) (negsuc n) = m == n
int_eq _ _ = false

unfoldable pub check_abi_version : ℤ → Result RuntimeError (Unit {0})
check_abi_version found = ensure (int_eq found abi_version) (abi_version_mismatch found abi_version)

unfoldable pub check_exports : List String → List String → Result RuntimeError (Unit {0})
check_exports [] exports = ok tt
check_exports (required ∷ rest) exports = do
  ensure (any (λ e. str_eq e required) exports) (missing_export required)
  check_exports rest exports

unfoldable pub check_required_exports : List String → Result RuntimeError (Unit {0})
unfolding check_exports
check_required_exports exports = check_exports required_exports exports

unfoldable pub check_imports : List (String × String) → Result RuntimeError (Unit {0})
check_imports [] = ok tt
check_imports ((from, name) ∷ imports) = do
  ensure (str_eq from host_module && any (λ f. str_eq f name) host_functions)
      (forbidden_import from name)
  check_imports imports

unfoldable pub has_handler : List String → String → Bool
has_handler exported handler = any (λ h. str_eq h handler) exported

-- An import of one of the host's functions.
abbrev pub IsPermitted : String × String → Type 0
IsPermitted import = (import.0 ≡ host_module) × (any (λ f. str_eq f import.1) host_functions ≡ true)

-- A module passes exactly if everything it imports is a function of the host's module.
pub check_imports_iff :
    (imports : List (String × String)) → (check_imports imports ≡ ok tt) ↔ All IsPermitted imports
unfolding check_imports
check_imports_iff [] = ((λ _. tt), (λ _. refl))
check_imports_iff ((from, name) ∷ imports) =
    let others = check_imports_iff imports in
    let here = str_eq_iff from host_module in
    (
      (λ e. ((ground (arith, e, here), ground (arith, e)), others.0 (ground (arith, e)))),
      (λ ((a, b), rest). ground (arith, here.1 a, b, others.1 rest)),
    )
