-- ===== src/Runtime/Host/Buffer.antt =====
-- What a block's handlers leave in the buffer of crates/runtime/src/host.rs.
use superquery_node.Common.{
  if◌then◌else◌, Option-cases, any, option_str_eq, String, str_eq, ◌≡◌, refl, ap, ◌∙◌, inl, inr,
  Bool, true, false, ◌&&◌, Option, none, some, List, [], ◌∷◌, ◌++◌, map, append-nil, append_assoc,
  arith,
}
use superquery_node.Runtime.Host.{
  HostJson, take_operations, HostContext, store_set, store_remove, new, knows_entity,
}
use superquery_node.Store.Operations.{Operation, set_type, remove_type}
use superquery_node.Runtime.Abi.{Status, success, BlockContext}

-- A call of a handler that writes.
pub data HostCall (Json : Type 0) : Type 0 where
  set_call : String → String → Json → HostCall Json
  remove_call : String → String → HostCall Json

module _ {Json : Type 0} (json : HostJson Json) where
  unfoldable pub call : HostCall Json → HostContext json → Status × HostContext json
  call (set_call entity id payload) = store_set json entity id payload
  call (remove_call entity id) = store_remove json entity id

  -- The calls of all handlers of a block, one after the other, with what each is told.
  unfoldable pub call_all : List (HostCall Json) → HostContext json → List Status × HostContext json
  call_all [] context = ([], context)
  call_all (c ∷ calls) context =
      let (status, next) = call c context in
      let (statuses, last) = call_all calls next in (status ∷ statuses, last)

  -- A call's operation, where the schema knows the entity, and a written object has the call's id.
  abbrev pub accepted : List String → HostCall Json → Option (Operation Json)
  accepted known (set_call entity id payload) =
      if any (λ e. str_eq e entity) known
        && json.is_object payload
        && option_str_eq (json.id_of payload) (some id)
      then some (record { operation = set_type; entity_type = entity; payload = payload })
      else none
  accepted known (remove_call entity id) =
      if any (λ e. str_eq e entity) known
      then some (record { operation = remove_type; entity_type = entity; payload = json.text id })
      else none

  abbrev pub all_accepted : List String → List (HostCall Json) → List (Operation Json)
  all_accepted known [] = []
  all_accepted known (c ∷ calls) = elim (accepted known c) [
    | none ↦ all_accepted known calls
    | some operation ↦ operation ∷ all_accepted known calls
  ]

  abbrev pub is_success : Status → Bool
  is_success success = true
  is_success _ = false

  abbrev pub is_accepted : List String → HostCall Json → Bool
  is_accepted known c = elim (accepted known c) [ none ↦ false | some operation ↦ true ]

  call-accepted :
      (c : HostCall Json) (context : HostContext json)
      → ((call c context).1 ≡ record context {
        operations = context.operations ++ all_accepted context.known_entities (c ∷ []);
      })
        × (is_success (call c context).0 ≡ is_accepted context.known_entities c)
  unfolding call store_set store_remove knows_entity
  call-accepted (set_call entity id payload) context =
      let e = append-nil context.operations in (ground (arith, e), ground (arith, e))
  call-accepted (remove_call entity id) context =
      let e = append-nil context.operations in (ground (arith, e), ground (arith, e))

  accepted-cons :
      (known : List String) (c : HostCall Json) (calls : List (HostCall Json))
      → all_accepted known (c ∷ []) ++ all_accepted known calls ≡ all_accepted known (c ∷ calls)
  accepted-cons known c calls = elim (Option-cases (accepted known c)) [
    | inl refused ↦ ground (arith, refused)
    | inr (operation, taken) ↦ ground (arith, taken)
  ]

  after : HostContext json → List (Operation Json) → HostContext json
  after context more = record context { operations = context.operations ++ more }

  call_all-append :
      (calls : List (HostCall Json)) (context : HostContext json)
      → ((call_all calls context).1 ≡ after context (all_accepted context.known_entities calls))
        × (map is_success (call_all calls context).0
            ≡ map (is_accepted context.known_entities) calls)
  unfolding call_all after
  call_all-append [] context = (ground (arith, append-nil context.operations), refl)
  call_all-append (c ∷ calls) context =
      let (step, told) = call-accepted c context in
      let known = context.known_entities in
      let next = after context (all_accepted known (c ∷ [])) in
      let (rest, others) = call_all-append calls next in
      let taken = is_accepted known c in
      (
        ap (λ n. (call_all calls n).1) step
            ∙ rest
            ∙ ap (λ ops. record context { operations = ops })
                (append_assoc context.operations (all_accepted known (c ∷ []))
                    (all_accepted known calls)
                  ∙ ap (λ ops. context.operations ++ ops) (accepted-cons known c calls)),
        ap (λ b. b ∷ map is_success (call_all calls (call c context).1).0) told
            ∙ ap (λ n. taken ∷ map is_success (call_all calls n).0) step
            ∙ ap (λ l. taken ∷ l) others,
      )

  -- A block's handlers leave, in call order, exactly the operations of the calls that were accepted,
  -- each of an entity of the schema, and a call is told of success exactly if it was; taking the
  -- operations empties the buffer.
  pub call_all-accepted :
      (block : BlockContext) (known : List String) (calls : List (HostCall Json))
      → let result = call_all calls (new json block known) in
        (take_operations json result.1 ≡ (all_accepted known calls, new json block known))
        × (map is_success result.0 ≡ map (is_accepted known) calls)
  unfolding take_operations new after
  call_all-accepted block known calls =
      let (left, told) = call_all-append calls (new json block known) in
      (ap (take_operations json) left, told)
