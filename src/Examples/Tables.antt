-- ===== src/Examples/Tables.antt =====
-- An entity with a table, its versions, and the set-up of its schema.
use superquery_node.Common.{
  ok, Bytes, ascii, String, ◌≡◌, refl, ◌↔◌, false, none, some, List, [], ◌∷◌,
}
use superquery_node.Store.Schema.{EntityField, EntityModel}
use superquery_node.Store.Idents.{validate_ident, IsIdent, validate_ident_iff}
use superquery_node.Store.Ddl.{column_type, scalar_type}
use superquery_node.Store.Migration.{Answers}
use superquery_node.Store.Versions.AsOf.{as_of, rewound, rewound-as_of}
use superquery_node.Store.Versions.{Version}
use superquery_node.Store.Entity.{placeholder}
use superquery_node.Store.Entity.Casts.{cast_of, placeholder-column_type}

abbrev amount : EntityField
amount = record { name = "amount"; base_type = "BigInt"; is_array = false; nullable = false }

placeholder-column_type_example : placeholder amount 2 ≡ cast_of "numeric" 2
unfolding column_type scalar_type
placeholder-column_type_example = placeholder-column_type amount "numeric" 2 refl

abbrev versions : List (Version String)
versions =
    record { lower = 5; upper = some 8; row = "a" }
    ∷ record { lower = 8; upper = none; row = "b" }
    ∷ record { lower = 9; upper = none; row = "c" }
    ∷ []

rewound-as_of_example : as_of 9 (rewound 7 versions) ≡ as_of 7 versions
rewound-as_of_example = rewound-as_of 7 9 versions

abbrev ident_text : Bytes → String
ident_text ident = "app"

validate_ident_iff_example :
    (validate_ident ident_text (ascii "app") ≡ ok tt) ↔ IsIdent ident_text (ascii "app")
validate_ident_iff_example = validate_ident_iff ident_text (ascii "app")

abbrev same_name : String → String
same_name name = name

abbrev answers : Answers
answers = record {
  bookkeeping = ok tt;
  identity = ok tt;
  batch_execute = λ statement. ok tt;
  set_version = ok tt;
}

abbrev model : EntityModel
model = record { name = "transfers"; fields = amount ∷ [] }
