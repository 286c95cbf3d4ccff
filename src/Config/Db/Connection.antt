-- ===== src/Config/Db/Connection.antt =====
-- crates/config/src/db.rs: the connection string for PostgreSQL, and what is logged instead.
use superquery_node.Common.{
  ltb, ◌==◌, if◌then◌else◌, Bytes, ascii, concat, ℕ, zero, suc, ◌+◌, ◌/◌, ◌%◌, [], ◌∷◌, ◌++◌,
}
use superquery_node.Config.Db.{DbConfig}
pub mod Quoting

-- `str::replace` of a character by a text.
unfoldable pub replace : ℕ → Bytes → Bytes → Bytes
replace c by [] = []
replace c by (d ∷ s) = let rest = replace c by s in if d == c then by ++ rest else d ∷ rest

abbrev pub backslash : ℕ
backslash = 92

abbrev pub apostrophe : ℕ
apostrophe = 39

unfoldable pub quote : Bytes → Bytes
quote value =
    let slashes = replace backslash (backslash ∷ backslash ∷ []) value in
    apostrophe ∷ (replace apostrophe (backslash ∷ apostrophe ∷ []) slashes ++ apostrophe ∷ [])

-- The decimal digits of a port. Fuel `suc n` is enough: each step divides by ten.
unfoldable pub digits_onto : ℕ → ℕ → Bytes → Bytes
digits_onto zero n s = s
digits_onto (suc fuel) n s =
    let longer = digits_onto fuel (n / 10) ((48 + n % 10) ∷ s) in
    if ltb n 10 then (48 + n) ∷ s else longer

unfoldable pub print_port : ℕ → Bytes
unfolding digits_onto
print_port port = digits_onto (suc port) port []

unfoldable pub connection_string : DbConfig → Bytes
connection_string config = concat (
    ascii "host="
    ∷ quote config.host
    ∷ ascii " port="
    ∷ print_port config.port
    ∷ ascii " user="
    ∷ quote config.username
    ∷ ascii " password="
    ∷ quote config.password
    ∷ ascii " dbname="
    ∷ quote config.database
    ∷ [])

unfoldable pub redacted : DbConfig → Bytes
redacted config = concat (
    ascii "postgres://"
    ∷ config.username
    ∷ ascii "@"
    ∷ config.host
    ∷ ascii ":"
    ∷ print_port config.port
    ∷ ascii "/"
    ∷ config.database
    ∷ ascii " (schema="
    ∷ config.schema
    ∷ ascii ")"
    ∷ [])
