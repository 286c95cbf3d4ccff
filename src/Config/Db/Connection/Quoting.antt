-- ===== src/Config/Db/Connection/Quoting.antt =====
-- How PostgreSQL reads the connection string that crates/config/src/db.rs writes. The reader is a
-- specification, after the documentation of libpq's keyword/value strings: a value runs to the next
-- blank, or is quoted, and then a backslash escapes the character behind it.
use superquery_node.Common.{
  ltb, ◌==◌, if◌then◌else◌, Bool-cases, All, Bytes, ascii, concat, ℕ, zero, suc, ◌+◌, ◌/◌, ◌%◌, ◌≤◌,
  ◌<◌, ◌≡◌, refl, ap, ◌∙◌, inl, inr, Bool, true, false, Option, none, some, List, [], ◌∷◌, ◌++◌,
  append_assoc, arith,
}
use superquery_node.Config.Db.Connection.{
  digits_onto, quote, print_port, apostrophe, replace, connection_string, backslash,
}
use superquery_node.Config.Db.{DbConfig}

abbrev in_front : ℕ → Option (Bytes × Bytes) → Option (Bytes × Bytes)
in_front c none = none
in_front c (some (value, rest)) = some (c ∷ value, rest)

-- The rest of a quoted value, and what is behind it.
unfoldable pub unquote : Bool → Bytes → Option (Bytes × Bytes)
unquote escaping [] = none
unquote true (c ∷ s) = in_front c (unquote false s)
unquote false (c ∷ s) =
    let escaped = unquote true s in
    let rest = in_front c (unquote false s) in
    if c == apostrophe then some ([], s) else if c == backslash then escaped else rest

abbrev blank : ℕ
blank = 32

-- A bare value, and what is behind it.
unfoldable pub bare : Bytes → Bytes × Bytes
bare [] = ([], [])
bare (c ∷ s) = let (value, rest) = bare s in if c == blank then ([], c ∷ s) else (c ∷ value, rest)

unfoldable pub value_of : Bytes → Option (Bytes × Bytes)
value_of [] = some ([], [])
value_of (c ∷ s) = if c == apostrophe then unquote false s else some (bare (c ∷ s))

unfoldable pub keyword : Bytes → Option (Bytes × Bytes)
keyword [] = none
keyword (c ∷ s) = let rest = in_front c (keyword s) in if c == b'=' then some ([], s) else rest

abbrev pub drop_blank : Bytes → Bytes
drop_blank [] = []
drop_blank (c ∷ s) = if c == blank then s else c ∷ s

-- `count` settings, and nothing behind them.
unfoldable pub settings : ℕ → Bytes → Option (List (Bytes × Bytes))
settings zero [] = some []
settings zero (c ∷ s) = none
settings (suc count) s = elim (keyword s) [
  | none ↦ none
  | some (key, t) ↦ elim (value_of t) [
    | none ↦ none
    | some (value, rest) ↦ elim (settings count (drop_blank rest)) [
      | none ↦ none
      | some more ↦ some ((key, value) ∷ more)
    ]
  ]
]

abbrev escaped : Bytes → Bytes
escaped value =
    replace apostrophe (backslash ∷ apostrophe ∷ [])
      (replace backslash (backslash ∷ backslash ∷ []) value)

-- A quoted value is read back whole, whatever its characters, up to its own closing quote.
unquote-escaped :
    (value rest : Bytes) → unquote false (escaped value ++ apostrophe ∷ rest) ≡ some (value, rest)
unfolding unquote replace
unquote-escaped [] rest = refl
unquote-escaped (c ∷ s) rest = elim (Bool-cases (c == backslash)) [
  | inl slash ↦ ground (arith, slash, unquote-escaped s rest)
  | inr other ↦ elim (Bool-cases (c == apostrophe)) [
    | inl mark ↦ ground (arith, other, mark, unquote-escaped s rest)
    | inr plain ↦ ground (arith, other, plain, unquote-escaped s rest)
  ]
]

value_of-quote : (value rest : Bytes) → value_of (quote value ++ rest) ≡ some (value, rest)
unfolding value_of quote
value_of-quote value rest =
    ap (unquote false) (append_assoc (escaped value) (apostrophe ∷ []) rest)
    ∙ unquote-escaped value rest

-- A text of digits.
abbrev IsDigit : ℕ → Type 0
IsDigit c = (48 ≤ c) × (c ≤ 57)

digits_onto-All :
    (fuel n : ℕ) (s : Bytes) → n < fuel → All IsDigit s → All IsDigit (digits_onto fuel n s)
unfolding digits_onto
digits_onto-All zero n s h a = a
digits_onto-All (suc fuel) n s h a = elim (Bool-cases (ltb n 10)) [
  | inl lt ↦ rw lt ((omega arith, ground (arith, lt)), a)
  | inr ge ↦ rw ge (
      digits_onto-All fuel (n / 10) ((48 + n % 10) ∷ s) (ground arith)
        ((omega arith, omega arith), a))
]

bare-digits : (s rest : Bytes) → All IsDigit s → bare (s ++ blank ∷ rest) ≡ (s, blank ∷ rest)
unfolding bare
bare-digits [] rest a = refl
bare-digits (c ∷ s) rest a = ground (arith, a.0.0, a.0.1, bare-digits s rest a.1)

value_of-digits :
    (s rest : Bytes) → All IsDigit s → value_of (s ++ blank ∷ rest) ≡ some (s, blank ∷ rest)
unfolding value_of bare
value_of-digits [] rest a = ground arith
value_of-digits (c ∷ s) rest a = ground (arith, a.0.0, a.0.1, bare-digits (c ∷ s) rest a)

value_of-print_port :
    (port : ℕ) (rest : Bytes)
    → value_of (print_port port ++ blank ∷ rest) ≡ some (print_port port, blank ∷ rest)
unfolding print_port
value_of-print_port port rest =
    value_of-digits (print_port port) rest (digits_onto-All (suc port) port [] (omega arith) tt)

settings-next :
    (count : ℕ) (key value s w rest : Bytes) (more : List (Bytes × Bytes))
    → keyword s ≡ some (key, w ++ blank ∷ rest)
    → value_of (w ++ blank ∷ rest) ≡ some (value, blank ∷ rest)
    → settings count rest ≡ some more
    → settings (suc count) s ≡ some ((key, value) ∷ more)
unfolding settings
settings-next count key value s w rest more k v e = ground (arith, k, v, e)

settings-last :
    (key value s : Bytes)
    → keyword s ≡ some (key, quote value ++ [])
    → settings 1 s ≡ some ((key, value) ∷ [])
unfolding settings
settings-last key value s k = ground (arith, k, value_of-quote value [])

-- Whatever characters the settings hold, PostgreSQL reads the connection string as the five
-- settings with these values, and as nothing else.
pub connection_string-settings :
    (config : DbConfig)
    → settings 5 (connection_string config)
      ≡ some (
          (ascii "host", config.host)
          ∷ (ascii "port", print_port config.port)
          ∷ (ascii "user", config.username)
          ∷ (ascii "password", config.password)
          ∷ (ascii "dbname", config.database)
          ∷ [])
unfolding connection_string keyword
connection_string-settings config =
    let name = concat (ascii "dbname=" ∷ quote config.database ∷ []) in
    let secret = ascii "password=" ++ (quote config.password ++ (blank ∷ name)) in
    let user = ascii "user=" ++ (quote config.username ++ (blank ∷ secret)) in
    let port = ascii "port=" ++ (print_port config.port ++ (blank ∷ user)) in
    settings-next 4 (ascii "host") config.host (connection_string config) (quote config.host) port _
      refl (value_of-quote config.host (blank ∷ port))
      (settings-next 3 (ascii "port") (print_port config.port) port (print_port config.port) user _
        refl (value_of-print_port config.port user)
        (settings-next 2 (ascii "user") config.username user (quote config.username) secret _ refl
          (value_of-quote config.username (blank ∷ secret))
          (settings-next 1 (ascii "password") config.password secret (quote config.password) name _
            refl (value_of-quote config.password (blank ∷ name))
            (settings-last (ascii "dbname") config.database name refl))))
