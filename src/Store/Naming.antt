-- ===== src/Store/Naming.antt =====
-- crates/store/src/naming.rs: the names of tables and columns. The regular expressions of the crate
-- regex, which `(?i)` makes blind to case, and the case tables of Unicode are parameters.
use superquery_node.Common.{
  if◌then◌else◌, Bool-cases, take, any, String, str_eq, ◌≡◌, refl, ◌⊎◌, inl, inr, Bool, true, false,
  Option, none, some, List, [], ◌∷◌, ◌++◌,
}

pub record NamingText : Type 0 where
  -- `Regex::is_match`, `replace` and `replace_all`, from the pattern, the replacement and the text.
  pub is_match : String → String → Bool
  pub replace : String → String → String → String
  pub replace_all : String → String → String → String
  pub dashes_to_underscores : String → String
  pub to_lowercase : String → String
  -- Whether there is a first character and it is uppercase, and the text with it in uppercase.
  pub starts_uppercase : String → Bool
  pub capitalize_first : String → String

unfoldable pub uncountable : List String
uncountable =
    "equipment" ∷ "information" ∷ "rice" ∷ "money" ∷ "species" ∷ "series" ∷ "fish" ∷ "sheep"
    ∷ "jeans" ∷ "moose" ∷ "deer" ∷ "news" ∷ []

unfoldable pub irregular : List (String × String)
irregular =
    ("person", "people")
    ∷ ("man", "men")
    ∷ ("child", "children")
    ∷ ("sex", "sexes")
    ∷ ("move", "moves")
    ∷ ("cow", "kine")
    ∷ ("zombie", "zombies")
    ∷ []

-- The last rule, whose pattern is found at the end of any text.
abbrev pub any_word : String × String
any_word = ("(?i)$", "s")

unfoldable pub rules : List (String × String)
rules =
    ("(?i)(quiz)$", "${1}zes")
    ∷ ("(?i)^(ox)$", "${1}en")
    ∷ ("(?i)([ml])ouse$", "${1}ice")
    ∷ ("(?i)(matr|vert|ind)(ix|ex)$", "${1}ices")
    ∷ ("(?i)(x|ch|ss|sh)$", "${1}es")
    ∷ ("(?i)([^aeiouy]|qu)y$", "${1}ies")
    ∷ ("(?i)(hive)$", "${1}s")
    ∷ ("(?i)(?:([^f])fe|([lr])f)$", "${1}${2}ves")
    ∷ ("(?i)sis$", "ses")
    ∷ ("(?i)([ti])um$", "${1}a")
    ∷ ("(?i)(buffal|tomat)o$", "${1}oes")
    ∷ ("(?i)(bu)s$", "${1}ses")
    ∷ ("(?i)(alias|status)$", "${1}es")
    ∷ ("(?i)(octop|vir)us$", "${1}i")
    ∷ ("(?i)(ax|test)is$", "${1}es")
    ∷ ("(?i)s$", "s")
    ∷ any_word
    ∷ []

module _ (text : NamingText) where
  unfoldable pub underscored : String → String
  underscored input =
      let step1 = text.replace_all "([A-Z\\d]+)([A-Z][a-z])" "${1}_${2}" input in
      let step2 = text.replace_all "([a-z\\d])([A-Z])" "${1}_${2}" step1 in
      text.to_lowercase (text.dashes_to_underscores step2)

  -- The plural of an irregular word, in the case of its first character.
  unfoldable pub irregular_plural : String → String → List (String × String) → Option String
  irregular_plural word lower [] = none
  irregular_plural word lower ((sing, plur) ∷ others) =
      let rest = irregular_plural word lower others in
      if str_eq lower sing
      then some (if text.starts_uppercase word then text.capitalize_first plur else plur)
      else rest

  -- The first rule that matches wins.
  unfoldable pub apply_rules : String → List (String × String) → String
  apply_rules word [] = word
  apply_rules word ((re, rep) ∷ others) =
      let rest = apply_rules word others in
      if text.is_match re word then text.replace re rep word else rest

  unfoldable pub pluralize : String → String
  unfolding uncountable irregular rules irregular_plural apply_rules
  pluralize word =
      let lower = text.to_lowercase word in
      if str_eq word ""
      then ""
      else if any (str_eq lower) uncountable
      then word
      else elim (irregular_plural word lower irregular) [
        | some plural ↦ plural
        | none ↦ apply_rules word rules
      ]

  unfoldable pub model_to_table_name : String → String
  unfolding underscored pluralize
  model_to_table_name model_name = underscored (pluralize model_name)

  -- A rule of the list that matches, and is the first to do so.
  abbrev pub IsFirst : String → List (String × String) → String × String → Type 0
  IsFirst word [] rule = ⊥
  IsFirst word (first ∷ others) rule =
      ((text.is_match first.0 word ≡ true) × (rule ≡ first))
      ⊎ ((text.is_match first.0 word ≡ false) × IsFirst word others rule)

  apply_rules-IsFirst :
      (word : String) (before : List (String × String)) (last : String × String)
      → text.is_match last.0 word ≡ true
      → (rule : String × String) × IsFirst word (before ++ last ∷ []) rule
        × (apply_rules word (before ++ last ∷ []) ≡ text.replace rule.0 rule.1 word)
  unfolding apply_rules
  apply_rules-IsFirst word [] last matches = (last, inl (matches, refl), rw matches refl)
  apply_rules-IsFirst word (first ∷ before) last matches =
      let (rule, is_first, e) = apply_rules-IsFirst word before last matches in
      elim (Bool-cases (text.is_match first.0 word)) [
        | inl here ↦ (first, inl (here, refl), rw here refl)
        | inr other ↦ (rule, inr (other, is_first), rw other e)
      ]

  -- A word that is neither empty, nor uncountable, nor irregular has the plural that the first
  -- matching rule gives, of which there is one, provided that `$` is found in any text.
  pub pluralize-IsFirst :
      (word : String)
      → text.is_match any_word.0 word ≡ true
      → str_eq word "" ≡ false
      → any (str_eq (text.to_lowercase word)) uncountable ≡ false
      → irregular_plural word (text.to_lowercase word) irregular ≡ none
      → (rule : String × String) × IsFirst word rules rule
        × (pluralize word ≡ text.replace rule.0 rule.1 word)
  unfolding pluralize rules
  pluralize-IsFirst word matches nonempty countable regular =
      let (rule, is_first, e) = apply_rules-IsFirst word (take 16 rules) any_word matches in
      (rule, is_first, rw (nonempty, countable, regular) e)
