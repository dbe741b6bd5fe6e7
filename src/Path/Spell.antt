-- ===== src/Path/Spell.antt =====
-- `FactPath::child` and `FactPath::pick`: how a path to a child is written.
use nsclient_fleet_server.Common.{
  Bool, ◌||◌, [], ◌∷◌, ◌++◌, Option, none, some, any, eqb, leb, is_empty, length, if◌then◌else◌,
}
use nsclient_fleet_server.Common.Text.{Text}
use nsclient_fleet_server.Path.Parse.{
  max_fact_path_len, bracket_open, bracket_close, dot, is_delimiter,
}

abbrev pub has_close : Text → Bool
has_close = any (λ c. eqb c bracket_close)

-- `[id]`
abbrev pub in_brackets : Text → Text
in_brackets id = bracket_open ∷ id ++ bracket_close ∷ []

-- `(path.len() <= MAX_FACT_PATH_LEN).then_some(path)`
abbrev pub if_fits : Text → Option Text
if_fits path = if leb (length path) max_fact_path_len then some path else none

unfoldable pub child : Text → Text → Bool → Option Text
child parent key in_record =
    if is_empty key
    then none
    else if any is_delimiter key
    then (if is_empty parent || in_record || has_close key
        then none
        else if_fits (parent ++ in_brackets key))
    else if is_empty parent
    then if_fits key
    else if_fits (parent ++ dot ∷ key)

unfoldable pub pick : Text → Text → Option Text
pick parent id =
    if is_empty parent || is_empty id || has_close id
    then none
    else if_fits (parent ++ in_brackets id)
