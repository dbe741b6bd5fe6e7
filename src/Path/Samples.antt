-- ===== src/Path/Samples.antt =====
-- Paths of the source's own tests, and the theorems at them.
use nsclient_fleet_server.Common.{
  true, false, ◌≡◌, ◌≢◌, ◌↔◌, refl, [], ◌∷◌, some, if◌then◌else◌, any,
}
use nsclient_fleet_server.Common.Text.{Text, codes, text_eq}
use nsclient_fleet_server.Common.Result.{ok, err}
use nsclient_fleet_server.Json.{Value, number, string, object, array, cons, nil, field, end, member}
use nsclient_fleet_server.Path.Parse.{
  FactPath, parse, empty_key, empty_id, expected_dot, unclosed, out_of_fuel, is_delimiter,
}
use nsclient_fleet_server.Path.Spell.{child, pick}
use nsclient_fleet_server.Path.Resolve.{resolve, step_into, pick_value}
use nsclient_fleet_server.Path.Grammar.{IsPath, render}
use nsclient_fleet_server.Path.Fuel.{parse-ne-out_of_fuel}
use nsclient_fleet_server.Path.Language.{parse_iff}
use nsclient_fleet_server.Path.Children.{Reaches, child-resolve}

abbrev installed : Text
installed = codes "software.installed"

abbrev installed_path : FactPath
installed_path = record {
  raw = installed;
  segments =
      record { key = codes "software"; ids = [] }
      ∷ record { key = codes "installed"; ids = [] }
      ∷ [];
}

abbrev bash_path : FactPath
bash_path = record {
  raw = codes "s.installed[python3.11]";
  segments =
      record { key = codes "s"; ids = [] }
      ∷ record { key = codes "installed"; ids = codes "python3.11" ∷ [] }
      ∷ [];
}

installed_parses : parse installed ≡ ok installed_path
unfolding parse
installed_parses = refl

bash_parses : parse (codes "s.installed[python3.11]") ≡ ok bash_path
unfolding parse
bash_parses = refl

refused :
    (parse (codes "a..b") ≡ err empty_key)
    × (parse (codes "a[]") ≡ err empty_id)
    × (parse (codes "a[b") ≡ err unclosed)
    × (parse (codes "a[b]c") ≡ err expected_dot)
unfolding parse
refused = (refl, refl, refl, refl)

abbrev doc : Value
doc = object (
    field (codes "software")
      (object (
        field (codes "installed")
          (array (
            cons
              (object (
                field (codes "id") (string (codes "bash"))
                  (field (codes "version") (number (codes "5.2")) end)))
              nil))
          end))
      end)

version_found :
    resolve installed_path doc
    ≡ array (
        cons
          (object (
            field
              (codes "id")
              (string (codes "bash"))
              (field (codes "version") (number (codes "5.2")) end)))
          nil)
      ∷ []
unfolding resolve member text_eq
version_found = refl

parse_iff_example : (parse (codes "s.installed[python3.11]") ≡ ok bash_path) ↔ (
    (bash_path.raw ≡ codes "s.installed[python3.11]")
    × IsPath bash_path.segments
    × (render bash_path.segments ≡ codes "s.installed[python3.11]"))
parse_iff_example = parse_iff (codes "s.installed[python3.11]") bash_path

parse-ne-out_of_fuel_example : parse (codes "a[b][c].d") ≢ err out_of_fuel
parse-ne-out_of_fuel_example = parse-ne-out_of_fuel (codes "a[b][c].d")

version_child : child installed (codes "version") true ≡ some (codes "software.installed.version")
unfolding child
version_child = refl

bash_pick : pick installed (codes "bash") ≡ some (codes "software.installed[bash]")
unfolding pick
bash_pick = refl

os_child : child [] (codes "os") false ≡ some (codes "os")
unfolding child
os_child = refl

child-resolve_example :
    Reaches installed_path
      (if any is_delimiter (codes "version")
        then pick_value (codes "version")
        else step_into (codes "version"))
      (codes "software.installed.version")
child-resolve_example =
    child-resolve installed (codes "version") (codes "software.installed.version") true
      installed_path installed_parses version_child
