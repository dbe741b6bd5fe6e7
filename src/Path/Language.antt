-- ===== src/Path/Language.antt =====
-- The language that `FactPath::parse` accepts.
use nsclient_fleet_server.Common.{◌≡◌, sym, ap, ◌∙◌, subst, ◌↔◌}
use nsclient_fleet_server.Common.Text.{Text}
use nsclient_fleet_server.Common.Result.{Result, ok}
use nsclient_fleet_server.Path.Parse.{FactPath, PathError, parse}
use nsclient_fleet_server.Path.Grammar.{IsPath, render}
use nsclient_fleet_server.Path.Sound.{parse_sound}
use nsclient_fleet_server.Path.Complete.{parse-render}

-- The parser accepts a text as a path exactly when the path's segments are well formed, are written
-- as that text, and the path keeps the text.
pub parse_iff :
    (path : Text) (p : FactPath)
    → (parse path ≡ ok p) ↔ ((p.raw ≡ path) × IsPath p.segments × (render p.segments ≡ path))
parse_iff path p = (
  parse_sound path p,
  λ h.
      subst (λ t. parse t ≡ ok (record { raw = t; segments = p.segments })) h.2
        (parse-render p.segments h.1)
      ∙ ap {B = Result FactPath PathError} (λ t. ok (record { raw = t; segments = p.segments }))
          (sym h.0),
)
