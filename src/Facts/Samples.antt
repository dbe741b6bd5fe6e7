-- ===== src/Facts/Samples.antt =====
-- Tests and witnesses for the facts of a host.
use nsclient_fleet_server.Common.{
  ◌≤◌, ◌≡◌, refl, ◌⊎◌, [], ◌∷◌, none, some, All, length, if◌then◌else◌, ◌==◌,
}
use nsclient_fleet_server.Common.Text.{Text, codes, text_eq, text_ltb, text_equality}
use nsclient_fleet_server.Common.TextSet.{insert, contains}
use nsclient_fleet_server.Common.Dict.{get, put}
use nsclient_fleet_server.Json.{Value, string, array, object, cons, nil, field, end, member}
use nsclient_fleet_server.Path.Spell.{child, pick}
use nsclient_fleet_server.Common.Result.{Result, ok}
use nsclient_fleet_server.Facts.Upload.{
  RawUpload, FactsUpload, parse_upload, verified, normalize_hash, cleaned,
}
use nsclient_fleet_server.Facts.Upload.Verified.{Accepted, parse_upload-Accepted}
use nsclient_fleet_server.Facts.Diff.{
  Differ, changed, diff, value, push, object_key, removed_record, new_record, records, record_ids,
  record_ids_from,
}
use nsclient_fleet_server.Facts.Diff.Show.{shown, clip_to, cut_at}
use nsclient_fleet_server.Facts.Diff.Listed.{IsSpelled, diff-listed}
use nsclient_fleet_server.Facts.Diff.Same.{diff_self}

abbrev installed : Text → Text → Value
installed id version =
    object (field (codes "id") (string id) (field (codes "version") (string version) end))

abbrev software : Value → Value
software v =
    object
      (field (codes "software") (object (field (codes "installed") (array (cons v nil)) end)) end)

abbrev old_doc : Value
old_doc = software (installed (codes "bash") (codes "5.1"))

abbrev new_doc : Value
new_doc = software (installed (codes "bash") (codes "5.2"))

diff_test : diff old_doc new_doc 10 ≡ record {
  changes =
      record {
        path = codes "software.installed[bash].version";
        kind = changed;
        old = some (string (codes "5.1"));
        new = some (string (codes "5.2"));
      }
      ∷ [];
  truncated = 0;
}
unfolding diff value object_key removed_record new_record records record_ids record_ids_from push
    child pick member get put insert contains text_eq text_ltb shown clip_to cut_at
diff_test = refl

diff-listed_example :
    (length (diff old_doc new_doc 0).changes ≤ 0)
    × (((diff old_doc new_doc 0).truncated ≡ 0) ⊎ (length (diff old_doc new_doc 0).changes ≡ 0))
    × All (λ c. IsSpelled c.path) (diff old_doc new_doc 0).changes
diff-listed_example = diff-listed old_doc new_doc 0

diff_self_example : diff old_doc old_doc 10 ≡ record { changes = []; truncated = 0 }
diff_self_example =
    diff_self old_doc 10
      (unfold member text_eq in (refl, (refl, ((refl, tt, (refl, tt, tt)), tt), tt), tt))

abbrev start : Differ
start = record { out = record { changes = []; truncated = 0 }; max = 10; at_parent = [] }

-- A body that serde reads as this upload, with a digest that is known for the empty document.
abbrev body_of : Text → Result RawUpload Text
body_of body = ok (record {
  facts_hash = codes "44136FA355B3678A1146AD16F7E8649E94FB4FC21FE77E8310C060F61CAAFF8A";
  collected_at = none;
  facts = body;
})

abbrev empty_digest : Text
empty_digest = codes "44136fa355b3678a1146ad16f7e8649e94fb4fc21fe77e8310c060f61caaff8a"

abbrev digest_of : Text → Text
digest_of bytes = if bytes == codes "{}" then empty_digest else []

abbrev accepted : FactsUpload
accepted = record { facts_hash = empty_digest; collected_at = none; facts = codes "{}" }

parse_upload-Accepted_example : Accepted body_of digest_of (codes "{}") accepted
parse_upload-Accepted_example =
    parse_upload-Accepted body_of digest_of (codes "{}") accepted
      (unfold parse_upload verified normalize_hash cleaned text_eq in refl)
