-- ===== src/Storage/Tags/Replaced.antt =====
-- What `replace_agent_tags` leaves, and what it says has changed.
use nsclient_fleet_server.Common.{
  Bool, true, false, ◌≡◌, List, [], ◌∷◌, Option, none, some, arith, if◌then◌else◌, ◌&&◌, ◌||◌, ◌==◌,
  ltb, Option-cases, inl, inr,
}
use nsclient_fleet_server.Common.Int.{ℤ}
use nsclient_fleet_server.Common.Text.{Text, text_equality, text_eq_iff, text_eq_refl}
use nsclient_fleet_server.Common.Result.{ok}
use nsclient_fleet_server.Common.Dict
use nsclient_fleet_server.Common.Distinct.{IsDistinct}
use nsclient_fleet_server.Storage.{Store, TagRow}
use nsclient_fleet_server.Storage.Table.{first, delete, count, delete-uncounted}
use nsclient_fleet_server.Storage.Tags.{
  is_tag, write_tag, write_all, is_other, drops, agent_tag_source, replace_agent_tags,
}
use nsclient_fleet_server.Storage.Tags.Written.{
  tag_value, owns_tags, write_tag-tag_value, is_other_iff, delete-tag_value,
}

-- The report's value where it has the key, what was there otherwise.
abbrev overlay : Option Text → Option Text → Option Text
overlay none old = old
overlay (some v) old = some v

abbrev pub of_agent : Text → Text → Text → Bool
of_agent h g other = h == g && agent_tag_source == other

write_all-tag_value :
    (t : ℤ) (h : Text) (now : ℤ) (tags : List (Text × Text)) (b : Bool) (rows : List TagRow)
    (g j other : Text)
    → IsDistinct tags
    → tag_value g j other (write_all t h now tags (b, rows)).1 ≡ (
        if of_agent h g other
        then overlay (Dict.get j tags) (tag_value g j other rows)
        else tag_value g j other rows)
unfolding write_all Dict.get
write_all-tag_value t h now [] b rows g j other d = ground arith
write_all-tag_value t h now ((k, v) ∷ tags) b rows g j other d = ground (
  arith,
  write_all-tag_value t h now tags (b || is_other (first (is_tag h k agent_tag_source) rows) v)
      (write_tag t h k v agent_tag_source now rows) g j other d.1,
  write_tag-tag_value t h k v agent_tag_source now rows g j other,
  text_eq_iff k j,
  text_eq_refl agent_tag_source,
  d.0,
)

write_all-unchanged :
    (t : ℤ) (h : Text) (now : ℤ) (tags : List (Text × Text)) (b : Bool) (rows : List TagRow)
    (j v : Text)
    → IsDistinct tags
    → (write_all t h now tags (b, rows)).0 ≡ false
    → (b ≡ false) × (Dict.get j tags ≡ some v → tag_value h j agent_tag_source rows ≡ some v)
unfolding write_all Dict.get
write_all-unchanged t h now [] b rows j v d e = ground arith
write_all-unchanged t h now ((k, w) ∷ tags) b rows j v d e = ground (
  arith,
  write_all-unchanged t h now tags (b || is_other (first (is_tag h k agent_tag_source) rows) w)
      (write_tag t h k w agent_tag_source now rows) j v d.1 e,
  write_tag-tag_value t h k w agent_tag_source now rows h j agent_tag_source,
  is_other_iff h k w rows,
  text_eq_iff k j,
)

-- A successful replacement leaves exactly the reported tags from the agent: each reported key with its
-- value, no other key; and it leaves the tags of other hosts and those an operator set. The report is a
-- map, and the tags of the host are filed under its tenant.
pub replace_agent_tags-tag_value :
    (t : ℤ) (h : Text) (tags : List (Text × Text)) (now : ℤ) (s : Store) (changed : Bool)
    (g j other : Text)
    → IsDistinct tags
    → owns_tags t h s.tags ≡ true
    → (replace_agent_tags t h tags now s).0 ≡ ok changed
    → tag_value g j other (replace_agent_tags t h tags now s).1.tags
      ≡ (if of_agent h g other then Dict.get j tags else tag_value g j other s.tags)
unfolding replace_agent_tags
replace_agent_tags-tag_value t h tags now s changed g j other d o e = ground (
  arith,
  write_all-tag_value t h now tags (ltb 0 (count (drops t h tags) s.tags))
      (delete (drops t h tags) s.tags) g j other d,
  delete-tag_value t h tags s.tags g j other o,
  text_eq_iff h g,
  text_eq_iff g h,
  text_eq_iff other agent_tag_source,
  text_eq_iff agent_tag_source other,
)

-- A report that the replacement answers is no change leaves every tag of every host as it was, under
-- every key and from every source: what was cached for the host need not be dropped. The report is a
-- map, and the tags of the host are filed under its tenant.
pub replace_agent_tags-unchanged :
    (t : ℤ) (h : Text) (tags : List (Text × Text)) (now : ℤ) (s : Store) (g j other : Text)
    → IsDistinct tags
    → owns_tags t h s.tags ≡ true
    → (replace_agent_tags t h tags now s).0 ≡ ok false
    → tag_value g j other (replace_agent_tags t h tags now s).1.tags ≡ tag_value g j other s.tags
unfolding replace_agent_tags
replace_agent_tags-unchanged t h tags now s g j other d o e =
    let gone = count (drops t h tags) s.tags in
    let kept = delete (drops t h tags) s.tags in
    let changed : (write_all t h now tags (ltb 0 gone, kept)).0 ≡ false = ground (arith, e) in
    elim (Option-cases (Dict.get j tags)) [
      | inl x ↦ ground (
        arith,
        x,
        replace_agent_tags-tag_value t h tags now s false g j other d o e,
        write_all-unchanged t h now tags (ltb 0 gone) kept j h d changed,
        delete-uncounted (drops t h tags) s.tags,
        delete-tag_value t h tags s.tags g j other o,
        text_eq_iff h g,
        text_eq_iff g h,
        text_eq_iff other agent_tag_source,
        text_eq_iff agent_tag_source other,
      )
      | inr (v, x) ↦ ground (
        arith,
        x,
        replace_agent_tags-tag_value t h tags now s false g j other d o e,
        write_all-unchanged t h now tags (ltb 0 gone) kept j v d changed,
        delete-uncounted (drops t h tags) s.tags,
        text_eq_iff h g,
        text_eq_iff agent_tag_source other,
      )
    ]
