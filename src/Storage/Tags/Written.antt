-- ===== src/Storage/Tags/Written.antt =====
-- What writing and dropping rows of host_tags leaves under a host, a key and a source.
use nsclient_fleet_server.Common.{
  Bool, true, false, not as negate, ◌≡◌, refl, all, any, List, [], ◌∷◌, ◌++◌, Option, none, some,
  arith, if◌then◌else◌, ◌&&◌, ◌||◌, ◌==◌, ◌↔◌, Bool-cases, Option-cases, inl, inr,
}
use nsclient_fleet_server.Common.Int.{ℤ, int_eq}
use nsclient_fleet_server.Common.Text.{Text, text_equality, text_eq_iff, text_eq_refl}
use nsclient_fleet_server.Common.Dict
use nsclient_fleet_server.Storage.{TagRow}
use nsclient_fleet_server.Storage.Table.{first, update, delete, upsert, update-hit, update-miss}
use nsclient_fleet_server.Storage.Hosts.{map_option}
use nsclient_fleet_server.Storage.Tags.{
  is_tag, write_tag, is_other, drops, agent_tag_source, is_set,
}

-- The value that a host has under a key from a source.
unfoldable pub tag_value : Text → Text → Text → List TagRow → Option Text
tag_value h k source rows = map_option (λ r. r.value) (first (is_tag h k source) rows)

abbrev same_tag : Text → Text → Text → Text → Text → Text → Bool
same_tag h k source g j other = h == g && k == j && source == other

untouched :
    (h k source : Text) (f : TagRow → TagRow) (rows : List TagRow)
    → any (is_tag h k source) rows ≡ false
    → update (is_tag h k source) f rows ≡ rows
unfolding update
untouched h k source f [] e = refl
untouched h k source f (r ∷ rs) e = ground (arith, untouched h k source f rs)

same_place :
    (h k source : Text) (row r : TagRow) (g j other : Text)
    → is_tag h k source row ≡ true
    → is_tag h k source r ≡ true
    → (is_tag g j other row ≡ same_tag h k source g j other)
      × (is_tag g j other r ≡ same_tag h k source g j other)
same_place h k source row r g j other m e = ground (
  arith,
  text_eq_iff row.host_id h,
  text_eq_iff row.key k,
  text_eq_iff row.source source,
  text_eq_iff r.host_id h,
  text_eq_iff r.key k,
  text_eq_iff r.source source,
)

other_place :
    (h k source : Text) (r : TagRow) (g j other : Text)
    → is_tag h k source r ≡ false
    → is_tag g j other r && same_tag h k source g j other ≡ false
other_place h k source r g j other e = ground (
  arith,
  text_eq_iff h g,
  text_eq_iff k j,
  text_eq_iff source other,
  text_eq_iff r.host_id g,
  text_eq_iff r.key j,
  text_eq_iff r.source other,
)

first-overwritten :
    (h k source g j other : Text) (row : TagRow) (rows : List TagRow)
    → is_tag h k source row ≡ true
    → any (is_tag h k source) rows ≡ true
    → tag_value g j other (update (is_tag h k source) (λ r. row) rows)
      ≡ (if same_tag h k source g j other then some row.value else tag_value g j other rows)
unfolding tag_value first
first-overwritten h k source g j other row [] m a = cc
first-overwritten h k source g j other row (r ∷ rs) m a = elim (Bool-cases (is_tag h k source r)) [
  | inl e ↦
      rw (update-hit (is_tag h k source) (λ r. row) r rs e)
        (elim (Bool-cases (any (is_tag h k source) rs)) [
          | inl x ↦ ground (
            arith,
            first-overwritten h k source g j other row rs m x,
            same_place h k source row r g j other m e,
          )
          | inr x ↦ ground (
            arith,
            untouched h k source (λ r. row) rs x,
            same_place h k source row r g j other m e,
          )
        ])
  | inr e ↦ rw (update-miss (is_tag h k source) (λ r. row) r rs e) (
      ground (
        arith,
        first-overwritten h k source g j other row rs m,
        other_place h k source r g j other e,
        e,
      ))
]

first-appended :
    (h k source g j other : Text) (row : TagRow) (rows : List TagRow)
    → is_tag h k source row ≡ true
    → any (is_tag h k source) rows ≡ false
    → tag_value g j other (rows ++ row ∷ [])
      ≡ (if same_tag h k source g j other then some row.value else tag_value g j other rows)
unfolding tag_value first
first-appended h k source g j other row [] m a =
    ground (arith, text_eq_iff row.host_id h, text_eq_iff row.key k, text_eq_iff row.source source)
first-appended h k source g j other row (r ∷ rs) m a = ground (
  arith,
  first-appended h k source g j other row rs m,
  text_eq_iff h g,
  text_eq_iff k j,
  text_eq_iff source other,
)

pub write_tag-tag_value :
    (t : ℤ) (h k v source : Text) (now : ℤ) (rows : List TagRow) (g j other : Text)
    → tag_value g j other (write_tag t h k v source now rows)
      ≡ (if same_tag h k source g j other then some v else tag_value g j other rows)
unfolding write_tag upsert
write_tag-tag_value t h k v source now rows g j other =
    let row : TagRow = record {
      tenant_id = t;
      host_id = h;
      key = k;
      value = v;
      source = source;
      updated_at = now;
    } in
    ground (
      arith,
      first-overwritten h k source g j other row rows,
      first-appended h k source g j other row rows,
      text_eq_refl h,
      text_eq_refl k,
      text_eq_refl source,
    )

pub is_other_iff :
    (h k v : Text) (rows : List TagRow)
    → (is_other (first (is_tag h k agent_tag_source) rows) v ≡ false)
      ↔ (tag_value h k agent_tag_source rows ≡ some v)
unfolding tag_value
is_other_iff h k v rows = elim (Option-cases (first (is_tag h k agent_tag_source) rows)) [
  | inl e ↦ ground (arith, e)
  | inr (r, e) ↦ ground (arith, e, text_eq_iff r.value v)
]

-- Every tag of the host is filed under its tenant.
abbrev pub owns_tags : ℤ → Text → List TagRow → Bool
owns_tags t h rows = all (λ r. negate (r.host_id == h) || r.tenant_id == t) rows

pub delete-tag_value :
    (t : ℤ) (h : Text) (tags : List (Text × Text)) (rows : List TagRow) (g j other : Text)
    → owns_tags t h rows ≡ true
    → tag_value g j other (delete (drops t h tags) rows) ≡ (
        if g == h && other == agent_tag_source && negate (is_set (Dict.get j tags))
        then none
        else tag_value g j other rows)
unfolding tag_value first delete
delete-tag_value t h tags [] g j other o = ground arith
delete-tag_value t h tags (r ∷ rs) g j other o = ground (
  arith,
  delete-tag_value t h tags rs g j other,
  text_eq_iff r.host_id h,
  text_eq_iff r.host_id g,
  text_eq_iff g h,
  text_eq_iff r.key j,
  text_eq_iff r.source other,
  text_eq_iff r.source agent_tag_source,
  text_eq_iff other agent_tag_source,
)
