-- ===== src/Selector/Tags.antt =====
-- crates/core/src/selector/tags.rs, and `matching` of path.rs.
use nsclient_fleet_server.Common.{
  ℕ, Bool, true, false, List, [], Option, none, some, keep, if◌then◌else◌, ◌==◌, ◌≡◌, arith,
}
use nsclient_fleet_server.Common.Text.{Text, codes, text_equality, text_eq_iff}
use nsclient_fleet_server.Common.Dict

abbrev pub max_key_len : ℕ
max_key_len = 128

abbrev pub max_value_len : ℕ
max_value_len = 256

pub data TagSource : Type 0 where
  manual agent : TagSource

pub data SourceFilter : Type 0 where
  manual agent any_source : SourceFilter

unfoldable pub as_str : TagSource → Text
as_str TagSource.manual = codes "manual"
as_str TagSource.agent = codes "agent"

unfoldable pub from_db : Text → TagSource
from_db s = if s == codes "manual" then TagSource.manual else TagSource.agent

unfoldable pub accepts : SourceFilter → TagSource → Bool
accepts SourceFilter.manual TagSource.manual = true
accepts SourceFilter.manual TagSource.agent = false
accepts SourceFilter.agent TagSource.manual = false
accepts SourceFilter.agent TagSource.agent = true
accepts SourceFilter.any_source _ = true

unfoldable pub filter_is_host_controlled : SourceFilter → Bool
filter_is_host_controlled SourceFilter.manual = false
filter_is_host_controlled SourceFilter.agent = true
filter_is_host_controlled SourceFilter.any_source = true

pub record TagValue : Type 0 where
  pub value : Text
  pub source : TagSource

abbrev pub HostTags : Type 0
HostTags = List (Text × List TagValue)

abbrev pub flattened : Option (List TagValue) → List TagValue
flattened none = []
flattened (some vs) = vs

-- `tags.get(key).into_iter().flatten()`
unfoldable pub values_under : Text → HostTags → List TagValue
values_under key tags = flattened (Dict.get key tags)

-- The values stored under a key that the filter is willing to look at.
unfoldable pub matching : HostTags → Text → SourceFilter → List TagValue
unfolding values_under accepts
matching tags key source = keep (λ t. accepts source t.source) (values_under key tags)

-- A stored source is read as an operator's only if it says so; what is written reads back.
pub from_db_safe :
    (s : Text) (source : TagSource)
    → (from_db (as_str source) ≡ source)
      × (from_db s ≡ TagSource.manual → s ≡ as_str TagSource.manual)
unfolding from_db as_str
from_db_safe s TagSource.manual = (
  ground (arith, text_eq_iff (codes "manual") (codes "manual")),
  λ h. ground (arith, text_eq_iff s (codes "manual")),
)
from_db_safe s TagSource.agent = (
  ground (arith, text_eq_iff (codes "agent") (codes "manual")),
  λ h. ground (arith, text_eq_iff s (codes "manual")),
)
