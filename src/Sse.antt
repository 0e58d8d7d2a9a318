-- ===== src/Sse.antt =====
-- app/sse: the frames of a live stream, and the generator behind the response.
-- `dumps` stands for `json.dumps` with the compact separators.
pub mod Stream
use lavs_core.Prelude.{ℕ, List, [], ◌∷◌, ◌++◌}
use lavs_core.Text.{Text, codes}
use lavs_core.Events.{
  EventType, version_created, version_rolled_back, release_cut, dependency_added,
  dependency_removed, DomainEvent,
}

-- The values of `EventType`.
unfoldable pub event_name : EventType → Text
event_name version_created = codes "version.created"
event_name version_rolled_back = codes "version.rolled_back"
event_name release_cut = codes "release.cut"
event_name dependency_added = codes "dependency.added"
event_name dependency_removed = codes "dependency.removed"

-- `"\n"`
abbrev pub newline : ℕ
newline = 10

module _ {Body : Type 0} (dumps : Body → Text) where
  unfoldable pub format_sse_frame : DomainEvent Body → Text
  unfolding event_name
  format_sse_frame event =
      codes "event: "
      ++ (event_name event.event_type
          ++ (newline ∷ codes "data: " ++ (dumps event.body ++ newline ∷ newline ∷ [])))

unfoldable pub keep_alive_frame : Text
keep_alive_frame = codes ": keep-alive" ++ newline ∷ newline ∷ []
