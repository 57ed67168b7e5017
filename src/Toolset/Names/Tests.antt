-- ===== src/Toolset/Names/Tests.antt =====
-- The theorems on names at concrete names.
use tmcp.Base.{◌≢◌, some, nat_eq, text, text_eq, ok}
use tmcp.Toolset.Names.{
  split_tool_name, qualified_name, validate_group_path, split_dots, validate_segments, rsplit_once,
  validate_group_segment,
}

runs : Unit {0}
unfolding split_tool_name qualified_name validate_group_path split_dots validate_segments
    rsplit_once validate_group_segment
runs = tt

rejects : split_tool_name (text "net..get") ≢ ok (some (text "net."), text "get")
unfolding runs
rejects e = cc
