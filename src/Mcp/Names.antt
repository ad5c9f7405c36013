-- ===== src/Mcp/Names.antt =====
-- internal/daemon/mcp_lifecycle.go: what a tool's name says.
use cognitiveosd.Prelude.{String, Bool, true, List, [], ◌∷◌, ◌≡◌, refl, ltb, length, if◌then◌else◌}
use cognitiveosd.Prelude.Text.{has_prefix, split}

-- `isToolValidated`: the one validated namespace.
unfoldable pub is_tool_validated : String → Bool
is_tool_validated tool = has_prefix tool "cognitiveos.package"

abbrev last_part : String → List String → String
last_part s [] = s
last_part s (t ∷ ts) = last_part t ts

abbrev action_of : List String → String
action_of [] = ""
action_of (p ∷ ps) = if ltb (length ps) 2 then "" else last_part p ps

-- `operationFromTool`: each case of its switch returns the action itself, and so does its default.
unfoldable pub operation_from_tool : String → String
operation_from_tool tool = action_of (split b'.' tool)

names_tests :
    (operation_from_tool "cognitiveos.package.install" ≡ "install")
    × (operation_from_tool "package.install" ≡ "")
    × (is_tool_validated "cognitiveos.packager.x" ≡ true)
unfolding operation_from_tool is_tool_validated split
names_tests = (refl, refl, refl)
