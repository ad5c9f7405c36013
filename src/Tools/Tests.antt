-- ===== src/Tools/Tests.antt =====
-- Tool calls as they stand in a response.
use cognitiveosd.Prelude.{◌≡◌, refl, none, some, [], ◌∷◌}
use cognitiveosd.Prelude.Dict.{insert}
use cognitiveosd.Prelude.Text.{split, split_first, trim_space, has_suffix}
use cognitiveosd.Json.{str}
use cognitiveosd.Tools.{parse_tool_calls, trim_quotes}

parse_tests :
    (parse_tool_calls "hi\n @@fs.read(path=\"/a b\", n = 2)@@ \nbye"
      ≡ some (
          record { tool = "fs.read"; arguments = ("path", str "/a b") ∷ ("n", str "2") ∷ [] } ∷ []))
    × (parse_tool_calls "@@now()@@" ≡ some (record { tool = "now"; arguments = [] } ∷ []))
    × (parse_tool_calls "@@now@@" ≡ some [])
    × (parse_tool_calls "@@" ≡ none)
    × (parse_tool_calls "a\n@@@" ≡ none)
    × (parse_tool_calls "@@now(@@" ≡ none)
unfolding parse_tool_calls split split_first trim_space has_suffix trim_quotes insert
parse_tests = (refl, refl, refl, refl, refl, refl)
