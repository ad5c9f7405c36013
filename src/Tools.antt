-- ===== src/Tools.antt =====
-- internal/daemon/handlers.go: `parseToolCalls`, the calls that the Wide Model writes into its text,
-- one to a line: @@tool(key=value, …)@@. A slice whose bounds are crossed panics.
mod Tests
use Prim.Native.Char.{code}
use cognitiveosd.Prelude.{
  ℕ, String, ◌++◌, ◌≡◌, refl, Bool, true, false, ◌&&◌, Option, none, some, List, [], ◌∷◌, ◌==◌, ltb,
  eqb, if◌then◌else◌,
}
use cognitiveosd.Prelude.Dict.{Dict, insert}
use cognitiveosd.Prelude.Text.{has_prefix, has_suffix, split, split_first, trim_space}
use cognitiveosd.Json.{Json, str}

-- `ToolCall`
pub record ToolCall : Type 0 where
  pub tool : String
  pub arguments : Dict Json

-- `s[:len(s)-1]`; `none` where the bound is negative. A last character of more than one byte is cut,
-- and what is left of it is written to JSON as that many U+FFFD.
abbrev cut_char : ℕ → String
cut_char c =
    if ltb c 0x80 then "" else if ltb c 0x800 then "�" else if ltb c 0x10000 then "��" else "���"

unfoldable pub drop_last : String → Option String
drop_last String.[] = none
drop_last (String.◌∷◌ c String.[]) = some (cut_char (code c))
drop_last (String.◌∷◌ c (String.◌∷◌ d s)) = elim (drop_last (String.◌∷◌ d s)) [
  | none ↦ none
  | some t ↦ some (String.◌∷◌ c t)
]

-- `line[2 : len(line)-2]` of a line that begins and ends with two one-byte characters.
abbrev pub drop_last_two : String → Option String
drop_last_two s = elim (drop_last s) [ none ↦ none | some t ↦ drop_last t ]

unfoldable pub inner_of : String → Option String
unfolding drop_last
inner_of (String.◌∷◌ a (String.◌∷◌ b s)) = drop_last_two s
inner_of _ = none

-- `strings.Trim(s, "\"")`
trim_quotes_left : String → String
trim_quotes_left String.[] = ""
trim_quotes_left (String.◌∷◌ c s) =
    let rest = trim_quotes_left s in if eqb (code c) b'"' then rest else String.◌∷◌ c s

trim_quotes_right : String → String
trim_quotes_right String.[] = ""
trim_quotes_right (String.◌∷◌ c s) =
    let rest = trim_quotes_right s in
    if eqb (code c) b'"' && rest == "" then "" else String.◌∷◌ c rest

unfoldable pub trim_quotes : String → String
unfolding trim_quotes_left trim_quotes_right
trim_quotes s = trim_quotes_left (trim_quotes_right s)

-- One pair, split at its first `=`; a part without one is passed over.
abbrev pub add_split : String × Option String → Dict Json → Dict Json
add_split (k, none) args = args
add_split (k, some v) args = insert (trim_space k) (str (trim_quotes (trim_space v))) args

unfoldable pub add_pair : String → Dict Json → Dict Json
add_pair pair args = add_split (split_first b'=' (trim_space pair)) args

unfoldable pub add_pairs : List String → Dict Json → Dict Json
add_pairs [] args = args
add_pairs (p ∷ ps) args = add_pairs ps (add_pair p args)

unfoldable pub parse_args : String → Dict Json
unfolding add_pairs add_pair
parse_args s = if s == "" then [] else add_pairs (split b',' s) []

-- What a line is: no call, a call, or a panic.
pub data Line : Type 0 where
  plain : Line
  call : ToolCall → Line
  crash : Line

abbrev pub call_of : String → Option String → Line
call_of tool none = crash
call_of tool (some args) = call (record { tool = tool; arguments = parse_args args })

abbrev pub line_of_split : String × Option String → Line
line_of_split (tool, none) = plain
line_of_split (tool, some rest) = call_of tool (drop_last rest)

abbrev pub line_of_inner : Option String → Line
line_of_inner none = crash
line_of_inner (some inner) = line_of_split (split_first b'(' inner)

unfoldable pub parse_line : String → Line
unfolding inner_of parse_args
parse_line raw =
    let line = trim_space raw in
    if has_prefix line "@@" && has_suffix line "@@" then line_of_inner (inner_of line) else plain

abbrev pub add_line : Line → Option (List ToolCall) → Option (List ToolCall)
add_line crash rest = none
add_line plain rest = rest
add_line (call c) none = none
add_line (call c) (some cs) = some (c ∷ cs)

unfoldable pub parse_lines : List String → Option (List ToolCall)
unfolding parse_line
parse_lines [] = some []
parse_lines (l ∷ ls) = add_line (parse_line l) (parse_lines ls)

-- `parseToolCalls`; `none` is a panic.
unfoldable pub parse_tool_calls : String → Option (List ToolCall)
unfolding parse_lines
parse_tool_calls response = parse_lines (split b'\n' response)
