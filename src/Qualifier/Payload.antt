-- ===== src/Qualifier/Payload.antt =====
-- `_extract_json_payload`: the JSON object in an answer that may stand in a fence or in prose.
pub mod Widest
use lead_finder.Prelude.{
  ℕ, zero, suc, ◌+◌, ◌-◌, Bool, true, false, ◌&&◌, ◌||◌, Option, none, some, List, [], ◌∷◌, ◌++◌,
  ◌==◌, reverse, if◌then◌else◌, take, drop, length, ltb, leb,
}
use lead_finder.Prelude.Text.{Text, text, strip, starts_with, cons_head}
use lead_finder.Qualifier.Recovery.{slice, find}

-- The characters at which `splitlines()` breaks a line.
unfoldable pub is_line_break : ℕ → Bool
is_line_break c =
    (leb 10 c && leb c 13) || (leb 28 c && leb c 30) || c == 0x85 || c == 0x2028 || c == 0x2029

-- "\r\n" is one break.
unfoldable pub unify_crlf : Text → Text
unify_crlf [] = []
unify_crlf (c ∷ s) =
    let rest = unify_crlf s in if c == 13 && starts_with (10 ∷ []) s then rest else c ∷ rest

unfoldable pub lines_of : Text → List Text
lines_of [] = []
lines_of (c ∷ s) = let rest = lines_of s in if is_line_break c then [] ∷ rest else cons_head c rest

unfoldable pub splitlines : Text → List Text
splitlines s = lines_of (unify_crlf s)

-- `sep.join(pieces)`
unfoldable pub join : Text → List Text → Text
join sep [] = []
join sep (w ∷ []) = w
join sep (w ∷ v ∷ ws) = w ++ (sep ++ join sep (v ∷ ws))

unfoldable pub ends_with : Text → Text → Bool
ends_with p s = starts_with (reverse p) (reverse s)

-- `s.rfind(c)` for one character; `none` is -1.
unfoldable pub rfind : ℕ → Text → Option ℕ
rfind c [] = none
rfind c (x ∷ s) = elim (rfind c s) [
  | some i ↦ some (suc i)
  | none ↦ if x == c then some 0 else none
]

abbrev pub fence : Text
fence = text "```"

-- `lines[1:]`, where there are two lines or more.
abbrev pub without_first : Text → List Text → Text
without_first s (w ∷ v ∷ ws) = join (text "\n") (v ∷ ws)
without_first s _ = s

abbrev pub without_end : Text → Text
without_end s = if ends_with fence s then take (length s - 3) s else s

-- The text without its Markdown fence.
unfoldable pub unfence : Text → Text
unfence s = if starts_with fence s then strip (without_end (without_first s (splitlines s))) else s

-- `re.search(r"\{[\s\S]*\}", s)`: from the first brace that has a closing one behind it, to the
-- last closing one.
unfoldable pub search_braces : Text → Option Text
search_braces [] = none
search_braces (c ∷ s) =
    let rest = search_braces s in
    if c == b'{'
    then elim (rfind b'}' s) [ some i ↦ some (c ∷ take (suc i) s) | none ↦ rest ]
    else rest

-- The match, or the text where there is none.
unfoldable pub or_search : Text → Text
or_search s = elim (search_braces s) [ none ↦ s | some found ↦ found ]

abbrev pub cut_braces : Text → Option ℕ → Option ℕ → Text
cut_braces s (some start) (some end) =
    if ltb start end then slice start (end + 1) s else or_search s
cut_braces s _ _ = or_search s

unfoldable pub extract_json_payload : Text → Text
extract_json_payload raw =
    let s = unfence (strip raw) in cut_braces s (find (text "{") s) (rfind b'}' s)
