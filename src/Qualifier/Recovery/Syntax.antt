-- ===== src/Qualifier/Recovery/Syntax.antt =====
-- The texts that a scan meets: the insides of an object as a tree of strings and nested objects,
-- an array of such objects, and the ways in which such a text may be cut.
use lead_finder.Prelude.{ℕ, Bool, true, not, ◌&&◌, Option, List, [], ◌∷◌, ◌++◌, ◌==◌, ◌≡◌}
use lead_finder.Prelude.Text.{Text}
use lead_finder.Json.{Json, Fields}
use lead_finder.Qualifier.Recovery.{as_lead, add_lead}

-- What follows the opening quote of a string.
pub data Quoted : Type 0 where
  close : Quoted
  char : ℕ → Quoted → Quoted
  escape : ℕ → Quoted → Quoted

pub data Body : Type 0 where
  end : Body
  plain : ℕ → Body → Body
  quoted : Quoted → Body → Body
  nested : Body → Body → Body

-- A string that is cut, possibly after a backslash.
pub data Open : Type 0 where
  stop slash : Open
  char : ℕ → Open → Open
  escape : ℕ → Open → Open

-- The insides of an object that is cut.
pub data Cut : Type 0 where
  stop : Body → Cut
  in_string : Body → Open → Cut
  deeper : Body → Cut → Cut

pub data Elements : Type 0 where
  none : Elements
  space : ℕ → Elements → Elements
  object : Body → Elements → Elements

-- What follows the complete objects.
pub data Tail : Type 0 where
  nothing : Tail
  closed : Text → Tail
  cut : Cut → Tail

abbrev pub is_char : ℕ → Bool
is_char c = not (c == b'"') && not (c == b'\\')

abbrev pub is_plain : ℕ → Bool
is_plain c = not (c == b'"') && not (c == b'{') && not (c == b'}')

abbrev pub IsQuoted : Quoted → Type 0
IsQuoted Quoted.close = Unit
IsQuoted (Quoted.char c q) = (is_char c ≡ true) × IsQuoted q
IsQuoted (Quoted.escape c q) = IsQuoted q

abbrev pub IsBody : Body → Type 0
IsBody end = Unit
IsBody (plain c b) = (is_plain c ≡ true) × IsBody b
IsBody (quoted q b) = IsQuoted q × IsBody b
IsBody (nested b c) = IsBody b × IsBody c

abbrev pub IsOpen : Open → Type 0
IsOpen Open.stop = Unit
IsOpen Open.slash = Unit
IsOpen (Open.char c o) = (is_char c ≡ true) × IsOpen o
IsOpen (Open.escape c o) = IsOpen o

abbrev pub IsCut : Cut → Type 0
IsCut (Cut.stop b) = IsBody b
IsCut (in_string b o) = IsBody b × IsOpen o
IsCut (deeper b c) = IsBody b × IsCut c

abbrev pub IsElements : Elements → Type 0
IsElements Elements.none = Unit
IsElements (space c es) = (is_plain c ≡ true) × (not (c == b']') ≡ true) × IsElements es
IsElements (object b es) = IsBody b × IsElements es

abbrev pub IsTail : Tail → Type 0
IsTail (cut c) = IsCut c
IsTail nothing = Unit
IsTail (closed s) = Unit

abbrev pub quoted_text : Quoted → Text
quoted_text Quoted.close = b'"' ∷ []
quoted_text (Quoted.char c q) = c ∷ quoted_text q
quoted_text (Quoted.escape c q) = b'\\' ∷ c ∷ quoted_text q

abbrev pub body_text : Body → Text
body_text end = []
body_text (plain c b) = c ∷ body_text b
body_text (quoted q b) = b'"' ∷ (quoted_text q ++ body_text b)
body_text (nested b c) = b'{' ∷ (body_text b ++ b'}' ∷ body_text c)

abbrev pub object_text : Body → Text
object_text b = b'{' ∷ (body_text b ++ b'}' ∷ [])

abbrev pub open_text : Open → Text
open_text Open.stop = []
open_text Open.slash = b'\\' ∷ []
open_text (Open.char c o) = c ∷ open_text o
open_text (Open.escape c o) = b'\\' ∷ c ∷ open_text o

abbrev pub cut_text : Cut → Text
cut_text (Cut.stop b) = body_text b
cut_text (in_string b o) = body_text b ++ b'"' ∷ open_text o
cut_text (deeper b c) = body_text b ++ b'{' ∷ cut_text c

abbrev pub elements_text : Elements → Text
elements_text Elements.none = []
elements_text (space c es) = c ∷ elements_text es
elements_text (object b es) = object_text b ++ elements_text es

abbrev pub tail_text : Tail → Text
tail_text nothing = []
tail_text (closed s) = b']' ∷ s
tail_text (cut c) = b'{' ∷ cut_text c

-- The leads among the complete objects, in order, after those in `leads`.
abbrev pub collect : (Text → Option Json) → List Fields → Elements → List Fields
collect loads leads Elements.none = leads
collect loads leads (space c es) = collect loads leads es
collect loads leads (object b es) =
    collect loads (add_lead leads (as_lead (loads (object_text b)))) es
