-- ===== src/Qualifier/Recovery/Object.antt =====
-- A scan inside an object: complete strings and nested objects leave its state as it was.
use mathlib.Core.List.{append_assoc, append-nil}
use lead_finder.Prelude.{
  ℕ, suc, ◌+◌, ◌≡◌, refl, ◌∙◌, ap, true, false, Option, some, List, [], ◌∷◌, ◌++◌, arith, length,
  length-append,
}
use lead_finder.Prelude.Text.{Text}
use lead_finder.Json.{Json, Fields}
use lead_finder.Qualifier.Recovery.{Scan, scan, scan_char, string_char, plain_char, close_brace}
use lead_finder.Qualifier.Recovery.Syntax.{
  Quoted, Body, Open, Cut, end, plain, quoted, nested, in_string, deeper, is_char, is_plain,
  IsQuoted, IsBody, IsOpen, IsCut, quoted_text, body_text, open_text, cut_text,
}

-- Inside an object, at depth `d + 1`.
abbrev pub inside : List Fields → ℕ → ℕ → Scan
inside leads d start = record {
  leads = leads;
  depth = suc d;
  obj_start = some start;
  in_string = false;
  escaped = false;
}

-- Inside a string of that object.
abbrev pub inside_string : List Fields → ℕ → ℕ → Scan
inside_string leads d start = record (inside leads d start) { in_string = true }

module _ (loads : Text → Option Json) (whole : Text) where
  pub scan-step :
      (i c : ℕ) (rest : Text) (s s' : Scan)
      → scan_char loads whole i c s ≡ some s'
      → scan loads whole i (c ∷ rest) s ≡ scan loads whole (suc i) rest s'
  unfolding scan
  scan-step i c rest s s' h = rw (h, scan) refl

  pub at_index :
      (i j : ℕ) (rest : Text) (s : Scan)
      → i ≡ j
      → scan loads whole i rest s ≡ scan loads whole j rest s
  at_index i j rest s e = ap (λ (k : ℕ). scan loads whole k rest s) e

  -- One character inside a string of the object.
  module _ (i c : ℕ) (rest : Text) (leads : List Fields) (d start : ℕ) where
    step_char :
        is_char c ≡ true
        → scan loads whole i (c ∷ rest) (inside_string leads d start)
          ≡ scan loads whole (suc i) rest (inside_string leads d start)
    unfolding scan_char string_char
    step_char h =
        scan-step i c rest (inside_string leads d start) (inside_string leads d start)
          (ground arith)

    step_escape :
        scan loads whole i (b'\\' ∷ c ∷ rest) (inside_string leads d start)
        ≡ scan loads whole (suc (suc i)) rest (inside_string leads d start)
    unfolding scan_char string_char scan
    step_escape = refl

    step_plain :
        is_plain c ≡ true
        → scan loads whole i (c ∷ rest) (inside leads d start)
          ≡ scan loads whole (suc i) rest (inside leads d start)
    unfolding scan_char plain_char
    step_plain h = scan-step i c rest (inside leads d start) (inside leads d start) (ground arith)

  -- The characters with a meaning.
  module _ (i : ℕ) (rest : Text) (leads : List Fields) (d start : ℕ) where
    step_close_quote :
        scan loads whole i (b'"' ∷ rest) (inside_string leads d start)
        ≡ scan loads whole (suc i) rest (inside leads d start)
    unfolding scan_char string_char scan
    step_close_quote = refl

    step_open_quote :
        scan loads whole i (b'"' ∷ rest) (inside leads d start)
        ≡ scan loads whole (suc i) rest (inside_string leads d start)
    unfolding scan_char plain_char scan
    step_open_quote = refl

    step_open_brace :
        scan loads whole i (b'{' ∷ rest) (inside leads d start)
        ≡ scan loads whole (suc i) rest (inside leads (suc d) start)
    unfolding scan_char plain_char
    step_open_brace =
        scan-step i b'{' rest (inside leads d start) (inside leads (suc d) start) (ground arith)

    step_close_brace :
        scan loads whole i (b'}' ∷ rest) (inside leads (suc d) start)
        ≡ scan loads whole (suc i) rest (inside leads d start)
    unfolding scan_char plain_char close_brace scan
    step_close_brace = refl

  scan-quoted :
      (q : Quoted) (i : ℕ) (rest : Text) (leads : List Fields) (d start : ℕ)
      → IsQuoted q
      → scan loads whole i (quoted_text q ++ rest) (inside_string leads d start)
        ≡ scan loads whole (i + length (quoted_text q)) rest (inside leads d start)
  scan-quoted Quoted.close i rest leads d start h =
      step_close_quote i rest leads d start
      ∙ at_index (suc i) (i + 1) rest (inside leads d start) (omega arith)
  scan-quoted (Quoted.char c q) i rest leads d start h =
      step_char i c (quoted_text q ++ rest) leads d start h.0
      ∙ scan-quoted q (suc i) rest leads d start h.1
      ∙ at_index (suc i + length (quoted_text q)) (i + suc (length (quoted_text q))) rest
          (inside leads d start) (omega arith)
  scan-quoted (Quoted.escape c q) i rest leads d start h =
      step_escape i c (quoted_text q ++ rest) leads d start
      ∙ scan-quoted q (suc (suc i)) rest leads d start h
      ∙ at_index (suc (suc i) + length (quoted_text q)) (i + suc (suc (length (quoted_text q))))
          rest (inside leads d start) (omega arith)

  -- The insides of an object leave the scan in the object, with the state that it had.
  pub scan-body :
      (b : Body) (i : ℕ) (rest : Text) (leads : List Fields) (d start : ℕ)
      → IsBody b
      → scan loads whole i (body_text b ++ rest) (inside leads d start)
        ≡ scan loads whole (i + length (body_text b)) rest (inside leads d start)
  scan-body end i rest leads d start h =
      at_index i (i + 0) rest (inside leads d start) (omega arith)
  scan-body (plain c b) i rest leads d start h =
      step_plain i c (body_text b ++ rest) leads d start h.0
      ∙ scan-body b (suc i) rest leads d start h.1
      ∙ at_index (suc i + length (body_text b)) (i + suc (length (body_text b))) rest
          (inside leads d start) (omega arith)
  scan-body (quoted q b) i rest leads d start h =
      let j = suc i + length (quoted_text q) in
      step_open_quote i ((quoted_text q ++ body_text b) ++ rest) leads d start
      ∙ rw append_assoc (
          scan-quoted q (suc i) (body_text b ++ rest) leads d start h.0
          ∙ scan-body b j rest leads d start h.1
          ∙ at_index (j + length (body_text b)) (i + suc (length (quoted_text q ++ body_text b)))
              rest (inside leads d start)
              (omega (arith, length-append (quoted_text q) (body_text b))))
  scan-body (nested b c) i rest leads d start h =
      let j = suc i + length (body_text b) in
      step_open_brace i ((body_text b ++ b'}' ∷ body_text c) ++ rest) leads d start
      ∙ rw append_assoc (
          scan-body b (suc i) (b'}' ∷ (body_text c ++ rest)) leads (suc d) start h.0
          ∙ step_close_brace j (body_text c ++ rest) leads d start
          ∙ scan-body c (suc j) rest leads d start h.1
          ∙ at_index (suc j + length (body_text c))
              (i + suc (length (body_text b ++ b'}' ∷ body_text c))) rest (inside leads d start)
              (omega (arith, length-append (body_text b) (b'}' ∷ body_text c))))

  -- A string that is cut adds no lead.
  leads-open :
      (o : Open) (i : ℕ) (leads : List Fields) (d start : ℕ)
      → IsOpen o
      → (scan loads whole i (open_text o) (inside_string leads d start)).leads ≡ leads
  leads-open Open.stop i leads d start h = unfold scan in refl
  leads-open Open.slash i leads d start h = unfold scan scan_char string_char in refl
  leads-open (Open.char c o) i leads d start h =
      ap (λ (s : Scan). s.leads) (step_char i c (open_text o) leads d start h.0)
      ∙ leads-open o (suc i) leads d start h.1
  leads-open (Open.escape c o) i leads d start h =
      ap (λ (s : Scan). s.leads) (step_escape i c (open_text o) leads d start)
      ∙ leads-open o (suc (suc i)) leads d start h

  -- An object that is cut adds no lead.
  pub leads-cut :
      (c : Cut) (i : ℕ) (leads : List Fields) (d start : ℕ)
      → IsCut c
      → (scan loads whole i (cut_text c) (inside leads d start)).leads ≡ leads
  leads-cut (Cut.stop b) i leads d start h =
      rw (← append-nil (body_text b))
        (ap (λ (s : Scan). s.leads) (scan-body b i [] leads d start h) ∙ unfold scan in refl)
  leads-cut (in_string b o) i leads d start h =
      let j = i + length (body_text b) in
      ap (λ (s : Scan). s.leads)
        (scan-body b i (b'"' ∷ open_text o) leads d start h.0
          ∙ step_open_quote j (open_text o) leads d start)
      ∙ leads-open o (suc j) leads d start h.1
  leads-cut (deeper b c) i leads d start h =
      let j = i + length (body_text b) in
      ap (λ (s : Scan). s.leads)
        (scan-body b i (b'{' ∷ cut_text c) leads d start h.0
          ∙ step_open_brace j (cut_text c) leads d start)
      ∙ leads-cut c (suc j) leads (suc d) start h.1
