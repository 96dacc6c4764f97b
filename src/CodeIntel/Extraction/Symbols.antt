-- ===== src/CodeIntel/Extraction/Symbols.antt =====
-- extraction/semantic_extractor.py (packages/infra-codeintel): `extract_symbols`, and the texts that it
-- takes from a definition.
use praecepta.Prelude.{
  ℕ, ◌+◌, ◌-◌, String, Bool, true, false, ◌&&◌, ◌||◌, List, [], ◌∷◌, ◌++◌, Option, none, some,
  str_eq, if◌then◌else◌, ◌==◌,
}
use Prim.Native.Char.{Char, code}
use praecepta.Text.{truthy, append, starts_with, strip, len, take, drop}
use praecepta.CodeIntel.{Tag, SymbolSignature}
use praecepta.CodeIntel.Structural.{definitions}
use praecepta.CodeIntel.Extraction.{
  Cst, Csts, leaf, branch, type_of, text_of, start_of, end_of, children_of, is_function, is_class,
  Place, search, get_definition_node, definition_ancestors, get_parent_class, get_decorators,
  or_else,
}

-- `sep.join(parts)`
unfoldable pub join : (sep : String) → List String → String
join sep [] = ""
join sep (p ∷ []) = p
join sep (p ∷ q ∷ ps) = append p (append sep (join sep (q ∷ ps)))

-- `s.replace(" " + mark, mark)`: `space` says that a blank was read and not yet written.
unfoldable pub close_up : (mark : ℕ) → (space : Option Char) → String → String
close_up mark none String.[] = ""
close_up mark (some b) String.[] = String.◌∷◌ b String.[]
close_up mark none (String.◌∷◌ c s) =
    if code c == b' ' then close_up mark (some c) s else String.◌∷◌ c (close_up mark none s)
close_up mark (some b) (String.◌∷◌ c s) =
    if code c == b' '
    then String.◌∷◌ b (close_up mark (some c) s)
    else if code c == mark
    then String.◌∷◌ c (close_up mark none s)
    else String.◌∷◌ b (String.◌∷◌ c (close_up mark none s))

-- the texts of the children before the body
unfoldable pub head_parts : (stops : String → Bool) → Csts → List String
head_parts stops leaf = []
head_parts stops (branch c cs) =
    let rest = head_parts stops cs in if stops (type_of c) then [] else text_of c ∷ rest

unfoldable pub signature_text : List String → String
signature_text parts = close_up b':' none (close_up b')' none (close_up b'(' none (join " " parts)))

-- `_extract_signature`
unfoldable pub extract_signature : Cst → String
extract_signature n =
    if is_function n
    then signature_text (head_parts (λ t. str_eq t "block") (children_of n))
    else if is_class n
    then signature_text (head_parts (λ t. str_eq t "block" || str_eq t "body") (children_of n))
    else ""

-- `raw.endswith(quote)`
unfoldable pub ends_with : String → String → Bool
ends_with s q = str_eq (drop (len s - len q) s) q

abbrev pub quoted_by : String → String → Bool
quoted_by q raw = starts_with raw q && ends_with raw q

-- `raw[n:-n].strip()`
abbrev pub inside : ℕ → String → String
inside n raw = strip (drop n (take (len raw - n) raw))

-- `_strip_string_quotes`
unfoldable pub strip_string_quotes : String → String
strip_string_quotes raw =
    if quoted_by "\"\"\"" raw || quoted_by "'''" raw
    then inside 3 raw
    else if quoted_by "\"" raw || quoted_by "'" raw
    then inside 1 raw
    else strip raw

-- `text.split("\n")`
unfoldable pub lines_from : (line : String) → String → List String
lines_from line String.[] = line ∷ []
lines_from line (String.◌∷◌ c s) =
    if code c == b'\n'
    then line ∷ lines_from "" s
    else lines_from (append line (String.◌∷◌ c String.[])) s

-- the loop of `_first_paragraph`, over the lines stripped
unfoldable pub paragraph : (lines : List String) → List String → List String
paragraph lines [] = lines
paragraph lines (s ∷ rest) = elim (truthy s) [
  | true ↦ paragraph (lines ++ s ∷ []) rest
  | false ↦ elim lines [ [] ↦ paragraph [] rest | l ∷ ls ↦ l ∷ ls ]
]

unfoldable pub stripped : List String → List String
stripped [] = []
stripped (l ∷ ls) = strip l ∷ stripped ls

unfoldable pub first_paragraph : String → String
first_paragraph text = join " " (paragraph [] (stripped (lines_from "" text)))

-- a string among the children of an expression statement
unfoldable pub string_in : Csts → Option String
string_in leaf = none
string_in (branch c cs) =
    if str_eq (type_of c) "string" then some (strip_string_quotes (text_of c)) else string_in cs

-- the statements of a block, up to the first that is no comment
unfoldable pub docstring_in : Csts → Option String
docstring_in leaf = none
docstring_in (branch c cs) =
    let rest = docstring_in cs in
    if str_eq (type_of c) "string"
    then some (strip_string_quotes (text_of c))
    else if str_eq (type_of c) "expression_statement"
    then string_in (children_of c)
    else if str_eq (type_of c) "comment" || str_eq (type_of c) "newline"
    then rest
    else none

-- `_extract_docstring`, over the children of the definition
unfoldable pub extract_docstring : Csts → Option String
extract_docstring leaf = none
extract_docstring (branch c cs) =
    or_else (if str_eq (type_of c) "block" then docstring_in (children_of c) else none)
      (extract_docstring cs)

-- `if parent_class`, `if docstring`: a text that is not empty
abbrev pub present : Option String → Option String
present none = none
present (some s) = if truthy s then some s else none

abbrev pub listed : Option String → List String
listed none = []
listed (some s) = s ∷ []

unfoldable pub embed_parts :
    (parent_class : Option String)
    → (decorators : List String) → (signature : String) → (docstring : Option String) → List String
embed_parts parent_class decorators signature docstring =
    listed (elim (present parent_class) [ none ↦ none | some p ↦ some (append "# Member of " p) ])
    ++ (decorators
        ++ (listed (present (some signature))
            ++ listed
                (elim (present docstring) [ none ↦ none | some d ↦ some (first_paragraph d) ])))

-- `_NODE_KIND_MAP`, then `"method"` for a function in a class
unfoldable pub kind_of : Cst → (parent_class : Option String) → Option String
kind_of n parent_class =
    if is_function n
    then elim (present parent_class) [ none ↦ some "function" | some p ↦ some "method" ]
    else if is_class n
    then some "class"
    else none

unfoldable pub qualify : (module_name name : String) → (parent_class : Option String) → String
qualify module_name name none = append module_name (append "." name)
qualify module_name name (some p) = append module_name (append "." (append p (append "." name)))

-- `module_name` is `file_path.stem`, `now` the time, and `estimate` the encoder of tiktoken.
module _ (file_path module_name detected_language : String) (now : ℕ) (estimate : String → ℕ) where
  -- the body of the loop, at the node that was found
  unfoldable pub symbol_at :
      Tag → Cst → (parent_class : Option String) → (kind : String) → (outer : Cst) → SymbolSignature
  symbol_at tag def_node parent_class kind outer =
      let signature = extract_signature def_node in
      let docstring = extract_docstring (children_of def_node) in
      let embedding_text =
        join "\n" (embed_parts parent_class (get_decorators outer) signature docstring) in
      record {
        qualified_name = qualify module_name tag.name (present parent_class);
        name = tag.name;
        kind = kind;
        language = detected_language;
        file_path = file_path;
        start_line = start_of outer + 1;
        end_line = end_of outer + 1;
        signature = signature;
        docstring = docstring;
        parent_symbol = parent_class;
        embedding_text = embedding_text;
        token_count_estimate = if truthy embedding_text then estimate embedding_text else 1;
        last_modified = now;
      }

  unfoldable pub symbol_of_kind :
      Tag
      → Cst
      → (parent_class : Option String) → (kind : Option String) → (outer : Cst)
      → List SymbolSignature
  symbol_of_kind tag def_node parent_class none outer = []
  symbol_of_kind tag def_node parent_class (some kind) outer =
      symbol_at tag def_node parent_class kind outer ∷ []

  unfoldable pub symbol_of : Tag → Option Place → List SymbolSignature
  symbol_of tag none = []
  symbol_of tag (some (outer, ancestors)) =
      let def_node = get_definition_node outer in
      let parent_class = get_parent_class (definition_ancestors (outer, ancestors)) in
      symbol_of_kind tag def_node parent_class (kind_of def_node parent_class) outer

  -- the loop over the definition tags
  unfoldable pub symbols_of : (root : Cst) → List Tag → List SymbolSignature
  symbols_of root [] = []
  symbols_of root (tag ∷ tags) =
      symbol_of tag (search tag.name tag.line [] root) ++ symbols_of root tags

  unfoldable pub extract_symbols : List Tag → (root : Option Cst) → List SymbolSignature
  extract_symbols tags none = []
  extract_symbols tags (some root) = symbols_of root (definitions tags)
