-- ===== src/Language/Runner/Total.antt =====
-- Reading a source text: enough fuel for the lexer and the parser.
use qbit_nova_c.Base.{◌≢◌, ◌≡◌, ◌⊎◌, inl, inr, refl, List, Text}
use qbit_nova_c.Language.Ast.{Ast}
use qbit_nova_c.Language.Lexer.{Token, Tokenized, tokens, overflow, tokenize}
use qbit_nova_c.Language.Lexer.Total.{tokenize-ends}
use qbit_nova_c.Language.Parser.{Parsed, parsed, past_end, parse}
use qbit_nova_c.Language.Parser.Total.{parse-ends}

tokens-or-overflow :
    (t : Tokenized)
    → t ≢ Tokenized.out_of_fuel
    → ((toks : List Token) × (t ≡ tokens toks)) ⊎ (t ≡ overflow)
tokens-or-overflow (tokens toks) h = inl (toks, refl)
tokens-or-overflow overflow h = inr refl
tokens-or-overflow Tokenized.out_of_fuel h = absurd (h refl)

tree-or-past_end :
    (p : Parsed)
    → p ≢ Parsed.out_of_fuel
    → ((tree : Ast) × (rest : List Token) × (p ≡ parsed tree rest)) ⊎ (p ≡ past_end)
tree-or-past_end (parsed tree rest) h = inl (tree, rest, refl)
tree-or-past_end past_end h = inr refl
tree-or-past_end Parsed.out_of_fuel h = absurd (h refl)

-- The fuel is enough on every input, up to the first access outside an array: the lexer, in at most
-- one round more than the text has characters, returns its tokens or is about to write behind a buffer
-- or the array of tokens; the parser, in at most one call more than there are tokens, returns a tree
-- or is about to read behind the last token.
pub tokenize-parse-end :
    (src : Text) (toks : List Token)
    → (((ts : List Token) × (tokenize src ≡ tokens ts)) ⊎ (tokenize src ≡ overflow))
      × (((tree : Ast) × (rest : List Token) × (parse toks ≡ parsed tree rest))
          ⊎ (parse toks ≡ past_end))
tokenize-parse-end src toks = (
  tokens-or-overflow (tokenize src) (tokenize-ends src),
  tree-or-past_end (parse toks) (parse-ends toks),
)
