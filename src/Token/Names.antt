-- ===== src/Token/Names.antt =====
-- src/bs_tokenizer.cpp: `Token::get_name`, and the casts between a token type and its number.
use Prim.Native.Char.{code}
use Prim.Native.String.{String}
use barista_script.Common.{
  ℕ, ◌<◌, ◌≡◌, refl, Option, none, some, [], ◌∷◌, map, get_elem?, arith, Text, ◌⊎◌, inl, inr, ◌≢◌,
}
use barista_script.Token.Types.{TokenType, token_names, tk_max}
use barista_script.Token.Index.{index}

-- The code points of a text.
abbrev pub codes : String → Text
codes String.[] = []
codes (String.◌∷◌ c s) = code c ∷ codes s

-- `(Token::Type)i`, for an `i` that the source has compared with `TK_MAX`
unfoldable pub of_index : ℕ → Option TokenType
of_index i = get_elem? (map (λ row. row.0) token_names) i

-- `Token::get_name`: the table at the number of the type.
unfoldable pub get_name : TokenType → Text
unfolding index
get_name t = elim (get_elem? token_names (index t)) [ none ↦ [] | some row ↦ codes row.1 ]

pub of_index-index : (t : TokenType) → of_index (index t) ≡ some t
unfolding of_index index
of_index-index TokenType.empty = refl
of_index-index _ = refl

pub index-lt : (t : TokenType) → index t < tk_max
unfolding index
index-lt TokenType.empty = omega arith
index-lt _ = omega arith

pub index-eq_zero : (t : TokenType) → (t ≡ TokenType.empty) ⊎ (index t ≢ 0)
unfolding index
index-eq_zero TokenType.empty = inl refl
index-eq_zero _ = inr (omega arith)
