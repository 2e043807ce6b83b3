-- ===== src/Token/Keywords.antt =====
-- The table of keywords against the table of names.
use barista_script.Common.{◌≡◌, refl, Bool, true, false, if◌then◌else◌, text_eq}
use barista_script.Token.Types.{TokenType}
use barista_script.Token.Index.{index}
use barista_script.Token.Names.{get_name}
use barista_script.Token.Laws.{is_keyword}
use barista_script.Token.Words.{
  keyword_word, potential_identifier, keyword_or_literal, find_keyword, in_group,
}

name_checked :
    (t : TokenType) (p : Bool)
    → (if is_keyword t then potential_identifier true false p (get_name t) else keyword_word t)
      ≡ keyword_word t
unfolding potential_identifier keyword_or_literal find_keyword in_group get_name index text_eq
name_checked TokenType.empty p = refl
name_checked _ p = refl

-- The name that a keyword's token type prints as, written in a source without a `!` behind it, is
-- read as that keyword, wherever it stands.
pub potential_identifier-get_name :
    (t : TokenType) (p : Bool)
    → is_keyword t ≡ true
    → potential_identifier true false p (get_name t) ≡ keyword_word t
potential_identifier-get_name t p h = rw (h) at (name_checked t p)
